-- ===== src/Lib.antt =====
-- infercat lets friends use the host's local inference engine through one gateway. This library is
-- about the gateway's own decisions: who may send a request, how much, and when it runs.
--
-- A request of a friend carries the secret of a key. The key store (internal/keys/store.go) finds the
-- key in the file keys.json, which it reads again when the file's stamp changed. The limiter
-- (internal/gateway/limits.go) admits the request under the key's limits (internal/keys/keys.go,
-- budgets.go), reserves the tokens that it may cost at most, and settles it at the end. Between the
-- two the request waits for a slot of the engine (internal/gateway/queue.go).
--
-- Common (with Common/Tests, Lists, Int): the names and lemmas that the parts share.
-- Errors: internal/gateway/errors.go. Outcome: the outcomes of internal/gateway/request.go.
-- Queue: internal/gateway/queue.go. `acquire` is three definitions: `enter` and `leave` are its two
--   critical sections and `wait` is what stands between them; `fill`, `release` and `counts` are
--   the methods of these names. Queue/System has the interleavings of these with the requests.
-- Limits: the records of keys.go and budgets.go and their defaults. Fit: `fitBudget`, `floorFor`.
-- Limiter: `keyState` and the methods of `limiter` on one key: `prune`, `admitResource`, `reserve`,
--   `settle`, `counters`. Limiter/History and Limiter/Ledger have the histories of such calls.
-- Keys: `Key`, `AllowsModel` and `index`. Store: `FileStore`, with reload, lookup and the writes.
--
-- Request: one text request through `serve`, `proxy` and `finish` of internal/gateway/request.go, with
--   the stages in Request/Stages, the settle table in Request/Exit and the whole in Request/Serve.
--   What the store, the limiter, the queue and the engine answer is an argument, and what the
--   request does to them is a list of calls, which Request/Protocol reads.
-- Limiter/Keyring: `limiter`, the states of all keys. Images: the holds, charges and back-off of
--   internal/gateway/images.go.
-- Audio: the reservation and the settlement of a speech (internal/gateway/audio.go).
-- Router: internal/gateway/destination.go; Router/Served says which engine serves a route.
-- Run: internal/run/types.go. Run/Moves: the changes that the manager (manager.go, consumer.go,
--   join.go, maintenance.go) makes to one run through `change`, and what the images' store
--   (images.go: PutImage, DiscardImage, sweepImages) makes of its output; Run/Moves/Life has
--   sequences of them, Run/Moves/Ended and Run/Moves/Cancelled what they leave of a run that has
--   ended or is cancelled, Run/Moves/Attempts and Run/Moves/Accounts the attempts and their cost,
--   and Run/Ending what `change` and `commitFor` add. Run/Store: a key's snapshot and its budget
--   (store.go, retained.go); Run/Store/Commit is `commitFor`, Run/Store/Subscribe is
--   `Subscribe` and `publish`, Run/Store/Load is `load`, Run/Store/Create is `createBatch` and
--   Run/Store/Reserve is `Admit`. Run/Schedule: the order of the queued runs, `schedule` and
--   `acquiredPosition` (manager.go).
-- Invite: internal/invite/invite.go. Usage/Recorder: the queue and the writer of
--   internal/usage/recorder.go.
-- Usage: internal/usage. Usage/Stats has the event, `Stats.add` and `percentile`; Usage/Report has
--   the filter and `Aggregate` over lines that the JSON decoder has read.
--
-- Locks are not modelled: a method that holds its lock throughout is one step. Go's `int` is an
-- integer without bound, except the sequence numbers of admissions and of events, which wrap at 2
-- ^ 64; amounts of a meter, floating-point in the source, are whole, as the tokens, the characters and
-- the images are; the seconds of audio, which need not be, have no result on their limits. A
-- time is a number of nanoseconds since 1970. Every loop is recursion on the list that it walks,
-- so no definition has fuel, but for the turns of the recorder's writer: one more than there are
-- events waiting is enough for it to end. The clock, the file system, random values, the digest of
-- a secret, the trimming of a name, what the JSON decoder reads, what the JSON
-- encoder prints of an image's output, and the number of bytes that it writes for a snapshot are
-- arguments.
--
-- Not modelled: HTTP, JSON, the routes of audio and images, the engines, the workers of runs, the
-- tunnel, the command line and the consoles.
pub mod Audio
pub mod Common
pub mod Errors
pub mod Fit
pub mod Images
pub mod Invite
pub mod Keys
pub mod Limiter
pub mod Limits
pub mod Outcome
pub mod Queue
pub mod Request
pub mod Router
pub mod Run
pub mod Store
pub mod Usage
