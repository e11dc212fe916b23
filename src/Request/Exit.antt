-- ===== src/Request/Exit.antt =====
-- internal/gateway/request.go: how a request ends. `fail` chooses the status and the code, the settle
-- table what it counted and cost, and `finish` gives back what it holds.
use infercat.Common.{
  ℤ, pos, ◌+ℤ◌, Bool, true, false, not, ◌&&◌, ◌||◌, Option, none, some, List, [], ◌∷◌, ◌++◌,
  if◌then◌else◌,
}
use infercat.Errors.{Code, GwError, error_status}
use infercat.Outcome.{Outcome, running, rejected, queue_lost, engine_err, served, cut}
use infercat.Limiter.{Admission}
use infercat.Request.{
  Request, Call, member_released, body_uncounted, slot_released, settled, recorded,
  counts_against_rpm,
}

abbrev is_client_closed : Code → Bool
is_client_closed Code.client_closed = true
is_client_closed _ = false

abbrev is_timeout : Option Code → Bool
is_timeout (some Code.queue_timeout) = true
is_timeout _ = false

-- `fail` of a text request; `gone` is whether the friend's context has ended.
unfoldable pub fail : Bool → GwError → Request → Request
fail gone e q =
    if q.wrote_header
    then record q { code = some e.code }
    else if is_client_closed e.code || (gone && not q.stalled)
    then record q { status = 499; code = some Code.client_closed }
    else record q { status = error_status e; code = some e.code }

reserved_by : Option Admission → ℤ
reserved_by none = pos 0
reserved_by (some a) = a.reserved

-- The `switch` of the settle table, on the outcome.
unfoldable pub settle_outcome : Outcome → Request → Bool × ℤ
unfolding reserved_by
settle_outcome running q = (false, pos 0)
settle_outcome rejected q = (false, pos 0)
settle_outcome queue_lost q = (is_timeout q.code, pos 0)
settle_outcome engine_err q = (true, pos 0)
settle_outcome served q = (true, q.prompt_tokens +ℤ q.completion_tokens)
settle_outcome cut q =
    if q.stream then (true, q.prompt_tokens +ℤ q.completion_tokens) else (true, reserved_by q.adm)

-- `settleRow` of a text request.
unfoldable pub settle_row : Request → Bool × ℤ
unfolding settle_outcome
settle_row q = if counts_against_rpm q.kind then settle_outcome q.outcome q else (false, pos 0)

-- What an audio request counts, and it is charged no tokens: unless the engine was busy, once it was
-- asked, or where a place in the queue was lost to the timeout.
unfoldable pub settle_audio_row : Bool → Bool → Request → Bool × ℤ
settle_audio_row busy dispatched q =
    (not busy && (dispatched || (lost q.outcome && is_timeout q.code)), pos 0)
  where
    lost : Outcome → Bool
    lost queue_lost = true
    lost _ = false

abbrev pub when : Bool → Call → List Call
when true c = c ∷ []
when false c = []

unfoldable pub settlement : Option Admission → Bool × ℤ → List Call
settlement none row = []
settlement (some a) (counted, charged) = settled a counted charged ∷ []

-- `finish`: the calls of the exit, in order; the member is given back last, by a `defer`.
unfoldable pub finish : Request → List Call
unfolding settlement settle_row
finish q =
    when q.slot slot_released
    ++ (settlement q.adm (settle_row q)
        ++ (when q.buffered body_uncounted
            ++ (when (not q.no_event) (recorded q.code) ++ when q.managed member_released)))
