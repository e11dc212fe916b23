-- ===== src/Queue.antt =====
-- internal/gateway/queue.go: the slot queue in front of one destination's engine.
-- A channel is the number of the waiter that made it. An operation returns the new queue, the
-- channels that it closes in order, and its result; `cap` is read at each operation.
pub mod Cases
pub mod Fill
pub mod Shrink
pub mod Waiting
pub mod System
use infercat.Common.{
  ℕ, suc, ◌*◌, ℤ, pos, ◌+ℤ◌, ◌-ℤ◌, max_ℤ, ltb_ℤ, pos_part, Bool, true, false, Option, none, some,
  List, [], ◌∷◌, ◌++◌, if◌then◌else◌, leb, ◌==◌, length, max,
}
use infercat.Errors.{GwError, errf, Code}
use infercat.Outcome.{Outcome}

pub record SlotQueue : Type 0 where
  pub in_flight : ℤ
  pub waiters : List ℕ  -- FIFO
  pub next : ℕ  -- the next channel that `make` gives

-- `max(1, s.cap())` is never below one, so it is read as a number.
abbrev pub limit : ℤ → ℕ
limit cap = pos_part (max_ℤ (pos 1) cap)

pub record Filled : Type 0 where
  pub slots : ℤ
  pub handed : List ℕ
  pub rest : List ℕ

unfoldable pub fill_loop : ℕ → ℤ → List ℕ → Filled
fill_loop l n [] = record { slots = n; handed = []; rest = [] }
fill_loop l n (w ∷ ws) =
    let r = fill_loop l (n +ℤ pos 1) ws in
    if ltb_ℤ n (pos l)
    then record { slots = r.slots; handed = w ∷ r.handed; rest = r.rest }
    else record { slots = n; handed = []; rest = w ∷ ws }

pub record Effect (A : Type 0) : Type 0 where
  pub queue : SlotQueue
  pub handed : List ℕ
  pub result : A

pub fill : ℕ → SlotQueue → Effect (Unit {0})
fill l q =
    let r = fill_loop l q.in_flight q.waiters in
    record {
      queue = record q { in_flight = r.slots; waiters = r.rest };
      handed = r.handed;
      result = tt;
    }

pub data Entry : Type 0 where
  admitted : Entry
  refused : ℕ → Entry
  queued : ℕ → Entry

-- The first critical section of `acquire`.
pub enter : ℤ → SlotQueue → Effect Entry
unfolding fill
enter cap q =
    let l = limit cap in
    let e = fill l q in
    let f = e.queue in
    if ltb_ℤ f.in_flight (pos l)
    then record {
      queue = record f { in_flight = f.in_flight +ℤ pos 1 };
      handed = e.handed;
      result = admitted;
    }
    else if leb (max 2 (2 * l)) (length f.waiters)
    then record { queue = f; handed = e.handed; result = refused (length f.waiters) }
    else record {
      queue = record f { waiters = f.waiters ++ f.next ∷ []; next = suc f.next };
      handed = e.handed;
      result = queued f.next;
    }

abbrev pub contains : ℕ → List ℕ → Bool
contains w [] = false
contains w (x ∷ xs) = if x == w then true else contains w xs

abbrev pub remove : ℕ → List ℕ → List ℕ
remove w [] = []
remove w (x ∷ xs) = if x == w then xs else x ∷ remove w xs

-- The second critical section of `acquire`, when `wait` returned an error.
pub leave : ℤ → ℕ → SlotQueue → Effect Outcome
unfolding fill
leave cap w q =
    let e = fill (limit cap) (record q { in_flight = q.in_flight -ℤ pos 1 }) in
    if contains w q.waiters
    then record {
      queue = record q { waiters = remove w q.waiters };
      handed = [];
      result = Outcome.queue_lost;
    }
    else record { queue = e.queue; handed = e.handed; result = Outcome.queue_lost }

pub release : ℤ → SlotQueue → Effect (Unit {0})
unfolding fill
release cap q = fill (limit cap) (record q { in_flight = q.in_flight -ℤ pos 1 })

abbrev pub counts : SlotQueue → ℤ × ℕ
counts q = (q.in_flight, length q.waiters)

-- What the `select` of `wait` takes next: the channel was closed (and whether the friend has
-- gone), the timer fired, the friend's context ended, or a tick whose keepalive may fail.
pub data Ready : Type 0 where
  handed_over : Bool → Ready
  timed_out : Ready
  client_gone : Ready
  tick : Bool → Ready

abbrev pub retry_queue_timeout : ℕ
retry_queue_timeout = 5

-- `none` while the loop still waits; then `none` inside is the source's nil error.
pub wait_loop : Bool → List Ready → Option (Option GwError)
wait_loop ticks [] = none
wait_loop ticks (handed_over gone ∷ _) =
    some (if gone then some (errf Code.client_closed 0) else none)
wait_loop ticks (timed_out ∷ _) = some (some (errf Code.queue_timeout retry_queue_timeout))
wait_loop ticks (client_gone ∷ _) = some (some (errf Code.client_closed 0))
wait_loop false (tick failed ∷ rs) = wait_loop false rs
wait_loop true (tick failed ∷ rs) =
    let more = wait_loop true rs in if failed then some (some (errf Code.client_closed 0)) else more

-- `queued` is `none` where the source's callback is nil, else whether its first call failed.
pub wait : Option Bool → List Ready → Option (Option GwError)
unfolding wait_loop
wait none rs = wait_loop false rs
wait (some failed) rs =
    let looped = wait_loop true rs in
    if failed then some (some (errf Code.client_closed 0)) else looped
