-- ===== src/Queue/System.antt =====
-- The queue with its requests, as interleavings of the critical sections of queue.go: `acquire`
-- enters and leaves under the lock, waits without it, and `finish` of request.go releases.
-- `pending` are the waiters whose channel is closed and whose `wait` has not returned yet;
-- `active` counts the requests that hold a slot.
mod Tests
pub mod Ledger
pub mod Order
pub mod Capacity
pub mod Overtaking
use infercat.Common.{ℕ, suc, ◌-◌, ◌<◌, ℤ, pos, ◌≡◌, ◌⊎◌, true, List, [], ◌++◌, if◌then◌else◌}
use infercat.Queue.{
  SlotQueue, Entry, admitted, refused, queued, enter, leave, release, contains, remove,
}

pub record System : Type 0 where
  pub queue : SlotQueue
  pub open queue use *
  pub pending : List ℕ
  pub active : ℕ

pub empty : System
empty = record {
  queue = record { in_flight = pos 0; waiters = []; next = 0 };
  pending = [];
  active = 0;
}

granted : Entry → ℕ → ℕ
granted admitted n = suc n
granted (refused _) n = n
granted (queued _) n = n

-- A request enters `acquire`.
pub arrive : ℤ → System → System
unfolding granted
arrive cap s =
    let e = enter cap s.queue in
    record { queue = e.queue; pending = s.pending ++ e.handed; active = granted e.result s.active }

-- `wait` of a waiter that was served returns nil.
pub start : ℕ → System → System
start w s = record s { pending = remove w s.pending; active = suc s.active }

-- `wait` returns an error, before or after the channel was closed.
pub give_up : ℤ → ℕ → System → System
give_up cap w s =
    let e = leave cap w s.queue in
    record s {
      queue = e.queue;
      pending = (if contains w s.waiters then s.pending else remove w s.pending) ++ e.handed;
    }

-- A request that holds a slot finishes.
pub finish : ℤ → System → System
finish cap s =
    let e = release cap s.queue in
    record { queue = e.queue; pending = s.pending ++ e.handed; active = s.active - 1 }

-- The cap may be another one at every step.
pub data Step (s : System) : System → Type 0 where
  arrives : (cap : ℤ) → Step s (arrive cap s)
  starts : (w : ℕ) → contains w s.pending ≡ true → Step s (start w s)
  gives_up :
      (cap : ℤ) (w : ℕ)
      → (contains w s.waiters ≡ true) ⊎ (contains w s.pending ≡ true)
      → Step s (give_up cap w s)
  finishes : (cap : ℤ) → 0 < s.active → Step s (finish cap s)

pub data Reach : System → Type 0 where
  idle : Reach empty
  later : {s t : System} → Reach s → Step s t → Reach t
