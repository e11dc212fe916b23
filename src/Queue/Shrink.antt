-- ===== src/Queue/Shrink.antt =====
-- A cap that was lowered below the slots in use drains: nothing is handed over or admitted.
use infercat.Common.{ℤ, pos, ◌-ℤ◌, ◌<ℤ◌, -ℤ_parts, ◌≡◌, ap, ◌≢◌, [], arith}
use infercat.Queue.{SlotQueue, Filled, admitted, limit, enter, release}
use infercat.Queue.Cases.{first_fill, enter_cases}
use infercat.Queue.Fill.{fill_loop_full}

module _ (cap : ℤ) (q : SlotQueue) (past : pos (limit cap) <ℤ q.in_flight) where
  still : first_fill cap q ≡ record { slots = q.in_flight; handed = []; rest = q.waiters }
  still = fill_loop_full (limit cap) q.in_flight q.waiters (omega arith)

  -- While more slots are in use than the cap allows, an arrival has nobody served and is not
  -- admitted.
  pub enter_past_cap : ((enter cap q).handed ≡ []) × ((enter cap q).result ≢ admitted)
  enter_past_cap =
      enter_cases cap q (λ e. (e.handed ≡ []) × (e.result ≢ admitted))
        (λ h. absurd (ground (arith, still, h))) (λ _ _. (ap Filled.handed still, λ e. cc))
        (λ _ _. (ap Filled.handed still, λ e. cc))

  -- While more slots are in use than the cap allows, a release only lowers the counter: no waiter
  -- is served, and the line stays as it is.
  pub release_past_cap :
      release cap q
      ≡ record { queue = record q { in_flight = q.in_flight -ℤ pos 1 }; handed = []; result = tt }
  unfolding release
  release_past_cap = rw (
      fill_loop_full (limit cap) (q.in_flight -ℤ pos 1) q.waiters
        (omega (arith, -ℤ_parts q.in_flight (pos 1))))
