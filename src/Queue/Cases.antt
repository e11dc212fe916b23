-- ===== src/Queue/Cases.antt =====
-- Case rules for the two critical sections of `acquire`: a property of their effect holds if it
-- holds on each branch.
use infercat.Common.{
  ℕ, suc, ◌*◌, ◌≤◌, ℤ, pos, ◌+ℤ◌, ◌-ℤ◌, ◌≤ℤ◌, ◌<ℤ◌, ltb_ℤ, ◌≡◌, inl, inr, true, false, [], ◌∷◌,
  ◌++◌, leb, max, Bool-cases, length, ltb→lt, ltb→ge, leb→le, leb→gt, ◌<◌,
}
use infercat.Outcome.{Outcome}
use infercat.Queue.{
  SlotQueue, Filled, Effect, Entry, admitted, refused, queued, limit, fill_loop, enter, leave,
  contains, remove,
}

module _ (cap : ℤ) (q : SlotQueue) where
  -- The line after the `fill` at the top of `acquire`.
  abbrev pub first_fill : Filled
  first_fill = fill_loop (limit cap) q.in_flight q.waiters

  pub enter_cases {ℓ} :
      (P : Effect Entry → Type ℓ)
      → (first_fill.slots <ℤ pos (limit cap)
          → P (record {
            queue = record q { in_flight = first_fill.slots +ℤ pos 1; waiters = first_fill.rest };
            handed = first_fill.handed;
            result = admitted;
          }))
      → (pos (limit cap) ≤ℤ first_fill.slots
          → max 2 (2 * limit cap) ≤ length first_fill.rest
          → P (record {
            queue = record q { in_flight = first_fill.slots; waiters = first_fill.rest };
            handed = first_fill.handed;
            result = refused (length first_fill.rest);
          }))
      → (pos (limit cap) ≤ℤ first_fill.slots
          → length first_fill.rest < max 2 (2 * limit cap)
          → P (record {
            queue = record {
              in_flight = first_fill.slots;
              waiters = first_fill.rest ++ q.next ∷ [];
              next = suc q.next;
            };
            handed = first_fill.handed;
            result = queued q.next;
          }))
      → P (enter cap q)
  unfolding enter
  enter_cases P free full room = elim (Bool-cases (ltb_ℤ first_fill.slots (pos (limit cap)))) [
    | inl e ↦ rw (e, enter) (free (ltb→lt _ _ e))
    | inr e ↦ elim (Bool-cases (leb (max 2 (2 * limit cap)) (length first_fill.rest))) [
      | inl f ↦ rw (e, f, enter) (full (ltb→ge _ _ e) (leb→le _ _ f))
      | inr f ↦ rw (e, f, enter) (room (ltb→ge _ _ e) (leb→gt _ _ f))
    ]
  ]

  -- The line after a waiter that was served already gives its slot back.
  abbrev pub refill : Filled
  refill = fill_loop (limit cap) (q.in_flight -ℤ pos 1) q.waiters

  pub leave_cases {ℓ} :
      (w : ℕ) (P : Effect Outcome → Type ℓ)
      → (contains w q.waiters ≡ true
          → P (record {
            queue = record q { waiters = remove w q.waiters };
            handed = [];
            result = Outcome.queue_lost;
          }))
      → (contains w q.waiters ≡ false
          → P (record {
            queue = record q { in_flight = refill.slots; waiters = refill.rest };
            handed = refill.handed;
            result = Outcome.queue_lost;
          }))
      → P (leave cap w q)
  unfolding leave
  leave_cases w P waiting served = elim (Bool-cases (contains w q.waiters)) [
    | inl e ↦ rw (e, leave) (waiting e)
    | inr e ↦ rw (e, leave) (served e)
  ]
