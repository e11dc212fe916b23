-- ===== src/Fit/Laws.antt =====
-- What the shrink-to-fit rule grants, and exactly when.
use infercat.Common.{
  ℤ, pos, ◌+ℤ◌, ◌-ℤ◌, ◌≤ℤ◌, ◌<ℤ◌, leb_ℤ, int_laws, ◌≡◌, ◌↔◌, inl, inr, true, Bool-cases, arith,
  leb→le,
}
use infercat.Fit.{fit_room, fit_budget, floor_for}

-- On the room alone: an output is granted exactly when the least that may be granted fits.
fit_room-floor : (room out : ℤ) → ((fit_room room out).1 ≡ true) ↔ (floor_for out ≤ℤ room)
unfolding fit_room floor_for
fit_room-floor room out = (λ h. ground arith, λ h. ground arith)

fit_room_grant :
    (room out : ℤ)
    → (fit_room room out).1 ≡ true
    → ((fit_room room out).0 ≤ℤ room)
      × (floor_for out ≤ℤ (fit_room room out).0)
      × ((pos 0 ≤ℤ out) → ((fit_room room out).0 ≤ℤ out))
unfolding fit_room floor_for
fit_room_grant room out e = (ground arith, ground arith, λ h. ground arith)

room_le :
    (limit used prompt x : ℤ) → (x ≤ℤ limit -ℤ used -ℤ prompt) ↔ (used +ℤ prompt +ℤ x ≤ℤ limit)
room_le limit used prompt x = (λ h. omega int_laws, λ h. omega int_laws)

module _ (limit used prompt out : ℤ) (set : pos 0 <ℤ limit) where
  fit_budget-room : fit_budget limit used prompt out ≡ fit_room (limit -ℤ used -ℤ prompt) out
  unfolding fit_budget
  fit_budget-room = elim (Bool-cases (leb_ℤ limit (pos 0))) [
    | inl e ↦ absurd (omega (arith, leb→le _ _ e))
    | inr e ↦ rw (e, fit_budget)
  ]

  -- Under a ceiling a request fits exactly when what is used, its prompt and the least output
  -- that the rule grants for it (`floorFor`) stay within the ceiling.
  pub fit_budget-floor :
      ((fit_budget limit used prompt out).1 ≡ true) ↔ (used +ℤ prompt +ℤ floor_for out ≤ℤ limit)
  fit_budget-floor = rw fit_budget-room (
    λ h. (room_le limit used prompt _).0 ((fit_room-floor _ out).0 h),
    λ h. (fit_room-floor _ out).1 ((room_le limit used prompt _).1 h),
  )

  -- What is granted under a ceiling stays within it, is at least the floor, and is never more than
  -- what was asked, where that has a bound.
  pub fit_budget_grant :
      (fit_budget limit used prompt out).1 ≡ true
      → let granted = (fit_budget limit used prompt out).0 in
        (used +ℤ prompt +ℤ granted ≤ℤ limit)
        × (floor_for out ≤ℤ granted)
        × ((pos 0 ≤ℤ out) → (granted ≤ℤ out))
  fit_budget_grant = rw fit_budget-room (λ e.
      let (a, b, c) = fit_room_grant (limit -ℤ used -ℤ prompt) out e in
      ((room_le limit used prompt _).0 a, b, c))
