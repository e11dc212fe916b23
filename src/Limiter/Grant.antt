-- ===== src/Limiter/Grant.antt =====
-- A granted reservation stays within both budgets; a refused one reserves nothing.
use infercat.Common.{
  ℕ, ℤ, pos, ◌+ℤ◌, ◌≤ℤ◌, ◌<ℤ◌, max_ℤ, leb_ℤ, int_laws, ◌≡◌, refl, inl, inr, true, Bool-cases, arith,
  leb→gt,
}
use infercat.Errors.{GwError}
use infercat.Fit.{fit_budget, floor_for}
use infercat.Fit.Laws.{fit_budget_grant}
use infercat.Limits.{Limits, budgets, amount}
use infercat.Limiter.{
  KeyState, Admission, err, prune, token_budget, day_budget, put_reservation, reserve,
}
use infercat.Limiter.Reserve.{live_minute, live_day, minute_fit, day_fit, reserve_cases}

floor_for_nonneg : (out : ℤ) → pos 0 ≤ℤ floor_for out
unfolding floor_for
floor_for_nonneg out = ground arith

-- A bounded output never grows.
fit_budget-le :
    (limit used prompt out : ℤ)
    → pos 0 ≤ℤ out
    → (fit_budget limit used prompt out).1 ≡ true
    → (fit_budget limit used prompt out).0 ≤ℤ out
unfolding fit_budget
fit_budget-le limit used prompt out h e = elim (Bool-cases (leb_ℤ limit (pos 0))) [
  | inl f ↦ rw (f, fit_budget) (omega arith)
  | inr f ↦ (fit_budget_grant limit used prompt out (leb→gt _ _ f) e).2 h
]

max_le : (x y : ℤ) → y ≤ℤ x → pos 0 ≤ℤ x → max_ℤ y (pos 0) ≤ℤ x
max_le x y h z = ground arith

sum_le :
    (limit used prompt x y : ℤ)
    → used +ℤ prompt +ℤ x ≤ℤ limit
    → y ≤ℤ x
    → used +ℤ (prompt +ℤ y) ≤ℤ limit
sum_le limit used prompt x y h k = omega int_laws

within_max :
    (limit used prompt x y : ℤ)
    → used +ℤ prompt +ℤ x ≤ℤ limit
    → y ≤ℤ x
    → pos 0 ≤ℤ x
    → used +ℤ (prompt +ℤ max_ℤ y (pos 0)) ≤ℤ limit
within_max limit used prompt x y h k z =
    sum_le limit used prompt x (max_ℤ y (pos 0)) h (max_le x y k z)

module _ (now : ℕ) (lim : Limits) (prompt out : ℤ) (a : Admission) (st : KeyState) where
  abbrev granted : ℤ
  granted = (day_fit now lim prompt out a st).0

  pub minute_bound :
      pos 0 <ℤ lim.tpm
      → (minute_fit now lim prompt out a st).1 ≡ true
      → (day_fit now lim prompt out a st).1 ≡ true
      → live_minute now lim prompt out a st +ℤ (prompt +ℤ max_ℤ granted (pos 0)) ≤ℤ lim.tpm
  unfolding budgets amount
  minute_bound h e f =
      let used = live_minute now lim prompt out a st in
      let o = (minute_fit now lim prompt out a st).0 in
      let (fits, least, _) = fit_budget_grant (token_budget lim) used prompt out h e in
      let nonneg : pos 0 ≤ℤ o = omega (arith, least, floor_for_nonneg out) in
      within_max lim.tpm used prompt o granted fits
        (fit_budget-le (day_budget lim) (live_day now lim prompt out a st) prompt o nonneg f) nonneg

  pub day_bound :
      pos 0 <ℤ lim.daily_tokens
      → (day_fit now lim prompt out a st).1 ≡ true
      → live_day now lim prompt out a st +ℤ (prompt +ℤ max_ℤ granted (pos 0)) ≤ℤ lim.daily_tokens
  unfolding budgets amount
  day_bound h f =
      let used = live_day now lim prompt out a st in
      let o = (minute_fit now lim prompt out a st).0 in
      let (fits, least, _) = fit_budget_grant (day_budget lim) used prompt o h f in
      within_max lim.daily_tokens used prompt granted granted fits (omega arith)
        (omega (arith, least, floor_for_nonneg o))

  -- A refused reservation leaves the admission as it was and only prunes the key.
  pub reserve_err :
      {e : GwError}
      → (reserve now lim prompt out a st).2 ≡ err e
      → (reserve now lim prompt out a st).0 ≡ prune now st
  unfolding put_reservation
  reserve_err {e} =
      reserve_cases now lim prompt out a st (λ r. r.2 ≡ err e → r.0 ≡ prune now st) (λ _ _. refl)
        (λ _ _ _. refl) (λ _ _ h. absurd (cc))
