-- ===== src/Limiter/Reserve.antt =====
-- What a reservation grants and writes.
use infercat.Common.{ℕ, ℤ, ◌+ℤ◌, ◌≡◌, refl, inl, inr, Bool, true, false, Bool-cases}
use infercat.Errors.{Code, errf}
use infercat.Fit.{fit_budget, floor_for}
use infercat.Limits.{Limits, tokens, budgets, amount}
use infercat.Limiter.{
  KeyState, MeterState, Admission, Result, err, prune, charges, token_budget, day_budget,
  retry_walk, next_midnight, put_reservation, reserve_day, reserve,
}

pub token_budget-tpm : (lim : Limits) → token_budget lim ≡ lim.tpm
unfolding budgets amount
token_budget-tpm lim = refl

pub day_budget-daily_tokens : (lim : Limits) → day_budget lim ≡ lim.daily_tokens
unfolding budgets amount
day_budget-daily_tokens lim = refl

module _ (now : ℕ) (lim : Limits) (prompt out : ℤ) (a : Admission) (st : KeyState) where
  abbrev pub meter : MeterState
  meter = (prune now st).meters tokens

  -- What the window and the live reservations use of the limit per minute, and of the day's.
  abbrev pub live_minute : ℤ
  live_minute = charges meter.log +ℤ meter.reserved

  abbrev pub live_day : ℤ
  live_day = meter.today +ℤ meter.reserved

  abbrev pub minute_fit : ℤ × Bool
  minute_fit = fit_budget (token_budget lim) live_minute prompt out

  abbrev pub day_fit : ℤ × Bool
  day_fit = fit_budget (day_budget lim) live_day prompt minute_fit.0

  pub reserve_cases {ℓ} :
      (P : KeyState × Admission × Result ℤ → Type ℓ)
      → (minute_fit.1 ≡ false
          → P (
            prune now st,
            a,
            err (
                errf Code.rate_limited (
                  retry_walk
                    (token_budget lim)
                    (prompt +ℤ floor_for out)
                    now
                    live_minute
                    meter.log)),
          ))
      → (minute_fit.1 ≡ true
          → day_fit.1 ≡ false
          → P (
            prune now st,
            a,
            err (errf Code.budget_exhausted (next_midnight (prune now st).day now)),
          ))
      → (minute_fit.1 ≡ true
          → day_fit.1 ≡ true
          → P (put_reservation prompt day_fit.0 a (prune now st)))
      → P (reserve now lim prompt out a st)
  unfolding reserve reserve_day
  reserve_cases P minute_over day_over fits = elim (Bool-cases minute_fit.1) [
    | inr e ↦ rw (e, reserve) (minute_over e)
    | inl e ↦ elim (Bool-cases day_fit.1) [
      | inr f ↦ rw (e, f, reserve, reserve_day) (day_over e f)
      | inl f ↦ rw (e, f, reserve, reserve_day) (fits e f)
    ]
  ]
