-- ===== src/Fit/Tests.antt =====
-- The shrink-to-fit rule near a ceiling of a hundred tokens.
use infercat.Common.{pos, ◌+ℤ◌, ◌-ℤ◌, ◌≤ℤ◌, ◌≡◌, refl, ◌↔◌, true, false, arith}
use infercat.Fit.{fit_budget, fit_room, floor_for}
use infercat.Fit.Laws.{fit_budget-floor, fit_budget_grant}

-- Thirty of the hundred are left: an output of fifty shrinks, and below sixteen it is refused.
shrinks : fit_budget (pos 100) (pos 60) (pos 10) (pos 50) ≡ (pos 30, true)
unfolding fit_budget fit_room ◌-ℤ◌ ◌+ℤ◌
shrinks = refl

too_little : fit_budget (pos 100) (pos 60) (pos 25) (pos 50) ≡ (pos 0, false)
unfolding fit_budget fit_room ◌-ℤ◌ ◌+ℤ◌
too_little = refl

fit_budget-floor_example :
    ((fit_budget (pos 100) (pos 60) (pos 10) (pos 50)).1 ≡ true)
    ↔ (pos 60 +ℤ pos 10 +ℤ floor_for (pos 50) ≤ℤ pos 100)
fit_budget-floor_example = fit_budget-floor (pos 100) (pos 60) (pos 10) (pos 50) (omega arith)

granted : (fit_budget (pos 100) (pos 60) (pos 10) (pos 50)).1 ≡ true
unfolding fit_budget fit_room ◌-ℤ◌ ◌+ℤ◌
granted = refl

fit_budget_grant_example :
    let out = (fit_budget (pos 100) (pos 60) (pos 10) (pos 50)).0 in
    (pos 60 +ℤ pos 10 +ℤ out ≤ℤ pos 100)
    × (floor_for (pos 50) ≤ℤ out)
    × ((pos 0 ≤ℤ pos 50) → (out ≤ℤ pos 50))
fit_budget_grant_example =
    fit_budget_grant (pos 100) (pos 60) (pos 10) (pos 50) (omega arith) granted
