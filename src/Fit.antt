-- ===== src/Fit.antt =====
-- internal/gateway/limits.go: shrinking a request's output to a ceiling (`fitBudget`, `floorFor`).
pub mod Laws
pub mod Tests
use infercat.Common.{ℤ, pos, ◌-ℤ◌, ltb_ℤ, leb_ℤ, eqb_ℤ, min_ℤ, Bool, true, false, if◌then◌else◌}

abbrev pub min_output_tokens : ℤ
min_output_tokens = pos 16

-- The `switch` of `fitBudget`, on the room that is left.
fit_room : ℤ → ℤ → ℤ × Bool
fit_room room out =
    if eqb_ℤ out (pos 0)
    then (pos 0, leb_ℤ (pos 0) room)
    else if (if ltb_ℤ (pos 0) out then leb_ℤ out room else false)
    then (out, true)
    else if leb_ℤ min_output_tokens room
    then (room, true)
    else (pos 0, false)

-- `out` below zero is an output with no bound; a ceiling of at most zero is none.
unfoldable pub fit_budget : ℤ → ℤ → ℤ → ℤ → ℤ × Bool
unfolding fit_room
fit_budget limit used prompt out =
    if leb_ℤ limit (pos 0) then (out, true) else fit_room (limit -ℤ used -ℤ prompt) out

unfoldable pub floor_for : ℤ → ℤ
floor_for out =
    if eqb_ℤ out (pos 0)
    then pos 0
    else if ltb_ℤ out (pos 0)
    then min_output_tokens
    else min_ℤ out min_output_tokens
