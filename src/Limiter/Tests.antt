-- ===== src/Limiter/Tests.antt =====
-- The limiter on a key that may send one request a minute.
use infercat.Common.{
  ℕ, ◌+◌, ◌-◌, ◌*◌, ◌≤◌, pos, ◌+ℤ◌, ◌-ℤ◌, ◌≤ℤ◌, ◌<ℤ◌, ◌≡◌, refl, subst, sym, true, false, some, [],
  ◌∷◌, arith,
}
use infercat.Errors.{Code, errf}
use infercat.Limits.{Limits, default_limits, tokens, budgets, amount}
use infercat.Fit.{fit_budget}
use infercat.Limiter.{
  KeyState, Admission, ok, err, empty_key, second, prune, drop_entries, drop_charges, requests,
  charges, oldest, rate_full, admit_resource, reserve, reserve_day, put_reservation, settle,
}
use infercat.Limiter.History.{Run, begins, admits, admission_entry}
use infercat.Limiter.Window.{in_window}
use infercat.Limiter.Ceiling.{rate_ceiling}
use infercat.Limiter.Retry.{Single, retry_exact}
use infercat.Limiter.Ledger.{Ledger}
use infercat.Limiter.Ledger.Books.{holding, held}
use infercat.Limiter.Ledger.Totals.{Ledger-exact, ledger_within}

abbrev one_a_minute : Limits
one_a_minute = record default_limits { rpm = pos 1; max_concurrent = pos 2 }

abbrev noon : ℕ
noon = 43200 * second

abbrev first : Admission
first = record { detached = false; seq = 1; reserved = pos 0 }

abbrev busy_key : KeyState
busy_key = (admit_resource noon one_a_minute false empty_key).0

first_admitted : (admit_resource noon one_a_minute false empty_key).1 ≡ ok first
unfolding admit_resource prune requests drop_entries
first_admitted = refl

abbrev first_Run : Run 1 busy_key (admission_entry noon 1 ∷ []) noon
first_Run =
    admits noon one_a_minute false first begins (omega arith) refl (omega arith) first_admitted

rate_ceiling_example : in_window noon (admission_entry noon 1 ∷ []) ≤ 1
rate_ceiling_example = rate_ceiling 1 (omega arith) noon first_Run

-- A second and a half after the only admission of the minute.
abbrev later : ℕ
later = noon + 1_500_000_000

abbrev spent : KeyState
spent = record empty_key {
  log = admission_entry noon 1 ∷ [];
  seq = 1;
  in_flight = pos 1;
  day = some 0;
}

refused_later : (admit_resource later one_a_minute false spent).1 ≡ err (errf Code.rate_limited 59)
unfolding admit_resource prune requests drop_entries oldest
refused_later = refl

spent-Single : Single (drop_entries later spent.log)
unfolding drop_entries
spent-Single = (omega arith, tt)

spent_at_limit : one_a_minute.rpm ≡ pos (requests (drop_entries later spent.log))
unfolding drop_entries requests
spent_at_limit = refl

retry_exact_example :
    let q = (admit_resource later one_a_minute false spent).0 in
    (rate_full one_a_minute (prune (later + 59 * second) q) ≡ false)
    × (rate_full one_a_minute (prune (later + (59 - 1) * second) q) ≡ true)
retry_exact_example =
    retry_exact 0 noon later one_a_minute false spent (omega arith, omega arith) spent-Single
      spent_at_limit 59 refused_later

-- A request of at most 300 tokens that used 120.
abbrev promised : Admission
promised = record first { reserved = pos 300 }

first-Ledger : Ledger one_a_minute busy_key (first ∷ [])
first-Ledger = Ledger.admits noon false first Ledger.begins first_admitted

reserve-first : (reserve noon one_a_minute (pos 100) (pos 200) first busy_key).2 ≡ ok (pos 200)
unfolding reserve prune requests drop_entries drop_charges charges fit_budget amount budgets
    admit_resource ◌+ℤ◌ ◌-ℤ◌ reserve_day put_reservation
reserve-first = refl

abbrev holding_key : KeyState
holding_key = (reserve noon one_a_minute (pos 100) (pos 200) first busy_key).0

abbrev after_reserve : Admission
after_reserve = (reserve noon one_a_minute (pos 100) (pos 200) first busy_key).1

reserved_300 : after_reserve.reserved ≡ pos 300
unfolding reserve prune requests drop_entries drop_charges charges fit_budget amount budgets
    admit_resource ◌+ℤ◌ ◌-ℤ◌ reserve_day put_reservation
reserved_300 = refl

holding_Ledger : Ledger one_a_minute holding_key (after_reserve ∷ [])
holding_Ledger =
    Ledger.reserves noon (pos 100) (pos 200) (pos 200) first [] [] first-Ledger refl (omega arith)
      reserve-first

Ledger-exact_example :
    (holding_key.in_flight ≡ pos (holding (after_reserve ∷ [])))
    × ((holding_key.meters tokens).reserved ≡ held (after_reserve ∷ []))
Ledger-exact_example = Ledger-exact one_a_minute holding_Ledger

-- It is settled, and 120 tokens are charged.
settled_Ledger : Ledger one_a_minute (settle noon after_reserve true (pos 120) holding_key) []
settled_Ledger =
    Ledger.settles noon after_reserve true (pos 120) [] [] holding_Ledger
      (subst (λ r. pos 120 ≤ℤ r) (sym reserved_300) (omega arith))

ledger_within_example :
    let st = settle noon after_reserve true (pos 120) holding_key in
    let m = st.meters tokens in
    (pos 0 <ℤ one_a_minute.max_concurrent → st.in_flight ≤ℤ one_a_minute.max_concurrent)
    × (pos 0 <ℤ one_a_minute.tpm → charges m.log +ℤ m.reserved ≤ℤ one_a_minute.tpm)
    × (pos 0 <ℤ one_a_minute.daily_tokens → m.today +ℤ m.reserved ≤ℤ one_a_minute.daily_tokens)
    × (pos 0 ≤ℤ charges m.log)
    × (pos 0 ≤ℤ m.reserved)
ledger_within_example = ledger_within one_a_minute settled_Ledger
