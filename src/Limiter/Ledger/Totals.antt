-- ===== src/Limiter/Ledger/Totals.antt =====
-- What the books say in every history of a key.
use infercat.Common.{pos, ◌+ℤ◌, ◌≤ℤ◌, ◌<ℤ◌, +ℤ_parts, ◌≡◌, refl, sym, subst, List, arith}
use infercat.Limits.{Limits, tokens}
use infercat.Limiter.{KeyState, Admission, charges}
use infercat.Limiter.Admit.{admit_err}
use infercat.Limiter.Grant.{reserve_err}
use infercat.Limiter.Ledger.{Ledger, begins, admits, refuses, reserves, reserve_refuses, settles}
use infercat.Limiter.Ledger.Books.{holding, held, held_nonneg, charges_nonneg}
use infercat.Limiter.Ledger.Steps.{KeptAt, pruned, admit-Kept, reserve-Kept, settle-Kept}

Ledger-Kept :
    (lim : Limits) {st : KeyState} {live : List Admission} → Ledger lim st live → KeptAt lim st live
unfolding charges
Ledger-Kept lim begins = record {
  flight = refl;
  balance = refl;
  promised = tt;
  charged = tt;
  spent = omega arith;
  minute = λ h. omega (arith, +ℤ_parts (pos 0) (pos 0));
  daily = λ h. omega (arith, +ℤ_parts (pos 0) (pos 0));
  at_once = λ h. omega arith;
}
Ledger-Kept lim (admits {st} {live} now detached a l e) =
    admit-Kept now detached a st e (Ledger-Kept lim l)
Ledger-Kept lim (refuses {st} {live} now detached e l refused) =
    subst (λ q. KeptAt lim q live) (sym (admit_err now lim detached st refused))
      (pruned now st (Ledger-Kept lim l))
Ledger-Kept lim (reserves {st} now prompt out granted a xs ys l fresh asked e) =
    reserve-Kept lim now prompt out a xs ys st fresh asked (Ledger-Kept lim l) e
Ledger-Kept lim (reserve_refuses {st} {live} now prompt out a e l refused) =
    subst (λ q. KeptAt lim q live) (sym (reserve_err now lim prompt out a st refused))
      (pruned now st (Ledger-Kept lim l))
Ledger-Kept lim (settles {st} now a counted charged xs ys l most) =
    settle-Kept lim now a counted charged xs ys st most (Ledger-Kept lim l)

-- In every history of a key under fixed limits, where an admission reserves at most once, for a
-- prompt of at least zero tokens, and is settled at most once, for at most what it reserved, the
-- counter `inFlight` is the number of live admissions that are not detached, and the reserved
-- tokens are the sum of what the live admissions reserved: nothing leaks, and nothing is given
-- back twice.
pub Ledger-exact :
    (lim : Limits) {st : KeyState} {live : List Admission}
    → Ledger lim st live
    → (st.in_flight ≡ pos (holding live)) × ((st.meters tokens).reserved ≡ held live)
Ledger-exact lim l = let k = Ledger-Kept lim l in (k.flight, k.balance)

-- In every history of a key under fixed limits, where an admission reserves at most once, for a
-- prompt of at least zero tokens, and is settled at most once, for at most what it reserved, the
-- key stays within each limit that is set: its concurrent requests, its tokens of the last minute
-- with what is reserved, and its tokens of the day with what is reserved; and neither the charges
-- nor the reservations are ever below zero.
pub ledger_within :
    (lim : Limits) {st : KeyState} {live : List Admission}
    → Ledger lim st live
    → let m = st.meters tokens in
      (pos 0 <ℤ lim.max_concurrent → st.in_flight ≤ℤ lim.max_concurrent)
      × (pos 0 <ℤ lim.tpm → charges m.log +ℤ m.reserved ≤ℤ lim.tpm)
      × (pos 0 <ℤ lim.daily_tokens → m.today +ℤ m.reserved ≤ℤ lim.daily_tokens)
      × (pos 0 ≤ℤ charges m.log)
      × (pos 0 ≤ℤ m.reserved)
ledger_within lim {st} {live} l =
    let k = Ledger-Kept lim l in
    (
      k.at_once,
      k.minute,
      k.daily,
      charges_nonneg _ k.charged,
      subst (λ x. pos 0 ≤ℤ x) (sym k.balance) (held_nonneg live k.promised),
    )
