-- ===== src/Limiter/Ledger.antt =====
-- The books of one key: which admissions are live, and what they hold, over whole histories.
pub mod Books
pub mod Steps
pub mod Totals
use infercat.Common.{ℕ, suc, ℤ, pos, ◌+ℤ◌, ◌≤ℤ◌, ◌≡◌, Bool, true, false, List, [], ◌∷◌, ◌++◌}
use infercat.Errors.{GwError}
use infercat.Limits.{Limits}
use infercat.Limiter.{
  KeyState, Admission, Result, ok, err, empty_key, admit_resource, reserve, settle,
}

-- The histories of a key under fixed limits, with its live admissions. An admission reserves at
-- most once, for a prompt of at least zero tokens; it is settled once, for at most what it
-- reserved, and is then live no more.
pub data Ledger (lim : Limits) : KeyState → List Admission → Type 0 where
  begins : Ledger lim empty_key []
  admits :
      {st : KeyState} {live : List Admission} (now : ℕ) (detached : Bool) (a : Admission)
      → Ledger lim st live
      → (admit_resource now lim detached st).1 ≡ ok a
      → Ledger lim (admit_resource now lim detached st).0 (a ∷ live)
  refuses :
      {st : KeyState} {live : List Admission} (now : ℕ) (detached : Bool) (e : GwError)
      → Ledger lim st live
      → (admit_resource now lim detached st).1 ≡ err e
      → Ledger lim (admit_resource now lim detached st).0 live
  reserves :
      {st : KeyState} (now : ℕ) (prompt out granted : ℤ) (a : Admission) (xs ys : List Admission)
      → Ledger lim st (xs ++ a ∷ ys)
      → a.reserved ≡ pos 0
      → pos 0 ≤ℤ prompt
      → (reserve now lim prompt out a st).2 ≡ ok granted
      → Ledger lim
          (reserve now lim prompt out a st).0
          (xs ++ (reserve now lim prompt out a st).1 ∷ ys)
  reserve_refuses :
      {st : KeyState} {live : List Admission} (now : ℕ) (prompt out : ℤ) (a : Admission)
      (e : GwError)
      → Ledger lim st live
      → (reserve now lim prompt out a st).2 ≡ err e
      → Ledger lim (reserve now lim prompt out a st).0 live
  settles :
      {st : KeyState} (now : ℕ) (a : Admission) (counted : Bool) (charged : ℤ)
      (xs ys : List Admission)
      → Ledger lim st (xs ++ a ∷ ys)
      → charged ≤ℤ a.reserved
      → Ledger lim (settle now a counted charged st) (xs ++ ys)
