-- ===== src/Run/Store/Commit/Kept.antt =====
-- internal/run/store.go: what holds of the draft of a commit holds of what it writes, where the two
-- ways of making it smaller keep it.
use Prim.Native.String.{String}
use infercat.Common.{ℕ, ◌≡◌, subst, Option, none, some, List, arith, Bool-cases, inl, inr}
use infercat.Run.{Raw, Result, Result-cases, ok, err, Run, ImageOutput}
use infercat.Run.Ending.{lifecycle}
use infercat.Run.Store.{Snapshot, KeyData, Lease, lookup}
use infercat.Run.Store.Commit.{Draft, shorten, tally, or_zero, with_runs, exception, within_budget}

module _ {κ} (image_json : Raw → Option ImageOutput) (stored : ℕ) (size : Snapshot → ℕ)
    (P : Draft → Type κ)
    (shortened : (rid : String) (used : ℕ) (old : Snapshot) (before after : Run) (w : Draft)
      → P w
      → P (shorten image_json stored size rid used old before after w))
    (tallied : (rid : String) (used : ℕ) (old : Snapshot) (w x : Draft)
      → P w
      → tally image_json stored size rid used old w ≡ ok x
      → P x) where
  with_runs-keeps :
      (rid : String) (old : Snapshot) (b a : Option Run) (w : Draft) {x : Draft}
      → P w
      → with_runs image_json stored size rid old b a w ≡ ok x
      → P x
  unfolding with_runs
  with_runs-keeps rid old none a w h e = absurd (cc)
  with_runs-keeps rid old (some before) none w h e = absurd (cc)
  with_runs-keeps rid old (some before) (some after) w {x} h e =
      elim (Bool-cases (lifecycle before after)) [
        | inl y ↦
            let used = or_zero (lookup rid old.exception_bytes) in
            tallied rid used old _ x (shortened rid used old before after w h) (ground (arith, y))
        | inr n ↦ absurd (ground (arith, n))
      ]

  exception-keeps :
      (rid : Option String) (old : Snapshot) (w : Draft) {x : Draft}
      → P w
      → exception image_json stored size rid old w ≡ ok x
      → P x
  unfolding exception
  exception-keeps none old w h e = absurd (cc)
  exception-keeps (some rid) old w h e =
      with_runs-keeps rid old (lookup rid old.runs) (lookup rid w.snapshot.runs) w h e

  pub within_budget-keeps :
      (rid : Option String) (d : KeyData) (w : Draft) (r : Result (List (String × Lease)))
      → P w
      → (x : Draft) (m : List (String × Lease))
      → within_budget image_json stored size rid d w r ≡ ok (x, m)
      → P x
  unfolding within_budget
  within_budget-keeps rid d w (ok leases) h x m e = subst P (ground arith) h
  within_budget-keeps rid d w (err z) h x m e =
      elim (Result-cases (exception image_json stored size rid d.snapshot w)) [
        | inl (y, q) ↦ exception-keeps rid d.snapshot w h (ground (arith, q))
        | inr (y, q) ↦ absurd (ground (arith, q))
      ]
