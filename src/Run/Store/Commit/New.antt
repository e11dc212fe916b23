-- ===== src/Run/Store/Commit/New.antt =====
-- internal/run/store.go: the commit by which a run comes into being is written as it is asked.
use Prim.Native.String.{String}
use infercat.Common.{ℕ, ◌≡◌, refl, Bool, true, false, Option, none, some, List, arith, if_ind}
use infercat.Run.{Raw, Result, ok, err, Run, ImageOutput}
use infercat.Run.Store.{Snapshot, Event, KeyData, Lease, lookup}
use infercat.Run.Store.Commit.{
  Draft, stamp_images, prune, append_events, draft, written, exception, with_runs, within_budget,
  commit_for,
}

module _ (image_json : Raw → Option ImageOutput) (stored : ℕ) (size : Snapshot → ℕ) where
  -- The commit of a run that is new makes no exception: it writes the snapshot as it is asked.
  abbrev pub Drafted :
      KeyData → List (String × Run) → KeyData × List Event × Result Snapshot → Type 0
  Drafted d runs (e, es, r) =
      (s : Snapshot) → r ≡ ok s → (e.snapshot ≡ s) × (e.broken ≡ d.broken) × (s.runs ≡ runs)

  within_budget-new :
      (rid : String) (d : KeyData) (w : Draft) (r : Result (List (String × Lease)))
      → lookup rid d.snapshot.runs ≡ none
      → (x : Draft) (m : List (String × Lease))
      → within_budget image_json stored size (some rid) d w r ≡ ok (x, m)
      → x ≡ w
  unfolding within_budget exception with_runs
  within_budget-new rid d w (ok leases) n x m e = ground arith
  within_budget-new rid d w (err z) n x m e = absurd (ground (arith, n))

  written-Drafted :
      (wrote : Bool) (d : KeyData) (w : Draft) (r : Result (Draft × List (String × Lease)))
      → ((x : Draft) (m : List (String × Lease)) → r ≡ ok (x, m) → x ≡ w)
      → Drafted d w.snapshot.runs (written image_json stored size wrote d r)
  unfolding written
  written-Drafted wrote d w (err e) k s q = absurd (cc)
  written-Drafted false d w (ok (x, m)) k s q = absurd (cc)
  written-Drafted true d w (ok (x, m)) k s q = ground (arith, k x m refl)

  pub commit_new :
      (now : ℕ) (wrote : Bool) (rid : String) (e : Option Event) (v : Snapshot) (d : KeyData)
      → lookup rid d.snapshot.runs ≡ none
      → Drafted d
          (stamp_images image_json now d.snapshot.runs v.runs)
          (commit_for image_json stored size now wrote (some rid) e v d)
  unfolding commit_for
  commit_new now wrote rid e v d n =
      if_ind
        (λ (x : KeyData × List Event × Result Snapshot).
          Drafted d (stamp_images image_json now d.snapshot.runs v.runs) x)
        d.broken _ _ (λ s q. absurd (cc))
        (unfold draft prune append_events in
          written-Drafted wrote d (draft image_json stored size now e d.snapshot v) _
            (λ x m q. within_budget-new rid d _ _ n x m q))
