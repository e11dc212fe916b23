-- ===== src/Run/Store/Commit/Bounds.antt =====
-- internal/run/store.go: no commit makes a key's file larger than the hard cap, whatever is asked of
-- it: the bytes, the replayed events and the exceptions to the budget are all bounded.
use Prim.Native.String.{String}
use text.Mathlib.Text.{◌==◌ as str_eq}
use text.Mathlib.TextEquality.{eq_iff}
use infercat.Common.{
  ℕ, ◌+◌, ◌-◌, ◌≤◌, ◌≡◌, refl, Bool, true, false, Option, none, some, List, [], ◌∷◌, map, length,
  take, drop, All, arith, length-append, length-drop, length-take, if_ind, Bool-cases, Option-cases,
  inl, inr,
}
use infercat.Run.{Raw, Result, ok, err, Run, ImageOutput}
use infercat.Run.Ending.{lifecycle, without_output}
use infercat.Run.Store.{
  Snapshot, Event, KeyData, Lease, terminal_bound, max_events, lookup, insert, restrict, hard_cap,
  budget, reserved_bytes, retained_budget,
}
use infercat.Run.Store.Commit.{
  Draft, prune, append_events, tail_events, mark, mark_last, trim_events, fits, end_run, shorten,
  tally, exception, or_zero, with_runs, within_budget, written, draft, commit_for,
}
use infercat.Run.{Result-cases}

abbrev pub Tallied : String × ℕ → Type 0
Tallied e = e.1 ≤ terminal_bound

-- A snapshot that `load` accepts back: its bytes, its events and its exceptions are in bounds.
pub record IsBounded (stored : ℕ) (s : Snapshot) : Type 0 where
  pub bytes : s.encoded_bytes ≤ hard_cap stored
  pub few : length s.events ≤ max_events
  pub tallies : All Tallied s.exception_bytes

length-tail_events : (es : List Event) → length (tail_events es) ≤ max_events
unfolding tail_events
length-tail_events es = ground (arith, length-drop (length es - max_events) es)

length-map : (f : Event → Event) (es : List Event) → length (map f es) ≡ length es
length-map f [] = refl
length-map f (e ∷ es) = omega (arith, length-map f es)

pub length-mark_last :
    (k : ℕ) (rid : String) (es : List Event) → length (mark_last k rid es) ≡ length es
unfolding mark_last
length-mark_last k rid es =
    let n = length es - k in
    omega (
      arith,
      length-append (take n es) (map (mark rid) (drop n es)),
      length-map (mark rid) (drop n es),
      length-take n es,
      length-drop n es,
    )

pub length-trim_events :
    (p : List Event → Bool) (es : List Event) → length (trim_events p es) ≤ length es
unfolding trim_events
length-trim_events p [] = omega arith
length-trim_events p (e ∷ es) = ground (arith, length-trim_events p es)

length-trim-mark :
    (p : List Event → Bool) (k : ℕ) (rid : String) (es : List Event)
    → length es ≤ max_events
    → length (trim_events p (mark_last k rid es)) ≤ max_events
length-trim-mark p k rid es h =
    omega (arith, length-trim_events p (mark_last k rid es), length-mark_last k rid es)

insert-Tallied :
    (k : String) (n : ℕ) (m : List (String × ℕ))
    → n ≤ terminal_bound
    → All Tallied m
    → All Tallied (insert k n m)
unfolding insert
insert-Tallied k n [] h t = (h, tt)
insert-Tallied k n ((j, w) ∷ m) h t = ground (arith, insert-Tallied k n m)

restrict-Tallied :
    (p : String → Bool) (m : List (String × ℕ)) → All Tallied m → All Tallied (restrict p m)
unfolding restrict
restrict-Tallied p [] t = tt
restrict-Tallied p ((j, w) ∷ m) t = ground (arith, restrict-Tallied p m t.1)

lookup-insert : (k : String) (n : ℕ) (m : List (String × ℕ)) → lookup k (insert k n m) ≡ some n
unfolding lookup insert
lookup-insert k n [] = ground (arith, eq_iff k k)
lookup-insert k n ((j, w) ∷ m) = ground (arith, eq_iff j k, lookup-insert k n m)

lookup-Tallied :
    (k : String) (m : List (String × ℕ)) {n : ℕ}
    → All Tallied m
    → lookup k m ≡ some n
    → n ≤ terminal_bound
unfolding lookup
lookup-Tallied k [] t e = absurd (cc)
lookup-Tallied k ((j, w) ∷ m) t e = elim (Bool-cases (str_eq j k)) [
  | inl y ↦ ground arith
  | inr n ↦ lookup-Tallied k m t.1 (ground arith)
]

lookup-reserved :
    (k : String) (m : List (String × Lease)) {l : Lease}
    → lookup k m ≡ some l
    → l.bytes ≤ reserved_bytes m
unfolding lookup reserved_bytes
lookup-reserved k [] e = absurd (cc)
lookup-reserved k ((j, w) ∷ m) {l = l} e = elim (Bool-cases (str_eq j k)) [
  | inl y ↦ ground arith
  | inr n ↦ omega (arith, lookup-reserved k m {l = l} (ground arith))
]

budget-le-hard_cap : (stored : ℕ) → budget stored ≤ hard_cap stored
unfolding budget hard_cap
budget-le-hard_cap stored = omega arith

retained_budget_fits :
    (stored : ℕ) (d : KeyData) (rid : Option String) (size : ℕ) {m : List (String × Lease)}
    → d.snapshot.encoded_bytes ≤ hard_cap stored
    → retained_budget stored d rid size ≡ ok m
    → size ≤ hard_cap stored
retained_budget_fits stored d none size h e =
    unfold retained_budget in ground (arith, budget-le-hard_cap stored)
retained_budget_fits stored d (some rid) size h e = elim (Option-cases (lookup rid d.leases)) [
  | inl n ↦ unfold retained_budget in ground (arith, n, budget-le-hard_cap stored)
  | inr (l, y) ↦
      unfold retained_budget in
      ground (arith, y, lookup-reserved rid d.leases y, budget-le-hard_cap stored)
]

-- A draft within bounds, before its bytes are counted.
record IsFew (w : Draft) : Type 0 where
  few : length w.snapshot.events ≤ max_events
  tallies : All Tallied w.snapshot.exception_bytes

module _ (image_json : Raw → Option ImageOutput) (stored : ℕ) (size : Snapshot → ℕ) where
  -- A tally of fewer digits does not print longer.
  abbrev pub Narrow : Type 0
  Narrow =
      (v : Snapshot) (rid : String) (n : ℕ)
      → lookup rid v.exception_bytes ≡ some terminal_bound
      → n ≤ terminal_bound
      → size (record v { exception_bytes = insert rid n v.exception_bytes }) ≤ size v

  draft-IsFew :
      (now : ℕ) (e : Option Event) (old v : Snapshot)
      → All Tallied v.exception_bytes
      → IsFew (draft image_json stored size now e old v)
  unfolding draft prune append_events
  draft-IsFew now e old v t = record {
    few = search (length-tail_events);
    tallies = restrict-Tallied _ _ t;
  }

  end_run-IsFew :
      (rid : String) (used : ℕ) (old : Snapshot) (r : Run) (w : Draft)
      → IsFew w
      → IsFew (end_run image_json stored size rid used old r w)
  unfolding end_run
  end_run-IsFew rid used old r w h = record {
    few = search (length-trim-mark, h.few);
    tallies = h.tallies;
  }

  shorten-IsFew :
      (rid : String) (used : ℕ) (old : Snapshot) (before after : Run) (w : Draft)
      → IsFew w
      → IsFew (shorten image_json stored size rid used old before after w)
  unfolding shorten
  shorten-IsFew rid used old before after w h =
      let next = record w.snapshot {
        runs = insert rid (without_output image_json before after) w.snapshot.runs;
        exception_bytes = insert rid terminal_bound w.snapshot.exception_bytes;
      } in
      let within : IsFew (record { snapshot = next; events = w.events }) = record {
        few = h.few;
        tallies =
            insert-Tallied rid terminal_bound w.snapshot.exception_bytes (omega arith) h.tallies;
      } in
      if_ind IsFew _ _ _ within
        (end_run-IsFew rid used old (without_output image_json before after) _ within)

  shorten-tally :
      (rid : String) (used : ℕ) (old : Snapshot) (before after : Run) (w : Draft)
      → lookup rid
          (shorten image_json stored size rid used old before after w).snapshot.exception_bytes
        ≡ some terminal_bound
  unfolding shorten
  shorten-tally rid used old before after w =
      if_ind (λ (x : Draft). lookup rid x.snapshot.exception_bytes ≡ some terminal_bound) _ _ _
        (lookup-insert rid terminal_bound w.snapshot.exception_bytes)
        (unfold end_run in lookup-insert rid terminal_bound w.snapshot.exception_bytes)

  tally-IsFew :
      (rid : String) (used : ℕ) (old : Snapshot) (w : Draft) {x : Draft}
      → Narrow
      → lookup rid w.snapshot.exception_bytes ≡ some terminal_bound
      → IsFew w
      → tally image_json stored size rid used old w ≡ ok x
      → IsFew x × (size x.snapshot ≤ hard_cap stored)
  unfolding tally fits
  tally-IsFew rid used old w narrow l h e =
      let n = used + (size w.snapshot - old.encoded_bytes) in
      let kept = insert-Tallied rid n w.snapshot.exception_bytes in
      (ground (arith, kept, h), ground (arith, narrow w.snapshot rid n))

  with_runs-IsFew :
      (rid : String) (old : Snapshot) (b a : Option Run) (w : Draft) {x : Draft}
      → Narrow
      → IsFew w
      → with_runs image_json stored size rid old b a w ≡ ok x
      → IsFew x × (size x.snapshot ≤ hard_cap stored)
  unfolding with_runs
  with_runs-IsFew rid old none a w narrow h e = absurd (cc)
  with_runs-IsFew rid old (some before) none w narrow h e = absurd (cc)
  with_runs-IsFew rid old (some before) (some after) w narrow h e =
      elim (Bool-cases (lifecycle before after)) [
        | inl y ↦
            let used = or_zero (lookup rid old.exception_bytes) in
            tally-IsFew rid used old _ narrow (shorten-tally rid used old before after w)
              (shorten-IsFew rid used old before after w h) (ground (arith, y))
        | inr n ↦ absurd (ground (arith, n))
      ]

  exception-IsFew :
      (rid : Option String) (old : Snapshot) (w : Draft) {x : Draft}
      → Narrow
      → IsFew w
      → exception image_json stored size rid old w ≡ ok x
      → IsFew x × (size x.snapshot ≤ hard_cap stored)
  unfolding exception
  exception-IsFew none old w narrow h e = absurd (cc)
  exception-IsFew (some rid) old w narrow h e =
      with_runs-IsFew rid old (lookup rid old.runs) (lookup rid w.snapshot.runs) w narrow h e

  -- Every draft that gets past the budget.
  abbrev Within : Result (Draft × List (String × Lease)) → Type 0
  Within r =
      (x : Draft) (m : List (String × Lease))
      → r ≡ ok (x, m)
      → IsFew x × (size x.snapshot ≤ hard_cap stored)

  within_budget-Within :
      (rid : Option String) (d : KeyData) (w : Draft) (r : Result (List (String × Lease)))
      → Narrow
      → IsFew w
      → ((m : List (String × Lease)) → r ≡ ok m → size w.snapshot ≤ hard_cap stored)
      → Within (within_budget image_json stored size rid d w r)
  unfolding within_budget
  within_budget-Within rid d w (ok leases) narrow h room x m e = ground (arith, room leases refl, h)
  within_budget-Within rid d w (err z) narrow h room x m e =
      elim (Result-cases (exception image_json stored size rid d.snapshot w)) [
        | inl (y, q) ↦ exception-IsFew rid d.snapshot w narrow h (ground (arith, q))
        | inr (y, q) ↦ absurd (ground (arith, q))
      ]

  written-IsBounded :
      (wrote : Bool) (d : KeyData) (r : Result (Draft × List (String × Lease)))
      → Within r
      → IsBounded stored d.snapshot
      → IsBounded stored (written image_json stored size wrote d r).0.snapshot
  unfolding written
  written-IsBounded wrote d (err e) k h = h
  written-IsBounded false d (ok (w, leases)) k h = h
  written-IsBounded true d (ok (w, leases)) k h =
      let (few, room) = k w leases refl in
      record { bytes = room; few = few.few; tallies = few.tallies }

  -- Whatever snapshot is committed with tallies in bounds, the key's data stays in bounds, also
  -- where the budget is exceeded, the write fails, or the key is broken: its bytes are at most the
  -- hard cap, it keeps at most 256 events, and no run had more than its bound beyond the budget.
  pub commit_bounds :
      (now : ℕ) (wrote : Bool) (rid : Option String) (e : Option Event) (v : Snapshot) (d : KeyData)
      → Narrow
      → All Tallied v.exception_bytes
      → IsBounded stored d.snapshot
      → IsBounded stored (commit_for image_json stored size now wrote rid e v d).0.snapshot
  unfolding commit_for
  commit_bounds now wrote rid e v d narrow t h =
      let w = draft image_json stored size now e d.snapshot v in
      if_ind (λ (x : KeyData × List Event × Result Snapshot). IsBounded stored x.0.snapshot)
        d.broken _ _ h
        (written-IsBounded wrote d _
          (within_budget-Within rid d w _ narrow (draft-IsFew now e d.snapshot v t)
            (λ m y. retained_budget_fits stored d rid (size w.snapshot) h.bytes y))
          h)
