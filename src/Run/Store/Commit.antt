-- ===== src/Run/Store/Commit.antt =====
-- internal/run/store.go: `commitFor`, the one way in which a key's snapshot is replaced, with the
-- exception by which a change of a run's state is recorded when the budget has no room for it.
pub mod Bounds
pub mod Kept
pub mod New
use Prim.Native.String.{String}
use text.Mathlib.Text.{◌==◌ as str_eq}
use infercat.Common.{
  ℕ, suc, ◌+◌, ◌-◌, ◌%◌, ◌^◌, Bool, true, false, not, ◌&&◌, ◌||◌, Option, none, some, List, [], ◌∷◌,
  ◌++◌, map, if◌then◌else◌, leb, ltb, length, take, drop, ◌==◌,
}
use infercat.Run.{
  Raw, retention, RunError, limit, needs_attention, io_error, Result, ok, err, State, failed,
  terminal, Run, ImageOutput, image_output, stored,
}
use infercat.Run.Ending.{lifecycle, without_output, exhaust}
use infercat.Run.Store.{
  Snapshot, Event, Cursor, KeyData, Lease, Retained, terminal_bound, max_events, lookup, insert,
  remove, has, restrict, hard_cap, retained_budget,
}

-- Entries of runs that are gone go too.
unfoldable pub prune : Snapshot → Snapshot
prune v = record v {
  retained = restrict (has v.runs) v.retained;
  exception_bytes = restrict (has v.runs) v.exception_bytes;
}

-- `v.Seq++` on a `uint64`.
abbrev pub next_number : ℕ → ℕ
next_number n = (n + 1) % 2 ^ 64

unfoldable pub number_events : String → ℕ → List Event → List Event
number_events epoch n [] = []
number_events epoch n (e ∷ es) =
    record e { cursor = some (record { epoch = epoch; number = next_number n }) }
    ∷ number_events epoch (next_number n) es

unfoldable pub advance : ℕ → List Event → ℕ
advance n [] = n
advance n (e ∷ es) = advance (next_number n) es

-- The last 256 events.
unfoldable pub tail_events : List Event → List Event
tail_events es = if ltb max_events (length es) then drop (length es - max_events) es else es

unfoldable pub append_events : List Event → Snapshot → Snapshot
unfolding number_events advance tail_events
append_events es v = record v {
  seq = advance v.seq es;
  events = tail_events (v.events ++ number_events v.epoch v.seq es);
}

abbrev pub blank : String → Option State → ℕ → Event
blank rid st now = record {
  step = none;
  cursor = none;
  run_id = rid;
  state = st;
  attempt_id = "";
  time = now;
  reset = false;
  runs = [];
}

same_bytes : Raw → Raw → Bool
same_bytes [] [] = true
same_bytes [] (_ ∷ _) = false
same_bytes (_ ∷ _) [] = false
same_bytes (a ∷ xs) (b ∷ ys) = a == b && same_bytes xs ys

old_output : Option Run → Raw
old_output none = []
old_output (some r) = r.output

abbrev about : String → Option Event → Bool
about id none = false
about id (some e) = str_eq e.run_id id

module _ (image_json : Raw → Option ImageOutput) (now : ℕ) where
  -- An image whose output changed is stamped, and is announced where the commit's own event does not.
  new_image : List (String × Run) → String → Run → Bool
  unfolding same_bytes old_output
  new_image old id r =
      stored (image_output image_json r) && not (same_bytes r.output (old_output (lookup id old)))

  unfoldable pub stamp_images : List (String × Run) → List (String × Run) → List (String × Run)
  unfolding new_image
  stamp_images old [] = []
  stamp_images old ((id, r) ∷ m) =
      (id, if new_image old id r then record r { updated = now } else r) ∷ stamp_images old m

  unfoldable pub image_events :
      Option Event → List (String × Run) → List (String × Run) → List Event
  unfolding new_image
  image_events e old [] = []
  image_events e old ((id, r) ∷ m) =
      let rest = image_events e old m in
      if new_image old id r && not (about id e) then blank id (some r.state) now ∷ rest else rest

abbrev pub mark : String → Event → Event
mark rid e = if str_eq e.run_id rid then record e { state = some failed } else e

-- The last `k` events, where they are the run's, say that it failed.
unfoldable pub mark_last : ℕ → String → List Event → List Event
mark_last k rid es = take (length es - k) es ++ map (mark rid) (drop (length es - k) es)

-- The oldest events go until the rest fits.
unfoldable pub trim_events : (List Event → Bool) → List Event → List Event
trim_events fits [] = []
trim_events fits (e ∷ es) = let rest = trim_events fits es in if fits (e ∷ es) then e ∷ es else rest

abbrev pub announced : Option Event → List Event → List Event
announced none es = es
announced (some e) es = e ∷ es

abbrev pub ended : Option Run → Bool
ended none = true
ended (some r) = terminal r.state

abbrev pub or_zero : Option ℕ → ℕ
or_zero none = 0
or_zero (some n) = n

abbrev prior_retained :
    String → Option Retained → List (String × Retained) → List (String × Retained)
prior_retained rid none m = remove rid m
prior_retained rid (some h) m = insert rid h m

-- What a commit is about to write, and the events that it announces.
pub record Draft : Type 0 where
  pub snapshot : Snapshot
  pub events : List Event

module _ (image_json : Raw → Option ImageOutput) (stored_max : ℕ) (size : Snapshot → ℕ) where
  unfoldable pub fits : ℕ → ℕ → Snapshot → Snapshot → Bool
  unfolding hard_cap
  fits bound used old v =
      leb (used + (size v - old.encoded_bytes)) bound && leb (size v) (hard_cap stored_max)

  unfoldable pub end_run : String → ℕ → Snapshot → Run → Draft → Draft
  unfolding mark_last trim_events fits remove insert lookup
  end_run rid used old r w =
      let v = w.snapshot in
      let last = record v {
        runs = insert rid (exhaust r) v.runs;
        retained = prior_retained rid (lookup rid old.retained) v.retained;
        events = mark_last (length w.events) rid v.events;
      } in
      record {
        snapshot = record last {
          events =
              trim_events (λ es. fits terminal_bound used old (record last { events = es }))
                last.events;
        };
        events = map (mark rid) w.events;
      }

  -- The draft without the run's new texts, ended if it is still too large.
  unfoldable pub shorten : String → ℕ → Snapshot → Run → Run → Draft → Draft
  unfolding end_run insert
  shorten rid used old before after w =
      let r = without_output image_json before after in
      let v = record w.snapshot {
        runs = insert rid r w.snapshot.runs;
        exception_bytes = insert rid terminal_bound w.snapshot.exception_bytes;
      } in
      let bound = if terminal r.state then terminal_bound else terminal_bound - 512 in
      if fits bound used old v
      then record { snapshot = v; events = w.events }
      else end_run rid used old r (record { snapshot = v; events = w.events })

  -- The tally of what the run has had beyond the budget.
  unfoldable pub tally : String → ℕ → Snapshot → Draft → Result Draft
  unfolding insert
  tally rid used old w =
      let charge = size w.snapshot - old.encoded_bytes in
      if fits terminal_bound used old w.snapshot
      then ok (record w {
        snapshot = record w.snapshot {
          exception_bytes = insert rid (used + charge) w.snapshot.exception_bytes;
        };
      })
      else err limit

  -- Each caller of `commit` that names a run keeps the run that it names, so that where the run was
  -- there before it is there after, and the source's zero Run does not arise.
  unfoldable pub with_runs : String → Snapshot → Option Run → Option Run → Draft → Result Draft
  unfolding tally lookup
  with_runs rid old none after w = err limit
  with_runs rid old (some before) none w = err limit
  with_runs rid old (some before) (some after) w =
      let used = or_zero (lookup rid old.exception_bytes) in
      if lifecycle before after
      then tally rid used old (shorten rid used old before after w)
      else err limit

  -- Only a change of a run's state, or its cancel, is recorded beyond the budget.
  unfoldable pub exception : Option String → Snapshot → Draft → Result Draft
  unfolding with_runs
  exception none old w = err limit
  exception (some rid) old w =
      with_runs rid old (lookup rid old.runs) (lookup rid w.snapshot.runs) w

  -- The draft and the leases that a commit leaves.
  unfoldable pub within_budget :
      Option String
      → KeyData
      → Draft
      → Result (List (String × Lease))
      → Result (Draft × List (String × Lease))
  within_budget rid d w (ok leases) = ok (w, leases)
  within_budget rid d w (err e) = elim (exception rid d.snapshot w) [
    | ok x ↦ ok (x, d.leases)
    | err x ↦ err x
  ]

  unfoldable pub draft : ℕ → Option Event → Snapshot → Snapshot → Draft
  unfolding prune append_events
  draft now e old v =
      let u = prune v in
      let s = record u { runs = stamp_images image_json now old.runs u.runs } in
      let es = announced e (image_events image_json now e old.runs u.runs) in
      record { snapshot = append_events es s; events = number_events s.epoch s.seq es }

  unfoldable pub finished : List (String × Run) → List (String × Lease) → List (String × Lease)
  finished runs [] = []
  finished runs ((rid, l) ∷ m) =
      let rest = finished runs m in
      if ended (lookup rid runs) && not l.late then rest else (rid, l) ∷ rest

  -- What the write of the file makes of it.
  unfoldable pub written :
      Bool
      → KeyData
      → Result (Draft × List (String × Lease))
      → KeyData × List Event × Result Snapshot
  unfolding finished
  written wrote d (err e) = (d, [], err e)
  written false d (ok (w, leases)) = (record d { broken = true }, [], err io_error)
  written true d (ok (w, leases)) =
      let s = record w.snapshot { encoded_bytes = size w.snapshot } in
      (record d { snapshot = s; leases = finished s.runs leases }, w.events, ok s)

  -- `commitFor`: the key's data, the events that are published in order, and the result. `wrote`
  -- says whether the file could be written.
  unfoldable pub commit_for :
      ℕ
      → Bool
      → Option String
      → Option Event
      → Snapshot
      → KeyData
      → KeyData × List Event × Result Snapshot
  unfolding within_budget draft written
  commit_for now wrote rid e v d =
      let w = draft now e d.snapshot v in
      if d.broken
      then (d, [], err needs_attention)
      else written wrote d
          (within_budget rid d w (retained_budget stored_max d rid (size w.snapshot)))
