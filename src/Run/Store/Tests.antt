-- ===== src/Run/Store/Tests.antt =====
-- internal/run/store.go: commits and subscriptions of a small store.
use infercat.Common.{
  codes, ℕ, ◌+◌, ◌*◌, ◌^◌, ◌<◌, ◌≡◌, refl, true, false, Option, none, some, [], ◌∷◌, length, arith,
}
use infercat.Run.{Raw, ok, State, queued, running, Run, ImageOutput, image_output}
use infercat.Run.Ending.{lifecycle, without_output}
use infercat.Run.Store.{Snapshot, Event, KeyData, restrict, retained_budget, hard_cap}
use infercat.Run.Store.Commit.{commit_for, fits, exception, shorten, stamp_images, image_events}
use infercat.Run.Store.Commit.Bounds.{IsBounded, commit_bounds}
use infercat.Run.Store.Numbers.{IsNumbered}
use infercat.Run.Store.Numbers.Publish.{news}
use infercat.Run.Store.Subscribe.{after, subscribe, subscribed}
use infercat.Run.Store.Subscribe.Replay.{Replayed}
use infercat.Run.Store.Subscribe.NoGap.{View, commit, here, next, commits, Tracks, no_gap}

abbrev pub no_image : Raw → Option ImageOutput
no_image o = none

abbrev pub small : ℕ
small = 200_000

-- An encoder that writes a hundred bytes for a run and ten for an event.
abbrev pub sizes : Snapshot → ℕ
sizes s = 100 * length s.runs + 10 * length s.events

abbrev pub chat_run : State → Run
chat_run st = record {
  client_request_id = "";
  started = none;
  batch = none;
  id = "r_1";
  key_id = "k_1";
  kind = "chat";
  priority = "interactive";
  state = st;
  created = 10;
  updated = 10;
  expires = 86_400_000_000_010;
  cancel_requested = false;
  reason = "";
  input = codes "{}";
  output = [];
  attempts = [];
}

abbrev said : ℕ → State → Event
said n st = record {
  step = none;
  cursor = some (record { epoch = "e_1"; number = n });
  run_id = "r_1";
  state = some st;
  attempt_id = "";
  time = 10;
  reset = false;
  runs = [];
}

abbrev pub one_run : Snapshot
one_run = record {
  cleanup = [];
  encoded_bytes = 110;
  exception_bytes = [];
  epoch = "e_1";
  seq = 5;
  runs = ("r_1", chat_run queued) ∷ [];
  events = said 4 queued ∷ said 5 queued ∷ [];
  retained = [];
}

abbrev pub key_data : KeyData
key_data = record { snapshot = one_run; broken = false; leases = [] }

abbrev pub changed : Snapshot
changed = record one_run { runs = ("r_1", chat_run running) ∷ [] }

abbrev pub announcement : Option Event
announcement = some (said 0 running)

-- The run's new state is written and announced as number 6.
commit_writes :
    (commit_for no_image small sizes 20 true (some "r_1") announcement changed key_data).1
    ≡ said 6 running ∷ []
unfolding commit_for retained_budget stamp_images image_events image_output
commit_writes = refl

-- A store with no room for anything records the change of state as an exception.
commit_beyond_budget :
    (commit_for no_image 0 sizes 20 true
      (some "r_1")
      announcement
      changed
      key_data).0.snapshot.exception_bytes
    ≡ ("r_1", 20) ∷ []
unfolding commit_for retained_budget stamp_images image_events image_output exception lifecycle fits
    shorten without_output restrict
commit_beyond_budget = refl

replays_after_four : subscribe 30 0 (after "e_1" 4) one_run ≡ ok (said 5 queued ∷ [])
unfolding subscribe
replays_after_four = refl

small-IsBounded : IsBounded small one_run
unfolding hard_cap
small-IsBounded = omega arith

numbered : IsNumbered one_run
numbered = (omega arith, (refl, (refl, tt)))

room : 5 + length (news no_image small sizes 20 announcement one_run changed) < 2 ^ 64
unfolding image_events image_output
room = omega arith

commit_bounds_example :
    IsBounded small
      (commit_for no_image small sizes 20 true
        (some "r_1")
        announcement
        changed
        key_data).0.snapshot
commit_bounds_example =
    commit_bounds no_image small sizes 20 true (some "r_1") announcement changed key_data
      (λ v rid n l h. omega arith) tt small-IsBounded

abbrev start : View
start = record { key = key_data; reader = subscribed (said 5 queued ∷ []) }

abbrev later : View
later = commit no_image small sizes 20 true (some "r_1") announcement changed start

no_gap_example :
    Replayed (after "e_1" 4) one_run (said 5 queued ∷ [])
    × Tracks no_image small sizes "e_1" 5 (said 5 queued ∷ []) later
no_gap_example =
    no_gap no_image small sizes 30 0 (after "e_1" 4) key_data (said 5 queued ∷ []) numbered
      replays_after_four
      (next here (commits 20 true (some "r_1") announcement changed refl refl refl room))
