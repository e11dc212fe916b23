-- ===== src/Run/Store/Create.antt =====
-- internal/run/store.go: `createBatch`, the one way in which runs come into being: what it refuses,
-- in the order of its checks, and the one commit that admits the whole batch. The random ids, the
-- test that bytes are JSON and the manager's `admit` are parameters; `load` is Run/Store/Load.
pub mod Counts
pub mod Within
pub mod Whole
pub mod Tests
use Prim.Native.String.{String}
use text.Mathlib.Text.{◌==◌ as str_eq}
use infercat.Common.{
  ℕ, suc, ◌+◌, Bool, true, false, not, ◌&&◌, ◌||◌, ℤ, pos, negsuc, Option, none, some, List, [],
  ◌∷◌, if◌then◌else◌, leb, ltb, length,
}
use infercat.Run.{
  Raw, max_input, max_runs, max_live_key, max_live_host, max_age, RunError, limit, invalid,
  queue_limit, Result, ok, err, State, queued, terminal, is_queued, Batch, Run, ImageOutput,
}
use infercat.Run.Store.{Snapshot, Event, KeyData, lookup, insert}
use infercat.Run.Store.Load.{Host, is_name}
use infercat.Run.Store.Commit.{commit_for, blank}

-- The runs that count against a test.
unfoldable pub tally_runs : (Run → Bool) → List (String × Run) → ℕ
tally_runs p [] = 0
tally_runs p ((id, r) ∷ m) = let rest = tally_runs p m in if p r then suc rest else rest

abbrev pub is_live : Run → Bool
is_live r = not (terminal r.state)

abbrev is_live_image : Run → Bool
is_live_image r = not (terminal r.state) && str_eq r.kind "image"

abbrev pub is_queued_as : String → Run → Bool
is_queued_as kind r = str_eq r.kind kind && is_queued r.state

unfoldable pub live : List (String × Run) → ℕ
unfolding tally_runs
live m = tally_runs is_live m

-- The live runs of every key that is not closed.
unfoldable pub host_live : Host → ℕ
unfolding live
host_live [] = 0
host_live ((key, d) ∷ h) =
    let rest = host_live h in if d.broken then rest else live d.snapshot.runs + rest

-- What the caller asks for; `cap` below zero is no cap.
pub record Ask : Type 0 where
  pub key : String
  pub kind : String
  pub priority : String
  pub inputs : List Raw
  pub cap : ℤ
  pub correlation : List String

abbrev pub beyond : ℤ → ℕ → Bool
beyond (pos cap) n = ltb cap n
beyond (negsuc k) n = false

abbrev is_image : Ask → Bool
is_image a = str_eq a.kind "image"

abbrev known_priority : String → Bool
known_priority p = str_eq p "interactive" || str_eq p "planted"

-- The correlation id, at most one; none where it is refused.
abbrev correlated : List String → Option String
correlated [] = some ""
correlated (c ∷ []) = if is_name 128 c then some c else none
correlated (c ∷ d ∷ cs) = none

-- Go's zero value of a run.
abbrev zero_run : Run
zero_run = record {
  client_request_id = "";
  started = none;
  batch = none;
  id = "";
  key_id = "";
  kind = "";
  priority = "";
  state = queued;
  created = 0;
  updated = 0;
  expires = 0;
  cancel_requested = false;
  reason = "";
  input = [];
  output = [];
  attempts = [];
}

module _ (json_valid : Raw → Bool) where
  unfoldable pub bad_input : String → List Raw → Option RunError
  bad_input priority [] = none
  bad_input priority (i ∷ is) =
      let rest = bad_input priority is in
      if ltb max_input (length i)
      then some limit
      else if not (json_valid i) || not (known_priority priority)
      then some invalid
      else rest

  -- What is refused before the store is looked at.
  unfoldable pub bad_ask : Ask → Option RunError
  unfolding bad_input
  bad_ask a =
      let n = length a.inputs in
      elim (correlated a.correlation) [
        | none ↦ some invalid
        | some c ↦
            if is_image a && ltb max_live_key n
            then some queue_limit
            else if leb n 0 || ltb max_live_key n
            then some limit
            else bad_input a.priority a.inputs
      ]

-- What is refused for the runs that the key has.
unfoldable pub no_room : Ask → List (String × Run) → Option RunError
unfolding tally_runs live
no_room a runs =
    let n = length a.inputs in
    let full = beyond a.cap (tally_runs (is_queued_as a.kind) runs + n) in
    if is_image a && (ltb max_live_key (tally_runs is_live_image runs + n) || full)
    then some queue_limit
    else if ltb max_live_key (live runs + n) || ltb max_runs (length runs + n)
    then some limit
    else if full
    then some queue_limit
    else none

module _ (run_id : ℕ → String) (batch_id : String) (now : ℕ) where
  abbrev new_row : Ask → ℕ → Raw → Run
  new_row a i input = record {
    client_request_id = elim (correlated a.correlation) [ none ↦ "" | some c ↦ c ];
    started = none;
    batch =
        if is_image a
        then some (record { id = batch_id; index = i; count = length a.inputs })
        else none;
    id = run_id i;
    key_id = a.key;
    kind = a.kind;
    priority = a.priority;
    state = queued;
    created = now + i;
    updated = now;
    expires = now + max_age;
    cancel_requested = false;
    reason = "";
    input = input;
    output = [];
    attempts = [];
  }

  unfoldable pub new_rows : Ask → ℕ → List Raw → List Run
  new_rows a i [] = []
  new_rows a i (input ∷ inputs) = new_row a i input ∷ new_rows a (suc i) inputs

-- `next.Runs[r.ID] = r`, one after the other.
unfoldable pub add_rows : List Run → List (String × Run) → List (String × Run)
unfolding insert
add_rows [] m = m
add_rows (r ∷ rs) m = add_rows rs (insert r.id r m)

abbrev or_zero_run : Option Run → Run
or_zero_run none = zero_run
or_zero_run (some r) = r

unfoldable pub read_rows : List Run → List (String × Run) → List Run
unfolding lookup
read_rows [] m = []
read_rows (r ∷ rs) m = or_zero_run (lookup r.id m) ∷ read_rows rs m

abbrev pub first_id : List Run → String
first_id [] = ""
first_id (r ∷ rs) = r.id

-- `admit`: the manager's state with the rows reserved, and what takes that back.
abbrev pub Admit {ℓ} : Type ℓ → Type ℓ
Admit W = List Run → W → Result (W × (W → W))

-- The caller that gives no `admit`.
abbrev pub no_admit {ℓ} : {W : Type ℓ} → Admit W
no_admit rows w = ok (w, λ v. v)

pub record Created {ℓ} (W : Type ℓ) : Type ℓ where
  pub host : Host
  pub world : W
  pub events : List Event
  pub rows : Result (List Run)

abbrev pub turned_away {ℓ} : {W : Type ℓ} → Host → W → RunError → Created W
turned_away h w e = record { host = h; world = w; events = []; rows = err e }

module _ {ℓ} {W : Type ℓ} (image_json : Raw → Option ImageOutput) (stored : ℕ) (size : Snapshot → ℕ)
    (json_valid : Raw → Bool) (run_id : ℕ → String) (batch_id : String) (now : ℕ) (wrote : Bool)
    (admit : Admit W) where
  -- A commit that failed takes back what was reserved.
  unfoldable pub settled :
      String → Host → W → (W → W) → List Run → KeyData × List Event × Result Snapshot → Created W
  unfolding insert read_rows
  settled key h w back rows (d, es, err e) = record {
    host = insert key d h;
    world = back w;
    events = es;
    rows = err e;
  }
  settled key h w back rows (d, es, ok s) = record {
    host = insert key d h;
    world = w;
    events = es;
    rows = ok (read_rows rows s.runs);
  }

  unfoldable pub reserved : Ask → KeyData → Host → W → List Run → Result (W × (W → W)) → Created W
  unfolding settled host_live add_rows commit_for
  reserved a d h w rows (err e) = turned_away h w e
  reserved a d h w rows (ok (v, back)) =
      let next = record d.snapshot { runs = add_rows rows d.snapshot.runs } in
      if ltb max_live_host (host_live h + length a.inputs)
      then turned_away h (back v) limit
      else settled a.key h v back rows (
          commit_for image_json stored size now wrote (some (first_id rows))
            (some (blank (first_id rows) (some queued) now)) next d)

  unfoldable pub with_room : Ask → KeyData → Host → W → List Run → Option RunError → Created W
  unfolding reserved
  with_room a d h w rows (some e) = turned_away h w e
  with_room a d h w rows none = reserved a d h w rows (admit rows w)

  unfoldable pub in_key : Ask → W → Result KeyData × Host → Created W
  unfolding no_room new_rows with_room
  in_key a w (err e, h) = turned_away h w e
  in_key a w (ok d, h) =
      with_room a d h w (new_rows run_id batch_id now a 0 a.inputs) (no_room a d.snapshot.runs)

  unfoldable pub asked :
      (String → Host → Result KeyData × Host) → Ask → Host → W → Option RunError → Created W
  unfolding in_key
  asked load a h w (some e) = turned_away h w e
  asked load a h w none = in_key a w (load a.key h)

  -- `createBatch`; `load` brings the key into memory.
  unfoldable pub create_batch : (String → Host → Result KeyData × Host) → Ask → Host → W → Created W
  unfolding bad_ask asked
  create_batch load a h w = asked load a h w (bad_ask json_valid a)
