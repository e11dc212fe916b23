-- ===== src/Run/Store/Load.antt =====
-- internal/run/store.go: `load`, by which a key's file comes into memory: what it refuses, and when it
-- leaves the key closed. The bytes of the file and what the JSON decoder makes of them are
-- parameters; the decoder answers none also for a state that is none of the six, and for `runs` that
-- are null. The store has not been told to recover, and the texts of `safeID` are ASCII.
pub mod Found
use Prim.Native.String.{String}
use text.Mathlib.Text.{◌==◌ as str_eq}
use infercat.Common.{
  ℕ, suc, ◌+◌, ◌-◌, Bool, true, false, not, ◌&&◌, ◌||◌, Option, none, some, List, [], ◌∷◌, codes,
  if◌then◌else◌, ◌==◌, leb, ltb, length,
}
use infercat.Run.{
  Raw, max_runs, retention, limit, invalid, io_error, needs_attention, Result, ok, err, State,
  failed, terminal, Run,
}
use infercat.Run.Ending.{or_dropped}
use infercat.Run.Store.{
  Snapshot, Event, Cursor, KeyData, Retained, terminal_bound, max_events, lookup, insert, has,
  hard_cap,
}
use infercat.Run.Store.Commit.{next_number}

-- The keys that are in memory.
abbrev pub Host : Type 0
Host = List (String × KeyData)

abbrev pub is_word : ℕ → Bool
is_word c =
    leb b'a' c && leb c b'z'
    || leb b'A' c && leb c b'Z'
    || leb b'0' c && leb c b'9'
    || c == b'_'
    || c == b'-'

abbrev all_words : List ℕ → Bool
all_words [] = true
all_words (c ∷ cs) = is_word c && all_words cs

-- A text of one to `most` word characters: `safeID` and `correlationID`.
abbrev pub is_name : ℕ → String → Bool
is_name most s = let n = length (codes s) in leb 1 n && leb n most && all_words (codes s)

abbrev pub safe_id : String → Bool
safe_id s = is_name 80 s

abbrev is_cursor : String → ℕ → Option Cursor → Bool
is_cursor epoch n none = false
is_cursor epoch n (some c) = str_eq c.epoch epoch && c.number == n

abbrev has_state : Option State → Bool
has_state none = false
has_state (some st) = true

-- The events have the numbers that follow `n`.
abbrev check_events : String → ℕ → List Event → Bool
check_events epoch n [] = true
check_events epoch n (e ∷ es) =
    is_cursor epoch (suc n) e.cursor
    && safe_id e.run_id
    && has_state e.state
    && check_events epoch (suc n) es

abbrev check_runs : String → List (String × Run) → Bool
check_runs key [] = true
check_runs key ((rid, r) ∷ m) =
    str_eq rid r.id && str_eq r.key_id key && safe_id rid && check_runs key m

abbrev check_tallies : List (String × Run) → List (String × ℕ) → Bool
check_tallies runs [] = true
check_tallies runs ((rid, used) ∷ m) =
    has runs rid && leb used terminal_bound && check_tallies runs m

abbrev check_retained : List (String × Run) → List (String × Retained) → Bool
check_retained runs [] = true
check_retained runs ((rid, h) ∷ m) = has runs rid && check_retained runs m

unfoldable pub is_valid : String → Snapshot → Bool
is_valid key v =
    safe_id v.epoch
    && leb (length v.runs) max_runs
    && leb (length v.events) max_events
    && leb (length v.events) v.seq
    && check_events v.epoch (v.seq - length v.events) v.events
    && check_runs key v.runs
    && check_tallies v.runs v.exception_bytes
    && check_retained v.runs v.retained

-- The images to unlink belong to runs that are gone.
unfoldable pub check_cleanup : List (String × Run) → List String → Bool
check_cleanup runs [] = true
check_cleanup runs (rid ∷ ids) = safe_id rid && not (has runs rid) && check_cleanup runs ids

-- What a failed run would look like, for want of bytes.
abbrev doomed : ℕ → Run → Run
doomed now r = record r {
  state = failed;
  reason = "storage exhausted";
  updated = now;
  expires = now + retention;
  output = or_dropped r.output;
}

unfoldable pub probe : ℕ → String → Run → Snapshot → Snapshot
unfolding insert or_dropped
probe now rid r v = record v {
  runs = insert rid (doomed now r) v.runs;
  events = [];
  seq = next_number v.seq;
}

module _ (stored : ℕ) (size : Snapshot → ℕ) (now : ℕ) where
  -- Whether a live run, with `used` bytes beyond the budget, could no longer be failed.
  unfoldable pub is_stuck : Snapshot → String → ℕ → Option Run → Bool
  unfolding probe hard_cap
  is_stuck v rid used none = false
  is_stuck v rid used (some r) =
      let n = size (probe now rid r v) in
      not (terminal r.state || leb 512 (terminal_bound - used))
      && (ltb terminal_bound (used + (n - v.encoded_bytes)) || ltb (hard_cap stored) n)

  unfoldable pub any_stuck : Snapshot → List (String × ℕ) → Bool
  unfolding is_stuck lookup
  any_stuck v [] = false
  any_stuck v ((rid, used) ∷ m) = is_stuck v rid used (lookup rid v.runs) || any_stuck v m

  abbrev pub entry : Snapshot → Bool → KeyData
  entry v broken = record { snapshot = v; broken = broken; leases = [] }

  abbrev pub sized : Snapshot → Snapshot
  sized v = if v.encoded_bytes == 0 then record v { encoded_bytes = size v } else v

  -- A key that needs the operator's attention is closed.
  unfoldable pub take_in : String → Host → Snapshot → Result KeyData × Host
  unfolding any_stuck check_cleanup insert
  take_in key h u =
      let v = sized u in
      if any_stuck v v.exception_bytes
      then (err needs_attention, insert key (entry v true) h)
      else if check_cleanup v.runs v.cleanup
      then (ok (entry v false), insert key (entry v false) h)
      else (err invalid, h)

  abbrev pub fresh : String → Snapshot
  fresh epoch = record {
    cleanup = [];
    encoded_bytes = 0;
    exception_bytes = [];
    epoch = epoch;
    seq = 0;
    runs = [];
    events = [];
    retained = [];
  }

  unfoldable pub decoded : String → Host → ℕ → Option Snapshot → Result KeyData × Host
  unfolding take_in is_valid
  decoded key h bytes none = (err io_error, h)
  decoded key h bytes (some v) =
      if is_valid key v
      then take_in key h (record v { encoded_bytes = bytes })
      else (err invalid, h)

  module _ (decode : String → Raw → Option Snapshot) (epoch : String) where
    unfoldable pub opened : String → Host → Result (Option Raw) → Result KeyData × Host
    unfolding decoded take_in hard_cap
    opened key h (err e) = (err e, h)
    opened key h (ok none) = take_in key h (fresh epoch)
    opened key h (ok (some raw)) =
        if ltb (hard_cap stored) (length raw)
        then (err limit, h)
        else decoded key h (length raw) (decode epoch raw)

    unfoldable pub in_memory : KeyData → Host → Result KeyData × Host
    in_memory d h = (if d.broken then err needs_attention else ok d, h)

    unfoldable pub looked :
        (String → Result (Option Raw)) → String → Host → Option KeyData → Result KeyData × Host
    unfolding opened in_memory
    looked read key h none = opened key h (read key)
    looked read key h (some d) = in_memory d h

    -- `read` is what the file system answers: none if there is no file.
    unfoldable pub load : (String → Result (Option Raw)) → String → Host → Result KeyData × Host
    unfolding looked lookup
    load read key h = if safe_id key then looked read key h (lookup key h) else (err invalid, h)
