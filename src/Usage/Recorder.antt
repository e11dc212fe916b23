-- ===== src/Usage/Recorder.antt =====
-- internal/usage/recorder.go: the bounded queue of usage events in front of one writer, which drops
-- rather than waits. The channel is a list of at most 1024 events; an event that does not encode is
-- logged and left out, which `encodes` says; a drop is one step, though its counter and its warning
-- are two atomic variables.
pub mod Books
pub mod Drains
pub mod Tests
use infercat.Common.{
  ℕ, zero, suc, ◌+◌, ◌/◌, Bool, true, false, Option, none, some, List, [], ◌∷◌, ◌++◌, if◌then◌else◌,
  leb, ltb, length,
}
use infercat.Usage.Stats.{Event}

abbrev pub buffered_events : ℕ
buffered_events = 1024

pub data Why : Type 0 where
  is_closed disk_cannot_keep_up : Why

-- A line of the log: how many events were dropped so far, why, and when in seconds.
pub record Warning : Type 0 where
  pub dropped : ℕ
  pub why : Why
  pub at : ℕ

-- Where the writer's loop stands: waiting for an event, draining the queue, or gone.
pub data Writer : Type 0 where
  waits drains ended : Writer

pub record FileRecorder : Type 0 where
  pub queue : List Event  -- `ch`
  pub closed : Bool
  pub dropped : ℕ
  pub warned : ℕ
  pub warnings : List Warning  -- the last first
  pub writer : Writer
  pub written : List Event  -- what `w` was given
  pub flushed : List Event  -- what is in the file

unfoldable pub new_file_recorder : FileRecorder
new_file_recorder = record {
  queue = [];
  closed = false;
  dropped = 0;
  warned = 0;
  warnings = [];
  writer = waits;
  written = [];
  flushed = [];
}

-- `drop`, at a time in seconds.
unfoldable pub drop_event : ℕ → Why → FileRecorder → FileRecorder
drop_event now why r =
    let n = suc r.dropped in
    if leb (r.warned + 10) now
    then record r {
      dropped = n;
      warned = now;
      warnings = record { dropped = n; why = why; at = now } ∷ r.warnings;
    }
    else record r { dropped = n }

-- `Record` of an event whose time is set: the clock's, where it had none.
unfoldable pub record_event : ℕ → Event → FileRecorder → FileRecorder
unfolding drop_event
record_event now e r =
    if r.closed
    then drop_event now is_closed r
    else if ltb (length r.queue) buffered_events
    then record r { queue = r.queue ++ e ∷ [] }
    else drop_event now disk_cannot_keep_up r

abbrev or_now : ℕ → Option ℕ → ℕ
or_now now none = now
or_now now (some t) = t

abbrev pub second : ℕ
second = 1_000_000_000

-- `Record`, with the event's own time, and the clock's in nanoseconds.
unfoldable pub record_at : ℕ → Option ℕ → Event → FileRecorder → FileRecorder
record_at now ts e r = record_event (now / second) (record e { ts = or_now now ts }) r

module _ (encodes : Event → Bool) where
  -- `write`
  unfoldable pub write : Event → FileRecorder → FileRecorder
  write e r = if encodes e then record r { written = r.written ++ e ∷ [] } else r

  flush : FileRecorder → FileRecorder
  flush r = record r { flushed = r.written }

  -- One turn of the writer's loop; a writer that waits on an empty, open queue stays where it is.
  unfoldable pub turn_at : Writer → List Event → FileRecorder → FileRecorder
  unfolding write flush
  turn_at ended q r = r
  turn_at waits (e ∷ es) r = write e (record r { queue = es; writer = drains })
  turn_at waits [] r = if r.closed then flush (record r { writer = ended }) else r
  turn_at drains (e ∷ es) r = write e (record r { queue = es })
  turn_at drains [] r = flush (record r { writer = if r.closed then ended else waits })

  unfoldable pub turn : FileRecorder → FileRecorder
  unfolding turn_at
  turn r = turn_at r.writer r.queue r

  -- So many turns, or fewer where the writer ends.
  unfoldable pub turns : ℕ → FileRecorder → FileRecorder
  turns zero r = r
  turns (suc n) r = turns n (turn r)

-- The first part of `Close`, before it waits for the writer; a second call does nothing.
unfoldable pub close : FileRecorder → FileRecorder
close r = record r { closed = true }
