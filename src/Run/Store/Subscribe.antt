-- ===== src/Run/Store/Subscribe.antt =====
-- internal/run/store.go: `Subscribe` and `publish`: the events that a client missed, and the channel
-- on which it gets those that follow. A closed channel keeps what it holds for its reader.
pub mod Replay
pub mod NoGap
use Prim.Native.String.{String}
use text.Mathlib.Text.{◌==◌ as str_eq}
use infercat.Common.{
  codes, ℕ, zero, suc, ◌+◌, ◌-◌, Bool, true, false, not, ◌&&◌, ◌||◌, Option, none, some, List, [],
  ◌∷◌, ◌++◌, map, if◌then◌else◌, ltb, leb, length, keep,
}
use infercat.Run.{Raw, RunError, limit, invalid, Result, ok, err, Run, ImageOutput}
use infercat.Run.Store.{Snapshot, Event, Cursor, KeyData, Summary, summary}
use infercat.Run.Store.Commit.{commit_for}

-- Go's order of texts, on the code points.
before_codes : List ℕ → List ℕ → Bool
before_codes xs [] = false
before_codes [] (y ∷ ys) = true
before_codes (x ∷ xs) (y ∷ ys) = ltb x y || (leb x y && before_codes xs ys)

insert_summary : Summary → List Summary → List Summary
unfolding before_codes
insert_summary s [] = s ∷ []
insert_summary s (t ∷ ts) =
    let rest = insert_summary s ts in
    if before_codes (codes t.id) (codes s.id) then t ∷ rest else s ∷ t ∷ ts

-- `list` of one key: the summaries of its runs by id.
unfoldable pub list : List (String × Run) → List Summary
unfolding insert_summary
list [] = []
list ((id, r) ∷ m) = insert_summary (summary r) (list m)

-- The cursor that a client sends: empty, no cursor at all, or one that is read.
pub data Asked : Type 0 where
  nothing malformed : Asked
  after : String → ℕ → Asked

unfoldable pub number_of : Event → ℕ
number_of e = elim e.cursor [ none ↦ 0 | some c ↦ c.number ]

-- The event that tells a client to start again from the list of runs.
unfoldable pub reset_event : ℕ → Snapshot → Event
reset_event now v = record {
  step = none;
  cursor = some (record { epoch = v.epoch; number = v.seq });
  run_id = "";
  state = none;
  attempt_id = "";
  time = now;
  reset = true;
  runs = list v.runs;
}

unfoldable pub replay_after : ℕ → Snapshot → Bool → ℕ → List Event
unfolding reset_event number_of
replay_after now v reset n =
    if reset || ltb n (v.seq - length v.events)
    then reset_event now v ∷ []
    else keep (λ e. ltb n (number_of e)) v.events

-- What `Subscribe` replays; `subscribers` is the number of the open channels.
unfoldable pub subscribe : ℕ → ℕ → Asked → Snapshot → Result (List Event)
unfolding replay_after
subscribe now subscribers asked v = if leb 2 subscribers then err limit else elim asked [
  | nothing ↦ ok (replay_after now v true 0)
  | malformed ↦ err invalid
  | after epoch n ↦
      if str_eq epoch v.epoch && ltb v.seq n
      then err invalid
      else ok (replay_after now v (not (str_eq epoch v.epoch)) n)
]

abbrev pub capacity : ℕ
capacity = 32

-- A client's channel, and what the client has read so far, the replay included.
pub record Reader : Type 0 where
  pub open_channel : Bool
  pub buffer : List Event
  pub seen : List Event

unfoldable pub publish : Event → Reader → Reader
publish e r =
    if r.open_channel
    then if ltb (length r.buffer) capacity
      then record r { buffer = r.buffer ++ e ∷ [] }
      else record r { open_channel = false }
    else r

unfoldable pub publish_all : List Event → Reader → Reader
publish_all [] r = r
publish_all (e ∷ es) r = publish_all es (publish e r)

unfoldable pub receive : Reader → Reader
receive r = elim r.buffer [ [] ↦ r | e ∷ es ↦ record r { buffer = es; seen = r.seen ++ e ∷ [] } ]

unfoldable pub stop : Reader → Reader
stop r = record r { open_channel = false }

unfoldable pub subscribed : List Event → Reader
subscribed replay = record { open_channel = true; buffer = []; seen = replay }
