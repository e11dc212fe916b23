-- ===== src/Run/Schedule.antt =====
-- internal/run/manager.go: the order in which the queued runs of a kind are served, their positions,
-- and `schedule`, which starts the next one of a serial kind. The goroutine that `start` begins is
-- not modelled; of an execution there is its run and its kind. The rows of `queued` come from an
-- insertion sort in place of `sort.Slice`; the order leaves no two runs of different ids equal.
pub mod Ranks
pub mod Serial
pub mod Tests
use Prim.Native.String.{String, compare}
use text.Mathlib.Text.{◌==◌ as str_eq, is_lt}
use infercat.Common.{
  ℕ, suc, ◌+◌, ◌-◌, Bool, true, false, not, ◌&&◌, ◌||◌, Option, none, some, List, [], ◌∷◌, keep,
  if◌then◌else◌, ◌==◌, ltb,
}
use infercat.Run.{Run, is_queued}
use infercat.Run.Store.{lookup, insert, remove, has}

-- Whether a run comes before another: by priority, then by age, then by id.
unfoldable pub before : Run → Run → Bool
before a b =
    if not (str_eq a.priority b.priority)
    then str_eq a.priority "interactive"
    else if a.created == b.created
    then is_lt (compare a.id b.id)
    else ltb a.created b.created

unfoldable pub insert_row : Run → List Run → List Run
insert_row r [] = r ∷ []
insert_row r (s ∷ rows) =
    let rest = insert_row r rows in if before s r then s ∷ rest else r ∷ s ∷ rows

unfoldable pub sort_rows : List Run → List Run
unfolding insert_row
sort_rows [] = []
sort_rows (r ∷ rows) = insert_row r (sort_rows rows)

-- `queued`, of the runs that the store has.
unfoldable pub queued_rows : String → List Run → List Run
unfolding sort_rows
queued_rows kind runs = sort_rows (keep (λ r. str_eq r.kind kind && is_queued r.state) runs)

-- The positions of rows, the first of which is at `n + 1`; the last row of an id has its place.
unfoldable pub ranks_from : ℕ → List Run → List (String × ℕ)
unfolding lookup
ranks_from n [] = []
ranks_from n (r ∷ rows) =
    let rest = ranks_from (suc n) rows in if has rest r.id then rest else (r.id, suc n) ∷ rest

abbrev pub ranks : List Run → List (String × ℕ)
ranks rows = ranks_from 0 rows

abbrev pub rank_of : Option ℕ → ℕ
rank_of none = 0
rank_of (some p) = p

abbrev pub position : String → List (String × ℕ) → ℕ
position rid ps = rank_of (lookup rid ps)

unfoldable pub lower : ℕ → List (String × ℕ) → List (String × ℕ)
lower rank [] = []
lower rank ((id, p) ∷ ps) = (id, if ltb rank p then p - 1 else p) ∷ lower rank ps

-- `acquiredPosition`: a run that has its slot leaves the line, and the later ones move up.
unfoldable pub acquired_position : String → List (String × ℕ) → List (String × ℕ)
unfolding lower remove lookup
acquired_position rid ps =
    let rank = position rid ps in if rank == 0 then ps else lower rank (remove rid ps)

-- What the manager has of its lines; an execution is its run's id and its kind.
pub record Lines : Type 0 where
  pub stopped : Bool
  pub positions : List (String × List (String × ℕ))
  pub active : List (String × String)

unfoldable pub active_of : String → List (String × String) → ℕ
active_of kind [] = 0
active_of kind ((rid, k) ∷ m) =
    let rest = active_of kind m in if str_eq k kind then suc rest else rest

unfoldable pub start_first : List Run → Lines → Lines
unfolding insert
start_first [] m = m
start_first (r ∷ rows) m = record m { active = insert r.id r.kind m.active }

-- `schedule`; `unavailable` is what `availability` answers for the kind.
unfoldable pub schedule : Bool → String → List Run → Lines → Lines
unfolding queued_rows ranks_from active_of start_first insert
schedule unavailable kind runs m =
    let rows = queued_rows kind runs in
    let next = record m { positions = insert kind (ranks rows) m.positions } in
    if m.stopped || unavailable
    then m
    else if ltb 0 (active_of kind m.active)
    then next
    else start_first rows next
