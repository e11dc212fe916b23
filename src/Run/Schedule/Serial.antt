-- ===== src/Run/Schedule/Serial.antt =====
-- internal/run/manager.go: a kind whose runs are served one at a time has one execution at most, and
-- the run that `schedule` starts is the first in its line.
use Prim.Native.String.{String}
use text.Mathlib.Text.{◌==◌ as str_eq}
use text.Mathlib.TextEquality.{eq_iff}
use infercat.Common.{
  ℕ, ◌+◌, ◌≤◌, ◌≡◌, refl, Bool, true, false, List, [], ◌∷◌, All, keep, ◌⊎◌, subst, sym, inl, inr,
  arith, if◌then◌else◌, ltb→ge, if_ind, if_split, ltb, ◌||◌, ◌&&◌,
}
use infercat.Run.{Run, is_queued}
use infercat.Run.Store.{insert}
use infercat.Run.Schedule.{
  before, insert_row, sort_rows, queued_rows, ranks, Lines, active_of, start_first, schedule,
}

active_of-insert :
    (kind rid k : String) (m : List (String × String))
    → active_of kind (insert rid k m) ≤ active_of kind m + 1
unfolding active_of insert
active_of-insert kind rid k [] = ground arith
active_of-insert kind rid k ((j, x) ∷ m) = ground (arith, active_of-insert kind rid k m)

start_first-active :
    (kind : String) (rows : List Run) (m : Lines)
    → active_of kind (start_first rows m).active ≤ active_of kind m.active + 1
unfolding start_first
start_first-active kind [] m = omega arith
start_first-active kind (r ∷ rows) m = active_of-insert kind r.id r.kind m.active

-- Every other row of the line does not come before the first.
abbrev pub Leads : List Run → Type 0
Leads [] = Unit
Leads (r ∷ rows) = All (λ (s : Run). before s r ≡ false) rows

abbrev is_interactive : Run → Bool
is_interactive r = str_eq r.priority "interactive"

abbrev waits : String → Run → Bool
waits kind r = str_eq r.kind kind && is_queued r.state

module _ {κ} (P : Run → Type κ) where
  All-insert_row : (r : Run) (rows : List Run) → P r → All P rows → All P (insert_row r rows)
  unfolding insert_row
  All-insert_row r [] p a = (p, tt)
  All-insert_row r (s ∷ rows) p a =
      if_ind (All P) (before s r) (s ∷ insert_row r rows) (r ∷ s ∷ rows)
        (a.0, All-insert_row r rows p a.1) (p, (a.0, a.1))

  All-sort_rows : (rows : List Run) → All P rows → All P (sort_rows rows)
  unfolding sort_rows
  All-sort_rows [] a = tt
  All-sort_rows (r ∷ rows) a = All-insert_row r (sort_rows rows) a.0 (All-sort_rows rows a.1)

  insert_row-All : (r : Run) (rows : List Run) → All P (insert_row r rows) → P r × All P rows
  unfolding insert_row
  insert_row-All r [] = λ a. a
  insert_row-All r (s ∷ rows) =
      if_ind (λ l. All P l → P r × (P s × All P rows)) (before s r) (s ∷ insert_row r rows)
        (r ∷ s ∷ rows) (λ a. let (x, y) = insert_row-All r rows a.1 in (x, (a.0, y))) (λ a. a)

  sort_rows-All : (rows : List Run) → All P (sort_rows rows) → All P rows
  unfolding sort_rows
  sort_rows-All [] a = tt
  sort_rows-All (r ∷ rows) a =
      let (x, y) = insert_row-All r (sort_rows rows) a in (x, sort_rows-All rows y)

  keep-All :
      (p : Run → Bool) (runs : List Run) → All P (keep p runs) → All (λ r. p r ≡ true → P r) runs
  keep-All p [] = λ a. tt
  keep-All p (r ∷ runs) =
      if_split (λ l. All P l → (p r ≡ true → P r) × All (λ s. p s ≡ true → P s) runs) (p r)
        (r ∷ keep p runs) (keep p runs) (λ y a. ((λ z. a.0), keep-All p runs a.1))
        (λ y a. ((λ z. absurd (ground (arith, y, z))), keep-All p runs a))

All-keep : (p : Run → Bool) (runs : List Run) → All (λ r. p r ≡ true) (keep p runs)
All-keep p [] = tt
All-keep p (r ∷ runs) =
    if_split (All (λ s. p s ≡ true)) (p r) (r ∷ keep p runs) (keep p runs)
      (λ y. (y, All-keep p runs)) (λ y. All-keep p runs)

abbrev Plain : Run → Type 0
Plain r = is_interactive r ≡ false

-- The first of a line is interactive if any run of it is.
abbrev Head : List Run → Type 0
Head [] = Unit
Head (r ∷ rows) = is_interactive r ≡ false → All Plain rows

before-Plain : (r s : Run) → before s r ≡ true → Plain s → Plain r
unfolding before
before-Plain r s y n = ground (arith, y, n, eq_iff s.priority r.priority)

behind-Plain : (r s : Run) → before s r ≡ false → Plain r → Plain s
unfolding before
behind-Plain r s y n = ground (arith, y, n, eq_iff s.priority r.priority)

insert_row-Head : (r : Run) (rows : List Run) → Head rows → Head (insert_row r rows)
unfolding insert_row
insert_row-Head r [] h = λ n. tt
insert_row-Head r (s ∷ rows) h =
    if_split Head (before s r) (s ∷ insert_row r rows) (r ∷ s ∷ rows)
      (λ y n. All-insert_row Plain r rows (before-Plain r s y n) (h n))
      (λ y n. let m = behind-Plain r s y n in (m, h m))

sort_rows-Head : (rows : List Run) → Head (sort_rows rows)
unfolding sort_rows
sort_rows-Head [] = tt
sort_rows-Head (r ∷ rows) = insert_row-Head r (sort_rows rows) (sort_rows-Head rows)

-- A run that was started is a queued one of the kind; it is interactive if any of them is.
pub record IsNext (kind : String) (runs : List Run) (r : Run) : Type 0 where
  pub queued : waits kind r ≡ true
  pub first : is_interactive r ≡ false → All (λ s. waits kind s ≡ true → Plain s) runs

-- What `schedule` does to the executions.
abbrev pub Started : String → List Run → Lines → Lines → Type 0
Started kind runs m n =
    (n.active ≡ m.active)
    ⊎ ((r : Run) × (n.active ≡ insert r.id r.kind m.active)
        × (active_of kind m.active ≡ 0)
        × IsNext kind runs r)

module _ (kind : String) (runs : List Run) where
  queued_rows-wait : All (λ s. waits kind s ≡ true) (queued_rows kind runs)
  unfolding queued_rows
  queued_rows-wait =
      All-sort_rows (λ s. waits kind s ≡ true) (keep (waits kind) runs) (All-keep (waits kind) runs)

  queued_rows-Head : Head (queued_rows kind runs)
  unfolding queued_rows
  queued_rows-Head = sort_rows-Head (keep (waits kind) runs)

  queued_rows-Plain :
      All Plain (queued_rows kind runs) → All (λ s. waits kind s ≡ true → Plain s) runs
  unfolding queued_rows
  queued_rows-Plain a =
      keep-All Plain (waits kind) runs (sort_rows-All Plain (keep (waits kind) runs) a)

  first-IsNext : (r : Run) (rows : List Run) → queued_rows kind runs ≡ r ∷ rows → IsNext kind runs r
  first-IsNext r rows e =
      let head = subst Head e queued_rows-Head in
      record {
        queued = (subst (All (λ s. waits kind s ≡ true)) e queued_rows-wait).0;
        first = λ n. queued_rows-Plain (subst (All Plain) (sym e) (n, head n));
      }

  start_first-Started :
      (m : Lines) (rows : List Run) (p : List (String × List (String × ℕ)))
      → queued_rows kind runs ≡ rows
      → active_of kind m.active ≡ 0
      → Started kind runs m (start_first rows (record m { positions = p }))
  unfolding start_first
  start_first-Started m [] p e z = inl refl
  start_first-Started m (r ∷ rows) p e z = inr (r, refl, z, first-IsNext r rows e)

-- A kind with at most one execution has at most one after `schedule`. What `schedule` starts, it
-- starts only where the kind has no execution: one run, which is a queued run of the kind, and
-- interactive if any queued run of the kind is.
pub schedule_serial :
    (unavailable : Bool) (kind : String) (runs : List Run) (m : Lines)
    → active_of kind m.active ≤ 1
    → (active_of kind (schedule unavailable kind runs m).active ≤ 1)
      × Started kind runs m (schedule unavailable kind runs m)
unfolding schedule
schedule_serial unavailable kind runs m one =
    let rows = queued_rows kind runs in
    let p = insert kind (ranks rows) m.positions in
    let next = record m { positions = p } in
    let Good : Lines → Type 0 = λ n. (active_of kind n.active ≤ 1) × Started kind runs m n in
    if_ind Good (m.stopped || unavailable) m
      (if ltb 0 (active_of kind m.active) then next else start_first rows next) (one, inl refl)
      (if_split Good (ltb 0 (active_of kind m.active)) next (start_first rows next)
        (λ y. (one, inl refl))
        (λ y. (
          omega (arith, start_first-active kind rows next, ltb→ge 0 (active_of kind m.active) y),
          start_first-Started kind runs m rows p refl (ground (arith, y)),
        )))
