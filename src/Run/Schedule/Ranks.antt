-- ===== src/Run/Schedule/Ranks.antt =====
-- internal/run/manager.go: the positions that `acquiredPosition` leaves are those of the line without
-- the run that has its slot.
use Prim.Native.String.{String}
use text.Mathlib.Text.{◌==◌ as str_eq}
use text.Mathlib.TextEquality.{eq_iff}
use infercat.Common.{
  ℕ, suc, ◌≤◌, ◌≡◌, refl, sym, subst, ◌∙◌, ap, false, not, none, List, [], ◌∷◌, All, keep,
  Bool-cases, inl, inr, arith,
}
use infercat.Run.{Run}
use infercat.Run.Store.{lookup, remove}
use infercat.Run.Schedule.{ranks_from, ranks, position, lower, acquired_position}

-- No id stands twice in a line.
abbrev pub IsDistinct : List Run → Type 0
IsDistinct [] = Unit
IsDistinct (r ∷ rows) = All (λ (s : Run). str_eq s.id r.id ≡ false) rows × IsDistinct rows

abbrev pub without : String → List Run → List Run
without rid rows = keep (λ r. not (str_eq r.id rid)) rows

-- The positions of a line in which no id stands twice.
plain : ℕ → List Run → List (String × ℕ)
plain n [] = []
plain n (r ∷ rows) = (r.id, suc n) ∷ plain (suc n) rows

abbrev Absent : String → List Run → Type 0
Absent rid rows = All (λ (s : Run). str_eq s.id rid ≡ false) rows

lookup-plain-Absent :
    (rid : String) (n : ℕ) (rows : List Run) → Absent rid rows → lookup rid (plain n rows) ≡ none
unfolding lookup plain
lookup-plain-Absent rid n [] a = refl
lookup-plain-Absent rid n (r ∷ rows) a = ground (arith, lookup-plain-Absent rid (suc n) rows a.1)

remove-plain-Absent :
    (rid : String) (n : ℕ) (rows : List Run)
    → Absent rid rows
    → remove rid (plain n rows) ≡ plain n rows
unfolding remove plain
remove-plain-Absent rid n [] a = refl
remove-plain-Absent rid n (r ∷ rows) a = ground (arith, remove-plain-Absent rid (suc n) rows a.1)

without-Absent : (rid : String) (rows : List Run) → Absent rid rows → without rid rows ≡ rows
without-Absent rid [] a = refl
without-Absent rid (r ∷ rows) a = ground (arith, without-Absent rid rows a.1)

lower-plain :
    (rank n : ℕ) (rows : List Run) → rank ≤ suc n → lower rank (plain (suc n) rows) ≡ plain n rows
unfolding lower plain
lower-plain rank n [] l = refl
lower-plain rank n (r ∷ rows) l = ground (arith, lower-plain rank (suc n) rows)

-- A place in the line is zero or behind those before it.
position-plain :
    (rid : String) (n : ℕ) (rows : List Run)
    → 1 ≤ position rid (plain n rows)
    → suc n ≤ position rid (plain n rows)
unfolding lookup plain
position-plain rid n [] l = absurd (omega arith)
position-plain rid n (r ∷ rows) l = ground (arith, position-plain rid (suc n) rows)

ranks_from-plain : (n : ℕ) (rows : List Run) → IsDistinct rows → ranks_from n rows ≡ plain n rows
unfolding ranks_from plain
ranks_from-plain n [] d = refl
ranks_from-plain n (r ∷ rows) d =
    ground (arith, ranks_from-plain (suc n) rows d.1, lookup-plain-Absent r.id (suc n) rows d.0)

acquired-plain :
    (rid : String) (n : ℕ) (rows : List Run)
    → IsDistinct rows
    → acquired_position rid (plain n rows) ≡ plain n (without rid rows)
unfolding acquired_position plain lookup remove lower
acquired-plain rid n [] d = refl
acquired-plain rid n (r ∷ rows) d = elim (Bool-cases (str_eq r.id rid)) [
  | inl y ↦
      let a : Absent rid rows = subst (λ id. Absent id rows) ((eq_iff r.id rid).0 y) d.0 in
      ground (
        arith,
        y,
        remove-plain-Absent rid (suc n) rows a,
        lower-plain (suc n) n rows,
        without-Absent rid rows a,
      )
  | inr y ↦ ground (arith, y, acquired-plain rid (suc n) rows d.1, position-plain rid (suc n) rows)
]

without-IsAbsent :
    (rid id : String) (rows : List Run) → Absent id rows → Absent id (without rid rows)
without-IsAbsent rid id [] a = tt
without-IsAbsent rid id (r ∷ rows) a = ground (arith, without-IsAbsent rid id rows a.1)

without-IsDistinct :
    (rid : String) (rows : List Run) → IsDistinct rows → IsDistinct (without rid rows)
without-IsDistinct rid [] d = tt
without-IsDistinct rid (r ∷ rows) d =
    ground (arith, without-IsDistinct rid rows d.1, without-IsAbsent rid r.id rows d.0)

-- Once a run has its slot, the positions that are left are those of the line without it, where no
-- id stands twice in the line: the runs before it keep their places and those behind move up by one.
pub acquired-ranks :
    (rid : String) (rows : List Run)
    → IsDistinct rows
    → acquired_position rid (ranks rows) ≡ ranks (without rid rows)
acquired-ranks rid rows d =
    ap (acquired_position rid) (ranks_from-plain 0 rows d)
    ∙ acquired-plain rid 0 rows d
    ∙ sym (ranks_from-plain 0 (without rid rows) (without-IsDistinct rid rows d))
