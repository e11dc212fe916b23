-- ===== src/Run/Store/Numbers.antt =====
-- internal/run/store.go: the numbers of the events of a key, which `load` demands and a client's
-- cursor relies on: they follow one another without a gap, up to the snapshot's own number.
pub mod Publish
use Prim.Native.String.{String}
use text.Mathlib.Text.{◌==◌ as str_eq}
use infercat.Common.{
  ℕ, zero, suc, ◌+◌, ◌-◌, ◌^◌, ◌≤◌, ◌<◌, ◌≡◌, refl, sym, ap, ◌∙◌, subst, Bool, true, false, Option,
  none, some, List, [], ◌∷◌, ◌++◌, map, if◌then◌else◌, ltb, length, take, drop, arith,
  length-append, length-drop, length-take, take-append-drop, Bool-cases, Option-cases, inl, inr,
}
use infercat.Run.{Raw, Result, ok, err, Run, ImageOutput}
use infercat.Run.Store.{Snapshot, Event, Cursor, KeyData, Lease, lookup, max_events}
use infercat.Run.Store.Commit.{
  Draft, prune, append_events, number_events, advance, next_number, tail_events, mark, mark_last,
  trim_events, announced, draft, commit_for,
}

-- Events number from `k + 1` on, one after the other.
abbrev pub Numbered : String → ℕ → List Event → Type 0
Numbered epoch k [] = Unit
Numbered epoch k (e ∷ es) =
    (e.cursor ≡ some (record { epoch = epoch; number = k + 1 })) × Numbered epoch (k + 1) es

-- A log whose last number is `n`, and a snapshot whose log ends at its own number.
abbrev pub IsLog : String → ℕ → List Event → Type 0
IsLog epoch n es = (length es ≤ n) × Numbered epoch (n - length es) es

abbrev pub IsNumbered : Snapshot → Type 0
IsNumbered s = IsLog s.epoch s.seq s.events

pub Numbered-append :
    (epoch : String) (k n : ℕ) (xs ys : List Event)
    → k + length xs ≡ n
    → Numbered epoch k xs
    → Numbered epoch n ys
    → Numbered epoch k (xs ++ ys)
Numbered-append epoch k n [] ys e p q = subst (λ t. Numbered epoch t ys) (omega arith) q
Numbered-append epoch k n (x ∷ xs) ys e p q =
    (p.0, Numbered-append epoch (k + 1) n xs ys (omega arith) p.1 q)

pub Numbered-drop :
    (epoch : String) (k n : ℕ) (xs : List Event)
    → n ≤ length xs
    → Numbered epoch k xs
    → Numbered epoch (k + n) (drop n xs)
Numbered-drop epoch k zero xs h p = subst (λ t. Numbered epoch t xs) (omega arith) p
Numbered-drop epoch k (suc n) [] h p = absurd (omega arith)
Numbered-drop epoch k (suc n) (x ∷ xs) h p =
    subst (λ t. Numbered epoch t (drop n xs)) (omega arith)
      (Numbered-drop epoch (k + 1) n xs (omega arith) p.1)

pub number_events-Numbered :
    (epoch : String) (k : ℕ) (es : List Event)
    → k + length es < 2 ^ 64
    → Numbered epoch k (number_events epoch k es)
unfolding number_events
number_events-Numbered epoch k [] h = tt
number_events-Numbered epoch k (e ∷ es) h =
    let n : next_number k ≡ k + 1 = omega arith in
    let rest =
      subst (λ t. Numbered epoch t (number_events epoch t es)) (sym n)
        (number_events-Numbered epoch (k + 1) es (omega arith)) in
    (
      ap (λ t. some (record { epoch = epoch; number = t })) n,
      subst (λ t. Numbered epoch t (number_events epoch (next_number k) es)) n rest,
    )

pub advance_lem : (k : ℕ) (es : List Event) → k + length es < 2 ^ 64 → advance k es ≡ k + length es
unfolding advance
advance_lem k [] h = omega arith
advance_lem k (e ∷ es) h =
    let n : next_number k ≡ k + 1 = omega arith in
    rw n (omega (arith, advance_lem (k + 1) es (omega arith)))

pub length-number_events :
    (epoch : String) (k : ℕ) (es : List Event) → length (number_events epoch k es) ≡ length es
unfolding number_events
length-number_events epoch k [] = refl
length-number_events epoch k (e ∷ es) = omega (arith, length-number_events epoch (next_number k) es)

pub Numbered-take :
    (epoch : String) (k n : ℕ) (xs : List Event)
    → Numbered epoch k xs
    → Numbered epoch k (take n xs)
Numbered-take epoch k zero xs p = tt
Numbered-take epoch k (suc n) [] p = tt
Numbered-take epoch k (suc n) (x ∷ xs) p = (p.0, Numbered-take epoch (k + 1) n xs p.1)

-- Marking an event changes its state, not its number.
pub map-mark-Numbered :
    (rid epoch : String) (k : ℕ) (es : List Event)
    → Numbered epoch k es
    → Numbered epoch k (map (mark rid) es)
map-mark-Numbered rid epoch k [] p = tt
map-mark-Numbered rid epoch k (e ∷ es) p =
    (ground arith, map-mark-Numbered rid epoch (k + 1) es p.1)

pub length-mark : (rid : String) (es : List Event) → length (map (mark rid) es) ≡ length es
length-mark rid [] = refl
length-mark rid (e ∷ es) = omega (arith, length-mark rid es)

pub mark_last-Numbered :
    (n : ℕ) (rid epoch : String) (k : ℕ) (es : List Event)
    → Numbered epoch k es
    → Numbered epoch k (mark_last n rid es)
unfolding mark_last
mark_last-Numbered n rid epoch k es p =
    let m = length es - n in
    Numbered-append epoch k (k + m) (take m es) (map (mark rid) (drop m es))
      (omega (arith, length-take m es)) (Numbered-take epoch k m es p)
      (map-mark-Numbered rid epoch (k + m) (drop m es) (Numbered-drop epoch k m es (omega arith) p))

pub trim_events-Numbered :
    (p : List Event → Bool) (epoch : String) (k : ℕ) (es : List Event)
    → Numbered epoch k es
    → Numbered epoch (k + length es - length (trim_events p es)) (trim_events p es)
unfolding trim_events
trim_events-Numbered p epoch k [] h = tt
trim_events-Numbered p epoch k (e ∷ es) h = elim (Bool-cases (p (e ∷ es))) [
  | inl y ↦ rw y (subst (λ t. Numbered epoch t (e ∷ es)) (omega arith) h)
  | inr n ↦ rw n (
      subst (λ t. Numbered epoch t (trim_events p es)) (omega arith)
        (trim_events-Numbered p epoch (k + 1) es h.1))
]
