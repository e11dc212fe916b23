-- ===== src/Usage/Rank.antt =====
-- The percentiles are those of the nearest rank.
use native.Mathlib.Nat.{mul-pos, mul-le-mul_right}
use infercat.Common.{
  ℕ, zero, suc, ◌+◌, ◌-◌, ◌*◌, ◌/◌, ◌≤◌, ◌<◌, min, max, ◌≡◌, refl, inl, inr, some, List, [], ◌∷◌,
  length, get_elem?, ltb, leb, if◌then◌else◌, Bool-cases, leb→le, leb→gt, arith,
}
use infercat.Usage.Stats.{insert, sort, rank, percentile}

-- How many samples are at most `x`, and how many are below it.
abbrev pub upto : ℕ → List ℕ → ℕ
upto x [] = 0
upto x (y ∷ ys) = let rest = upto x ys in if leb y x then suc rest else rest

abbrev pub below : ℕ → List ℕ → ℕ
below x [] = 0
below x (y ∷ ys) = let rest = below x ys in if ltb y x then suc rest else rest

upto-insert : (x y : ℕ) (ys : List ℕ) → upto x (insert y ys) ≡ upto x (y ∷ ys)
unfolding insert
upto-insert x y [] = refl
upto-insert x y (z ∷ zs) = ground (arith, upto-insert x y zs)

below-insert : (x y : ℕ) (ys : List ℕ) → below x (insert y ys) ≡ below x (y ∷ ys)
unfolding insert
below-insert x y [] = refl
below-insert x y (z ∷ zs) = ground (arith, below-insert x y zs)

length-insert : (y : ℕ) (ys : List ℕ) → length (insert y ys) ≡ suc (length ys)
unfolding insert
length-insert y [] = refl
length-insert y (z ∷ zs) = ground (arith, length-insert y zs)

upto-sort : (x : ℕ) (v : List ℕ) → upto x (sort v) ≡ upto x v
unfolding sort
upto-sort x [] = refl
upto-sort x (y ∷ ys) = ground (arith, upto-insert x y (sort ys), upto-sort x ys)

below-sort : (x : ℕ) (v : List ℕ) → below x (sort v) ≡ below x v
unfolding sort
below-sort x [] = refl
below-sort x (y ∷ ys) = ground (arith, below-insert x y (sort ys), below-sort x ys)

length-sort : (v : List ℕ) → length (sort v) ≡ length v
unfolding sort
length-sort [] = refl
length-sort (y ∷ ys) = omega (arith, length-insert y (sort ys), length-sort ys)

abbrev Sorted : ℕ → List ℕ → Type 0
Sorted lo [] = Unit
Sorted lo (x ∷ xs) = (lo ≤ x) × Sorted x xs

insert-Sorted : (lo x : ℕ) (xs : List ℕ) → lo ≤ x → Sorted lo xs → Sorted lo (insert x xs)
unfolding insert
insert-Sorted lo x [] h s = (h, tt)
insert-Sorted lo x (y ∷ ys) h s = elim (Bool-cases (leb x y)) [
  | inl e ↦ rw e (h, (leb→le x y e, s.1))
  | inr e ↦ rw e (s.0, insert-Sorted y x ys (omega (arith, leb→gt x y e)) s.1)
]

sort-Sorted : (v : List ℕ) → Sorted 0 (sort v)
unfolding sort
sort-Sorted [] = tt
sort-Sorted (x ∷ xs) = insert-Sorted 0 x (sort xs) (omega arith) (sort-Sorted xs)

get-ge : (lo i x : ℕ) (xs : List ℕ) → Sorted lo xs → get_elem? xs i ≡ some x → lo ≤ x
get-ge lo i x [] s e = absurd cc
get-ge lo zero x (y ∷ ys) s e = ground arith
get-ge lo (suc i) x (y ∷ ys) s e = omega (arith, s.0, get-ge y i x ys s.1 e)

-- In order, the one at place `i` has at least itself and those before it at most as large.
upto-get : (lo i x : ℕ) (xs : List ℕ) → Sorted lo xs → get_elem? xs i ≡ some x → suc i ≤ upto x xs
upto-get lo i x [] s e = absurd cc
upto-get lo zero x (y ∷ ys) s e = ground arith
upto-get lo (suc i) x (y ∷ ys) s e = ground (arith, get-ge y i x ys s.1 e, upto-get y i x ys s.1 e)

below-least : (lo x : ℕ) (xs : List ℕ) → Sorted lo xs → x ≤ lo → below x xs ≡ 0
below-least lo x [] s h = refl
below-least lo x (y ∷ ys) s h = ground (arith, below-least y x ys s.1)

-- And it has at most those before it below it.
below-get : (lo i x : ℕ) (xs : List ℕ) → Sorted lo xs → get_elem? xs i ≡ some x → below x xs ≤ i
below-get lo i x [] s e = absurd cc
below-get lo zero x (y ∷ ys) s e = ground (arith, below-least y x ys s.1)
below-get lo (suc i) x (y ∷ ys) s e = ground (arith, below-get y i x ys s.1 e)

in_range : (xs : List ℕ) (i : ℕ) → i < length xs → (x : ℕ) × (get_elem? xs i ≡ some x)
in_range [] i h = absurd (omega arith)
in_range (x ∷ xs) zero h = (x, refl)
in_range (x ∷ xs) (suc i) h = in_range xs i (omega arith)

ceiling_bounds :
    (t n : ℕ)
    → 0 < t
    → t ≤ 100 * n
    → let r = min (max ((t + 99) / 100) 1) n in
      (0 < r) × (r ≤ n) × (t ≤ 100 * r) × (100 * (r - 1) < t)
ceiling_bounds t n h k = (omega arith, omega arith, omega arith, omega arith)

rank_bounds :
    (p n : ℕ)
    → 0 < p
    → p ≤ 100
    → 0 < n
    → (0 < rank p n) × (rank p n ≤ n) × (p * n ≤ 100 * rank p n) × (100 * (rank p n - 1) < p * n)
unfolding rank
rank_bounds p n h k l = ceiling_bounds (p * n) n (mul-pos h l) (mul-le-mul_right n k)

-- Of samples that are not none, and for `p` from 1 to 100, at least `p` per cent are at most the
-- percentile, and fewer than `p` per cent are below it.
pub percentile_rank :
    (p : ℕ) (v : List ℕ)
    → 0 < p
    → p ≤ 100
    → 0 < length v
    → (p * length v ≤ 100 * upto (percentile v p) v)
      × (100 * below (percentile v p) v < p * length v)
unfolding percentile
percentile_rank p v h k l =
    let (low, high, enough, few) = rank_bounds p (length v) h k l in
    let i = rank p (length v) - 1 in
    let (x, e) = in_range (sort v) i (omega (arith, length-sort v, low, high)) in
    let above = upto-get 0 i x (sort v) (sort-Sorted v) e in
    let under = below-get 0 i x (sort v) (sort-Sorted v) e in
    rw e
      (omega (arith, above, enough, low, upto-sort x v), omega (arith, under, few, below-sort x v))
