-- ===== src/Usage/Sums.antt =====
-- The numbers of a report add up: over its keys, and over the paths by which requests came.
use Prim.Native.String.{String}
use text.Mathlib.Text.{◌==◌ as str_eq}
use infercat.Common.{
  ℕ, suc, ℤ, pos, ◌+ℤ◌, int_laws, ◌≡◌, refl, inl, inr, Bool, true, false, List, [], ◌∷◌, All,
  Bool-cases,
}
use infercat.Usage.Stats.{Event, Stats, empty_stats, add, add_row}
use infercat.Usage.Report.{Group, upsert, Part, Report}

abbrev pub sum : {A : Type 0} → (A → ℤ) → List (String × A) → ℤ
sum m [] = pos 0
sum m ((k, x) ∷ xs) = m x +ℤ sum m xs

pub All-upsert :
    {A : Type 0} (P : A → Type 0) (fresh : A) (g : A → A) (k : String) (xs : List (String × A))
    → P fresh
    → ((x : A) → P x → P (g x))
    → All (λ e. P e.1) xs
    → All (λ e. P e.1) (upsert fresh g k xs)
unfolding upsert
All-upsert P fresh g k [] z h t = (h fresh z, tt)
All-upsert P fresh g k ((x, s) ∷ xs) z h t = elim (Bool-cases (str_eq x k)) [
  | inl e ↦ rw e (h s t.0, t.1)
  | inr e ↦ rw e (t.0, All-upsert P fresh g k xs z h t.1)
]

-- A number of a `Stats` that each event adds to, by an amount of its own.
abbrev pub IsAdditive : (Stats → ℤ) → Type 0
IsAdditive m =
    (m empty_stats ≡ pos 0)
    × ((meters : Bool) (e : Event) → (d : ℤ) × ((s : Stats) → m (add meters e s) ≡ m s +ℤ d))

-- The number in total is its sum over the paths by which requests came, and its sum over the keys.
abbrev pub ViaSums : (Stats → ℤ) → Group → Type 0
ViaSums m g = sum m g.by_via ≡ m g.total

abbrev pub Sums : (Stats → ℤ) → Part → Type 0
Sums m p =
    ViaSums m p.whole
    × All (λ e. ViaSums m e.1) p.by_key
    × (sum (λ g. m g.total) p.by_key ≡ m p.whole.total)

module _ (m : Stats → ℤ) (additive : IsAdditive m) where
  ReportSums : Report → Type 0
  ReportSums r = Sums m r.all × All (Sums m) r.daily

-- What may be summed: the calls, the errors and the tokens.
abbrev pub requests_of : Stats → ℤ
requests_of s = pos s.requests

suc_pos : (n : ℕ) → pos (suc n) ≡ pos n +ℤ pos 1
suc_pos n = omega int_laws

same_sum : (x : ℤ) → x ≡ x +ℤ pos 0
same_sum x = omega int_laws

pub requests-IsAdditive : IsAdditive requests_of
unfolding add add_row
requests-IsAdditive = (refl, go)
  where
    go :
        (meters : Bool) (e : Event)
        → (d : ℤ) × ((s : Stats) → pos (add meters e s).requests ≡ pos s.requests +ℤ d)
    go true e = (pos 0, λ s. same_sum _)
    go false e = elim (Bool-cases (str_eq e.kind "search")) [
      | inl b ↦ (pos 0, λ s. rw (b, add) (same_sum _))
      | inr b ↦ (pos 1, λ s. rw (b, add) (suc_pos _))
    ]

pub prompt_tokens-IsAdditive : IsAdditive (λ s. s.prompt_tokens)
unfolding add add_row
prompt_tokens-IsAdditive = (refl, go)
  where
    go :
        (meters : Bool) (e : Event)
        → (d : ℤ) × ((s : Stats) → (add meters e s).prompt_tokens ≡ s.prompt_tokens +ℤ d)
    go true e = (pos 0, λ s. same_sum _)
    go false e = elim (Bool-cases (str_eq e.kind "search")) [
      | inl b ↦ (pos 0, λ s. rw (b, add) (same_sum _))
      | inr b ↦ (e.prompt_tokens, λ s. rw (b, add) refl)
    ]
