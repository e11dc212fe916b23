-- ===== src/Invite/Split.antt =====
-- internal/invite/invite.go: splitting at the dots, and the texts that have none.
use mathlib.Core.List.{append_assoc, append-nil}
use infercat.Common.{
  ℕ, ◌≤◌, ◌≡◌, ◌≢◌, refl, sym, ap, ◌∙◌, true, false, List, [], ◌∷◌, ◌++◌, ◌==◌, arith, All,
  Bool-cases, inl, inr, ==_iff,
}
use infercat.Invite.{
  Text, dot, split_from, split, is_space, trim_left, trim_right, trim_space, is_base64_char,
  all_base64,
}

abbrev pub Lacks : Text → Type 0
Lacks s = All (λ c. c ≢ dot) s

-- The parts with a dot between each two.
abbrev pub join : List Text → Text
join [] = []
join (p ∷ []) = p
join (p ∷ q ∷ qs) = p ++ dot ∷ join (q ∷ qs)

split_from-cons : (part s : Text) → (q : Text) × (qs : List Text) × (split_from part s ≡ q ∷ qs)
unfolding split_from
split_from-cons part [] = (part, [], refl)
split_from-cons part (c ∷ cs) = elim (Bool-cases (c == dot)) [
  | inl y ↦ (part, split_from [] cs, rw y refl)
  | inr n ↦ let (q, qs, e) = split_from-cons (part ++ c ∷ []) cs in (q, qs, rw n e)
]

join-split_from : (part s : Text) → join (split_from part s) ≡ part ++ s
unfolding split_from
join-split_from part [] = sym (append-nil part)
join-split_from part (c ∷ cs) = elim (Bool-cases (c == dot)) [
  | inl y ↦
      let (q, qs, e) = split_from-cons [] cs in
      rw y (
        ap (λ l. join (part ∷ l)) e
        ∙ ap (λ t. part ++ dot ∷ t) (ap join (sym e) ∙ join-split_from [] cs)
        ∙ ap (λ d. part ++ d ∷ cs) (sym ((==_iff c dot).0 y)))
  | inr n ↦ rw n (join-split_from (part ++ c ∷ []) cs ∙ append_assoc part (c ∷ []) cs)
]

-- Joining the parts of a split gives the text back.
pub join-split : (s : Text) → join (split s) ≡ s
unfolding split
join-split s = join-split_from [] s

split_from-Lacks :
    (part s rest : Text) → Lacks s → split_from part (s ++ rest) ≡ split_from (part ++ s) rest
unfolding split_from
split_from-Lacks part [] rest h = ap (λ t. split_from t rest) (sym (append-nil part))
split_from-Lacks part (c ∷ s) rest h =
    let other : (c == dot) ≡ false = ground (arith, h.0) in
    rw other (
      split_from-Lacks (part ++ c ∷ []) s rest h.1
      ∙ ap (λ t. split_from t rest) (append_assoc part (c ∷ []) s))

split_from-dot : (part s : Text) → split_from part (dot ∷ s) ≡ part ∷ split_from [] s
unfolding split_from
split_from-dot part s = refl

split_from-nil : (part : Text) → split_from part [] ≡ part ∷ []
unfolding split_from
split_from-nil part = refl

pub split-join :
    (p a b : Text)
    → Lacks p
    → Lacks a
    → Lacks b
    → split (p ++ dot ∷ (a ++ dot ∷ b)) ≡ p ∷ a ∷ b ∷ []
unfolding split
split-join p a b hp ha hb =
    let last = split_from-Lacks [] b [] hb in
    split_from-Lacks [] p (dot ∷ (a ++ dot ∷ b)) hp
    ∙ split_from-dot p (a ++ dot ∷ b)
    ∙ ap (λ t. p ∷ t)
        (split_from-Lacks [] a (dot ∷ b) ha
          ∙ split_from-dot a b
          ∙ ap (λ t. a ∷ t)
              (ap (λ t. split_from [] t) (sym (append-nil b)) ∙ last ∙ split_from-nil b))

pub all_base64-Lacks : (s : Text) → all_base64 s ≡ true → Lacks s
unfolding all_base64
all_base64-Lacks [] h = tt
all_base64-Lacks (c ∷ s) h = (ground arith, all_base64-Lacks s (ground arith))

-- Texts without white space.
abbrev pub Solid : Text → Type 0
Solid s = All (λ c. is_space c ≡ false) s

base64_range : (c : ℕ) → is_base64_char c ≡ true → (45 ≤ c) × (c ≤ 122)
unfolding is_base64_char
base64_range c h = ground arith

space_range : (c : ℕ) → 33 ≤ c → c ≤ 122 → is_space c ≡ false
unfolding is_space
space_range c h k = ground arith

pub all_base64-Solid : (s : Text) → all_base64 s ≡ true → Solid s
unfolding all_base64
all_base64-Solid [] h = tt
all_base64-Solid (c ∷ s) h =
    let r = base64_range c (ground arith) in
    (space_range c (omega (arith, r.0)) r.1, all_base64-Solid s (ground arith))

trim_right-Solid : (s : Text) → Solid s → trim_right s ≡ s
unfolding trim_right
trim_right-Solid [] h = refl
trim_right-Solid (c ∷ []) h = rw h.0
trim_right-Solid (c ∷ d ∷ s) h = ground (arith, trim_right-Solid (d ∷ s) h.1)

pub trim_space-Solid : (s : Text) → Solid s → trim_space s ≡ s
unfolding trim_space trim_left
trim_space-Solid [] h = trim_right-Solid [] h
trim_space-Solid (c ∷ s) h = rw h.0 (trim_right-Solid (c ∷ s) h)
