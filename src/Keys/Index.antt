-- ===== src/Keys/Index.antt =====
-- A reference finds the key that it names.
use Prim.Native.String.{String}
use text.Mathlib.Text.{◌==◌ as str_eq}
use infercat.Common.{
  ℕ, suc, ◌+◌, ◌≡◌, refl, sym, subst, ◌∙◌, ◌⊎◌, inl, inr, true, false, none, some, List, [], ◌∷◌,
  if◌then◌else◌, get_elem?, arith, Bool-cases, All,
}
use infercat.Keys.{Key, is_live, at, id_index, Tally, no_tally, tally_key, tally, decide, index}

-- No key has the reference for its id.
abbrev pub NoId : String → List Key → Type 0
NoId ref = All (λ k. str_eq k.id ref ≡ false)

-- How many keys go by a name, and how many of those are not revoked.
abbrev pub named : String → List Key → ℕ
named ref [] = 0
named ref (k ∷ ks) = let rest = named ref ks in if str_eq k.name ref then suc rest else rest

abbrev pub live_named : String → List Key → ℕ
live_named ref [] = 0
live_named ref (k ∷ ks) =
    let rest = live_named ref ks in
    if str_eq k.name ref then (if is_live k.status then suc rest else rest) else rest

pub tally-counts :
    (i : ℕ) (ref : String) (ks : List Key) (c : Tally)
    → ((tally i ref ks c).every ≡ c.every + named ref ks)
      × ((tally i ref ks c).live ≡ c.live + live_named ref ks)
unfolding tally
tally-counts i ref [] c = (omega arith, omega arith)
tally-counts i ref (k ∷ ks) c =
    let (e, l) = tally-counts (i + 1) ref ks (tally_key i ref k c) in (ground arith, ground arith)

-- The position, counted from `i`, of a key with a property.
abbrev pub Holds : (Key → Type 0) → ℕ → List Key → ℕ → Type 0
Holds P i ks j = (d : ℕ) × (k : Key) × (j ≡ i + d) × (get_elem? ks d ≡ some k) × P k

Holds-here : (P : Key → Type 0) (i : ℕ) (k : Key) (ks : List Key) → P k → Holds P i (k ∷ ks) i
Holds-here P i k ks h = (0, k, omega arith, refl, h)

Holds-next :
    (P : Key → Type 0) (i j : ℕ) (x : Key) (ks : List Key)
    → Holds P (i + 1) ks j
    → Holds P i (x ∷ ks) j
Holds-next P i j x ks (d, k, e, g, h) = (suc d, k, omega arith, g, h)

abbrev pub Named : String → Key → Type 0
Named ref k = str_eq k.name ref ≡ true

abbrev pub LiveNamed : String → Key → Type 0
LiveNamed ref k = (str_eq k.name ref ≡ true) × (is_live k.status ≡ true)

tally-any_at :
    (i : ℕ) (ref : String) (ks : List Key) (c : Tally)
    → ((named ref ks ≡ 0) × ((tally i ref ks c).any_at ≡ c.any_at))
      ⊎ Holds (Named ref) i ks (tally i ref ks c).any_at
unfolding tally
tally-any_at i ref [] c = inl (refl, refl)
tally-any_at i ref (k ∷ ks) c = elim (tally-any_at (i + 1) ref ks (tally_key i ref k c)) [
  | inr h ↦ inr (Holds-next (Named ref) i _ k ks h)
  | inl (none_left, same) ↦ elim (Bool-cases (str_eq k.name ref)) [
    | inl e ↦ inr (
        subst (Holds (Named ref) i (k ∷ ks)) (sym (same ∙ here e))
          (Holds-here (Named ref) i k ks e))
    | inr e ↦ inl (ground arith, same ∙ there e)
  ]
]
  where
    here : str_eq k.name ref ≡ true → (tally_key i ref k c).any_at ≡ i
    here e = ground arith

    there : str_eq k.name ref ≡ false → (tally_key i ref k c).any_at ≡ c.any_at
    there e = ground arith

tally-live_at :
    (i : ℕ) (ref : String) (ks : List Key) (c : Tally)
    → ((live_named ref ks ≡ 0) × ((tally i ref ks c).live_at ≡ c.live_at))
      ⊎ Holds (LiveNamed ref) i ks (tally i ref ks c).live_at
unfolding tally
tally-live_at i ref [] c = inl (refl, refl)
tally-live_at i ref (k ∷ ks) c = elim (tally-live_at (i + 1) ref ks (tally_key i ref k c)) [
  | inr h ↦ inr (Holds-next (LiveNamed ref) i _ k ks h)
  | inl (none_left, same) ↦ elim (Bool-cases (str_eq k.name ref)) [
    | inl e ↦ elim (Bool-cases (is_live k.status)) [
      | inl l ↦ inr (
          subst (Holds (LiveNamed ref) i (k ∷ ks)) (sym (same ∙ here e l))
            (Holds-here (LiveNamed ref) i k ks (e, l)))
      | inr l ↦ inl (ground arith, same ∙ dead e l)
    ]
    | inr e ↦ inl (ground arith, same ∙ there e)
  ]
]
  where
    here : str_eq k.name ref ≡ true → is_live k.status ≡ true → (tally_key i ref k c).live_at ≡ i
    here e l = ground arith

    dead :
        str_eq k.name ref ≡ true
        → is_live k.status ≡ false
        → (tally_key i ref k c).live_at ≡ c.live_at
    dead e l = ground arith

    there : str_eq k.name ref ≡ false → (tally_key i ref k c).live_at ≡ c.live_at
    there e = ground arith

-- What it means that a reference names the key at a position.
abbrev pub Names : String → List Key → ℕ → Type 0
Names ref keys i =
    (k : Key) × (get_elem? keys i ≡ some k)
    × ((str_eq k.id ref ≡ true)
        ⊎ (NoId ref keys × LiveNamed ref k × (live_named ref keys ≡ 1))
        ⊎ (NoId ref keys × Named ref k × (live_named ref keys ≡ 0) × (named ref keys ≡ 1)))

pub id_index-cases :
    (i : ℕ) (ref : String) (ks : List Key)
    → ((id_index i ref ks ≡ none) × NoId ref ks)
      ⊎ ((j : ℕ) × (id_index i ref ks ≡ some j) × Holds (λ k. str_eq k.id ref ≡ true) i ks j)
unfolding id_index
id_index-cases i ref [] = inl (refl, tt)
id_index-cases i ref (k ∷ ks) = elim (Bool-cases (str_eq k.id ref)) [
  | inl e ↦ inr (i, rw e, Holds-here (λ k. str_eq k.id ref ≡ true) i k ks e)
  | inr e ↦ elim (id_index-cases (i + 1) ref ks) [
    | inl (n, all) ↦ inl (rw (e, id_index) n, (e, all))
    | inr (j, f, h) ↦
        inr (j, rw (e, id_index) f, Holds-next (λ k. str_eq k.id ref ≡ true) i j k ks h)
  ]
]

at-injective : {i j : ℕ} → at i ≡ at j → i ≡ j
at-injective e = cc

-- Which count `decide` answered by.
decide-at :
    (c : Tally) (j : ℕ)
    → decide c ≡ at j
    → ((c.live ≡ 1) × (c.live_at ≡ j)) ⊎ ((c.live ≡ 0) × (c.every ≡ 1) × (c.any_at ≡ j))
unfolding decide
decide-at c j e = ground arith

by_name :
    (ref : String) (keys : List Key) (j : ℕ)
    → NoId ref keys
    → decide (tally 0 ref keys no_tally) ≡ at j
    → Names ref keys j
by_name ref keys j no_id e =
    let c = tally 0 ref keys no_tally in
    let (every, live) = tally-counts 0 ref keys no_tally in
    elim (decide-at c j e) [
      | inl (one, place) ↦ elim (tally-live_at 0 ref keys no_tally) [
        | inl (zero_live, _) ↦ absurd (omega (arith, one, live, zero_live))
        | inr (d, k, here, got, named) ↦ (
          k,
          subst (λ x. get_elem? keys x ≡ some k) (position d here place) got,
          inr (inl (no_id, named, omega (arith, one, live))),
        )
      ]
      | inr (none_live, one, place) ↦ elim (tally-any_at 0 ref keys no_tally) [
        | inl (no_name, _) ↦ absurd (omega (arith, one, every, no_name))
        | inr (d, k, here, got, name) ↦ (
          k,
          subst (λ x. get_elem? keys x ≡ some k) (position d here place) got,
          inr (inr (no_id, name, omega (arith, none_live, live), omega (arith, one, every))),
        )
      ]
    ]
  where
    position : {x : ℕ} (d : ℕ) → x ≡ 0 + d → x ≡ j → d ≡ j
    position d p q = omega arith

-- A reference that resolves names a key: by its id; or, where no key has that id, by the name of
-- the only key of that name that is not revoked; or, where all of that name are revoked, by the
-- name of the only one there is.
pub index_sound :
    (ref : String) (keys : List Key) (j : ℕ) → index ref keys ≡ at j → Names ref keys j
unfolding index
index_sound ref keys j e = elim (id_index-cases 0 ref keys) [
  | inl (n, no_id) ↦ by_name ref keys j no_id (rw (n, index) at e)
  | inr (i, f, (d, k, here, got, is)) ↦
      let same : at i ≡ at j = rw (f, index) at e in
      (k, subst (λ x. get_elem? keys x ≡ some k) (omega (arith, at-injective same)) got, inl is)
]
