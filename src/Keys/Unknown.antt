-- ===== src/Keys/Unknown.antt =====
-- A reference is unknown where no key has it.
use Prim.Native.String.{String}
use infercat.Common.{ℕ, ◌+◌, ◌≤◌, ◌≡◌, refl, ◌↔◌, inl, inr, none, List, [], ◌∷◌, arith}
use infercat.Keys.{Key, at, not_found, id_index, Tally, no_tally, tally, decide, index}
use infercat.Keys.Index.{NoId, named, live_named, tally-counts, id_index-cases}

NoId-id_index : (i : ℕ) (ref : String) (ks : List Key) → NoId ref ks → id_index i ref ks ≡ none
unfolding id_index
NoId-id_index i ref [] h = refl
NoId-id_index i ref (k ∷ ks) h = ground (arith, h.0, NoId-id_index (i + 1) ref ks h.1)

live_named-le : (ref : String) (ks : List Key) → live_named ref ks ≤ named ref ks
live_named-le ref [] = omega arith
live_named-le ref (k ∷ ks) = ground (arith, live_named-le ref ks)

decide-not_found : (c : Tally) → decide c ≡ not_found → c.every ≡ 0
unfolding decide
decide-not_found c e = ground arith

decide_none : (c : Tally) → c.live ≡ 0 → c.every ≡ 0 → decide c ≡ not_found
unfolding decide
decide_none c e f = ground arith

-- A reference is unknown exactly when no key has it for its id or its name.
pub index-not_found :
    (ref : String) (keys : List Key)
    → (index ref keys ≡ not_found) ↔ (NoId ref keys × (named ref keys ≡ 0))
unfolding index
index-not_found ref keys = (missing, λ h. absent h.0 h.1)
  where
    c : Tally
    c = tally 0 ref keys no_tally

    missing : index ref keys ≡ not_found → NoId ref keys × (named ref keys ≡ 0)
    missing e = elim (id_index-cases 0 ref keys) [
      | inl (n, no_id) ↦ (
        no_id,
        omega (arith, decide-not_found c (rw (n, index) at e), tally-counts 0 ref keys no_tally),
      )
      | inr (i, f, h) ↦ let bad : at i ≡ not_found = rw (f, index) at e in absurd (cc)
    ]

    absent : NoId ref keys → named ref keys ≡ 0 → index ref keys ≡ not_found
    absent no_id none_named =
        rw (NoId-id_index 0 ref keys no_id, index)
          (decide_none c
            (omega (arith, tally-counts 0 ref keys no_tally, live_named-le ref keys, none_named))
            (omega (arith, tally-counts 0 ref keys no_tally, none_named)))
