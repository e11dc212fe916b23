-- ===== src/Store/Write.antt =====
-- A mutation is made whole or not at all.
use Prim.Native.String.{String}
use infercat.Common.{
  ℕ, zero, suc, ◌≡◌, refl, sym, ap, subst, ◌∙◌, true, Option, none, some, List, [], ◌∷◌,
  Option-cases, inl, inr, get_elem?, set,
}
use infercat.Keys.{Key, Found, at, ambiguous, ambiguous_revoked, not_found, index}
use infercat.Keys.Index.{Names, index_sound}
use infercat.Store.{
  Disk, FileStore, StoreError, Saved, refused, written, reload, save, keep_or_restore, replace_key,
  at_index, after_reload, mutate,
}

module _ {ℓ} {A : Type ℓ} where
  set-get : (xs : List A) (i : ℕ) (x y : A) → get_elem? xs i ≡ some x → set (set xs i y) i x ≡ xs
  set-get [] i x y e = refl
  set-get (z ∷ zs) zero x y e = cc
  set-get (z ∷ zs) (suc i) x y e = ap (λ t. z ∷ t) (set-get zs i x y e)

-- A refused write gives back the store that it is told to give back.
pub keep_or_restore-err :
    (undone s : FileStore) (now : ℕ) (w : Saved) (e : StoreError)
    → (keep_or_restore undone (save now w s)).1 ≡ some e
    → (keep_or_restore undone (save now w s)).0 ≡ undone
unfolding keep_or_restore save
keep_or_restore-err undone s now refused e h = refl
keep_or_restore-err undone s now (written t) e h = absurd cc

pub keep_or_restore-done :
    (undone s : FileStore) (now : ℕ) (w : Saved)
    → (keep_or_restore undone (save now w s)).1 ≡ none
    → (keep_or_restore undone (save now w s)).0.keys ≡ s.keys
unfolding keep_or_restore save
keep_or_restore-done undone s now refused h = absurd cc
keep_or_restore-done undone s now (written t) h = refl

pub same_store : (s : FileStore) (ks : List Key) → ks ≡ s.keys → (record s { keys = ks }) ≡ s
same_store s ks e = ap (λ k. (record s { keys = k })) e

replace_key-err :
    (now : ℕ) (w : Saved) (i : ℕ) (o : Option Key) (f : Key → Option Key) (s : FileStore)
    (e : StoreError)
    → get_elem? s.keys i ≡ o
    → (replace_key now w i o f s).1 ≡ some e
    → (replace_key now w i o f s).0 ≡ s
unfolding replace_key
replace_key-err now w i none f s e g h = refl
replace_key-err now w i (some k) f s e g h = elim (Option-cases (f k)) [
  | inl n ↦ rw (n, replace_key) refl
  | inr (x, q) ↦
      rw (q, replace_key)
        (keep_or_restore-err _ _ now w e (rw (q, replace_key) at h)
          ∙ same_store s _ (set-get s.keys i k x g))
]

at_index-err :
    (now : ℕ) (w : Saved) (p : Found) (f : Key → Option Key) (s : FileStore) (e : StoreError)
    → (at_index now w p f s).1 ≡ some e
    → (at_index now w p f s).0 ≡ s
unfolding at_index
at_index-err now w (at i) f s e h = replace_key-err now w i _ f s e refl h
at_index-err now w ambiguous f s e h = refl
at_index-err now w ambiguous_revoked f s e h = refl
at_index-err now w not_found f s e h = refl

pub after_reload-err :
    (r : FileStore × Option StoreError) (k : FileStore → FileStore × Option StoreError)
    (e : StoreError)
    → ((t : FileStore) → (k t).1 ≡ some e → (k t).0 ≡ t)
    → (after_reload r k).1 ≡ some e
    → (after_reload r k).0 ≡ r.0
unfolding after_reload
after_reload-err (t, none) k e f h = f t h
after_reload-err (t, some x) k e f h = refl

-- A mutation that fails, in whatever way, leaves the store that its own re-read of the file left:
-- a refused write puts the key back.
pub mutate_refused :
    (now : ℕ) (d : Disk) (w : Saved) (ref : String) (f : Key → Option Key) (s : FileStore)
    (e : StoreError)
    → (mutate now d w ref f s).1 ≡ some e
    → (mutate now d w ref f s).0 ≡ (reload true now d s).0
unfolding mutate
mutate_refused now d w ref f s e h =
    after_reload-err (reload true now d s) _ e (λ t. at_index-err now w (index ref t.keys) f t e) h

-- What a mutation that is made does to the keys.
abbrev pub Changed : String → (Key → Option Key) → List Key → List Key → Type 0
Changed ref f old new =
    (i : ℕ) × (k : Key) × (x : Key) × (index ref old ≡ at i)
    × (get_elem? old i ≡ some k)
    × (f k ≡ some x)
    × (new ≡ set old i x)

replace_key-done :
    (now : ℕ) (w : Saved) (i : ℕ) (o : Option Key) (f : Key → Option Key) (s : FileStore)
    → (replace_key now w i o f s).1 ≡ none
    → (k : Key) × (x : Key) × (o ≡ some k)
      × (f k ≡ some x)
      × ((replace_key now w i o f s).0.keys ≡ set s.keys i x)
unfolding replace_key
replace_key-done now w i none f s h = absurd cc
replace_key-done now w i (some k) f s h = elim (Option-cases (f k)) [
  | inl n ↦ let bad : some StoreError.rejected ≡ none = rw (n, replace_key) at h in absurd cc
  | inr (x, q) ↦ (
    k,
    x,
    refl,
    q,
    rw (q, replace_key) (keep_or_restore-done _ _ now w (rw (q, replace_key) at h)),
  )
]

at_index-done :
    (now : ℕ) (w : Saved) (ref : String) (p : Found) (f : Key → Option Key) (s : FileStore)
    → index ref s.keys ≡ p
    → (at_index now w p f s).1 ≡ none
    → Changed ref f s.keys (at_index now w p f s).0.keys
unfolding at_index
at_index-done now w ref (at i) f s q h =
    let (k, x, g, e, n) = replace_key-done now w i _ f s h in (i, k, x, q, g, e, n)
at_index-done now w ref ambiguous f s q h = absurd cc
at_index-done now w ref ambiguous_revoked f s q h = absurd cc
at_index-done now w ref not_found f s q h = absurd cc

pub after_reload-done :
    (r : FileStore × Option StoreError) (k : FileStore → FileStore × Option StoreError)
    → (after_reload r k).1 ≡ none
    → (r.1 ≡ none) × (after_reload r k ≡ k r.0)
unfolding after_reload
after_reload-done (t, none) k h = (refl, refl)
after_reload-done (t, some x) k h = absurd cc

pub mutate-Changed :
    (now : ℕ) (d : Disk) (w : Saved) (ref : String) (f : Key → Option Key) (s : FileStore)
    → (mutate now d w ref f s).1 ≡ none
    → Changed ref f (reload true now d s).0.keys (mutate now d w ref f s).0.keys
unfolding mutate
mutate-Changed now d w ref f s h =
    let t = (reload true now d s).0 in
    let (_, same) =
      after_reload-done (reload true now d s) (λ u. at_index now w (index ref u.keys) f u) h in
    subst (λ z. Changed ref f t.keys z.0.keys) (sym same)
      (at_index-done now w ref (index ref t.keys) f t refl (sym (ap (λ z. z.1) same) ∙ h))

-- A mutation that is made changes one key of the file as re-read, the one that the reference
-- names, by the given change, and leaves every other key where and as it was.
pub mutate_done :
    (now : ℕ) (d : Disk) (w : Saved) (ref : String) (f : Key → Option Key) (s : FileStore)
    → (mutate now d w ref f s).1 ≡ none
    → (i : ℕ) × (k : Key) × (x : Key) × Names ref (reload true now d s).0.keys i
      × (get_elem? (reload true now d s).0.keys i ≡ some k)
      × (f k ≡ some x)
      × ((mutate now d w ref f s).0.keys ≡ set (reload true now d s).0.keys i x)
mutate_done now d w ref f s h =
    let (i, k, x, p, g, e, n) = mutate-Changed now d w ref f s h in
    (i, k, x, index_sound ref (reload true now d s).0.keys i p, g, e, n)
