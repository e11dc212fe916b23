-- ===== src/Store/Ids.antt =====
-- Fresh ids, and that no write to the key file makes two keys share an id.
use Prim.Native.String.{String}
use text.Mathlib.Text.{◌==◌ as str_eq}
use text.Mathlib.TextEquality.{eq_iff}
use infercat.Common.{
  ℕ, zero, suc, ◌≡◌, refl, sym, ap, subst, ◌∙◌, inl, inr, Bool, true, false, Option, none, some,
  List, [], ◌∷◌, ◌++◌, if◌then◌else◌, Bool-cases, get_elem?, set, take,
}
use infercat.Keys.{Key, Status, Found, at, ambiguous, ambiguous_revoked, not_found, index}
use infercat.Keys.Index.{NoId, named}
use infercat.Keys.Unknown.{index-not_found}
use infercat.Limits.{Limits}
use infercat.Store.{
  Disk, FileStore, StoreError, Saved, reload, mutate, new_id, append_key, add, minted, rotate,
  set_status, set_limits_and_agent,
}
use infercat.Store.Write.{
  keep_or_restore-err, keep_or_restore-done, after_reload-done, after_reload-err, same_store,
  mutate-Changed,
}

abbrev pub UniqueIds : List Key → Type 0
UniqueIds [] = Unit
UniqueIds (k ∷ ks) = NoId k.id ks × UniqueIds ks

str_eq-sym : (a b : String) → str_eq a b ≡ false → str_eq b a ≡ false
str_eq-sym a b e = elim (Bool-cases (str_eq b a)) [
  | inl t ↦
      let same : b ≡ a = (eq_iff b a).0 t in
      let f : str_eq a b ≡ true = (eq_iff a b).1 (sym same) in absurd cc
  | inr f ↦ f
]

NoId-set :
    (r : String) (ks : List Key) (i : ℕ) (k x : Key)
    → get_elem? ks i ≡ some k
    → x.id ≡ k.id
    → NoId r ks
    → NoId r (set ks i x)
NoId-set r [] i k x g e h = h
NoId-set r (y ∷ ys) zero k x g e h = (
  let y_is : y ≡ k = cc in subst (λ z. str_eq z r ≡ false) (ap (λ v. v.id) y_is ∙ sym e) h.0,
  h.1,
)
NoId-set r (y ∷ ys) (suc i) k x g e h = (h.0, NoId-set r ys i k x g e h.1)

UniqueIds-set :
    (ks : List Key) (i : ℕ) (k x : Key)
    → get_elem? ks i ≡ some k
    → x.id ≡ k.id
    → UniqueIds ks
    → UniqueIds (set ks i x)
UniqueIds-set [] i k x g e h = h
UniqueIds-set (y ∷ ys) zero k x g e h =
    (let y_is : y ≡ k = cc in subst (λ z. NoId z ys) (ap (λ v. v.id) y_is ∙ sym e) h.0, h.1)
UniqueIds-set (y ∷ ys) (suc i) k x g e h =
    (NoId-set y.id ys i k x g e h.0, UniqueIds-set ys i k x g e h.1)

NoId-snoc :
    (r : String) (ks : List Key) (k : Key)
    → NoId r ks
    → str_eq k.id r ≡ false
    → NoId r (ks ++ k ∷ [])
NoId-snoc r [] k h e = (e, tt)
NoId-snoc r (y ∷ ys) k h e = (h.0, NoId-snoc r ys k h.1 e)

UniqueIds-snoc : (ks : List Key) (k : Key) → NoId k.id ks → UniqueIds ks → UniqueIds (ks ++ k ∷ [])
UniqueIds-snoc [] k n h = (tt, tt)
UniqueIds-snoc (y ∷ ys) k n h =
    (NoId-snoc y.id ys k h.0 (str_eq-sym y.id k.id n.0), UniqueIds-snoc ys k n.1 h.1)

-- An id that `newID` gives is no key's id and no key's name.
pub new_id_fresh :
    (draws : List (Option String)) (keys : List Key) (id : String)
    → new_id draws keys ≡ some id
    → NoId id keys × (named id keys ≡ 0)
unfolding new_id
new_id_fresh [] keys id e = absurd cc
new_id_fresh (none ∷ draws) keys id e = absurd cc
new_id_fresh (some x ∷ draws) keys id e = go (new_id_fresh draws keys id) (index x keys) refl
  where
    go :
        (new_id draws keys ≡ some id → NoId id keys × (named id keys ≡ 0))
        → (p : Found) → index x keys ≡ p
        → NoId id keys × (named id keys ≡ 0)
    go rest (at i) q = rest (rw (q, new_id) at e)
    go rest ambiguous q = rest (rw (q, new_id) at e)
    go rest ambiguous_revoked q = rest (rw (q, new_id) at e)
    go rest not_found q =
        let same : some x ≡ some id = rw (q, new_id) at e in
        let is : x ≡ id = cc in (index-not_found id keys).0 (ap (λ v. index v keys) (sym is) ∙ q)

module _ (hash trim : String → String) where
  -- What `Add` does to the keys where it succeeds.
  abbrev pub Minted : ℕ → String → Limits → Bool → List Key → List Key → Type 0
  Minted now name l agent old new =
      (id : String) × (secret : String) × NoId id old
      × (named id old ≡ 0)
      × (new ≡ old ++ minted hash trim now id (trim name) secret l agent ∷ [])

  append_key-done :
      (now : ℕ) (w : Saved) (secret : Option String) (draws : List (Option String)) (name : String)
      (l : Limits) (agent : Bool) (s : FileStore) (o : Option String)
      → new_id draws s.keys ≡ o
      → (append_key hash trim now w secret o (trim name) l agent s).1 ≡ none
      → Minted now name l agent s.keys
          (append_key hash trim now w secret o (trim name) l agent s).0.keys
  unfolding append_key
  append_key-done now w none draws name l agent s o n h = absurd cc
  append_key-done now w (some x) draws name l agent s none n h = absurd cc
  append_key-done now w (some x) draws name l agent s (some id) n h =
      let (no_id, no_name) = new_id_fresh draws s.keys id n in
      (id, x, no_id, no_name, keep_or_restore-done _ _ now w h)

  append_key-err :
      (now : ℕ) (w : Saved) (secret id : Option String) (name : String) (l : Limits) (agent : Bool)
      (s : FileStore) (e : StoreError)
      → (append_key hash trim now w secret id name l agent s).1 ≡ some e
      → (append_key hash trim now w secret id name l agent s).0 ≡ s
  unfolding append_key
  append_key-err now w none id name l agent s e h = refl
  append_key-err now w (some x) none name l agent s e h = refl
  append_key-err now w (some x) (some id) name l agent s e h =
      keep_or_restore-err _ _ now w e h ∙ same_store s _ refl

  -- A mint that fails leaves the store as it was where the name is blank, and otherwise as its own
  -- re-read of the file left it.
  pub add_refused :
      (now : ℕ) (d : Disk) (w : Saved) (secret : Option String) (draws : List (Option String))
      (name : String) (l : Limits) (agent : Bool) (s : FileStore) (e : StoreError)
      → (add hash trim now d w secret draws name l agent s).1 ≡ some e
      → (add hash trim now d w secret draws name l agent s).0
        ≡ (if str_eq (trim name) "" then s else (reload true now d s).0)
  unfolding add
  add_refused now d w secret draws name l agent s e h = elim (Bool-cases (str_eq (trim name) "")) [
    | inl b ↦ rw (b, add) refl
    | inr b ↦
        rw (b, add)
          (after_reload-err (reload true now d s) _ e
            (λ t.
              append_key-err now w secret (new_id (take 100 draws) t.keys) (trim name) l agent t e)
            (rw (b, add) at h))
  ]

  -- A mint that succeeds appends one key to those of the file as re-read: under the trimmed name,
  -- with the default limits filled in, and with an id that is no key's id and no key's name.
  pub add_done :
      (now : ℕ) (d : Disk) (w : Saved) (secret : Option String) (draws : List (Option String))
      (name : String) (l : Limits) (agent : Bool) (s : FileStore)
      → (add hash trim now d w secret draws name l agent s).1 ≡ none
      → Minted now name l agent
          (reload true now d s).0.keys
          (add hash trim now d w secret draws name l agent s).0.keys
  unfolding add
  add_done now d w secret draws name l agent s h = elim (Bool-cases (str_eq (trim name) "")) [
    | inl b ↦ let bad : some StoreError.no_name ≡ none = rw (b, add) at h in absurd cc
    | inr b ↦
        let f : FileStore → FileStore × Option StoreError = (λ t.
          append_key hash trim now w secret (new_id (take 100 draws) t.keys) (trim name) l agent
            t) in
        let t = (reload true now d s).0 in
        let (_, same) = after_reload-done (reload true now d s) f (rw (b, add) at h) in
        let ok : (f t).1 ≡ none = sym (ap (λ z. z.1) same) ∙ (rw (b, add) at h) in
        rw (b, add)
          (subst (λ z. Minted now name l agent t.keys z.0.keys) (sym same)
            (append_key-done now w secret (take 100 draws) name l agent t _ refl ok))
  ]

  -- The writes of the store, as data.
  pub data Write : Type 0 where
    setting_status : String → Status → Write
    setting_limits : String → Limits → Option Bool → Write
    rotating : String → Option String → Write
    adding : Option String → List (Option String) → String → Limits → Bool → Write

  abbrev pub perform : ℕ → Disk → Saved → Write → FileStore → FileStore × Option StoreError
  perform now d w (setting_status ref st) s = set_status now d w ref st s
  perform now d w (setting_limits ref l agent) s = set_limits_and_agent now d w ref l agent s
  perform now d w (rotating ref secret) s = rotate hash trim now d w ref secret s
  perform now d w (adding secret draws name l agent) s =
      add hash trim now d w secret draws name l agent s

  mutate-UniqueIds :
      (now : ℕ) (d : Disk) (w : Saved) (ref : String) (f : Key → Option Key) (s : FileStore)
      → ((k x : Key) → f k ≡ some x → x.id ≡ k.id)
      → (mutate now d w ref f s).1 ≡ none
      → UniqueIds (reload true now d s).0.keys
      → UniqueIds (mutate now d w ref f s).0.keys
  mutate-UniqueIds now d w ref f s keeps h u =
      let (i, k, x, _, g, e, n) = mutate-Changed now d w ref f s h in
      subst UniqueIds (sym n) (UniqueIds-set (reload true now d s).0.keys i k x g (keeps k x e) u)

  -- Where the file as re-read gives no two keys one id, neither does the file that a status, limit
  -- or secret change or a mint writes.
  pub perform-UniqueIds :
      (now : ℕ) (d : Disk) (w : Saved) (c : Write) (s : FileStore)
      → (perform now d w c s).1 ≡ none
      → UniqueIds (reload true now d s).0.keys
      → UniqueIds (perform now d w c s).0.keys
  unfolding set_status set_limits_and_agent rotate minted
  perform-UniqueIds now d w (setting_status ref st) s h u =
      mutate-UniqueIds now d w ref _ s (λ k x e. cc) h u
  perform-UniqueIds now d w (setting_limits ref l agent) s h u =
      mutate-UniqueIds now d w ref _ s (λ k x e. cc) h u
  perform-UniqueIds now d w (rotating ref none) s h u = absurd cc
  perform-UniqueIds now d w (rotating ref (some secret)) s h u =
      mutate-UniqueIds now d w ref _ s (λ k x e. cc) h u
  perform-UniqueIds now d w (adding secret draws name l agent) s h u =
      let (id, _, no_id, _, n) = add_done now d w secret draws name l agent s h in
      subst UniqueIds (sym n) (UniqueIds-snoc (reload true now d s).0.keys _ no_id u)
