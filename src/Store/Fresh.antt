-- ===== src/Store/Fresh.antt =====
-- What the store shows of the file, and what a look-up of a secret finds there.
use Prim.Native.String.{String}
use text.Mathlib.Text.{◌==◌ as str_eq}
use infercat.Common.{
  ℕ, zero, suc, eqb_ℤ, ◌≡◌, refl, sym, ap, subst, ◌∙◌, ◌⊎◌, inl, inr, true, false, ◌&&◌, Option,
  none, some, List, [], ◌∷◌, map, Bool-cases, get_elem?, All,
}
use infercat.Keys.{Key}
use infercat.Store.Lookup.{match_from, second_look, look_again, first_look, lookup}
use infercat.Store.{
  Stamp, Stat, missing, failed, present, Content, unreadable, malformed, document, Disk, FileStore,
  StoreError, load, file_version, same_stamp, read_document, read_file, throttled, reload,
}

abbrev ShowsFile : Stat → Content → List Key → Type 0
ShowsFile missing c ks = ks ≡ []
ShowsFile failed c ks = ⊥
ShowsFile (present t) unreadable ks = ⊥
ShowsFile (present t) malformed ks = ⊥
ShowsFile (present t) (document v xs) ks = (eqb_ℤ v file_version ≡ true) × (ks ≡ map load xs)

-- The keys are those of the file, or none where there is no file.
abbrev pub Shows : Disk → List Key → Type 0
Shows d ks = ShowsFile d.stat d.content ks

-- A file whose stamp is the one last read still has what was read.
abbrev pub IsStamped : Disk → FileStore → Type 0
IsStamped d s =
    (t : Stamp) → d.stat ≡ present t → (s.loaded && same_stamp s.stamp t) ≡ true → Shows d s.keys

read_document-Shows :
    (t : Stamp) (c : Content) (s : FileStore)
    → (read_document t c s).1 ≡ none
    → ShowsFile (present t) c (read_document t c s).0.keys
unfolding read_document
read_document-Shows t unreadable s h = absurd cc
read_document-Shows t malformed s h = absurd cc
read_document-Shows t (document v xs) s h = elim (Bool-cases (eqb_ℤ v file_version)) [
  | inl b ↦ (b, rw b refl)
  | inr b ↦ let bad : some StoreError.version_error ≡ none = rw (b, read_document) at h in absurd cc
]

read_file-Shows :
    (st : Stat) (c : Content) (s : FileStore)
    → ((t : Stamp)
        → st ≡ present t
        → (s.loaded && same_stamp s.stamp t) ≡ true
        → ShowsFile st c s.keys)
    → (read_file st c s).1 ≡ none
    → ShowsFile st c (read_file st c s).0.keys
unfolding read_file
read_file-Shows missing c s f h = refl
read_file-Shows failed c s f h = absurd cc
read_file-Shows (present t) c s f h = elim (Bool-cases (s.loaded && same_stamp s.stamp t)) [
  | inl b ↦ subst (λ r. ShowsFile (present t) c r.0.keys) (sym (unchanged b)) (f t refl b)
  | inr b ↦
      subst (λ r. ShowsFile (present t) c r.0.keys) (sym (changed b))
        (read_document-Shows t c s (sym (ap (λ r. r.1) (changed b)) ∙ h))
]
  where
    unchanged : (s.loaded && same_stamp s.stamp t) ≡ true → read_file (present t) c s ≡ (s, none)
    unchanged b = rw b refl

    changed :
        (s.loaded && same_stamp s.stamp t) ≡ false → read_file (present t) c s ≡ read_document t c s
    changed b = rw b refl

-- Where a file whose stamp is the one last read still has what was read, a forced re-read that
-- reports no error leaves the store with the keys of the file, each with the defaults of audio
-- filled in, and with none where there is no file.
pub reload_fresh :
    (now : ℕ) (d : Disk) (s : FileStore)
    → IsStamped d s
    → (reload true now d s).1 ≡ none
    → Shows d (reload true now d s).0.keys
unfolding reload throttled
reload_fresh now d s f h = read_file-Shows d.stat d.content _ f h

abbrev pub Fits : String → Key → Type 0
Fits want k = str_eq k.secret_hash want ≡ true

abbrev pub NoFit : String → List Key → Type 0
NoFit want = All (λ k. str_eq k.secret_hash want ≡ false)

match_from-cases :
    (found : Option Key) (want : String) (ks : List Key)
    → ((match_from found want ks ≡ found) × NoFit want ks)
      ⊎ ((i : ℕ) × (k : Key) × (match_from found want ks ≡ some k)
          × (get_elem? ks i ≡ some k)
          × Fits want k)
unfolding match_from
match_from-cases found want [] = inl (refl, tt)
match_from-cases found want (k ∷ ks) = elim (Bool-cases (str_eq k.secret_hash want)) [
  | inl b ↦ elim (match_from-cases (some k) want ks) [
    | inl (e, _) ↦ inr (zero, k, rw (b, match_from) e, refl, b)
    | inr (i, x, e, g, f) ↦ inr (suc i, x, rw (b, match_from) e, g, f)
  ]
  | inr b ↦ elim (match_from-cases found want ks) [
    | inl (e, n) ↦ inl (rw (b, match_from) e, (b, n))
    | inr (i, x, e, g, f) ↦ inr (suc i, x, rw (b, match_from) e, g, f)
  ]
]

-- What a look-up came to, with the store that it left.
abbrev pub Judged :
    (FileStore → Type 0) → String → FileStore × Option Key × Option StoreError → Type 0
Judged Read want (t, some k, e) = (i : ℕ) × (get_elem? t.keys i ≡ some k) × Fits want k
Judged Read want (t, none, none) = Read t × NoFit want t.keys
Judged Read want (t, none, some e) = Unit

second_look-Judged :
    (Read : FileStore → Type 0) (want : String) (r : FileStore × Option StoreError)
    → (r.1 ≡ none → Read r.0)
    → Judged Read want (second_look want r)
unfolding second_look
second_look-Judged Read want (t, some e) f = tt
second_look-Judged Read want (t, none) f = elim (match_from-cases none want t.keys) [
  | inl (e, n) ↦ subst (λ o. Judged Read want (t, o, none)) (sym e) (f refl, n)
  | inr (i, k, e, g, x) ↦ subst (λ o. Judged Read want (t, o, none)) (sym e) (i, g, x)
]

look_again-Judged :
    (now : ℕ) (again : Disk) (want : String) (s : FileStore) (o : Option Key)
    → IsStamped again s
    → match_from none want s.keys ≡ o
    → Judged (λ t. Shows again t.keys) want (look_again now again want s o)
unfolding look_again
look_again-Judged now again want s none f m =
    second_look-Judged (λ t. Shows again t.keys) want (reload true now again s)
      (reload_fresh now again s f)
look_again-Judged now again want s (some k) f m = elim (match_from-cases none want s.keys) [
  | inl (e, _) ↦ let bad : some k ≡ none = sym m ∙ e in absurd cc
  | inr (i, x, e, g, h) ↦
      let same : some x ≡ some k = sym e ∙ m in
      let is : x ≡ k = cc in
      (i, subst (λ z. get_elem? s.keys i ≡ some z) is g, subst (Fits want) is h)
]

first_look-Judged :
    (now : ℕ) (again : Disk) (want : String) (r : FileStore × Option StoreError)
    → IsStamped again r.0
    → Judged (λ t. Shows again t.keys) want (first_look now again want r)
unfolding first_look
first_look-Judged now again want (t, some e) f = tt
first_look-Judged now again want (t, none) f = look_again-Judged now again want t _ f refl

-- Where a file whose stamp is the one last read still has what was read: a look-up that finds a
-- key finds one of the store's whose digest is that of the secret. One that finds none, and
-- reports no error, has read the file again: the store has the keys of the file as it was at the
-- second look, and no digest of theirs is that of the secret.
pub lookup-Judged :
    (hash : String → String) (now : ℕ) (d again : Disk) (secret : String) (s : FileStore)
    → IsStamped again (reload false now d s).0
    → Judged (λ t. Shows again t.keys) (hash secret) (lookup hash now d again secret s)
unfolding lookup
lookup-Judged hash now d again secret s f =
    first_look-Judged now again (hash secret) (reload false now d s) f
