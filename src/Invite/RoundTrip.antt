-- ===== src/Invite/RoundTrip.antt =====
-- internal/invite/invite.go: what `Decode` accepts, exactly, and that it undoes `Encode`.
use infercat.Common.{
  codes, ℕ, ◌≡◌, ◌≢◌, ◌⊎◌, ◌↔◌, refl, sym, ap, ◌∙◌, Bool, true, false, none, List, [], ◌∷◌, ◌++◌,
  arith, All-append, Bool-cases, Option-cases, if_ind, inl, inr,
}
use infercat.Invite.{
  Text, Invite, ok, dot, invite_prefix, prefix_family, same, cut_prefix, check_prefix,
  is_base64_url, all_base64, is_empty, is_addr, is_space, split, trim_space, decode_split, decode,
  assemble, encode,
}
use infercat.Invite.Split.{
  Lacks, Solid, join, join-split, split-join, all_base64-Lacks, all_base64-Solid, trim_space-Solid,
}

-- The two formats that this version reads.
abbrev pub second_prefix : Text
second_prefix = codes "ic2"

-- An address of the tailcat form, and a secret, both of the base64url alphabet.
pub record IsInvite (v : Invite) : Type 0 where
  pub address : is_addr v.addr ≡ true
  pub alphabet : is_base64_url v.secret ≡ true

same-eq : (xs ys : Text) → same xs ys ≡ true → xs ≡ ys
unfolding same
same-eq [] [] h = refl
same-eq [] (y ∷ ys) h = cc
same-eq (x ∷ xs) [] h = cc
same-eq (x ∷ xs) (y ∷ ys) h = ground (arith, same-eq xs ys)

check_prefix-none : (p : Text) → check_prefix p ≡ none → (p ≡ invite_prefix) ⊎ (p ≡ second_prefix)
unfolding check_prefix
check_prefix-none p h = elim (Bool-cases (same p invite_prefix)) [
  | inl y ↦ inl (same-eq p invite_prefix y)
  | inr n ↦ elim (Bool-cases (same p second_prefix)) [
    | inl y ↦ inr (same-eq p second_prefix y)
    | inr m ↦ elim (Option-cases (cut_prefix prefix_family p)) [
      | inl e ↦ absurd (ground (arith, n, m, e))
      | inr (digits, e) ↦ absurd (ground (arith, n, m, e))
    ]
  ]
]

decode_split-ok :
    (ps : List Text) {v : Invite}
    → decode_split ps ≡ ok v
    → (p : Text) × (ps ≡ p ∷ v.addr ∷ v.secret ∷ []) × (check_prefix p ≡ none) × IsInvite v
unfolding decode_split
decode_split-ok [] h = absurd (ground arith)
decode_split-ok (p ∷ []) h = absurd (ground arith)
decode_split-ok (p ∷ a ∷ []) h = absurd (ground arith)
decode_split-ok (p ∷ a ∷ b ∷ []) h =
    (p, ground arith, ground arith, record { address = ground arith; alphabet = ground arith })
decode_split-ok (p ∷ a ∷ b ∷ c ∷ cs) h = absurd (ground arith)

is_base64_url-all : (a : Text) → is_base64_url a ≡ true → all_base64 a ≡ true
unfolding is_base64_url
is_base64_url-all a h = ground arith

is_addr-base64 : (a : Text) → is_addr a ≡ true → all_base64 a ≡ true
unfolding is_addr
is_addr-base64 a h = elim (Option-cases (cut_prefix (codes "tc") a)) [
  | inl e ↦ absurd (ground (arith, e))
  | inr (rest, e) ↦ is_base64_url-all a (ground (arith, e))
]

is_addr-filled : (a : Text) → is_addr a ≡ true → is_empty a ≡ false
unfolding is_addr is_empty
is_addr-filled [] h = cc
is_addr-filled (c ∷ cs) h = refl

is_base64_url-filled : (a : Text) → is_base64_url a ≡ true → is_empty a ≡ false
unfolding is_base64_url
is_base64_url-filled a h = ground arith

decode_split-valid :
    (p : Text) (v : Invite)
    → check_prefix p ≡ none
    → IsInvite v
    → decode_split (p ∷ v.addr ∷ v.secret ∷ []) ≡ ok v
unfolding decode_split
decode_split-valid p v h k =
    ground (arith, h, is_addr-filled v.addr k.address, is_base64_url-filled v.secret k.alphabet)

first-known : check_prefix invite_prefix ≡ none
unfolding check_prefix same
first-known = refl

second-known : check_prefix second_prefix ≡ none
unfolding check_prefix same
second-known = refl

short-Lacks : (n : ℕ) → n ≢ dot → Lacks (b'i' ∷ b'c' ∷ n ∷ [])
short-Lacks n h = (λ e. omega arith, (λ e. omega arith, (h, tt)))

assembled :
    (q : Text) (v : Invite) (s : Text)
    → check_prefix q ≡ none
    → Lacks q
    → IsInvite v
    → trim_space s ≡ assemble q v
    → decode s ≡ ok v
unfolding decode
assembled q v s h l k e =
    ap (λ t. decode_split (split t)) e
    ∙ ap decode_split (
        split-join q v.addr v.secret l (all_base64-Lacks v.addr (is_addr-base64 v.addr k.address))
          (all_base64-Lacks v.secret (is_base64_url-all v.secret k.alphabet)))
    ∙ decode_split-valid q v h k

-- `Decode` accepts a text, and answers this address and this secret, exactly when, apart from the
-- white space around it, the text is `ic1` or `ic2`, the address and the secret with a dot between
-- each two, and both are well-formed.
pub decode_exact :
    (s : Text) (v : Invite)
    → (decode s ≡ ok v) ↔ (
        IsInvite v
        × ((trim_space s ≡ assemble invite_prefix v) ⊎ (trim_space s ≡ assemble second_prefix v)))
decode_exact s v = (there, back)
  where
    there :
        decode s ≡ ok v
        → IsInvite v
          × ((trim_space s ≡ assemble invite_prefix v) ⊎ (trim_space s ≡ assemble second_prefix v))
    there h =
        let split_ok : decode_split (split (trim_space s)) ≡ ok v = unfold decode in h in
        let (p, e, c, k) = decode_split-ok (split (trim_space s)) split_ok in
        let spelled : trim_space s ≡ assemble p v = sym (join-split (trim_space s)) ∙ ap join e in
        elim (check_prefix-none p c) [
          | inl q ↦ (k, inl (spelled ∙ ap (λ t. assemble t v) q))
          | inr q ↦ (k, inr (spelled ∙ ap (λ t. assemble t v) q))
        ]

    back :
        (IsInvite v
          × ((trim_space s ≡ assemble invite_prefix v) ⊎ (trim_space s ≡ assemble second_prefix v)))
        → decode s ≡ ok v
    back (k, inl e) =
        assembled invite_prefix v s first-known (short-Lacks b'1' (λ q. omega arith)) k e
    back (k, inr e) =
        assembled second_prefix v s second-known (short-Lacks b'2' (λ q. omega arith)) k e

assemble-Solid :
    (n : ℕ) (v : Invite)
    → is_space n ≡ false
    → IsInvite v
    → Solid (assemble (b'i' ∷ b'c' ∷ n ∷ []) v)
unfolding is_space
assemble-Solid n v h k =
    let b = all_base64-Solid v.secret (is_base64_url-all v.secret k.alphabet) in
    let a = all_base64-Solid v.addr (is_addr-base64 v.addr k.address) in
    (refl, (refl, (h, (refl, All-append _ v.addr (dot ∷ v.secret) a (refl, b)))))

-- Whatever the address parser says of the address, decoding what `Encode` made of a well-formed
-- address and secret gives both back.
pub decode-encode :
    (psk : Text → Bool) (addr secret : Text)
    → is_addr addr ≡ true
    → is_base64_url secret ≡ true
    → decode (encode psk addr secret) ≡ ok (record { addr = addr; secret = secret })
unfolding encode
decode-encode psk addr secret h k =
    let v : Invite = record { addr = addr; secret = secret } in
    let valid : IsInvite v = record { address = h; alphabet = k } in
    if_ind (λ (q : Text). decode (q ++ dot ∷ (addr ++ dot ∷ secret)) ≡ ok v) (psk addr)
      second_prefix invite_prefix
      (assembled second_prefix v _ second-known (short-Lacks b'2' (λ q. omega arith)) valid
        (trim_space-Solid _ (assemble-Solid b'2' v (unfold is_space in refl) valid)))
      (assembled invite_prefix v _ first-known (short-Lacks b'1' (λ q. omega arith)) valid
        (trim_space-Solid _ (assemble-Solid b'1' v (unfold is_space in refl) valid)))
