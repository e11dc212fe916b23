-- ===== src/Invite.antt =====
-- internal/invite/invite.go: the one string that a friend pastes, `ic1.<address>.<secret>`. A text is
-- the list of its code points. Whether an address holds a preshared key is what the address
-- parser of the tailcat library answers, a parameter.
pub mod Split
pub mod RoundTrip
pub mod Tests
use infercat.Common.{
  ℕ, zero, suc, ◌+◌, ◌-◌, ◌*◌, ◌^◌, Bool, true, false, not, ◌&&◌, ◌||◌, Option, none, some, List,
  [], ◌∷◌, ◌++◌, if◌then◌else◌, ◌==◌, leb, ltb, codes,
}

abbrev pub Text : Type 0
Text = List ℕ

pub record Invite : Type 0 where
  pub addr : Text
  pub secret : Text

-- The errors of `Decode`; `newer` is `ErrPrefix` with the message that asks for a newer app.
pub data DecodeError : Type 0 where
  prefix newer parts empty_part bad_addr secret_chars : DecodeError

pub data Decoded : Type 0 where
  ok : Invite → Decoded
  err : DecodeError → Decoded

abbrev pub dot : ℕ
dot = b'.'

-- `product.InvitePrefix`, and the family that is left of it without its digits.
abbrev pub invite_prefix : Text
invite_prefix = codes "ic1"

abbrev is_digit : ℕ → Bool
is_digit c = leb b'0' c && leb c b'9'

-- `strings.TrimRight` by the digits.
trim_digits : Text → Text
trim_digits [] = []
trim_digits (c ∷ cs) = elim (trim_digits cs) [
  | [] ↦ if is_digit c then [] else c ∷ []
  | d ∷ ds ↦ c ∷ d ∷ ds
]

unfoldable pub prefix_family : Text
unfolding trim_digits
prefix_family = trim_digits invite_prefix

unfoldable pub same : Text → Text → Bool
same [] [] = true
same [] (y ∷ ys) = false
same (x ∷ xs) [] = false
same (x ∷ xs) (y ∷ ys) = x == y && same xs ys

-- `strings.CutPrefix`.
unfoldable pub cut_prefix : Text → Text → Option Text
cut_prefix [] s = some s
cut_prefix (p ∷ ps) [] = none
cut_prefix (p ∷ ps) (c ∷ s) = let rest = cut_prefix ps s in if p == c then rest else none

-- `strconv.Atoi` of a text that is above 2: decimal digits after at most one sign, and no
-- value beyond an `int` of 64 bits.
value_of : ℕ → Text → Option ℕ
value_of n [] = some n
value_of n (c ∷ cs) =
    let rest = value_of (n * 10 + (c - b'0')) cs in if is_digit c then rest else none

above_two : Option ℕ → Bool
above_two none = false
above_two (some n) = ltb 2 n && ltb n (2 ^ 63)

unfoldable pub is_newer : Text → Bool
unfolding value_of above_two
is_newer [] = false
is_newer (c ∷ []) = above_two (value_of 0 (c ∷ []))
is_newer (c ∷ d ∷ ds) =
    if c == b'+' then above_two (value_of 0 (d ∷ ds)) else above_two (value_of 0 (c ∷ d ∷ ds))

-- `checkPrefix`; `none` is no error.
unfoldable pub check_prefix : Text → Option DecodeError
unfolding prefix_family
check_prefix p =
    if same p invite_prefix || same p (prefix_family ++ codes "2")
    then none
    else elim (cut_prefix prefix_family p) [
      | none ↦ some prefix
      | some digits ↦ if is_newer digits then some newer else some prefix
    ]

-- The alphabet of `isBase64URL`.
unfoldable pub is_base64_char : ℕ → Bool
is_base64_char c =
    (leb b'A' c && leb c b'Z')
    || ((leb b'a' c && leb c b'z') || (is_digit c || (c == b'-' || c == b'_')))

unfoldable pub all_base64 : Text → Bool
unfolding is_base64_char
all_base64 [] = true
all_base64 (c ∷ cs) = is_base64_char c && all_base64 cs

unfoldable pub is_empty : Text → Bool
is_empty [] = true
is_empty (c ∷ cs) = false

-- `isBase64URL`.
unfoldable pub is_base64_url : Text → Bool
unfolding is_empty all_base64
is_base64_url s = not (is_empty s) && all_base64 s

-- `strings.TrimSpace`: Unicode's white space at both ends.
unfoldable pub is_space : ℕ → Bool
is_space c =
    (leb 9 c && leb c 13)
    || (c == 32
        || (c == 0x85
            || (c == 0xA0
                || (c == 0x1680
                    || ((leb 0x2000 c && leb c 0x200A)
                        || (c == 0x2028
                            || (c == 0x2029 || (c == 0x202F || (c == 0x205F || c == 0x3000)))))))))

unfoldable pub trim_left : Text → Text
unfolding is_space
trim_left [] = []
trim_left (c ∷ cs) = let rest = trim_left cs in if is_space c then rest else c ∷ cs

unfoldable pub trim_right : Text → Text
unfolding is_space
trim_right [] = []
trim_right (c ∷ cs) = elim (trim_right cs) [
  | [] ↦ if is_space c then [] else c ∷ []
  | d ∷ ds ↦ c ∷ d ∷ ds
]

unfoldable pub trim_space : Text → Text
trim_space s = trim_right (trim_left s)

-- `strings.Split` by a dot: the part that is being read, then the rest.
unfoldable pub split_from : Text → Text → List Text
split_from part [] = part ∷ []
split_from part (c ∷ cs) =
    let closed = part ∷ split_from [] cs in
    let longer = split_from (part ++ c ∷ []) cs in if c == dot then closed else longer

unfoldable pub split : Text → List Text
split s = split_from [] s

-- An address is `tc` and more, all of the alphabet.
unfoldable pub is_addr : Text → Bool
unfolding cut_prefix is_base64_url
is_addr a = elim (cut_prefix (codes "tc") a) [
  | none ↦ false
  | some rest ↦ not (is_empty rest) && is_base64_url a
]

decode_parts : Text → Text → Decoded
decode_parts addr secret =
    if is_empty addr || is_empty secret
    then err empty_part
    else if not (is_addr addr)
    then err bad_addr
    else if not (is_base64_url secret)
    then err secret_chars
    else ok (record { addr = addr; secret = secret })

three_parts : List Text → Decoded
unfolding decode_parts
three_parts (p ∷ addr ∷ secret ∷ []) = decode_parts addr secret
three_parts _ = err parts

first_part : List Text → Text
first_part [] = []
first_part (p ∷ ps) = p

-- The prefix is checked before the number of the parts.
unfoldable pub decode_split : List Text → Decoded
unfolding three_parts first_part
decode_split ps = elim (check_prefix (first_part ps)) [ some e ↦ err e | none ↦ three_parts ps ]

-- `Decode`
unfoldable pub decode : Text → Decoded
unfolding decode_split split trim_space
decode s = decode_split (split (trim_space s))

abbrev pub assemble : Text → Invite → Text
assemble p v = p ++ dot ∷ (v.addr ++ dot ∷ v.secret)

-- `Encode`; `psk` says whether the address parses with a preshared key.
unfoldable pub encode : (Text → Bool) → Text → Text → Text
unfolding prefix_family
encode psk addr secret =
    let p = if psk addr then prefix_family ++ codes "2" else invite_prefix in
    p ++ dot ∷ (addr ++ dot ∷ secret)
