-- ===== src/Invite/Tests.antt =====
-- internal/invite/invite.go: decoding some texts.
use infercat.Common.{codes, ◌≡◌, ◌⊎◌, ◌↔◌, refl, Bool, true}
use infercat.Invite.{
  Text, Invite, ok, err, newer, parts, is_addr, is_base64_url, trim_space, check_prefix, same,
  cut_prefix, is_newer, decode, encode, assemble, invite_prefix, split_from, trim_left, trim_right,
}
use infercat.Invite.RoundTrip.{IsInvite, second_prefix, decode_exact, decode-encode}

abbrev any_psk : Text → Bool
any_psk a = true

abbrev friend : Invite
friend = record { addr = codes "tcab"; secret = codes "s-1_" }

-- A newer format says so even where its layout differs.
decode_newer : decode (codes " ic3.x ") ≡ err newer
unfolding decode check_prefix same cut_prefix split_from is_newer trim_left trim_right
decode_newer = refl

decode_two_parts : decode (codes "ic1.tcab") ≡ err parts
unfolding decode check_prefix same split_from trim_left trim_right
decode_two_parts = refl

decode_exact_example : (decode (codes " ic2.tcab.s-1_") ≡ ok friend) ↔ (
    IsInvite friend
    × ((trim_space (codes " ic2.tcab.s-1_") ≡ assemble invite_prefix friend)
        ⊎ (trim_space (codes " ic2.tcab.s-1_") ≡ assemble second_prefix friend)))
decode_exact_example = decode_exact (codes " ic2.tcab.s-1_") friend

friend_address : is_addr friend.addr ≡ true
unfolding is_addr
friend_address = refl

friend_alphabet : is_base64_url friend.secret ≡ true
unfolding is_base64_url
friend_alphabet = refl

decode-encode_example : decode (encode any_psk (codes "tcab") (codes "s-1_")) ≡ ok friend
decode-encode_example =
    decode-encode any_psk (codes "tcab") (codes "s-1_") friend_address friend_alphabet
