-- ===== src/Keys/Tests.antt =====
-- Three keys: bob revoked, bob again, and ann paused.
use Prim.Native.String.{String}
use infercat.Common.{◌≡◌, refl, false, List, [], ◌∷◌}
use infercat.Limits.{default_limits}
use infercat.Keys.{Key, Status, active, paused, revoked, at, ambiguous_revoked, index, tally_key}
use infercat.Keys.Index.{Names, index_sound}

abbrev key : String → String → Status → Key
key id name status = record {
  agent = false;
  id = id;
  name = name;
  secret_hash = id;
  status = status;
  created_at = 0;
  limits = default_limits;
}

abbrev keys : List Key
keys = key "k_1" "bob" revoked ∷ key "k_2" "bob" active ∷ key "k_3" "ann" paused ∷ []

bob_at : index "bob" keys ≡ at 1
unfolding index tally_key
bob_at = refl

revoked_twice :
    index "bob" (key "k_1" "bob" revoked ∷ key "k_2" "bob" revoked ∷ []) ≡ ambiguous_revoked
unfolding index tally_key
revoked_twice = refl

index_sound_example : Names "bob" keys 1
index_sound_example = index_sound "bob" keys 1 bob_at
