-- ===== src/Keys.antt =====
-- internal/keys/keys.go and store.go: a friend's key, and finding one by id or by name.
pub mod Index
pub mod Unknown
pub mod Tests
use Prim.Native.String.{String}
use text.Mathlib.Text.{◌==◌ as str_eq}
use infercat.Common.{
  ℕ, suc, ◌+◌, Bool, true, false, Option, none, some, List, [], ◌∷◌, if◌then◌else◌, ◌==◌, ltb,
}
use infercat.Limits.{Limits}

pub data Status : Type 0 where
  active paused revoked : Status

pub record Key : Type 0 where
  pub agent : Bool
  pub id : String
  pub name : String
  pub secret_hash : String
  pub status : Status
  pub created_at : ℕ
  pub limits : Limits

abbrev pub is_live : Status → Bool
is_live revoked = false
is_live active = true
is_live paused = true

abbrev pub contains : String → List String → Bool
contains m [] = false
contains m (x ∷ xs) = if str_eq x m then true else contains m xs

abbrev is_empty : List String → Bool
is_empty [] = true
is_empty (_ ∷ _) = false

-- `(*Key).AllowsModel`
unfoldable pub allows_model : Key → String → Bool
allows_model k m = if is_empty k.limits.models then true else contains m k.limits.models

-- What `index` answers: a position, or one of its errors.
pub data Found : Type 0 where
  at : ℕ → Found
  ambiguous ambiguous_revoked not_found : Found

unfoldable pub id_index : ℕ → String → List Key → Option ℕ
id_index i ref [] = none
id_index i ref (k ∷ ks) = if str_eq k.id ref then some i else id_index (i + 1) ref ks

-- The variables of the second loop: how many keys have the name, how many of them are not
-- revoked, and the last of each.
pub record Tally : Type 0 where
  pub live : ℕ
  pub every : ℕ
  pub live_at : ℕ
  pub any_at : ℕ

abbrev pub no_tally : Tally
no_tally = record { live = 0; every = 0; live_at = 0; any_at = 0 }

pub tally_key : ℕ → String → Key → Tally → Tally
tally_key i ref k c =
    if str_eq k.name ref
    then if is_live k.status
      then record { live = c.live + 1; every = c.every + 1; live_at = i; any_at = i }
      else record c { every = c.every + 1; any_at = i }
    else c

pub tally : ℕ → String → List Key → Tally → Tally
unfolding tally_key
tally i ref [] c = c
tally i ref (k ∷ ks) c = tally (i + 1) ref ks (tally_key i ref k c)

-- The final `switch`.
pub decide : Tally → Found
decide c =
    if c.live == 1
    then at c.live_at
    else if ltb 1 c.live
    then ambiguous
    else if c.every == 1
    then at c.any_at
    else if ltb 1 c.every
    then ambiguous_revoked
    else not_found

unfoldable pub index : String → List Key → Found
unfolding id_index tally decide
index ref keys = elim (id_index 0 ref keys) [
  | some i ↦ at i
  | none ↦ decide (tally 0 ref keys no_tally)
]
