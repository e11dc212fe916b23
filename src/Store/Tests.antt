-- ===== src/Store/Tests.antt =====
-- A store of two keys, a file that has not changed, and writes that are refused or done.
use Prim.Native.String.{String}
use infercat.Common.{
  ℕ, ◌≡◌, refl, true, false, Option, none, some, List, [], ◌∷◌, get_elem?, set, pos,
}
use infercat.Limits.{default_limits, audio_defaults, or_default, clamp_unlimited}
use infercat.Keys.{Key, active, paused, index}
use infercat.Keys.Index.{Names}
use infercat.Store.Lookup.{match_from, lookup}
use infercat.Store.{
  Stamp, Disk, present, document, FileStore, StoreError, save_error, Saved, refused, written,
  reload, load, mutate, save, add, new_id,
}
use infercat.Store.Write.{mutate_refused, mutate_done}
use infercat.Store.Ids.{UniqueIds, Minted, add_done, Write, adding, perform, perform-UniqueIds}
use infercat.Store.Fresh.{Shows, IsStamped, Judged, lookup-Judged}

abbrev key : String → String → String → Key
key id name digest = record {
  agent = false;
  id = id;
  name = name;
  secret_hash = digest;
  status = active;
  created_at = 0;
  limits = default_limits;
}

abbrev bob : Key
bob = key "k_1" "bob" "digest 1"

abbrev ann : Key
ann = key "k_2" "ann" "digest 2"

abbrev stamp : Stamp
stamp = record { mod_time = 5; size = 90 }

abbrev file : Disk
file = record { stat = present stamp; content = document (pos 1) (bob ∷ ann ∷ []) }

abbrev store : FileStore
store = record {
  keys = bob ∷ ann ∷ [];
  stamp = some stamp;
  loaded = true;
  last_check = 0;
  changes = some false;
}

abbrev pause : Key → Option Key
pause k = some (record k { status = paused })

abbrev now : ℕ
now = 7_000_000_000

refused_pause : (mutate now file refused "ann" pause store).1 ≡ some save_error
unfolding mutate reload index save
refused_pause = refl

mutate_refused_example :
    (mutate now file refused "ann" pause store).0 ≡ (reload true now file store).0
mutate_refused_example = mutate_refused now file refused "ann" pause store save_error refused_pause

done_pause : (mutate now file (written none) "ann" pause store).1 ≡ none
unfolding mutate reload index save
done_pause = refl

mutate_done_example :
    (i : ℕ) × (k : Key) × (x : Key) × Names "ann" (reload true now file store).0.keys i
    × (get_elem? (reload true now file store).0.keys i ≡ some k)
    × (pause k ≡ some x)
    × ((mutate now file (written none) "ann" pause store).0.keys
        ≡ set (reload true now file store).0.keys i x)
mutate_done_example = mutate_done now file (written none) "ann" pause store done_pause

-- The first id drawn is ann's, and the second is free.
abbrev draws : List (Option String)
draws = some "k_2" ∷ some "k_3" ∷ []

drawn : new_id draws (bob ∷ ann ∷ []) ≡ some "k_3"
unfolding new_id index
drawn = refl

abbrev as_is : String → String
as_is s = s

abbrev mint : Saved → FileStore × Option StoreError
mint w = add as_is as_is now file w (some "digest 3") draws "eve" default_limits false store

mint_done : (mint (written none)).1 ≡ none
unfolding add reload index save new_id
mint_done = refl

mint_refused : (mint refused).1 ≡ some save_error
unfolding add reload index save new_id
mint_refused = refl

add_done_example :
    Minted as_is as_is now "eve" default_limits false
      (reload true now file store).0.keys
      (mint (written none)).0.keys
add_done_example =
    add_done as_is as_is now file (written none) (some "digest 3") draws "eve" default_limits false
      store mint_done

abbrev mint_write : Write as_is as_is
mint_write = adding (some "digest 3") draws "eve" default_limits false

file_ids : UniqueIds (reload true now file store).0.keys
unfolding reload
file_ids = ((refl, tt), (tt, tt))

perform-UniqueIds_example :
    UniqueIds (perform as_is as_is now file (written none) mint_write store).0.keys
perform-UniqueIds_example =
    perform-UniqueIds as_is as_is now file (written none) mint_write store mint_done file_ids

-- The store never read the file, which now has ann alone.
abbrev unread : FileStore
unread = record store { loaded = false }

abbrev ann_only : Disk
ann_only = record { stat = present stamp; content = document (pos 1) (ann ∷ []) }

unread-IsStamped : IsStamped ann_only unread
unread-IsStamped t _ e = absurd cc

unread-reload : (reload true now ann_only unread).1 ≡ none
unfolding reload
unread-reload = refl

-- The store has read the file, and the digest is no key's.
store-IsStamped : IsStamped file (reload false now file store).0
unfolding reload load audio_defaults or_default clamp_unlimited
store-IsStamped t _ _ = (refl, refl)

lookup-Judged_example :
    Judged (λ t. Shows file t.keys) (as_is "digest 9") (lookup as_is now file file "digest 9" store)
lookup-Judged_example = lookup-Judged as_is now file file "digest 9" store store-IsStamped

found_none : (lookup as_is now file file "digest 9" store).1 ≡ none
unfolding lookup match_from reload
found_none = refl
