-- ===== src/Store/Lookup.antt =====
-- internal/keys/store.go: `Lookup` and `match`, which find the key of a secret.
use Prim.Native.String.{String}
use text.Mathlib.Text.{◌==◌ as str_eq}
use infercat.Common.{ℕ, true, false, Option, none, some, List, [], ◌∷◌, if◌then◌else◌}
use infercat.Keys.{Key}
use infercat.Store.{Disk, FileStore, StoreError, reload}

-- `match`: every key is compared, and the last one that fits is found.
unfoldable pub match_from : Option Key → String → List Key → Option Key
match_from found want [] = found
match_from found want (k ∷ ks) =
    match_from (if str_eq k.secret_hash want then some k else found) want ks

-- What the second look answers, and the first where it finds a key or fails.
unfoldable pub second_look :
    String → FileStore × Option StoreError → FileStore × Option Key × Option StoreError
unfolding match_from
second_look want (t, some e) = (t, none, some e)
second_look want (t, none) = (t, match_from none want t.keys, none)

unfoldable pub look_again :
    ℕ → Disk → String → FileStore → Option Key → FileStore × Option Key × Option StoreError
unfolding second_look
look_again now d want s (some k) = (s, some k, none)
look_again now d want s none = second_look want (reload true now d s)

unfoldable pub first_look :
    ℕ → Disk → String → FileStore × Option StoreError → FileStore × Option Key × Option StoreError
unfolding look_again
first_look now again want (t, some e) = (t, none, some e)
first_look now again want (t, none) = look_again now again want t (match_from none want t.keys)

module _ (hash : String → String) where
  -- `Lookup`; the file may change between its two looks.
  unfoldable pub lookup :
      ℕ → Disk → Disk → String → FileStore → FileStore × Option Key × Option StoreError
  unfolding first_look
  lookup now d again secret s = first_look now again (hash secret) (reload false now d s)
