-- ===== src/Store.antt =====
-- internal/keys/store.go: the key file, its hot reload, and the writes that roll back.
-- A call sees the clock, what the file system answers, and fresh random values as arguments; the
-- digest of a secret (`HashSecret`) and the trimming of a name are parameters.
pub mod Lookup
pub mod Write
pub mod Ids
pub mod Fresh
pub mod Tests
use Prim.Native.String.{String}
use text.Mathlib.Text.{◌==◌ as str_eq}
use infercat.Common.{
  ℕ, ◌-◌, ◌%◌, ℤ, pos, eqb_ℤ, Bool, true, false, not, ◌&&◌, Option, none, some, List, [], ◌∷◌, ◌++◌,
  map, if◌then◌else◌, ltb, ◌==◌, get_elem?, set, take,
}
use infercat.Keys.{Key, Status, active, Found, at, ambiguous, ambiguous_revoked, not_found, index}
use infercat.Limits.{Limits, audio_defaults, image_defaults, with_defaults}

abbrev pub file_version : ℤ
file_version = pos 1

abbrev pub second : ℕ
second = 1_000_000_000

pub record Stamp : Type 0 where
  pub mod_time : ℕ
  pub size : ℕ

abbrev same_stamp : Option Stamp → Stamp → Bool
same_stamp none t = false
same_stamp (some s) t = s.mod_time == t.mod_time && s.size == t.size

-- What `os.Stat` and `os.ReadFile` answer, and what the JSON decoder makes of the bytes.
pub data Stat : Type 0 where
  missing failed : Stat
  present : Stamp → Stat

pub data Content : Type 0 where
  unreadable malformed : Content
  document : ℤ → List Key → Content

pub record Disk : Type 0 where
  pub stat : Stat
  pub content : Content

pub record FileStore : Type 0 where
  pub keys : List Key
  pub stamp : Option Stamp  -- `none` is the zero stamp
  pub loaded : Bool
  pub last_check : ℕ
  pub changes : Option Bool  -- the channel, if made, and whether it holds a notice

pub data StoreError : Type 0 where
  stat_error read_error json_error version_error save_error : StoreError
  no_name no_secret no_free_id rejected : StoreError
  unknown_key ambiguous_name index_out_of_range : StoreError

pub load : Key → Key
load k = record k { limits = audio_defaults k.limits }

-- The rest of `reload`, once the file is there and has changed.
read_document : Stamp → Content → FileStore → FileStore × Option StoreError
unfolding load
read_document t unreadable s = (s, some read_error)
read_document t malformed s = (s, some json_error)
read_document t (document v ks) s =
    if eqb_ℤ v file_version
    then (record s { keys = map load ks; stamp = some t; loaded = true }, none)
    else (s, some version_error)

read_file : Stat → Content → FileStore → FileStore × Option StoreError
unfolding read_document
read_file missing c s = (record s { keys = []; stamp = none; loaded = true }, none)
read_file failed c s = (s, some stat_error)
read_file (present t) c s =
    if s.loaded && same_stamp s.stamp t then (s, none) else read_document t c s

pub throttled : Bool → ℕ → FileStore → Bool
throttled force now s = not force && (s.loaded && ltb (now - s.last_check) second)

pub reload : Bool → ℕ → Disk → FileStore → FileStore × Option StoreError
unfolding read_file throttled
reload force now d s =
    if throttled force now s
    then (s, none)
    else read_file d.stat d.content (record s { last_check = now })

-- What writing the file comes to: refused, or done, with the stamp that a stat then gave.
pub data Saved : Type 0 where
  refused : Saved
  written : Option Stamp → Saved

abbrev notify : Option Bool → Option Bool
notify none = none
notify (some _) = some true

abbrev restamp : Option Stamp → Option Stamp → Option Stamp
restamp old none = old
restamp old (some t) = some t

unfoldable pub save : ℕ → Saved → FileStore → FileStore × Option StoreError
save now refused s = (s, some save_error)
save now (written t) s = (
  record s {
    stamp = restamp s.stamp t;
    last_check = now;
    loaded = true;
    changes = notify s.changes;
  },
  none,
)

-- On success the new store; a refused write restores what stood there.
pub keep_or_restore : FileStore → FileStore × Option StoreError → FileStore × Option StoreError
keep_or_restore undone (s, none) = (s, none)
keep_or_restore undone (s, some e) = (undone, some e)

-- The writes of `mutate` to `s.keys[i]`, in order.
replace_key :
    ℕ → Saved → ℕ → Option Key → (Key → Option Key) → FileStore → FileStore × Option StoreError
unfolding keep_or_restore
replace_key now w i none f s = (s, some index_out_of_range)
replace_key now w i (some before) f s = elim (f before) [
  | none ↦ (s, some rejected)
  | some next ↦
      let put = record s { keys = set s.keys i next } in
      keep_or_restore (record put { keys = set put.keys i before }) (save now w put)
]

at_index : ℕ → Saved → Found → (Key → Option Key) → FileStore → FileStore × Option StoreError
unfolding replace_key
at_index now w (at i) f s = replace_key now w i (get_elem? s.keys i) f s
at_index now w ambiguous f s = (s, some ambiguous_name)
at_index now w ambiguous_revoked f s = (s, some ambiguous_name)
at_index now w not_found f s = (s, some unknown_key)

pub after_reload :
    FileStore × Option StoreError
    → (FileStore → FileStore × Option StoreError)
    → FileStore × Option StoreError
after_reload (s, none) k = k s
after_reload (s, some e) k = (s, some e)

pub mutate :
    ℕ → Disk → Saved → String → (Key → Option Key) → FileStore → FileStore × Option StoreError
unfolding at_index after_reload
mutate now d w ref f s =
    after_reload (reload true now d s) (λ t. at_index now w (index ref t.keys) f t)

-- The status is one of the three that the type has; any other the source refuses at once.
pub set_status : ℕ → Disk → Saved → String → Status → FileStore → FileStore × Option StoreError
set_status now d w ref st s = mutate now d w ref (λ k. some (record k { status = st })) s

pub set_limits_and_agent :
    ℕ → Disk → Saved → String → Limits → Option Bool → FileStore → FileStore × Option StoreError
set_limits_and_agent now d w ref l agent s =
    mutate now d w ref
      (λ k. some (record k {
        limits = image_defaults l;
        agent = elim agent [ none ↦ k.agent | some a ↦ a ];
      }))
      s

pub set_limits : ℕ → Disk → Saved → String → Limits → FileStore → FileStore × Option StoreError
unfolding set_limits_and_agent
set_limits now d w ref l s = set_limits_and_agent now d w ref l none s

find_at : Found → List Key → Option Key × Option StoreError
find_at (at i) keys = (get_elem? keys i, none)
find_at ambiguous keys = (none, some ambiguous_name)
find_at ambiguous_revoked keys = (none, some ambiguous_name)
find_at not_found keys = (none, some unknown_key)

find_in : String → FileStore × Option StoreError → FileStore × Option Key × Option StoreError
unfolding find_at
find_in ref (t, some e) = (t, none, some e)
find_in ref (t, none) = let (k, e) = find_at (index ref t.keys) t.keys in (t, k, e)

pub find : ℕ → Disk → String → FileStore → FileStore × Option Key × Option StoreError
unfolding find_in
find now d ref s = find_in ref (reload false now d s)

-- The tries of `newID`, each with the id that it drew (`none` where the random source failed).
pub new_id : List (Option String) → List Key → Option String
new_id [] keys = none
new_id (none ∷ _) keys = none
new_id (some id ∷ tries) keys =
    let rest = new_id tries keys in
    elim (index id keys) [
      | not_found ↦ some id
      | at _ ↦ rest
      | ambiguous ↦ rest
      | ambiguous_revoked ↦ rest
    ]

module _ (hash trim : String → String) where
  pub rotate : ℕ → Disk → Saved → String → Option String → FileStore → FileStore × Option StoreError
  rotate now d w ref none s = (s, some no_secret)
  rotate now d w ref (some secret) s =
      mutate now d w ref (λ k. some (record k { secret_hash = hash secret })) s

  pub minted : ℕ → String → String → String → Limits → Bool → Key
  minted now id name secret l agent = record {
    agent = agent;
    id = id;
    name = name;
    secret_hash = hash secret;
    status = active;
    created_at = now - now % second;
    limits = with_defaults l;
  }

  append_key :
      ℕ
      → Saved
      → Option String
      → Option String
      → String
      → Limits
      → Bool
      → FileStore
      → FileStore × Option StoreError
  unfolding keep_or_restore minted
  append_key now w none id name l agent s = (s, some no_secret)
  append_key now w (some secret) none name l agent s = (s, some no_free_id)
  append_key now w (some secret) (some id) name l agent s =
      let put = record s { keys = s.keys ++ minted now id name secret l agent ∷ [] } in
      keep_or_restore (record put { keys = s.keys }) (save now w put)

  pub add :
      ℕ
      → Disk
      → Saved
      → Option String
      → List (Option String)
      → String
      → Limits
      → Bool
      → FileStore
      → FileStore × Option StoreError
  unfolding append_key after_reload
  add now d w secret draws name l agent s =
      if str_eq (trim name) ""
      then (s, some no_name)
      else after_reload (reload true now d s)
          (λ t. append_key now w secret (new_id (take 100 draws) t.keys) (trim name) l agent t)
