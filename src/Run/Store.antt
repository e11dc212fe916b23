-- ===== src/Run/Store.antt =====
-- internal/run/store.go and retained.go: what one key's state.json holds, and the budget of its bytes.
-- A map is a list of its entries, in the order in which Go's map happens to be walked. A cursor is
-- the pair of which the source prints `epoch:number`. The bytes that the JSON encoder makes of a
-- snapshot are not modelled, only their number.
pub mod Commit
pub mod Create
pub mod Load
pub mod Numbers
pub mod Reserve
pub mod Subscribe
pub mod Tests
use Prim.Native.String.{String}
use text.Mathlib.Text.{◌==◌ as str_eq}
use infercat.Common.{
  ℕ, ◌+◌, ◌-◌, ◌*◌, Bool, true, false, not, Option, none, some, List, [], ◌∷◌, ◌++◌, if◌then◌else◌,
  leb, ltb, min,
}
use infercat.Run.{
  Raw, max_stored, max_runs, max_live_key, RunError, limit, Result, ok, err, State, terminal, Run,
}
use infercat.Run.Moves.{Approval}

abbrev pub terminal_bound : ℕ
terminal_bound = 4096

abbrev pub max_events : ℕ
max_events = 256

pub record StepEvent : Type 0 where
  pub id : String
  pub type : String
  pub at : ℕ
  pub kind : String
  pub name : String
  pub tool : String
  pub result : String
  pub status : String
  pub text : String
  pub output_id : String

pub record Captured : Type 0 where
  pub kind : String
  pub name : String
  pub mime : String
  pub content : Raw

pub record Retained : Type 0 where
  pub steps : List StepEvent
  pub state : Raw
  pub trajectory : List Raw
  pub outputs : List (String × Captured)
  pub cancel_note : Bool
  pub approval : Option Approval

pub record Summary : Type 0 where
  pub created : ℕ
  pub client_request_id : String
  pub id : String
  pub key_id : String
  pub kind : String
  pub priority : String
  pub state : State
  pub updated : ℕ
  pub expires : ℕ

unfoldable pub summary : Run → Summary
summary r = record {
  created = r.created;
  client_request_id = r.client_request_id;
  id = r.id;
  key_id = r.key_id;
  kind = r.kind;
  priority = r.priority;
  state = r.state;
  updated = r.updated;
  expires = r.expires;
}

pub record Cursor : Type 0 where
  pub epoch : String
  pub number : ℕ

pub record Event : Type 0 where
  pub step : Option StepEvent
  pub cursor : Option Cursor
  pub run_id : String
  pub state : Option State
  pub attempt_id : String
  pub time : ℕ
  pub reset : Bool
  pub runs : List Summary

pub record Snapshot : Type 0 where
  pub cleanup : List String
  pub encoded_bytes : ℕ
  pub exception_bytes : List (String × ℕ)
  pub epoch : String
  pub seq : ℕ
  pub runs : List (String × Run)
  pub events : List Event
  pub retained : List (String × Retained)

-- A lease of bytes; only the owner that comes late releases a late one.
pub record Lease : Type 0 where
  pub late : Bool
  pub bytes : ℕ

-- What the store has of one key.
pub record KeyData : Type 0 where
  pub snapshot : Snapshot
  pub broken : Bool
  pub leases : List (String × Lease)

module _ {ℓ} {A : Type ℓ} where
  unfoldable pub lookup : String → List (String × A) → Option A
  lookup k [] = none
  lookup k ((j, v) ∷ m) = if str_eq j k then some v else lookup k m

  unfoldable pub insert : String → A → List (String × A) → List (String × A)
  insert k v [] = (k, v) ∷ []
  insert k v ((j, w) ∷ m) = if str_eq j k then (j, v) ∷ m else (j, w) ∷ insert k v m

  unfoldable pub remove : String → List (String × A) → List (String × A)
  remove k [] = []
  remove k ((j, w) ∷ m) = if str_eq j k then remove k m else (j, w) ∷ remove k m

  abbrev pub has : List (String × A) → String → Bool
  has m k = elim (lookup k m) [ none ↦ false | some a ↦ true ]

  -- The entries whose key passes a test.
  unfoldable pub restrict : (String → Bool) → List (String × A) → List (String × A)
  restrict p [] = []
  restrict p ((j, w) ∷ m) = let rest = restrict p m in if p j then (j, w) ∷ rest else rest

-- `budget` and `hardCap` of a store that keeps at most `stored` bytes.
unfoldable pub budget : ℕ → ℕ
budget stored = stored - max_live_key * terminal_bound

unfoldable pub hard_cap : ℕ → ℕ
hard_cap stored = stored + max_runs * terminal_bound

unfoldable pub reserved_bytes : List (String × Lease) → ℕ
reserved_bytes [] = 0
reserved_bytes ((id, l) ∷ m) = l.bytes + reserved_bytes m

abbrev pub with_bytes : ℕ → Lease → Lease
with_bytes n l = record l { bytes = n }

-- What a lease lends a snapshot that grows by `grown` bytes.
abbrev credit : Option Lease → ℕ → ℕ
credit none grown = 0
credit (some l) grown = min l.bytes grown

abbrev spend : String → Option Lease → ℕ → List (String × Lease) → List (String × Lease)
spend rid none n m = m
spend rid (some l) n m = insert rid (with_bytes (l.bytes - n) l) m

-- `retainedBudget`: the leases once the snapshot's credit is spent. `rid` is none where the source
-- has the empty text. Putting the old leases back is its `undo`.
unfoldable pub retained_budget : ℕ → KeyData → Option String → ℕ → Result (List (String × Lease))
unfolding budget reserved_bytes lookup insert
retained_budget stored d none size =
    if ltb size d.snapshot.encoded_bytes
    then ok d.leases
    else if ltb (budget stored) (size + reserved_bytes d.leases)
    then err limit
    else ok d.leases
retained_budget stored d (some rid) size =
    let lease = lookup rid d.leases in
    let n = credit lease (size - d.snapshot.encoded_bytes) in
    if ltb size d.snapshot.encoded_bytes
    then ok d.leases
    else if ltb (budget stored) (size + reserved_bytes d.leases - n)
    then err limit
    else ok (spend rid lease n d.leases)
