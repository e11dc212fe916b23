-- ===== src/Run.antt =====
-- internal/run/types.go and images.go: a run, its attempts and its events, and the errors of runs.
-- JSON bytes are lists of bytes; what the JSON decoder makes of an image's output is a parameter.
pub mod Ending
pub mod Moves
pub mod Schedule
pub mod Store
use Prim.Native.String.{String}
use text.Mathlib.Text.{◌==◌ as str_eq}
use infercat.Common.{
  ◌≡◌, refl, ◌⊎◌, inl, inr, ℕ, ◌*◌, ℤ, Bool, true, false, not, ◌&&◌, ◌||◌, Option, none, some, List,
  [], ◌∷◌, if◌then◌else◌,
}
use infercat.Usage.Stats

abbrev pub Raw : Type 0
Raw = List ℕ

abbrev pub max_input : ℕ
max_input = 1_048_576

abbrev pub max_output : ℕ
max_output = 1_048_576

abbrev pub max_stored : ℕ
max_stored = 64 * 1_048_576

abbrev pub max_runs : ℕ
max_runs = 100

abbrev pub max_live_key : ℕ
max_live_key = 16

abbrev pub max_live_host : ℕ
max_live_host = 64

-- Seven days, and one, in nanoseconds.
abbrev pub retention : ℕ
retention = 604_800_000_000_000

abbrev pub max_age : ℕ
max_age = 86_400_000_000_000

-- `io_error` is an error of the file system, `index_panic` the panic of an index out of range.
pub data RunError : Type 0 where
  needs_attention agent_unavailable stopping quarantined queue_limit : RunError
  not_found limit invalid conflict io_error index_panic : RunError

pub data Result {ℓ} (A : Type ℓ) : Type ℓ where
  ok : A → Result A
  err : RunError → Result A

pub Result-cases {ℓ} :
    {A : Type ℓ} (r : Result A) → ((a : A) × (r ≡ ok a)) ⊎ ((e : RunError) × (r ≡ err e))
Result-cases (ok a) = inl (a, refl)
Result-cases (err e) = inr (e, refl)

infixl 5 ◌>>=◌
abbrev pub ◌>>=◌ {ℓ κ} : {A : Type ℓ} {B : Type κ} → Result A → (A → Result B) → Result B
ok a >>= f = f a
err e >>= f = err e

pub data State : Type 0 where
  queued running waiting done failed cancelled : State

abbrev pub terminal : State → Bool
terminal queued = false
terminal running = false
terminal waiting = false
terminal done = true
terminal failed = true
terminal cancelled = true

abbrev pub is_queued : State → Bool
is_queued queued = true
is_queued _ = false

abbrev pub is_running : State → Bool
is_running running = true
is_running _ = false

abbrev pub is_waiting : State → Bool
is_waiting waiting = true
is_waiting _ = false

abbrev pub is_done : State → Bool
is_done done = true
is_done _ = false

-- `usage.Event`, with the two texts that it may capture.
pub record Charge : Type 0 where
  pub event : Stats.Event
  pub prompt : String
  pub completion : String

pub record Attempt : Type 0 where
  pub purpose : String
  pub id : String
  pub dispatched : Bool
  pub settled : Bool
  pub accounting_uncertain : Bool
  pub usage : Charge
  pub output : Raw

pub record Batch : Type 0 where
  pub id : String
  pub index : ℕ
  pub count : ℕ

pub record Run : Type 0 where
  pub client_request_id : String
  pub started : Option ℕ
  pub batch : Option Batch
  pub id : String
  pub key_id : String
  pub kind : String
  pub priority : String
  pub state : State
  pub created : ℕ
  pub updated : ℕ
  pub expires : ℕ
  pub cancel_requested : Bool
  pub reason : String
  pub input : Raw
  pub output : Raw
  pub attempts : List Attempt

pub record ImageOutput : Type 0 where
  pub url : String
  pub mime : String
  pub width : ℤ
  pub height : ℤ
  pub bytes : ℤ
  pub expires_at : ℕ
  pub gone : Bool

abbrev named : ImageOutput → Option ImageOutput
named o = if str_eq o.url "" then none else some o

abbrev read_image : Option ImageOutput → Option ImageOutput
read_image none = none
read_image (some o) = named o

-- `imageOutput`; the result is `none` where the source answers false.
unfoldable pub image_output : (Raw → Option ImageOutput) → Run → Option ImageOutput
image_output image_json r = if str_eq r.kind "image" then read_image (image_json r.output) else none

abbrev pub stored : Option ImageOutput → Bool
stored none = false
stored (some _) = true
