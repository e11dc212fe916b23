-- ===== src/Request.antt =====
-- internal/gateway/request.go: one text request through the gateway, from its bearer secret to its
-- one exit. What the outside answers (the key store, the body, the engine, the shared limiter and
-- the queue) is an argument, `Answers`; what the request does to the shared parts is a list of
-- `Call`s, in order. Audio and image requests have pipelines of their own and are left out.
pub mod Stages
pub mod Exit
pub mod Serve
pub mod Protocol
pub mod Kept
pub mod Balance
pub mod Charges
pub mod Unasked
pub mod Tests
use Prim.Native.String.{String}
use text.Mathlib.Text.{◌==◌ as str_eq, starts_with}
use infercat.Common.{
  ℕ, ℤ, pos, negsuc, ◌+ℤ◌, ◌-ℤ◌, max_ℤ, ltb_ℤ, eqb_ℤ, Bool, true, false, not, ◌&&◌, ◌||◌, Option,
  none, some, List, [], ◌∷◌, ◌++◌, if◌then◌else◌, ◌==◌,
}
use infercat.Errors.{Code, GwError, errf, error_status}
use infercat.Outcome.{Outcome, running, rejected, queue_lost, engine_err, served, cut}
use infercat.Keys.{Key, Status, active, paused, revoked}
use infercat.Fit.{min_output_tokens}
use infercat.Limiter.{Admission, Result, ok, err}
use infercat.Usage.{model_endpoint, class_of}

-- `endpoint.countsAgainstRPM`
pub counts_against_rpm : String → Bool
counts_against_rpm path =
    not (str_eq (class_of (model_endpoint path)) "")
    || (str_eq path "/v1/runs"
        || (str_eq path "/v1/images/jobs"
            || (starts_with path "/v1/images/outputs/" || starts_with path "/v1/runs/")))

pub record Request : Type 0 where
  pub kind : String
  pub adm : Option Admission
  pub buffered : Bool
  pub slot : Bool
  pub managed : Bool  -- `releaseManaged` is set
  pub outcome : Outcome
  pub wrote_header : Bool
  pub no_event : Bool
  pub stalled : Bool
  pub handed_off : Bool  -- `continueChat` is set
  pub prompt : ℤ
  pub max_tok : ℤ
  -- The event.
  pub status : ℕ
  pub code : Option Code
  pub stream : Bool
  pub prompt_tokens : ℤ
  pub completion_tokens : ℤ

abbrev pub new_request : Request
new_request = record {
  kind = "";
  adm = none;
  buffered = false;
  slot = false;
  managed = false;
  outcome = running;
  wrote_header = false;
  no_event = false;
  stalled = false;
  handed_off = false;
  prompt = pos 0;
  max_tok = pos 0;
  status = 0;
  code = none;
  stream = false;
  prompt_tokens = pos 0;
  completion_tokens = pos 0;
}

-- What a request does to what it shares with others.
pub data Call : Type 0 where
  key_seen member_acquired member_released admitted body_counted body_uncounted : Call
  reserved : ℤ → ℤ → Call
  slot_taken engine_asked slot_released : Call
  settled : Admission → Bool → ℤ → Call
  recorded : Option Code → Call

pub record Ran : Type 0 where
  pub request : Request
  pub calls : List Call
  pub error : Option GwError

abbrev pub done : Request → List Call → Ran
done q calls = record { request = q; calls = calls; error = none }

abbrev pub fails : Request → List Call → GwError → Ran
fails q calls e = record { request = q; calls = calls; error = some e }

pub continue : Option GwError → Ran → (Request → Ran) → Ran
continue (some e) r next = r
continue none r next = let n = next r.request in record n { calls = r.calls ++ n.calls }

-- The next stage runs where the one before returned no error.
abbrev pub and_then : Ran → (Request → Ran) → Ran
and_then r next = continue r.error r next

pub data Presented : Type 0 where
  no_bearer store_failed unknown_secret : Presented
  found : Status → Presented

pub data Member : Type 0 where
  unmanaged acquired unavailable : Member

pub data Body : Type 0 where
  declared_too_large cut_off too_late broken not_object whole : Body

pub data HostTools : Type 0 where
  passes hands_off : HostTools
  refuses : GwError → HostTools

pub record Normalized : Type 0 where
  pub stream : Bool
  pub max_tok : ℤ

-- The answer of the engine: none, because the friend left or the engine failed, and whether the
-- request had been sent; or one, whose status may be no 2xx.
pub data Engine : Type 0 where
  not_encoded : Engine
  friend_left : Bool → Engine
  no_answer : GwError → Engine
  bad_status : GwError → Engine
  answers : Engine

-- How the relay ends: whether it wrote a head, the outcome and the error that a pipe left, and the
-- tokens that the event has then.
pub record Relayed : Type 0 where
  pub head : Bool
  pub ended : Option (Outcome × GwError)
  pub prompt_tokens : ℤ
  pub completion_tokens : ℤ

pub record Answers : Type 0 where
  pub presented : Presented
  pub member : Member
  pub healthy : Bool
  pub admission : Result Admission
  pub body : Body
  pub host_tools : HostTools
  pub normalized : Result Normalized
  pub count : ℤ
  pub context : ℤ  -- `effContext`
  pub reservation : Result (Admission × ℤ)
  pub queue : Option (Outcome × GwError)
  pub queue_wrote : Bool  -- the keepalive of a wait wrote the head
  pub stopped : Bool  -- `onAcquired` is set and fails
  pub engine : Engine
  pub relayed : Relayed
  pub gone : Bool  -- the friend's context has ended when `fail` reads it
