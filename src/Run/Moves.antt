-- ===== src/Run/Moves.antt =====
-- internal/run/manager.go, consumer.go, maintenance.go and images.go: the changes that are made to one
-- run. Each but those of its image is the function that is handed to `change` (store.go), under the
-- store's lock. What the JSON encoder prints of an image's output is a parameter.
pub mod Life
pub mod Ended
pub mod Cancelled
pub mod Attempts
pub mod Accounts
pub mod Tests
use Prim.Native.Char.{Char, code}
use Prim.Native.String
use Prim.Native.String.{String}
use text.Mathlib.Text.{◌==◌ as str_eq}
use infercat.Common.{
  ℕ, pos, byte_length, Bool, true, false, not, ◌&&◌, ◌||◌, Option, none, some, List, [], ◌∷◌, ◌++◌,
  map, if◌then◌else◌, leb, ltb, length,
}
use infercat.Usage.Stats
use infercat.Run.{
  Raw, max_output, retention, RunError, conflict, not_found, invalid, limit, index_panic, Result,
  ok, err, ◌>>=◌, State, queued, running, waiting, done, failed, cancelled, terminal, is_queued,
  is_running, is_waiting, is_done, Charge, Attempt, Run, ImageOutput, image_output, stored,
}

pub record Approval : Type 0 where
  pub id : String
  pub request : String
  pub status : String
  pub allow : Option Bool

-- A run with the approval that is retained beside it.
pub record Row : Type 0 where
  pub run : Run
  pub approval : Option Approval

-- What the manager knows of the run's kind (`Policy`).
pub record Policy : Type 0 where
  pub deferred_cancel : Bool
  pub join_cancel : Bool

pub record StepResult : Type 0 where
  pub output : Raw
  pub usage : Charge
  pub dispatched : Bool
  pub settled : Bool

-- The error of a step: none, `context.Canceled`, or another.
pub data StepError : Type 0 where
  no_error canceled other : StepError

abbrev is_canceled : StepError → Bool
is_canceled canceled = true
is_canceled _ = false

abbrev is_error : StepError → Bool
is_error no_error = false
is_error _ = true

abbrev pub no_event : Stats.Event
no_event = record {
  settled_at = none;
  meters = none;
  kind = "";
  seconds = pos 0;
  characters = pos 0;
  via = "";
  ts = 0;
  key_id = "";
  endpoint = "";
  model = "";
  status = 0;
  code = "";
  prompt_tokens = pos 0;
  completion_tokens = pos 0;
  ttft_ms = 0;
  total_ms = 0;
}

abbrev pub no_charge : Charge
no_charge = record { event = no_event; prompt = ""; completion = "" }

-- The test of `attempt` before an attempt and before its dispatch.
abbrev open_for : Bool → Run → Bool
open_for live r = (is_queued r.state || (live && is_running r.state)) && not r.cancel_requested

abbrev pub new_attempt : String → String → Attempt
new_attempt aid purpose = record {
  purpose = purpose;
  id = aid;
  dispatched = false;
  settled = false;
  accounting_uncertain = true;
  usage = no_charge;
  output = [];
}

unfoldable pub begin_attempt : Bool → String → String → Run → Result Run
begin_attempt live aid purpose r =
    if open_for live r
    then ok (record r {
      state = if live then running else queued;
      attempts = r.attempts ++ new_attempt aid purpose ∷ [];
    })
    else err conflict

-- The callback that the executor calls once it has a slot.
unfoldable pub dispatch : ℕ → Bool → Run → Result Run
dispatch now live r =
    if open_for live r then ok (record r { state = running; started = some now }) else err conflict

-- `boundedReason`
unfoldable pub bounded_reason : String → String
bounded_reason reason = if ltb 128 (byte_length reason) then "run failed" else reason

unfoldable pub last_attempt : List Attempt → Option Attempt
last_attempt [] = none
last_attempt (a ∷ []) = some a
last_attempt (a ∷ b ∷ rest) = last_attempt (b ∷ rest)

unfoldable pub set_last : Attempt → List Attempt → List Attempt
set_last n [] = []
set_last n (a ∷ []) = n ∷ []
set_last n (a ∷ b ∷ rest) = a ∷ set_last n (b ∷ rest)

-- `Cancel`. The run is active where `m.active` has it.
unfoldable pub cancel : Policy → Bool → Run → Result Run
cancel p active r =
    if terminal r.state
    then err conflict
    else ok (record r {
      cancel_requested = true;
      state =
          if not active || (not (is_running r.state) && not p.join_cancel)
          then cancelled
          else r.state;
    })

module _ (json_valid : Raw → Bool) (image_json : Raw → Option ImageOutput) where
  good_output : Raw → Bool
  good_output o = leb (length o) max_output && json_valid o

  -- What the attempt itself records.
  unfoldable pub settled_attempt : StepResult → Attempt → Attempt
  unfolding good_output
  settled_attempt res a = record a {
    dispatched = res.dispatched;
    settled = res.settled;
    accounting_uncertain = not res.settled;
    usage = res.usage;
    output = if good_output res.output then res.output else a.output;
  }

  -- A cancelled attempt of a kind that lets it finish.
  settle_deferred : StepResult → StepError → Run → Run
  settle_deferred res e r =
      if not (is_error e) && (ltb 0 (length res.output) && json_valid res.output)
      then record r {
        state = done;
        output = if stored (image_output image_json r) then r.output else res.output;
      }
      else record r { state = cancelled }

  step_failed : StepResult → Run → Run
  step_failed res r = record r {
    state = failed;
    reason =
        if str_eq r.kind "image" && not (str_eq res.usage.event.code "")
        then bounded_reason res.usage.event.code
        else "step failed";
  }

  -- The state after an attempt of a run that has not ended.
  unfoldable pub settle_open : Policy → Bool → StepResult → StepError → Run → Run
  unfolding settle_deferred step_failed good_output
  settle_open p live res e r =
      if live
      then record r { state = running }
      else if r.cancel_requested && p.deferred_cancel
      then settle_deferred res e r
      else if r.cancel_requested || is_canceled e
      then record r { state = cancelled }
      else if is_error e || not (good_output res.output)
      then step_failed res r
      else if stored (image_output image_json r) && p.deferred_cancel
      then record r { state = running }
      else record r { state = queued }

  settle_last : Policy → Bool → String → StepResult → StepError → Run → Option Attempt → Result Run
  unfolding settled_attempt settle_open
  settle_last p live aid res e r none = err index_panic
  settle_last p live aid res e r (some a) =
      let r' = record r { attempts = set_last (settled_attempt res a) r.attempts } in
      if str_eq a.id aid
      then ok (if terminal r.state then r' else settle_open p live res e r')
      else err conflict

  -- The last change of `attempt`.
  unfoldable pub settle : Policy → Bool → String → StepResult → StepError → Run → Result Run
  unfolding settle_last
  settle p live aid res e r = settle_last p live aid res e r (last_attempt r.attempts)

  -- `finish`; `expired` says that the worker did not join in time.
  unfoldable pub finish_run : Policy → State → String → Raw → Run → Result Run
  finish_run p st reason output r =
      if terminal r.state
      then err conflict
      else ok (record r {
        state =
            if r.cancel_requested && not (p.deferred_cancel && is_done st) then cancelled else st;
        reason = bounded_reason reason;
        output = if stored (image_output image_json r) then r.output else output;
      })

  unfoldable pub finish : Policy → Bool → State → String → Raw → Run → Result Run
  unfolding finish_run
  finish p expired st reason output r =
      if expired
      then finish_run p cancelled "consumer did not join" [] r
      else finish_run p st reason output r

-- `Work.Approval`: the run waits, and the question is retained beside it.
blocks : String → Option Approval → Bool
blocks id none = false
blocks id (some a) = str_eq a.status "pending" || str_eq a.id id

unfoldable pub ask : String → String → Row → Result Row
unfolding blocks
ask id request w =
    if terminal w.run.state || (w.run.cancel_requested || blocks id w.approval)
    then err conflict
    else ok (record {
      run = record w.run { state = waiting };
      approval = some (record { id = id; request = request; status = "pending"; allow = none });
    })

-- `Answer`: the committed answer lets the run go on.
answer_to : String → Bool → Run → Option Approval → Result Row
answer_to id allow r none = err conflict
answer_to id allow r (some a) =
    if str_eq a.id id && str_eq a.status "pending"
    then ok (record {
      run = record r { state = running };
      approval = some (record a { status = "answered"; allow = some allow });
    })
    else err conflict

unfoldable pub answer : String → Bool → Row → Result Row
unfolding answer_to
answer id allow w =
    if is_waiting w.run.state && not w.run.cancel_requested
    then answer_to id allow w.run w.approval
    else err conflict

-- `quarantine` (join.go) ends the runs that no worker has; it passes the others over. The row that
-- it lists and the row that it changes are the same, since it holds the manager's lock.
unfoldable pub quarantine : Bool → Run → Result Run
quarantine active r =
    if (is_queued r.state || is_waiting r.state) && not active
    then ok (record r { state = failed; reason = "runtime quarantined" })
    else err conflict

-- `recoverKey`: what is left of a run that a restart interrupted.
abbrev pub uncertain : Attempt → Attempt
uncertain a = if a.settled then a else record a { accounting_uncertain = true }

unfoldable pub recover : Run → Run
recover r =
    if terminal r.state
    then r
    else record r { state = failed; reason = "interrupted"; attempts = map uncertain r.attempts }

module _ (image_json : Raw → Option ImageOutput) (print_image : ImageOutput → Raw) where
  faded : ℕ → Run → Option ImageOutput → Result Run
  faded now r none = err not_found
  faded now r (some o) =
      if o.gone
      then ok r
      else ok (record r { output = print_image (record o { gone = true }); updated = now })

  -- `DiscardImage`, and what `PutImage` and `sweepImages` do to an image that they evict: the run's
  -- output says that its image is gone. `commitFor` stamps the run.
  unfoldable pub fade : ℕ → Run → Result Run
  unfolding faded
  fade now r = faded now r (image_output image_json r)

-- `PutImage` on the run that the image is for; `output` is what is printed of the new image.
unfoldable pub put_image : ℕ → Raw → Run → Result Run
put_image now output r =
    if not (str_eq r.kind "image") || terminal r.state
    then err not_found
    else ok (record r { output = output; updated = now })

-- `Retain`, where sizes and leases allow it, keeps what a step adds beside the run, and does not
-- change the run.
unfoldable pub retain : Run → Result Run
retain r = if terminal r.state then err conflict else ok r
