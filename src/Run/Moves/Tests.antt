-- ===== src/Run/Moves/Tests.antt =====
-- internal/run: examples of the changes of a run, with the inputs that exercise them.
use infercat.Common.{
  codes, ℕ, ◌+◌, pos, if◌then◌else◌, ap, ◌≡◌, ◌≢◌, refl, Bool, true, false, Option, none, some,
  List, [], ◌∷◌,
}
use infercat.Run.{Raw, queued, running, done, cancelled, retention, Run, ImageOutput, image_output}
use infercat.Run.Moves.{
  Row, Policy, StepResult, no_error, no_charge, begin_attempt, dispatch, settle, finish,
  new_attempt, last_attempt, settled_attempt, cancel, fade,
}
use infercat.Run.Ending.{stamp}
use infercat.Run.Moves.Life.{
  Move, begins, dispatches, settles, cancels, finishes, recovers, fades, short, run_moves,
}
use infercat.Run.Moves.Ended.{SameEnd, ReadsBack, ended_final}
use infercat.Run.Moves.Cancelled.{cancel_sticks}
use infercat.Run.Moves.Accounts.{AllSpare, attempts_kept}
use infercat.Run.Moves.Attempts.{Continues}

abbrev any_json : Raw → Bool
any_json o = true

abbrev no_image : Raw → Option ImageOutput
no_image o = none

abbrev no_output : ImageOutput → Raw
no_output o = []

abbrev plain : Policy
plain = record { deferred_cancel = false; join_cancel = false }

abbrev fresh : Run
fresh = record {
  client_request_id = "";
  started = none;
  batch = none;
  id = "r_1";
  key_id = "k_1";
  kind = "chat";
  priority = "interactive";
  state = queued;
  created = 10;
  updated = 10;
  expires = 86_400_000_000_010;
  cancel_requested = false;
  reason = "";
  input = codes "{}";
  output = [];
  attempts = [];
}

abbrev row : Run → Row
row r = record { run = r; approval = none }

abbrev answered : StepResult
answered = record { output = codes "{}"; usage = no_charge; dispatched = true; settled = true }

-- A step that is answered, and the output that ends the run.
abbrev whole_life : List (ℕ × Move)
whole_life =
    (11, begins false "a_1" "chat")
    ∷ (12, dispatches false)
    ∷ (13, settles false "a_1" answered no_error)
    ∷ (14, finishes false done "" (codes "{}"))
    ∷ []

-- A cancel while the step runs; its answer and the output come late.
abbrev late_answer : List (ℕ × Move)
late_answer =
    (14, settles false "a_1" answered no_error) ∷ (15, finishes false done "" (codes "{}")) ∷ []

abbrev in_flight : Row
in_flight = row (record fresh {
  state = running;
  cancel_requested = true;
  attempts = new_attempt "a_1" "chat" ∷ [];
})

whole_life-done :
    (run_moves plain any_json no_image no_output whole_life (row fresh)).run.state ≡ done
unfolding run_moves begin_attempt dispatch settle finish stamp last_attempt image_output
whole_life-done = refl

late_answer-cancelled :
    (run_moves plain any_json no_image no_output late_answer in_flight).run.state ≡ cancelled
unfolding run_moves settle finish stamp last_attempt
late_answer-cancelled = refl

abbrev picture : Bool → ImageOutput
picture gone = record {
  url = "/v1/images/outputs/r_1";
  mime = "image/png";
  width = pos 64;
  height = pos 64;
  bytes = pos 1024;
  expires_at = 99;
  gone = gone;
}

-- The outputs of this one image: nothing for the image that is there, one byte for the image that is
-- gone.
abbrev print_picture : ImageOutput → Raw
print_picture o = if o.gone then 1 ∷ [] else []

abbrev read_picture : Raw → Option ImageOutput
read_picture [] = some (picture false)
read_picture (b ∷ bs) = some (picture true)

-- An image's run that is done. Its image is discarded, and once more.
abbrev drawn : Row
drawn = row (record fresh { kind = "image"; state = done; output = [] })

abbrev discards : List (ℕ × Move)
discards = (20, cancels true) ∷ (21, fades) ∷ (22, recovers) ∷ (23, fades) ∷ []

discards-gone :
    (run_moves plain any_json read_picture print_picture discards drawn).run.output ≡ 1 ∷ []
unfolding run_moves cancel fade image_output
discards-gone = refl

abbrev gone_of : Option ImageOutput → Option ImageOutput
gone_of none = none
gone_of (some o) = some (record o { gone = true })

picture_read : ReadsBack read_picture print_picture
picture_read [] o e = ap (λ (x : Option ImageOutput). gone_of x) e
picture_read (b ∷ bs) o e = ap (λ (x : Option ImageOutput). gone_of x) e

ended_final_example :
    SameEnd read_picture print_picture drawn.run
      (run_moves plain any_json read_picture print_picture discards drawn).run
ended_final_example =
    ended_final plain any_json read_picture print_picture discards drawn picture_read refl

cancel_sticks_example :
    ((run_moves plain any_json no_image no_output late_answer in_flight).run.cancel_requested
      ≡ true)
    × ((run_moves plain any_json no_image no_output late_answer in_flight).run.state ≢ done)
cancel_sticks_example =
    cancel_sticks plain any_json no_image no_output late_answer in_flight refl (refl, cc)

attempts_kept_example :
    Continues
      (AllSpare ((13, recovers) ∷ late_answer))
      in_flight.run.attempts
      (run_moves plain any_json no_image no_output
        ((13, recovers) ∷ late_answer)
        in_flight).run.attempts
attempts_kept_example =
    attempts_kept plain any_json no_image no_output ((13, recovers) ∷ late_answer) in_flight
      (refl, tt)

-- The run was cancelled while its step ran; its answer is settled, and then the run is recovered, its
-- texts are cut, and it is finished.
abbrev after_answer : List (ℕ × Move)
after_answer = (15, recovers) ∷ (16, short (finishes false done "" [])) ∷ (17, cancels false) ∷ []

abbrev settled_row : Row
settled_row = row (record fresh {
  updated = 14;
  expires = 14 + retention;
  state = cancelled;
  cancel_requested = true;
  attempts = settled_attempt any_json no_image answered (new_attempt "a_1" "chat") ∷ [];
})
