-- ===== src/Run/Moves/Life.antt =====
-- internal/run: the changes of one run that the manager, its workers and the store make, in sequence.
use Prim.Native.String.{String}
use infercat.Common.{ℕ, Bool, Option, List, [], ◌∷◌, if◌then◌else◌}
use infercat.Run.{Raw, limit, Result, ok, err, State, terminal, Run, ImageOutput}
use infercat.Run.Moves.{
  Row, Policy, StepResult, StepError, begin_attempt, dispatch, cancel, settle, finish, ask, answer,
  recover, quarantine, retain, put_image, fade,
}
use infercat.Run.Ending.{stamp, lifecycle, without_output, exhaust}

-- A change, with what the manager knows when it makes it. `short` is a change that is committed
-- without its texts, and `exhausted` one that ends the run, since the budget has no room.
pub data Move : Type 0 where
  begins : Bool → String → String → Move
  dispatches : Bool → Move
  settles : Bool → String → StepResult → StepError → Move
  cancels : Bool → Move
  finishes : Bool → State → String → Raw → Move
  asks : String → String → Move
  answers : String → Bool → Move
  quarantines : Bool → Move
  recovers : Move
  retains : Move
  puts : Raw → Move
  fades : Move
  short : Move → Move
  exhausted : Move → Move

abbrev pub with_run : Row → Result Run → Result Row
with_run w (ok r) = ok (record w { run = r })
with_run w (err e) = err e

abbrev pub stamped : ℕ → Row → Result Row → Result Row
stamped now w (ok v) = ok (record v { run = stamp now w.run v.run })
stamped now w (err e) = err e

abbrev pub if_lifecycle : (Run → Run) → Row → Result Row → Result Row
if_lifecycle f w (ok v) =
    if lifecycle w.run v.run then ok (record v { run = f v.run }) else err limit
if_lifecycle f w (err e) = err e

module _ (p : Policy) (json_valid : Raw → Bool) (image_json : Raw → Option ImageOutput)
    (print_image : ImageOutput → Raw) where
  unfoldable pub act : ℕ → Move → Row → Result Row
  act now (begins live aid purpose) w =
      stamped now w (with_run w (begin_attempt live aid purpose w.run))
  act now (dispatches live) w = stamped now w (with_run w (dispatch now live w.run))
  act now (settles live aid res e) w =
      stamped now w (with_run w (settle json_valid image_json p live aid res e w.run))
  act now (cancels active) w = stamped now w (with_run w (cancel p active w.run))
  act now (finishes expired st reason output) w =
      stamped now w (with_run w (finish json_valid image_json p expired st reason output w.run))
  act now (asks id request) w = stamped now w (ask id request w)
  act now (answers id allow) w = stamped now w (answer id allow w)
  act now (quarantines active) w = stamped now w (with_run w (quarantine active w.run))
  act now recovers w =
      if terminal w.run.state then ok w else stamped now w (ok (record w { run = recover w.run }))
  act now retains w = stamped now w (with_run w (retain w.run))
  act now (puts output) w = with_run w (put_image now output w.run)
  act now fades w = with_run w (fade image_json print_image now w.run)
  act now (short m) w = if_lifecycle (without_output image_json w.run) w (act now m w)
  act now (exhausted m) w =
      if_lifecycle (λ r. exhaust (without_output image_json w.run r)) w (act now m w)

  -- A change that is refused leaves the run as it was.
  abbrev pub after : Row → Result Row → Row
  after w (ok v) = v
  after w (err e) = w

  unfoldable pub run_moves : List (ℕ × Move) → Row → Row
  unfolding act
  run_moves [] w = w
  run_moves ((now, m) ∷ ms) w = run_moves ms (after w (act now m w))
