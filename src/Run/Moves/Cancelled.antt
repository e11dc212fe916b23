-- ===== src/Run/Moves/Cancelled.antt =====
-- internal/run: what no sequence of the manager's changes undoes of a run that is cancelled.
use infercat.Common.{
  ℕ, ◌≡◌, ◌≢◌, refl, sym, subst, ◌∙◌, inl, inr, Bool, true, false, Option, List, [], ◌∷◌, arith,
}
use infercat.Run.{Raw, Result, Result-cases, ok, err, done, Run, ImageOutput}
use infercat.Run.Moves.{
  Row, Policy, begin_attempt, dispatch, cancel, settle, finish, ask, answer, recover, quarantine,
  retain, put_image, fade,
}
use infercat.Run.Ending.{stamp, without_output, exhaust}
use infercat.Run.Moves.Life.{
  Move, begins, dispatches, settles, cancels, finishes, asks, answers, recovers, quarantines, short,
  exhausted, retains, puts, fades, if_lifecycle, act, after, run_moves,
}
use infercat.Run.Moves.Ended.{fade-Same}

module _ (p : Policy) (json_valid : Raw → Bool) (image_json : Raw → Option ImageOutput)
    (print_image : ImageOutput → Raw) where
  -- A cancelled run that is not done.
  abbrev Stuck : Run → Type 0
  Stuck r = (r.cancel_requested ≡ true) × (r.state ≢ done)

  abbrev pub Cancels : Row → Type 0
  Cancels w = Stuck w.run

  exception-Cancels :
      (f : Run → Run) (w : Row) (x : Result Row) {v : Row}
      → ((r : Run) → (f r).cancel_requested ≡ r.cancel_requested)
      → ((r : Run) → r.state ≢ done → (f r).state ≢ done)
      → ((u : Row) → x ≡ ok u → Cancels u)
      → if_lifecycle f w x ≡ ok v
      → Cancels v
  exception-Cancels f w (err e) flag state t h = cc
  exception-Cancels f w (ok u) flag state t h =
      ground (arith, flag u.run, state u.run (t u refl).1, t u refl)

  act-Cancels :
      (now : ℕ) (m : Move) (w : Row) {v : Row}
      → p.deferred_cancel ≡ false
      → Cancels w
      → act p json_valid image_json print_image now m w ≡ ok v
      → Cancels v
  unfolding act
  act-Cancels now (begins live aid purpose) w d t e = unfold begin_attempt stamp in ground arith
  act-Cancels now (dispatches live) w d t e = unfold dispatch stamp in ground arith
  act-Cancels now (settles live aid res x) w d t e = unfold settle stamp in ground arith
  act-Cancels now (cancels active) w d t e = unfold cancel stamp in ground arith
  act-Cancels now (finishes expired st reason output) w d t e = unfold finish stamp in ground arith
  act-Cancels now (asks id request) w d t e = unfold ask stamp in ground arith
  act-Cancels now (answers id allow) w d t e = unfold answer stamp in ground arith
  act-Cancels now (quarantines active) w d t e = unfold quarantine stamp in ground arith
  act-Cancels now recovers w d t e = unfold recover stamp in ground arith
  act-Cancels now retains w d t e = unfold retain stamp in ground arith
  act-Cancels now (puts output) w d t e = unfold put_image in ground arith
  act-Cancels now fades w {v} d t e = elim (Result-cases (fade image_json print_image now w.run)) [
    | inl (r, h) ↦
        let same : r ≡ v.run = ground (arith, h) in
        let keeps = fade-Same image_json print_image now w.run r h in
        subst Stuck same (keeps.cancel ∙ t.0, λ d. t.1 (sym keeps.state ∙ d))
    | inr (x, h) ↦ absurd (ground (arith, h))
  ]
  act-Cancels now (short m) w d t e =
      exception-Cancels (without_output image_json w.run) w
        (act p json_valid image_json print_image now m w)
        (λ r. unfold without_output in ground arith) (λ r h. unfold without_output in ground arith)
        (λ u h. act-Cancels now m w d t h) e
  act-Cancels now (exhausted m) w d t e =
      exception-Cancels (λ r. exhaust (without_output image_json w.run r)) w
        (act p json_valid image_json print_image now m w)
        (λ r. unfold without_output exhaust in ground arith) (λ r h. unfold exhaust in ground arith)
        (λ u h. act-Cancels now m w d t h) e

  after-Cancels :
      (w : Row) (x : Result Row)
      → Cancels w
      → ((v : Row) → x ≡ ok v → Cancels v)
      → Cancels (after p json_valid image_json print_image w x)
  after-Cancels w (ok v) t next = next v refl
  after-Cancels w (err e) t next = t

  -- Where the run's kind does not let an attempt finish after a cancel, a run that is cancelled
  -- before it is done stays cancelled and is never done, whatever changes follow: an output that
  -- still arrives, an answer, or a worker that goes on cannot complete it.
  pub cancel_sticks :
      (ms : List (ℕ × Move)) (w : Row)
      → p.deferred_cancel ≡ false
      → Cancels w
      → Cancels (run_moves p json_valid image_json print_image ms w)
  unfolding run_moves
  cancel_sticks [] w d t = t
  cancel_sticks ((now, m) ∷ ms) w d t =
      cancel_sticks ms
        (after p json_valid image_json print_image w
          (act p json_valid image_json print_image now m w))
        d
        (after-Cancels w (act p json_valid image_json print_image now m w) t
          (λ v h. act-Cancels now m w d t h))
