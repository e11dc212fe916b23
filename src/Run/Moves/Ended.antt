-- ===== src/Run/Moves/Ended.antt =====
-- internal/run: what no sequence of the manager's changes undoes of a run that has ended.
use infercat.Common.{
  ℕ, ◌≡◌, ◌≢◌, refl, ap, sym, subst, ◌∙◌, ◌⊎◌, inl, inr, some, none, Option-cases, Bool-cases, Bool,
  true, false, Option, List, [], ◌∷◌, arith,
}
use infercat.Run.{Raw, Result, Result-cases, ok, err, terminal, Run, ImageOutput, image_output}
use infercat.Run.Moves.{
  Row, Policy, begin_attempt, dispatch, cancel, settle, finish, ask, answer, quarantine, retain,
  put_image, fade,
}
use infercat.Run.Ending.{stamp, lifecycle, without_output, exhaust}
use infercat.Run.Moves.Life.{
  Move, begins, dispatches, settles, cancels, finishes, asks, answers, recovers, quarantines, short,
  exhausted, retains, puts, fades, if_lifecycle, act, after, run_moves,
}

-- The later run's output is the earlier one's, or says of the same image that it is gone.
abbrev pub Faded : (Raw → Option ImageOutput) → (ImageOutput → Raw) → Run → Run → Type 0
Faded image_json print_image r v =
    (v.output ≡ r.output)
    ⊎ ((o : ImageOutput) × (image_output image_json r ≡ some o)
        × (v.output ≡ print_image (record o { gone = true })))

-- What a run that has ended keeps.
pub record SameEnd (image_json : Raw → Option ImageOutput) (print_image : ImageOutput → Raw)
    (r v : Run) : Type 0 where
  pub state : v.state ≡ r.state
  pub cancel : v.cancel_requested ≡ r.cancel_requested
  pub reason : v.reason ≡ r.reason
  pub expires : v.expires ≡ r.expires
  pub kind : v.kind ≡ r.kind
  pub output : Faded image_json print_image r v

lifecycle-same :
    (r v : Run)
    → v.state ≡ r.state
    → v.cancel_requested ≡ r.cancel_requested
    → lifecycle r v ≡ false
unfolding lifecycle
lifecycle-same r v e f = ground arith

some-injective : {x d : ImageOutput} → some x ≡ some d → x ≡ d
some-injective {x} e = ap (λ (o : Option ImageOutput). elim o [ some y ↦ y | none ↦ x ]) e

module _ (image_json : Raw → Option ImageOutput) (print_image : ImageOutput → Raw) where
  abbrev pub Same : Run → Run → Type 0
  Same r v = SameEnd image_json print_image r v

  -- A change that leaves the output alone.
  Same-output :
      (r v : Run)
      → (v.state ≡ r.state)
        × (v.cancel_requested ≡ r.cancel_requested)
        × (v.reason ≡ r.reason)
        × (v.expires ≡ r.expires)
        × (v.kind ≡ r.kind)
        × (v.output ≡ r.output)
      → Same r v
  Same-output r v h = record {
    state = h.0;
    cancel = h.1;
    reason = h.2;
    expires = h.3;
    kind = h.4;
    output = inl h.5;
  }

  -- The budget's exception is for a change of the state, which an ended run does not see.
  no_exception :
      (f : Run → Run) (w : Row) (x : Result Row) {v : Row}
      → ((u : Row) → x ≡ ok u → Same w.run u.run)
      → if_lifecycle f w x ≢ ok v
  no_exception f w (err e) same h = cc
  no_exception f w (ok u) same h =
      cc (lifecycle-same w.run u.run (same u refl).state (same u refl).cancel)

  pub fade-Same : (now : ℕ) (r v : Run) → fade image_json print_image now r ≡ ok v → Same r v
  fade-Same now r v e = elim (Option-cases (image_output image_json r)) [
    | inl n ↦ absurd (unfold fade in ground (arith, n))
    | inr (o, y) ↦ elim (Bool-cases o.gone) [
      | inl g ↦ Same-output r v (unfold fade in ground (arith, y, g))
      | inr g ↦
          let same : v
              ≡ record r { output = print_image (record o { gone = true }); updated = now } =
            unfold fade in ground (arith, y, g) in
          record {
            state = ap (λ (u : Run). u.state) same;
            cancel = ap (λ (u : Run). u.cancel_requested) same;
            reason = ap (λ (u : Run). u.reason) same;
            expires = ap (λ (u : Run). u.expires) same;
            kind = ap (λ (u : Run). u.kind) same;
            output = inr (o, y, ap (λ (u : Run). u.output) same);
          }
    ]
  ]

  -- An image's output reads the same from every run that has it.
  image_output-same :
      (r v : Run)
      → v.kind ≡ r.kind
      → v.output ≡ r.output
      → image_output image_json v ≡ image_output image_json r
  unfolding image_output
  image_output-same r v k o = ground (arith, k, o, ap image_json o)

  -- Where an output that was read of an image is marked as gone and printed, it reads back as that.
  abbrev pub ReadsBack : Type 0
  ReadsBack =
      (raw : Raw) (o : ImageOutput)
      → image_json raw ≡ some o
      → image_json (print_image (record o { gone = true })) ≡ some (record o { gone = true })

  image_output-json :
      (r : Run) (o : ImageOutput)
      → image_output image_json r ≡ some o
      → image_json r.output ≡ some o
  unfolding image_output
  image_output-json r o y = elim (Option-cases (image_json r.output)) [
    | inl n ↦ absurd (ground (arith, n))
    | inr (q, x) ↦ ground (arith, x)
  ]

  gone-reads :
      (r v : Run) (o : ImageOutput)
      → ReadsBack
      → v.kind ≡ r.kind
      → image_output image_json r ≡ some o
      → v.output ≡ print_image (record o { gone = true })
      → image_output image_json v ≡ some (record o { gone = true })
  unfolding image_output
  gone-reads r v o back k y e =
      ground (arith, k, y, e, back r.output o (image_output-json r o y), ap image_json e)

  Faded-trans :
      (r v z : Run)
      → ReadsBack
      → v.kind ≡ r.kind
      → Faded image_json print_image r v
      → Faded image_json print_image v z
      → Faded image_json print_image r z
  Faded-trans r v z back k (inl e) (inl f) = inl (f ∙ e)
  Faded-trans r v z back k (inl e) (inr (o, y, f)) = inr (o, sym (image_output-same r v k e) ∙ y, f)
  Faded-trans r v z back k (inr (o, y, e)) (inl f) = inr (o, y, f ∙ e)
  Faded-trans r v z back k (inr (o, y, e)) (inr (q, x, f)) =
      let same = sym (gone-reads r v o back k y e) ∙ x in
      inr (
        o,
        y,
        f
            ∙ ap (λ (u : ImageOutput). print_image (record u { gone = true }))
                (sym (some-injective same)),
      )

  Same-trans : {r v z : Run} → ReadsBack → Same r v → Same v z → Same r z
  Same-trans {r} {v} {z} back j k = record {
    state = k.state ∙ j.state;
    cancel = k.cancel ∙ j.cancel;
    reason = k.reason ∙ j.reason;
    expires = k.expires ∙ j.expires;
    kind = k.kind ∙ j.kind;
    output = Faded-trans r v z back j.kind j.output k.output;
  }

module _ (p : Policy) (json_valid : Raw → Bool) (image_json : Raw → Option ImageOutput)
    (print_image : ImageOutput → Raw) where
  act-Same :
      (now : ℕ) (m : Move) (w : Row) {v : Row}
      → terminal w.run.state ≡ true
      → act p json_valid image_json print_image now m w ≡ ok v
      → Same image_json print_image w.run v.run
  unfolding act
  act-Same now (begins live aid purpose) w {v} t e =
      Same-output image_json print_image w.run v.run (unfold begin_attempt stamp in ground arith)
  act-Same now (dispatches live) w {v} t e =
      Same-output image_json print_image w.run v.run (unfold dispatch stamp in ground arith)
  act-Same now (settles live aid res x) w {v} t e =
      Same-output image_json print_image w.run v.run (unfold settle stamp in ground arith)
  act-Same now (cancels active) w {v} t e =
      Same-output image_json print_image w.run v.run (unfold cancel stamp in ground arith)
  act-Same now (finishes expired st reason output) w {v} t e =
      Same-output image_json print_image w.run v.run (unfold finish stamp in ground arith)
  act-Same now (asks id request) w {v} t e =
      Same-output image_json print_image w.run v.run (unfold ask stamp in ground arith)
  act-Same now (answers id allow) w {v} t e =
      Same-output image_json print_image w.run v.run (unfold answer stamp in ground arith)
  act-Same now (quarantines active) w {v} t e =
      Same-output image_json print_image w.run v.run (unfold quarantine stamp in ground arith)
  act-Same now recovers w {v} t e = Same-output image_json print_image w.run v.run (ground arith)
  act-Same now retains w {v} t e =
      Same-output image_json print_image w.run v.run (unfold retain stamp in ground arith)
  act-Same now (puts output) w {v} t e =
      Same-output image_json print_image w.run v.run (unfold put_image in ground arith)
  act-Same now fades w {v} t e = elim (Result-cases (fade image_json print_image now w.run)) [
    | inl (r, h) ↦
        let same : r ≡ v.run = ground (arith, h) in
        subst (λ u. Same image_json print_image w.run u) same
          (fade-Same image_json print_image now w.run r h)
    | inr (x, h) ↦ absurd (ground (arith, h))
  ]
  act-Same now (short m) w t e = absurd (
      no_exception image_json print_image (without_output image_json w.run) w
        (act p json_valid image_json print_image now m w) (λ u h. act-Same now m w t h) e)
  act-Same now (exhausted m) w t e = absurd (
      no_exception image_json print_image (λ r. exhaust (without_output image_json w.run r)) w
        (act p json_valid image_json print_image now m w) (λ u h. act-Same now m w t h) e)

  after-Same :
      (w : Row) (x : Result Row)
      → ((v : Row) → x ≡ ok v → Same image_json print_image w.run v.run)
      → Same image_json print_image w.run (after p json_valid image_json print_image w x).run
  after-Same w (ok v) same = same v refl
  after-Same w (err e) same =
      Same-output image_json print_image w.run w.run (refl, refl, refl, refl, refl, refl)

  -- Once a run has ended, no change of a run that the manager, the workers, the budget or the images'
  -- store makes alters its state, its reason, its expiry or its cancel flag, in whatever order they
  -- come; and its output is what it was, or says of the image that it was about that it is gone. It
  -- is taken that an output that was read of an image reads back when it is printed as gone.
  pub ended_final :
      (ms : List (ℕ × Move)) (w : Row)
      → ReadsBack image_json print_image
      → terminal w.run.state ≡ true
      → SameEnd image_json print_image w.run
          (run_moves p json_valid image_json print_image ms w).run
  unfolding run_moves
  ended_final [] w back t =
      Same-output image_json print_image w.run w.run (refl, refl, refl, refl, refl, refl)
  ended_final ((now, m) ∷ ms) w back t =
      let x = act p json_valid image_json print_image now m w in
      let first = after-Same w x (λ v h. act-Same now m w t h) in
      Same-trans image_json print_image back first (
        ended_final ms
          (after p json_valid image_json print_image w
            (act p json_valid image_json print_image now m w))
          back (ap terminal first.state ∙ t))
