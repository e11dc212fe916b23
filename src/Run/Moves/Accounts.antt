-- ===== src/Run/Moves/Accounts.antt =====
-- internal/run: the attempts of a run and their accounting, through every sequence of changes.
use Prim.Native.String.{String}
use text.Mathlib.Text.{◌==◌ as str_eq}
use text.Mathlib.TextEquality.{eq_iff}
use infercat.Common.{
  ℕ, ◌≡◌, ◌≢◌, refl, sym, ap, ◌∙◌, subst, Bool, true, Option, List, [], ◌∷◌, ◌++◌, map, arith, All,
  Option-cases, Bool-cases, inl, inr,
}
use infercat.Run.{Raw, terminal, Result, Result-cases, ok, err, Run, ImageOutput, image_output}
use infercat.Run.Moves.{
  Row, Policy, StepResult, StepError, begin_attempt, dispatch, cancel, settle, settled_attempt,
  finish, ask, answer, recover, quarantine, last_attempt, set_last, new_attempt, uncertain, retain,
  put_image, fade,
}
use infercat.Run.Moves.Attempts.{
  Accounted, Continues, Continues-Accounted, Continues-trans, Continues-refl, Continues-same,
  Continues-new, Continues-last, Continues-uncertain, last_texts-Continues,
}
use infercat.Run.Ending.{stamp, without_output, exhaust, last_texts}
use infercat.Run.Moves.Life.{
  Move, begins, dispatches, settles, cancels, finishes, asks, answers, recovers, quarantines, short,
  exhausted, retains, puts, fades, if_lifecycle, stamped, with_run, act, after, run_moves,
}

fade-attempts :
    (image_json : Raw → Option ImageOutput) (print_image : ImageOutput → Raw) (now : ℕ) (r v : Run)
    → fade image_json print_image now r ≡ ok v
    → v.attempts ≡ r.attempts
fade-attempts image_json print_image now r v e = elim (Option-cases (image_output image_json r)) [
  | inl n ↦ absurd (unfold fade in ground (arith, n))
  | inr (o, y) ↦ unfold fade in ground (arith, y)
]

stamped-ok :
    (now : ℕ) (w : Row) (x : Result Run) {v : Row}
    → stamped now w (with_run w x) ≡ ok v
    → (r : Run) × (x ≡ ok r) × (v.run.attempts ≡ r.attempts)
unfolding stamp
stamped-ok now w (ok r) e = (r, refl, ground arith)
stamped-ok now w (err x) e = absurd (cc)

if_lifecycle-ok :
    (f : Run → Run) (w : Row) (x : Result Row) {v : Row}
    → if_lifecycle f w x ≡ ok v
    → (u : Row) × (x ≡ ok u) × (v.run ≡ f u.run)
if_lifecycle-ok f w (ok u) e = (u, refl, ground arith)
if_lifecycle-ok f w (err x) e = absurd (cc)

-- The attempt is not one that the change settles.
abbrev pub Spares : Move → String → Type 0
Spares (settles live aid res e) a = a ≢ aid
Spares (short m) a = Spares m a
Spares (exhausted m) a = Spares m a
Spares _ a = Unit

abbrev pub AllSpare : List (ℕ × Move) → String → Type 0
AllSpare [] a = Unit
AllSpare ((now, m) ∷ ms) a = Spares m a × AllSpare ms a

module _ (p : Policy) (json_valid : Raw → Bool) (image_json : Raw → Option ImageOutput)
    (print_image : ImageOutput → Raw) where
  settle-Continues :
      (live : Bool) (aid : String) (res : StepResult) (e : StepError) (r : Run) {v : Run}
      → settle json_valid image_json p live aid res e r ≡ ok v
      → All Accounted r.attempts
      → Continues (λ a. a ≢ aid) r.attempts v.attempts
  settle-Continues live aid res e r {v} h t = elim (Option-cases (last_attempt r.attempts)) [
    | inl l ↦ absurd (unfold settle in ground (arith, l))
    | inr (a, l) ↦
        let n = settled_attempt json_valid image_json res a in
        let same : set_last n r.attempts ≡ v.attempts = unfold settle in ground (arith, l) in
        let mine : str_eq a.id aid ≡ true = unfold settle in ground (arith, l) in
        subst (λ l. Continues (λ a. a ≢ aid) r.attempts l) same
          (Continues-last (λ a. a ≢ aid) n a r.attempts l (unfold settled_attempt in refl)
            (unfold settled_attempt in refl) (λ q. absurd (q ((eq_iff a.id aid).0 mine))) t)
  ]

  without_output-Continues :
      (P : String → Type 0) (old new : Run)
      → All Accounted new.attempts
      → Continues P new.attempts (without_output image_json old new).attempts
  unfolding without_output
  without_output-Continues P old new t =
      let k =
        last_texts-Continues P (last_attempt old.attempts) new.attempts (last_attempt new.attempts)
          refl t in
      let same : (without_output image_json old new).attempts
          ≡ last_texts (last_attempt old.attempts) new.attempts (last_attempt new.attempts) =
        ground arith in
      subst (λ l. Continues P new.attempts l) (sym same) k

  exhaust-Continues :
      (P : String → Type 0) (old new : Run)
      → All Accounted new.attempts
      → Continues P new.attempts (exhaust (without_output image_json old new)).attempts
  unfolding exhaust
  exhaust-Continues P old new t = without_output-Continues _ old new t

  act-Continues :
      (now : ℕ) (m : Move) (w : Row) {v : Row}
      → act p json_valid image_json print_image now m w ≡ ok v
      → All Accounted w.run.attempts
      → Continues (Spares m) w.run.attempts v.run.attempts
  unfolding act
  act-Continues now (begins live aid purpose) w {v} e t =
      let same : w.run.attempts ++ new_attempt aid purpose ∷ [] ≡ v.run.attempts =
        unfold begin_attempt stamp in ground arith in
      subst (λ l. Continues (λ a. Unit) w.run.attempts l) same
        (Continues-new _ w.run.attempts aid purpose t)
  act-Continues now (dispatches live) w e t =
      Continues-same _ _ _ (unfold dispatch stamp in ground arith) t
  act-Continues now (settles live aid res x) w e t =
      let (r, h, same) = stamped-ok now w (settle json_valid image_json p live aid res x w.run) e in
      subst (λ l. Continues (λ a. a ≢ aid) w.run.attempts l) (sym same)
        (settle-Continues live aid res x w.run h t)
  act-Continues now (cancels active) w e t =
      Continues-same _ _ _ (unfold cancel stamp in ground arith) t
  act-Continues now (finishes expired st reason output) w e t =
      Continues-same _ _ _ (unfold finish stamp in ground arith) t
  act-Continues now (asks id request) w e t =
      Continues-same _ _ _ (unfold ask stamp in ground arith) t
  act-Continues now (answers id allow) w e t =
      Continues-same _ _ _ (unfold answer stamp in ground arith) t
  act-Continues now (quarantines active) w e t =
      Continues-same _ _ _ (unfold quarantine stamp in ground arith) t
  act-Continues now recovers w {v} e t = elim (Bool-cases (terminal w.run.state)) [
    | inl ended ↦ Continues-same _ _ _ (ground arith) t
    | inr live ↦
        let same : map uncertain w.run.attempts ≡ v.run.attempts =
          unfold recover stamp in ground arith in
        subst (λ l. Continues (λ a. Unit) w.run.attempts l) same
          (Continues-uncertain _ w.run.attempts t)
  ]
  act-Continues now retains w e t = Continues-same _ _ _ (unfold retain stamp in ground arith) t
  act-Continues now (puts output) w e t = Continues-same _ _ _ (unfold put_image in ground arith) t
  act-Continues now fades w {v} e t = elim (Result-cases (fade image_json print_image now w.run)) [
    | inl (r, h) ↦
        let same : v.run ≡ r = ground (arith, h) in
        Continues-same _ _ _
          (ap (λ (u : Run). u.attempts) same ∙ fade-attempts image_json print_image now w.run r h) t
    | inr (x, h) ↦ absurd (ground (arith, h))
  ]
  act-Continues now (short m) w e t =
      let (u, h, same) =
        if_lifecycle-ok (without_output image_json w.run) w
          (act p json_valid image_json print_image now m w) e in
      let first = act-Continues now m w h t in
      let next =
        without_output-Continues (Spares m) w.run u.run
          (Continues-Accounted _ w.run.attempts u.run.attempts first) in
      subst (λ (r : Run). Continues (Spares m) w.run.attempts r.attempts) (sym same)
        (Continues-trans _ _ _ w.run.attempts u.run.attempts _ (λ a r. (r, r)) first next)
  act-Continues now (exhausted m) w e t =
      let (u, h, same) =
        if_lifecycle-ok (λ r. exhaust (without_output image_json w.run r)) w
          (act p json_valid image_json print_image now m w) e in
      let first = act-Continues now m w h t in
      let next =
        exhaust-Continues (Spares m) w.run u.run
          (Continues-Accounted _ w.run.attempts u.run.attempts first) in
      subst (λ (r : Run). Continues (Spares m) w.run.attempts r.attempts) (sym same)
        (Continues-trans _ _ _ w.run.attempts u.run.attempts _ (λ a r. (r, r)) first next)

  after-Continues :
      (P : String → Type 0) (w : Row) (x : Result Row)
      → All Accounted w.run.attempts
      → ((v : Row) → x ≡ ok v → Continues P w.run.attempts v.run.attempts)
      → Continues P w.run.attempts (after p json_valid image_json print_image w x).run.attempts
  after-Continues P w (ok v) t next = next v refl
  after-Continues P w (err e) t next = Continues-refl _ w.run.attempts t

  -- Through every sequence of changes a run keeps its attempts in their order, and new ones follow
  -- them; every attempt is either settled or marked as uncertain in its accounting, never both and
  -- never neither; and what an attempt used, whether it was sent and whether it is settled are as
  -- they were, unless one of the changes settles that very attempt: a cancel, a restart, the end of
  -- the run or a full store alters none of them. It is taken that the attempts were accounted for
  -- before.
  pub attempts_kept :
      (ms : List (ℕ × Move)) (w : Row)
      → All Accounted w.run.attempts
      → Continues
          (AllSpare ms)
          w.run.attempts
          (run_moves p json_valid image_json print_image ms w).run.attempts
  unfolding run_moves
  attempts_kept [] w t = Continues-refl _ w.run.attempts t
  attempts_kept ((now, m) ∷ ms) w t =
      let u =
        after p json_valid image_json print_image w
          (act p json_valid image_json print_image now m w) in
      let first : Continues (Spares m) w.run.attempts u.run.attempts =
        after-Continues (Spares m) w (act p json_valid image_json print_image now m w) t
          (λ v h. act-Continues now m w h t) in
      Continues-trans _ _ _ w.run.attempts u.run.attempts _ (λ a r. r) first
        (attempts_kept ms
          (after p json_valid image_json print_image w
            (act p json_valid image_json print_image now m w))
          (Continues-Accounted _ w.run.attempts u.run.attempts first))
