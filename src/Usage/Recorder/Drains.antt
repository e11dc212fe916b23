-- ===== src/Usage/Recorder/Drains.antt =====
-- internal/usage/recorder.go: `Close` waits for a writer that drains the queue and ends.
use mathlib.Core.List.{append_assoc, append-nil}
use infercat.Common.{
  ℕ, zero, suc, ◌≡◌, ◌≢◌, ◌⊎◌, refl, sym, ap, ◌∙◌, subst, Bool, true, List, [], ◌∷◌, ◌++◌, length,
  keep, arith, Bool-cases, inl, inr,
}
use infercat.Usage.Stats.{Event}
use infercat.Usage.Recorder.{
  FileRecorder, Writer, waits, drains, ended, new_file_recorder, write, turn_at, turn, turns, close,
}
use infercat.Usage.Recorder.Books.{Act, run, offered, nothing, Booked, run-Booked, close-Booked}

Writer-cases : (w : Writer) → (w ≡ ended) ⊎ (w ≢ ended)
Writer-cases ended = inl refl
Writer-cases waits = inr (λ e. cc)
Writer-cases drains = inr (λ e. cc)

module _ (encodes : Event → Bool) where
  -- A writer that has ended, with everything in the file.
  pub record Drained (all : List Event) (r : FileRecorder) : Type 0 where
    pub over : r.writer ≡ ended
    pub empty : r.queue ≡ []
    pub on_disk : r.flushed ≡ all

  last_turn :
      (w : Writer) (r : FileRecorder)
      → w ≢ ended
      → r.closed ≡ true
      → turn_at encodes w [] r ≡ record r { writer = ended; flushed = r.written }
  unfolding turn_at
  last_turn ended r h c = absurd (h refl)
  last_turn waits r h c = simp c
  last_turn drains r h c = simp c

  next_turn :
      (w : Writer) (e : Event) (es : List Event) (r : FileRecorder)
      → w ≢ ended
      → r.writer ≡ w
      → turn_at encodes w (e ∷ es) r ≡ write encodes e (record r { queue = es; writer = drains })
  unfolding turn_at
  next_turn ended e es r h hw = absurd (h refl)
  next_turn waits e es r h hw = refl
  next_turn drains e es r h hw = ap (λ v. write encodes e (record r { queue = es; writer = v })) hw

  turn-turn_at :
      (w : Writer) (q : List Event) (r : FileRecorder)
      → r.writer ≡ w
      → r.queue ≡ q
      → turn encodes r ≡ turn_at encodes w q r
  unfolding turn
  turn-turn_at w q r hw hq = λ i. turn_at encodes (hw i) (hq i) r

  write-rest :
      (e : Event) (es : List Event) (r : FileRecorder)
      → (write encodes e r).written ++ keep encodes es ≡ r.written ++ keep encodes (e ∷ es)
  unfolding write
  write-rest e es r = elim (Bool-cases (encodes e)) [
    | inl y ↦ rw y (append_assoc r.written (e ∷ []) (keep encodes es))
    | inr n ↦ rw n refl
  ]

  turns_at-Drained :
      (q : List Event) (w : Writer) (r : FileRecorder)
      → w ≢ ended
      → r.writer ≡ w
      → r.queue ≡ q
      → r.closed ≡ true
      → Drained (r.written ++ keep encodes q) (turns encodes (suc (length q)) r)
  unfolding turns
  turns_at-Drained [] w r h hw hq c =
      subst (λ t. Drained (r.written ++ []) t) (sym (turn-turn_at w [] r hw hq ∙ last_turn w r h c))
        (record { over = refl; empty = hq; on_disk = sym (append-nil r.written) })
  turns_at-Drained (e ∷ q) w r h hw hq c =
      let r' = write encodes e (record r { queue = q; writer = drains }) in
      let step = turn-turn_at w (e ∷ q) r hw hq ∙ next_turn w e q r h hw in
      subst (λ t. Drained (r.written ++ keep encodes (e ∷ q)) (turns encodes (suc (length q)) t))
        (sym step)
        (subst (λ l. Drained l (turns encodes (suc (length q)) r'))
          (write-rest e q (record r { queue = q; writer = drains }))
          (turns_at-Drained q drains r' (λ x. cc) (unfold write in ground arith)
            (unfold write in ground arith) (unfold write in ground arith)))

  ended_stays : (n : ℕ) (r : FileRecorder) → r.writer ≡ ended → turns encodes n r ≡ r
  unfolding turns
  ended_stays zero r h = refl
  ended_stays (suc n) r h =
      let step : turn encodes r ≡ r = unfold turn in ap (λ w. turn_at encodes w r.queue r) h in
      ap (turns encodes n) step ∙ ended_stays n r h

  Drained-turns :
      (os : List Event) (r : FileRecorder) (b : Booked encodes os r)
      → r.closed ≡ true
      → Drained (keep encodes b.taken) (turns encodes (suc (length r.queue)) r)
  Drained-turns os r b c = elim (Writer-cases r.writer) [
    | inl w ↦
        let f = b.finished w in
        subst (λ t. Drained (keep encodes b.taken) t) (sym (ended_stays (suc (length r.queue)) r w))
          (record {
            over = w;
            empty = f.0;
            on_disk =
                f.1
                ∙ sym (append-nil r.written)
                ∙ ap (λ l. r.written ++ keep encodes l) (sym f.0)
                ∙ b.ordered;
          })
    | inr w ↦
        subst (λ l. Drained l (turns encodes (suc (length r.queue)) r)) b.ordered
          (turns_at-Drained r.queue r.writer r w refl refl c)
  ]

  -- After any calls of `Record` and `Close` and any turns of the writer, in any order, and a call of
  -- `Close`: the queue is within its bound, the warnings are ten seconds or more apart, and each
  -- event that was offered is either counted as dropped or, in the order of the calls, written or
  -- waiting, but for those that do not encode; and one turn of the writer more than there are
  -- events waiting ends it, with all those events in the file in their order.
  pub close_drains :
      (acts : List Act)
      → let r = close (run encodes acts new_file_recorder) in
        (b : Booked encodes (offered acts) r) × Drained
          (keep encodes b.taken)
          (turns encodes (suc (length r.queue)) r)
  unfolding new_file_recorder
  close_drains acts =
      let start : Booked encodes [] new_file_recorder = record {
        taken = [];
        split = nothing;
        ordered = refl;
        bounded = omega arith;
        finished = λ q. cc;
        spaced = tt;
      } in
      let r = run encodes acts new_file_recorder in
      let b =
        close-Booked encodes (offered acts) r
          (run-Booked encodes acts [] new_file_recorder start) in
      (b, Drained-turns (offered acts) (close r) b (unfold close in refl))
