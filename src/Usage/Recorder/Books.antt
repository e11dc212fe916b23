-- ===== src/Usage/Recorder/Books.antt =====
-- internal/usage/recorder.go: calls of `Record` and `Close` and turns of the writer in any order, and
-- where each event is then.
use mathlib.Core.List.{append_assoc, append-nil}
use infercat.Common.{
  ℕ, suc, ◌+◌, ◌/◌, ◌≤◌, ◌≡◌, refl, sym, ap, ◌∙◌, subst, Bool, true, Option, List, [], ◌∷◌, ◌++◌,
  length, keep, arith, length-append, Bool-cases, ltb, leb, ltb→lt, ◌≢◌, inl, inr,
}
use infercat.Usage.Stats.{Event}
use infercat.Usage.Recorder.{
  FileRecorder, Warning, Writer, waits, drains, ended, buffered_events, record_event, record_at,
  drop_event, Why, is_closed, disk_cannot_keep_up, write, turn_at, or_now, second, turn, close,
}

pub data Act : Type 0 where
  records : ℕ → Option ℕ → Event → Act
  turns_writer : Act
  closes : Act

module _ (encodes : Event → Bool) where
  unfoldable pub run : List Act → FileRecorder → FileRecorder
  run [] r = r
  run (records now ts e ∷ acts) r = run acts (record_at now ts e r)
  run (turns_writer ∷ acts) r = run acts (turn encodes r)
  run (closes ∷ acts) r = run acts (close r)

-- The events of the calls, in order, as they are recorded.
unfoldable pub offered : List Act → List Event
offered [] = []
offered (records now ts e ∷ acts) = record e { ts = or_now now ts } ∷ offered acts
offered (turns_writer ∷ acts) = offered acts
offered (closes ∷ acts) = offered acts

-- Of the first list, the second is what was taken, in order, and the number is that of the others.
pub data Drops : List Event → List Event → ℕ → Type 0 where
  nothing : Drops [] [] 0
  took :
      {os as' : List Event} {n : ℕ} (e : Event)
      → Drops os as' n
      → Drops (os ++ e ∷ []) (as' ++ e ∷ []) n
  lost :
      {os as' : List Event} {n : ℕ} (e : Event) → Drops os as' n → Drops (os ++ e ∷ []) as' (suc n)

-- Each warning comes ten seconds or more after the one before.
abbrev pub Apart : ℕ → List Warning → Type 0
Apart at [] = Unit
Apart at (w ∷ ws) = (w.at + 10 ≤ at) × Apart w.at ws

abbrev pub Spaced : ℕ → List Warning → Type 0
Spaced warned [] = Unit
Spaced warned (w ∷ ws) = (w.at ≡ warned) × Apart w.at ws

module _ (encodes : Event → Bool) where
  -- Of the events that were offered, those that were taken are written in order, or wait in order.
  pub record Booked (os : List Event) (r : FileRecorder) : Type 0 where
    pub taken : List Event
    pub split : Drops os taken r.dropped
    pub ordered : r.written ++ keep encodes r.queue ≡ keep encodes taken
    pub bounded : length r.queue ≤ buffered_events
    pub finished : r.writer ≡ ended → (r.queue ≡ []) × (r.flushed ≡ r.written) × (r.closed ≡ true)
    pub spaced : Spaced r.warned r.warnings

  keep-append : (xs ys : List Event) → keep encodes (xs ++ ys) ≡ keep encodes xs ++ keep encodes ys
  keep-append [] ys = refl
  keep-append (x ∷ xs) ys = ground (arith, keep-append xs ys)

  Spaced-Apart :
      (warned now : ℕ) (ws : List Warning) → warned + 10 ≤ now → Spaced warned ws → Apart now ws
  Spaced-Apart warned now [] h s = tt
  Spaced-Apart warned now (w ∷ ws) h s = (omega (arith, s.0, h), s.1)

  drop-Booked :
      (now : ℕ) (why : Why) (e : Event) (os : List Event) (r : FileRecorder)
      → Booked os r
      → Booked (os ++ e ∷ []) (drop_event now why r)
  unfolding drop_event
  drop-Booked now why e os r b = elim (Bool-cases (leb (r.warned + 10) now)) [
    | inl y ↦ rw y (record {
      taken = b.taken;
      split = lost e b.split;
      ordered = b.ordered;
      bounded = b.bounded;
      finished = b.finished;
      spaced = (refl, Spaced-Apart r.warned now r.warnings (ground arith) b.spaced);
    })
    | inr n ↦ rw n (record {
      taken = b.taken;
      split = lost e b.split;
      ordered = b.ordered;
      bounded = b.bounded;
      finished = b.finished;
      spaced = b.spaced;
    })
  ]

  record-Booked :
      (now : ℕ) (e : Event) (os : List Event) (r : FileRecorder)
      → Booked os r
      → Booked (os ++ e ∷ []) (record_event now e r)
  record-Booked now e os r b = elim (Bool-cases r.closed) [
    | inl shut ↦
        let step : drop_event now is_closed r ≡ record_event now e r =
          unfold record_event in ground (arith, shut) in
        subst (λ t. Booked (os ++ e ∷ []) t) step (drop-Booked now is_closed e os r b)
    | inr live ↦ elim (Bool-cases (ltb (length r.queue) buffered_events)) [
      | inl room ↦
          let longer = record r { queue = r.queue ++ e ∷ [] } in
          let step : longer ≡ record_event now e r =
            unfold record_event in ground (arith, live, room) in
          subst (λ t. Booked (os ++ e ∷ []) t) step
            (record {
              taken = b.taken ++ e ∷ [];
              split = took e b.split;
              ordered =
                  ap (λ t. r.written ++ t) (keep-append r.queue (e ∷ []))
                  ∙ sym (append_assoc r.written (keep encodes r.queue) (keep encodes (e ∷ [])))
                  ∙ ap (λ t. t ++ keep encodes (e ∷ [])) b.ordered
                  ∙ sym (keep-append b.taken (e ∷ []));
              bounded = omega (
                arith,
                length-append r.queue (e ∷ []),
                ltb→lt (length r.queue) buffered_events room,
              );
              finished = λ q. absurd (cc (b.finished q).2);
              spaced = b.spaced;
            })
      | inr full ↦
          let step : drop_event now disk_cannot_keep_up r ≡ record_event now e r =
            unfold record_event in ground (arith, live, full) in
          subst (λ t. Booked (os ++ e ∷ []) t) step (drop-Booked now disk_cannot_keep_up e os r b)
    ]
  ]

  -- Taking the first event from the queue and writing it.
  write-Booked :
      (os : List Event) (w : Writer) (e : Event) (es : List Event) (r : FileRecorder)
      → w ≢ ended
      → r.queue ≡ e ∷ es
      → Booked os r
      → Booked os (write encodes e (record r { queue = es; writer = w }))
  unfolding write
  write-Booked os w e es r h q b = elim (Bool-cases (encodes e)) [
    | inl y ↦ rw y (record {
      taken = b.taken;
      split = b.split;
      ordered =
          let kept : keep encodes (e ∷ es) ≡ e ∷ keep encodes es = rw y refl in
          append_assoc r.written (e ∷ []) (keep encodes es)
          ∙ ap (λ t. r.written ++ t) (sym kept ∙ ap (keep encodes) (sym q))
          ∙ b.ordered;
      bounded = omega (arith, ap length q, b.bounded);
      finished = λ x. absurd (h x);
      spaced = b.spaced;
    })
    | inr n ↦ rw n (record {
      taken = b.taken;
      split = b.split;
      ordered =
          let kept : keep encodes (e ∷ es) ≡ keep encodes es = rw n refl in
          ap (λ t. r.written ++ t) (sym kept ∙ ap (keep encodes) (sym q)) ∙ b.ordered;
      bounded = omega (arith, ap length q, b.bounded);
      finished = λ x. absurd (h x);
      spaced = b.spaced;
    })
  ]

  turn_at-Booked :
      (os : List Event) (w : Writer) (q : List Event) (r : FileRecorder)
      → r.writer ≡ w
      → r.queue ≡ q
      → Booked os r
      → Booked os (turn_at encodes w q r)
  unfolding turn_at
  turn_at-Booked os ended q r hw hq b = b
  turn_at-Booked os waits (e ∷ es) r hw hq b = write-Booked os drains e es r (λ x. cc) hq b
  turn_at-Booked os waits [] r hw hq b = elim (Bool-cases r.closed) [
    | inl y ↦ rw y (record {
      taken = b.taken;
      split = b.split;
      ordered = b.ordered;
      bounded = b.bounded;
      finished = λ x. (hq, refl, refl);
      spaced = b.spaced;
    })
    | inr n ↦ simp n b
  ]
  turn_at-Booked os drains (e ∷ es) r hw hq b = write-Booked os r.writer e es r (λ x. cc) hq b
  turn_at-Booked os drains [] r hw hq b = record {
    taken = b.taken;
    split = b.split;
    ordered = b.ordered;
    bounded = b.bounded;
    finished = λ x. (hq, refl, ground arith);
    spaced = b.spaced;
  }

  turn-Booked : (os : List Event) (r : FileRecorder) → Booked os r → Booked os (turn encodes r)
  unfolding turn
  turn-Booked os r b = turn_at-Booked os r.writer r.queue r refl refl b

  pub close-Booked : (os : List Event) (r : FileRecorder) → Booked os r → Booked os (close r)
  unfolding close
  close-Booked os r b = record {
    taken = b.taken;
    split = b.split;
    ordered = b.ordered;
    bounded = b.bounded;
    finished = λ q. let f = b.finished q in (f.0, f.1, refl);
    spaced = b.spaced;
  }

  pub run-Booked :
      (acts : List Act) (os : List Event) (r : FileRecorder)
      → Booked os r
      → Booked (os ++ offered acts) (run encodes acts r)
  unfolding run offered
  run-Booked [] os r b = subst (λ l. Booked l r) (sym (append-nil os)) b
  run-Booked (records now ts e ∷ acts) os r b =
      let d = record e { ts = or_now now ts } in
      subst (λ l. Booked l (run encodes acts (record_at now ts e r)))
        (append_assoc os (d ∷ []) (offered acts))
        (run-Booked acts (os ++ d ∷ []) (record_at now ts e r)
          (unfold record_at in record-Booked (now / second) d os r b))
  run-Booked (turns_writer ∷ acts) os r b = run-Booked acts os (turn encodes r) (turn-Booked os r b)
  run-Booked (closes ∷ acts) os r b = run-Booked acts os (close r) (close-Booked os r b)
