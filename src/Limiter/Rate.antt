-- ===== src/Limiter/Rate.antt =====
-- The rate limit over whole histories: whatever is admitted, refused, reserved and settled, no
-- sixty seconds hold more counted admissions than the limit.
use infercat.Common.{
  ℕ, suc, ◌+◌, ◌≤◌, ◌<◌, pos, ◌≡◌, refl, sym, ap, subst, ◌∙◌, inl, inr, false, leb, List, [], ◌∷◌,
  ◌++◌, Bool-cases, arith, leb→le, leb→gt, if◌then◌else◌,
}
use mathlib.Core.List.{append_assoc}
use infercat.Limits.{Limits}
use infercat.Limiter.{KeyState, LogEntry, expired, drop_entries, requests, remove_entry, rate_full}
use infercat.Limiter.History.{admission_entry}
use infercat.Limiter.Seqs.{Seqs, Seqs-append, Seqs-remove, remove-append}
use infercat.Limiter.Window.{
  live, in_window, Timed, Timed-raise, Timed-append, Timed-remove, requests-drop, live-append,
  live_mono, in_window-append, in_window-live, in_window-remove, live-remove, Timed-lower,
}

pub record Inv (r : ℕ) (log : List LogEntry) (seq : ℕ) (g : List LogEntry) (n : ℕ) : Type 0 where
  -- The log is what is left of the counted admissions; the others are too old to count.
  pub old : List LogEntry
  pub split : g ≡ old ++ log
  pub gone : live n old ≡ 0
  pub timed : Timed 0 n g
  pub seqs : Seqs 0 (suc seq) g
  pub rate : (t : ℕ) → in_window t g ≤ r

dropped : ℕ → List LogEntry → List LogEntry
dropped now [] = []
dropped now (e ∷ es) = let rest = dropped now es in if expired now e.t then e ∷ rest else []

dropped-split : (now : ℕ) (es : List LogEntry) → dropped now es ++ drop_entries now es ≡ es
unfolding dropped drop_entries
dropped-split now [] = refl
dropped-split now (e ∷ es) = ground (arith, dropped-split now es)

live-dropped : (now : ℕ) (es : List LogEntry) → live now (dropped now es) ≡ 0
unfolding dropped
live-dropped now [] = refl
live-dropped now (e ∷ es) = ground (arith, live-dropped now es)

-- A call's prune keeps the invariant of the admissions before it.
pub prune-Inv :
    {r seq n : ℕ} {log g : List LogEntry} (now : ℕ)
    → Inv r log seq g n
    → n ≤ now
    → Inv r (drop_entries now log) seq g now
prune-Inv {n = n} {log = log} {g = g} now v h = record {
  old = v.old ++ dropped now log;
  split =
      v.split
      ∙ ap (λ l. v.old ++ l) (sym (dropped-split now log))
      ∙ sym (append_assoc v.old (dropped now log) (drop_entries now log));
  gone = omega (
    arith,
    live-append now v.old (dropped now log),
    live-dropped now log,
    live_mono n now v.old h,
    v.gone,
  );
  timed = Timed-raise 0 n now g h v.timed;
  seqs = v.seqs;
  rate = v.rate;
}

Timed-right : (lo hi : ℕ) (xs ys : List LogEntry) → Timed lo hi (xs ++ ys) → Timed lo hi ys
Timed-right lo hi [] ys t = t
Timed-right lo hi (x ∷ xs) ys t = Timed-lower x.t lo hi ys t.0 (Timed-right x.t hi xs ys t.1)

live-requests :
    {r seq n : ℕ} {log g : List LogEntry} (now : ℕ)
    → Inv r log seq g n
    → n ≤ now
    → live now g ≡ requests (drop_entries now log)
live-requests {n = n} {log = log} {g = g} now v h = omega (
  arith,
  ap (live now) v.split,
  live-append now v.old log,
  live_mono n now v.old h,
  v.gone,
  requests-drop 0 n now log (Timed-right 0 n v.old log (subst (Timed 0 n) v.split v.timed)),
)

in_window-entry : (t now seq : ℕ) → in_window t (admission_entry now seq ∷ []) ≤ 1
in_window-entry t now seq = ground arith

in_window-later : (t now seq : ℕ) → t < now → in_window t (admission_entry now seq ∷ []) ≡ 0
in_window-later t now seq h = ground arith

-- One more admission while fewer than `r` are live.
push-rate :
    {r seq n : ℕ} {log g : List LogEntry} (now s : ℕ)
    → Inv r log seq g n
    → n ≤ now
    → requests (drop_entries now log) < r
    → (t : ℕ) → in_window t (g ++ admission_entry now s ∷ []) ≤ r
push-rate {n = n} {g = g} now s v h few t = elim (Bool-cases (leb now t)) [
  | inl e ↦ omega (
    arith,
    in_window-append t g (admission_entry now s ∷ []),
    in_window-entry t now s,
    in_window-live 0 n t g v.timed,
    live_mono now t g (leb→le _ _ e),
    live-requests now v h,
    leb→le _ _ e,
  )
  | inr e ↦ omega (
    arith,
    in_window-append t g (admission_entry now s ∷ []),
    in_window-later t now s (leb→gt _ _ e),
    v.rate t,
  )
]

pub push-Inv :
    {r seq n : ℕ} {log g : List LogEntry} (now : ℕ)
    → Inv r log seq g n
    → n ≤ now
    → requests (drop_entries now log) < r
    → let e = admission_entry now (seq + 1) in
      Inv r (drop_entries now log ++ e ∷ []) (seq + 1) (g ++ e ∷ []) now
push-Inv {seq = seq} {n = n} {log = log} {g = g} now v h few =
    let p = prune-Inv now v h in
    let e = admission_entry now (seq + 1) in
    record {
      old = p.old;
      split = ap (λ l. l ++ e ∷ []) p.split ∙ append_assoc p.old (drop_entries now log) (e ∷ []);
      gone = p.gone;
      timed = Timed-append 0 n g e v.timed h;
      seqs = Seqs-append 0 seq g e v.seqs refl;
      rate = push-rate now (seq + 1) v h few;
    }

pub remove-Inv :
    {r seq n : ℕ} {log g : List LogEntry} (s : ℕ)
    → Inv r log seq g n
    → Inv r (remove_entry s log) seq (remove_entry s g) n
remove-Inv {seq = seq} {n = n} {log = log} {g = g} s v = record {
  old = remove_entry s v.old;
  split =
      ap (remove_entry s) v.split
      ∙ remove-append 0 (suc seq) s v.old log (subst (Seqs 0 (suc seq)) v.split v.seqs);
  gone = omega (arith, live-remove n s v.old, v.gone);
  timed = Timed-remove 0 n s g v.timed;
  seqs = Seqs-remove 0 (suc seq) s g v.seqs;
  rate = λ t. omega (arith, v.rate t, in_window-remove t s g);
}

pub not_full :
    (r : ℕ) (lim : Limits) (st : KeyState)
    → 0 < r
    → lim.rpm ≡ pos r
    → rate_full lim st ≡ false
    → requests st.log < r
unfolding rate_full
not_full r lim st h e f = ground arith
