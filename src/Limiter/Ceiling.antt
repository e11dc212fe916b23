-- ===== src/Limiter/Ceiling.antt =====
-- The rate limit over whole histories: whatever is admitted, refused, reserved and settled, no
-- sixty seconds hold more counted admissions than the limit.
use infercat.Common.{
  ℕ, ◌+◌, ◌^◌, ◌%◌, ◌≤◌, ◌<◌, ℤ, pos, ◌≡◌, refl, subst, sym, Bool, true, false, List, [], ◌∷◌, ◌++◌,
  arith, if◌then◌else◌,
}
use infercat.Limits.{Limits}
use infercat.Limiter.{
  KeyState, LogEntry, Admission, ok, drop_entries, remove_entry, prune, count_admission,
  admit_resource, reserve, reserve_day, put_reservation, settle,
}
use infercat.Limiter.Admit.{seen, admit_ok, admit_err}
use infercat.Limiter.History.{Run, begins, admits, refuses, reserves, settles, admission_entry}
use infercat.Limiter.Rate.{Inv, prune-Inv, push-Inv, remove-Inv, not_full}
use infercat.Limiter.Window.{in_window}

reserve-log :
    (now : ℕ) (lim : Limits) (prompt out : ℤ) (a : Admission) (st : KeyState)
    → let q = (reserve now lim prompt out a st).0 in
      (q.log ≡ drop_entries now st.log) × (q.seq ≡ st.seq)
unfolding reserve reserve_day put_reservation prune
reserve-log now lim prompt out a st = (ground arith, ground arith)

next_seq : (s : ℕ) → s + 1 < 2 ^ 64 → (s + 1) % 2 ^ 64 ≡ s + 1
next_seq s h = omega arith

module _ (r : ℕ) (positive : 0 < r) where
  admit-Inv :
      (st : KeyState) {g : List LogEntry} {n : ℕ} (now : ℕ) (lim : Limits) (detached : Bool)
      {a : Admission}
      → Inv r st.log st.seq g n
      → n ≤ now
      → lim.rpm ≡ pos r
      → st.seq + 1 < 2 ^ 64
      → (admit_resource now lim detached st).1 ≡ ok a
      → let q = (admit_resource now lim detached st).0 in
        Inv r q.log q.seq (g ++ admission_entry now (st.seq + 1) ∷ []) now
  unfolding count_admission prune
  admit-Inv st {g = g} now lim detached v h e small okay =
      let (result, _, free) = admit_ok now lim detached st okay in
      rw (result, next_seq st.seq small)
        (push-Inv now v h (not_full r lim (seen now lim detached st) positive e free))

  refuse-Inv :
      (st : KeyState) {g : List LogEntry} {n : ℕ} (now : ℕ)
      → Inv r st.log st.seq g n
      → n ≤ now
      → Inv r (prune now st).log (prune now st).seq g now
  unfolding prune
  refuse-Inv st now v h = prune-Inv now v h

  reserve-Inv :
      (st : KeyState) {g : List LogEntry} {n : ℕ} (now : ℕ) (lim : Limits) (prompt out : ℤ)
      (a : Admission)
      → Inv r st.log st.seq g n
      → n ≤ now
      → let q = (reserve now lim prompt out a st).0 in Inv r q.log q.seq g now
  reserve-Inv st now lim prompt out a v h =
      let (e, f) = reserve-log now lim prompt out a st in rw (e, f) (prune-Inv now v h)

  settle-Inv :
      (st : KeyState) {g : List LogEntry} {n : ℕ} (now : ℕ) (a : Admission) (counted : Bool)
      (charged : ℤ)
      → Inv r st.log st.seq g n
      → n ≤ now
      → let q = settle now a counted charged st in
        Inv r q.log q.seq (if counted then g else remove_entry a.seq g) now
  unfolding settle prune
  settle-Inv st now a true charged v h = prune-Inv now v h
  settle-Inv st now a false charged v h = remove-Inv a.seq (prune-Inv now v h)

  Run-Inv : {st : KeyState} {g : List LogEntry} {n : ℕ} → Run r st g n → Inv r st.log st.seq g n
  Run-Inv begins = record {
    old = [];
    split = refl;
    gone = refl;
    timed = omega arith;
    seqs = omega arith;
    rate = λ t. omega arith;
  }
  Run-Inv (admits {st = st} now lim detached a run h e small okay) =
      admit-Inv st now lim detached (Run-Inv run) h e small okay
  Run-Inv (refuses {st = st} {g = g} now lim detached e run h refused) =
      subst (λ q. Inv r q.log q.seq g now) (sym (admit_err now lim detached st refused))
        (refuse-Inv st now (Run-Inv run) h)
  Run-Inv (reserves {st = st} now lim prompt out a run h) =
      reserve-Inv st now lim prompt out a (Run-Inv run) h
  Run-Inv (settles {st = st} now a counted charged run h) =
      settle-Inv st now a counted charged (Run-Inv run) h

  -- With a rate limit `r` above zero in force, in any history of the key in which time does not go
  -- back and the sequence number of the admissions does not wrap, any sixty seconds hold at most
  -- `r` admissions that counted, whatever was refused, reserved or settled in between.
  pub rate_ceiling :
      {st : KeyState} {g : List LogEntry} {n : ℕ} (t : ℕ) → Run r st g n → in_window t g ≤ r
  rate_ceiling t run = (Run-Inv run).rate t
