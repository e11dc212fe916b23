-- ===== src/Limiter/Retry.antt =====
-- The Retry-After of a rate limit is exact: that many seconds later there is room, and one second
-- earlier there is none.
use infercat.Common.{
  ℕ, ◌+◌, ◌-◌, ◌*◌, ◌≤◌, ◌<◌, pos, ◌≡◌, refl, subst, inl, inr, Bool, true, false, Option, none,
  some, List, [], ◌∷◌, Bool-cases, Option-cases, arith, ◌==◌,
}
use infercat.Errors.{Code, errf}
use infercat.Limits.{Limits}
use infercat.Limiter.{
  KeyState, LogEntry, second, window, expired, drop_entries, requests, oldest, seconds_until,
  until_expiry, rate_full, prune, Result, Admission, admit_resource, err, concurrency_error,
}
use infercat.Limiter.Admit.{seen, admit_cases}
use infercat.Limiter.Window.{Timed, Timed-drop}

requests-drop-le : (m : ℕ) (es : List LogEntry) → requests (drop_entries m es) ≤ requests es
unfolding requests drop_entries
requests-drop-le m [] = omega arith
requests-drop-le m (e ∷ es) = ground (arith, requests-drop-le m es)

oldest-ge : (lo hi t : ℕ) (es : List LogEntry) → Timed lo hi es → oldest es ≡ some t → lo ≤ t
unfolding oldest
oldest-ge lo hi t [] s o = absurd (cc)
oldest-ge lo hi t (e ∷ es) s o = ground (arith, oldest-ge e.t hi t es s.1)

-- Once the oldest admission is out of the window, there is one less.
oldest_leaves :
    (lo hi t m : ℕ) (es : List LogEntry)
    → Timed lo hi es
    → oldest es ≡ some t
    → t + window ≤ m
    → requests (drop_entries m es) < requests es
unfolding requests drop_entries oldest
oldest_leaves lo hi t m [] s o h = absurd (cc)
oldest_leaves lo hi t m (e ∷ es) s o h = elim (Bool-cases (e.req == 1)) [
  | inl x ↦ ground (arith, requests-drop-le m es)
  | inr x ↦ ground (arith, oldest_leaves e.t hi t m es s.1, oldest-ge e.t hi t es s.1)
]

-- An entry is an admission, or no request at all.
abbrev pub Single : List LogEntry → Type 0
Single [] = Unit
Single (e ∷ es) = (e.req ≤ 1) × Single es

-- Until then none of them leaves.
oldest_stays :
    (t m : ℕ) (es : List LogEntry)
    → Single es
    → oldest es ≡ some t
    → m < t + window
    → requests (drop_entries m es) ≡ requests es
unfolding requests drop_entries oldest
oldest_stays t m [] one o h = absurd (cc)
oldest_stays t m (e ∷ es) one o h = ground (arith, oldest_stays t m es one.1)

no_oldest : (es : List LogEntry) → Single es → oldest es ≡ none → requests es ≡ 0
unfolding requests oldest
no_oldest [] one o = refl
no_oldest (e ∷ es) one o = ground (arith, no_oldest es one.1)

fresh_head :
    (lo hi now t : ℕ) (es : List LogEntry)
    → Timed lo hi es
    → oldest (drop_entries now es) ≡ some t
    → now < t + window
unfolding drop_entries oldest
fresh_head lo hi now t [] s o = absurd (cc)
fresh_head lo hi now t (e ∷ es) s o = elim (Bool-cases (expired now e.t)) [
  | inl x ↦ ground (arith, fresh_head e.t hi now t es s.1)
  | inr x ↦ ground (arith, oldest-ge e.t hi t es s.1)
]

ceiling :
    (t now : ℕ)
    → now < t
    → let s = seconds_until t now in (t ≤ now + s * second) × (now + (s - 1) * second < t)
ceiling t now h = (ground arith, ground arith)

below_full :
    (lim : Limits) (q : KeyState) (r : ℕ)
    → lim.rpm ≡ pos r
    → requests q.log < r
    → rate_full lim q ≡ false
unfolding rate_full
below_full lim q r e h = ground arith

at_full :
    (lim : Limits) (q : KeyState) (r : ℕ)
    → lim.rpm ≡ pos r
    → 0 < r
    → r ≤ requests q.log
    → rate_full lim q ≡ true
unfolding rate_full
at_full lim q r e p h = ground arith

none_full :
    (lim : Limits) (q : KeyState)
    → Single q.log
    → oldest q.log ≡ none
    → lim.rpm ≡ pos (requests q.log)
    → rate_full lim q ≡ true
    → ⊥
unfolding rate_full
none_full lim q one o e f = ground (arith, no_oldest q.log one o)

retry_eq :
    (o : Option ℕ) (t now s : ℕ)
    → o ≡ some t
    → ◌≡◌ {A = Result Admission}
        (err (errf Code.rate_limited (until_expiry o now)))
        (err (errf Code.rate_limited s))
    → seconds_until (t + window) now ≡ s
retry_eq o t now s h e = ground arith

-- The key has as many admissions in the window as its limit allows, and is refused for that.
module _ (lo hi now : ℕ) (lim : Limits) (detached : Bool) (st : KeyState)
    (timed : Timed lo hi st.log) (single : Single (drop_entries now st.log))
    (at_limit : lim.rpm ≡ pos (requests (drop_entries now st.log))) where
  abbrev after : ℕ → KeyState → KeyState
  after s q = prune (now + s * second) q

  exact_at :
      (t s : ℕ)
      → oldest (drop_entries now st.log) ≡ some t
      → seconds_until (t + window) now ≡ s
      → (rate_full lim (after s (seen now lim detached st)) ≡ false)
        × (rate_full lim (after (s - 1) (seen now lim detached st)) ≡ true)
  unfolding prune
  exact_at t s o e =
      let es = drop_entries now st.log in
      let fresh = fresh_head lo hi now t st.log timed o in
      let (late, early) = ceiling (t + window) now fresh in
      let dropped = Timed-drop lo hi now st.log timed in
      let fewer =
        oldest_leaves lo hi t (now + s * second) es dropped o
          (subst (λ s. t + window ≤ now + s * second) e late) in
      let same =
        oldest_stays t (now + (s - 1) * second) es single o
          (subst (λ s. now + (s - 1) * second < t + window) e early) in
      (
        below_full lim _ _ at_limit fewer,
        at_full lim _ _ at_limit (omega (arith, fewer)) (omega (arith, same)),
      )

  -- Where the log is in order of time, each entry counts at most once, and the limit is the number
  -- of admissions in the window (so it was not lowered below it), the Retry-After of a refusal for
  -- the rate is exact: that many whole seconds later the key's rate has room again, and one second
  -- before it has not.
  pub retry_exact :
      (s : ℕ)
      → (admit_resource now lim detached st).1 ≡ err (errf Code.rate_limited s)
      → let q = (admit_resource now lim detached st).0 in
        (rate_full lim (prune (now + s * second) q) ≡ false)
        × (rate_full lim (prune (now + (s - 1) * second) q) ≡ true)
  unfolding prune concurrency_error
  retry_exact s =
      admit_cases now lim detached st
        (λ r.
          r.1 ≡ err (errf Code.rate_limited s)
          → (rate_full lim (after s r.0) ≡ false) × (rate_full lim (after (s - 1) r.0) ≡ true))
        (λ _ e. absurd (cc))
        (λ _ full e. elim (Option-cases (oldest (drop_entries now st.log))) [
          | inl o ↦ absurd (none_full lim (seen now lim detached st) single o at_limit full)
          | inr (t, o) ↦ exact_at t s o (retry_eq _ t now s o e)
        ])
        (λ _ _ e. absurd (cc))
