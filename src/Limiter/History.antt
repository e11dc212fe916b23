-- ===== src/Limiter/History.antt =====
-- The histories of one key: its calls in order, at times that do not go back.
use infercat.Common.{ℕ, ◌+◌, ◌^◌, ◌≤◌, ◌<◌, ℤ, pos, ◌≡◌, Bool, List, [], ◌∷◌, ◌++◌, if◌then◌else◌}
use infercat.Errors.{GwError}
use infercat.Limits.{Limits}
use infercat.Limiter.{
  KeyState, LogEntry, Admission, ok, err, empty_key, remove_entry, admit_resource, reserve, settle,
}

abbrev pub admission_entry : ℕ → ℕ → LogEntry
admission_entry now seq = record { t = now; req = 1; seq = seq }

-- A key's history under the rate limit `r`: its state, the admissions that counted so far and were
-- not taken back, and the time of the last call. The other limits may change from call to call,
-- and a settlement may be of any admission.
pub data Run (r : ℕ) : KeyState → List LogEntry → ℕ → Type 0 where
  begins : Run r empty_key [] 0
  admits :
      {st : KeyState} {g : List LogEntry} {n : ℕ} (now : ℕ) (lim : Limits) (detached : Bool)
      (a : Admission)
      → Run r st g n
      → n ≤ now
      → lim.rpm ≡ pos r
      → st.seq + 1 < 2 ^ 64
      → (admit_resource now lim detached st).1 ≡ ok a
      → Run r
          (admit_resource now lim detached st).0
          (g ++ admission_entry now (st.seq + 1) ∷ [])
          now
  refuses :
      {st : KeyState} {g : List LogEntry} {n : ℕ} (now : ℕ) (lim : Limits) (detached : Bool)
      (e : GwError)
      → Run r st g n
      → n ≤ now
      → (admit_resource now lim detached st).1 ≡ err e
      → Run r (admit_resource now lim detached st).0 g now
  reserves :
      {st : KeyState} {g : List LogEntry} {n : ℕ} (now : ℕ) (lim : Limits) (prompt out : ℤ)
      (a : Admission)
      → Run r st g n
      → n ≤ now
      → Run r (reserve now lim prompt out a st).0 g now
  settles :
      {st : KeyState} {g : List LogEntry} {n : ℕ} (now : ℕ) (a : Admission) (counted : Bool)
      (charged : ℤ)
      → Run r st g n
      → n ≤ now
      → Run r (settle now a counted charged st) (if counted then g else remove_entry a.seq g) now
