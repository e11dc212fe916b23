-- ===== src/Limiter/Admit.antt =====
-- The case rule for `admitResource`, and what each answer means.
use infercat.Common.{ℕ, pos, ◌≡◌, refl, inl, inr, Bool, true, false, some, Bool-cases}
use infercat.Errors.{GwError, Code, errf}
use infercat.Limits.{Limits}
use infercat.Limiter.{
  KeyState, Admission, Result, ok, err, prune, busy, rate_full, count_admission, admit_resource,
  concurrency_error, until_expiry, oldest,
}

module _ (now : ℕ) (lim : Limits) (detached : Bool) (st : KeyState) where
  -- The key once it is pruned and marked as seen.
  abbrev pub seen : KeyState
  seen = record (prune now st) { last_seen = some now }

  pub admit_cases {ℓ} :
      (P : KeyState × Result Admission → Type ℓ)
      → (busy lim detached seen ≡ true
          → P (seen, err (concurrency_error lim.max_concurrent seen.in_flight)))
      → (busy lim detached seen ≡ false
          → rate_full lim seen ≡ true
          → P (seen, err (errf Code.rate_limited (until_expiry (oldest seen.log) now))))
      → (busy lim detached seen ≡ false
          → rate_full lim seen ≡ false
          → let q = count_admission now detached seen in
            P (q, ok (record { detached = detached; seq = q.seq; reserved = pos 0 })))
      → P (admit_resource now lim detached st)
  unfolding admit_resource
  admit_cases P held full free = elim (Bool-cases (busy lim detached seen)) [
    | inl e ↦ rw (e, admit_resource) (held e)
    | inr e ↦ elim (Bool-cases (rate_full lim seen)) [
      | inl f ↦ rw (e, f, admit_resource) (full e f)
      | inr f ↦ rw (e, f, admit_resource) (free e f)
    ]
  ]

  -- An admission came through both tests, and wrote what `count_admission` writes.
  pub admit_ok :
      {a : Admission}
      → (admit_resource now lim detached st).1 ≡ ok a
      → ((admit_resource now lim detached st).0 ≡ count_admission now detached seen)
        × (busy lim detached seen ≡ false)
        × (rate_full lim seen ≡ false)
  admit_ok {a} =
      admit_cases
        (λ r.
          r.1 ≡ ok a
          → (r.0 ≡ count_admission now detached seen)
            × (busy lim detached seen ≡ false)
            × (rate_full lim seen ≡ false))
        (λ _ h. absurd (cc)) (λ _ _ h. absurd (cc)) (λ b f _. (refl, b, f))

  -- A refusal only prunes, and marks the key as seen.
  pub admit_err :
      {e : GwError}
      → (admit_resource now lim detached st).1 ≡ err e
      → (admit_resource now lim detached st).0 ≡ seen
  admit_err {e} =
      admit_cases (λ r. r.1 ≡ err e → r.0 ≡ seen) (λ _ _. refl) (λ _ _ _. refl)
        (λ _ _ h. absurd (cc))
