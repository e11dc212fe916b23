-- ===== src/Limits/Defaults.antt =====
-- Filling in defaults: what it leaves, and that doing it again changes nothing.
use infercat.Common.{ℕ, ℤ, pos, ◌≡◌, ◌≢◌, arith}
use infercat.Limits.{
  Limits, or_default, clamp_unlimited, image_defaults, audio_defaults, with_defaults,
}

or_default_idem : (v d : ℤ) → or_default (or_default v d) d ≡ or_default v d
unfolding or_default
or_default_idem v d = ground arith

clamp_idem : (v : ℤ) → clamp_unlimited (clamp_unlimited v) ≡ clamp_unlimited v
unfolding clamp_unlimited
clamp_idem v = ground arith

-- A negative limit becomes -1 whichever of the two comes first.
clamp_default_comm :
    (v : ℤ) (n : ℕ)
    → clamp_unlimited (or_default v (pos n)) ≡ or_default (clamp_unlimited v) (pos n)
unfolding or_default clamp_unlimited
clamp_default_comm v n = ground arith

ruleset idempotent = (clamp_default_comm, or_default_idem, clamp_idem)

-- Reading a stored key again, or a key that was added, changes none of its limits: the defaults
-- are idempotent, and those of `keys add` include those of a reload.
pub defaults_idempotent :
    (l : Limits)
    → (with_defaults (with_defaults l) ≡ with_defaults l)
      × (audio_defaults (with_defaults l) ≡ with_defaults l)
      × (image_defaults (audio_defaults l) ≡ audio_defaults l)
unfolding with_defaults
defaults_idempotent l = (simp idempotent, simp idempotent, simp idempotent)

-- After `keys add` these limits, for which a stored zero would mean none, are not zero: the
-- requests and tokens of a minute, the concurrent requests, the output tokens, the tokens of a day
-- and the searches of a day.
pub with_defaults-ne-zero :
    (l : Limits)
    → let d = with_defaults l in
      (d.rpm ≢ pos 0)
      × (d.tpm ≢ pos 0)
      × (d.max_concurrent ≢ pos 0)
      × (d.max_output_tokens ≢ pos 0)
      × (d.daily_tokens ≢ pos 0)
      × (d.search_per_day ≢ pos 0)
unfolding with_defaults or_default clamp_unlimited
with_defaults-ne-zero l =
    (ground arith, ground arith, ground arith, ground arith, ground arith, ground arith)
