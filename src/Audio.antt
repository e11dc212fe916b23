-- ===== src/Audio.antt =====
-- internal/gateway/audio.go: what a speech reserves of its daily budget, and what it is charged at the
-- end, in characters, which are whole. A transcription does the same in seconds, which are fractional
-- floating-point numbers in the source: it is not modelled.
pub mod Budget
pub mod Speech
pub mod Tests
use infercat.Common.{
  ℕ, ℤ, pos, ◌+ℤ◌, ◌-ℤ◌, ltb_ℤ, Bool, true, false, ◌&&◌, ◌||◌, Option, none, some, if◌then◌else◌,
}
use infercat.Errors.{Code, GwError, errf}
use infercat.Outcome.{Outcome, served}
use infercat.Limiter.{MeterState}

-- `reserveAudio` of a speech, on the meter of its class after the prune; `retry` is the seconds to
-- midnight.
unfoldable pub reserve_speech : ℤ → ℕ → ℤ → MeterState → MeterState × Option GwError
reserve_speech limit retry need m =
    if ltb_ℤ (pos 0) limit && ltb_ℤ limit (m.today +ℤ m.reserved +ℤ need)
    then (m, some (errf Code.speech_budget_exhausted retry))
    else (record m { reserved = m.reserved +ℤ need }, none)

-- How a speech went.
pub record Heard : Type 0 where
  pub dispatched : Bool
  pub delivered : Bool
  pub client_cut : Bool
  pub outcome : Outcome

abbrev pub is_served : Outcome → Bool
is_served served = true
is_served _ = false

-- A speech that reserved `n` is charged all of it or nothing.
unfoldable pub speech_charge : Heard → ℤ → ℤ
speech_charge h n =
    if h.dispatched && (is_served h.outcome || (h.client_cut && h.delivered)) then n else pos 0

-- `settleAudio` of a speech, on the meter of its class after the prune.
unfoldable pub settle_speech : Heard → ℤ → MeterState → MeterState
unfolding speech_charge
settle_speech h n m = record m { reserved = m.reserved -ℤ n; today = m.today +ℤ speech_charge h n }
