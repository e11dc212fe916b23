-- ===== src/Audio/Tests.antt =====
-- A speech that is refused for want of characters, and one whose friend left too early.
use infercat.Common.{pos, ◌+ℤ◌, ◌≤ℤ◌, ◌≡◌, refl, true, false, none, some, [], arith}
use infercat.Errors.{Code, errf}
use infercat.Outcome.{served, cut}
use infercat.Limiter.{MeterState, empty_meter}
use infercat.Audio.{reserve_speech, Heard, speech_charge, settle_speech}
use infercat.Audio.Budget.{begins, reserves, settles, total}
use infercat.Audio.Speech.{speech_within}

abbrev reserved : MeterState
reserved = (reserve_speech (pos 60) 9 (pos 30) empty_meter).0

granted : (reserve_speech (pos 60) 9 (pos 30) empty_meter).1 ≡ none
unfolding reserve_speech ◌+ℤ◌
granted = refl

too_long :
    (reserve_speech (pos 60) 9 (pos 31) reserved).1 ≡ some (errf Code.speech_budget_exhausted 9)
unfolding reserve_speech ◌+ℤ◌
too_long = refl

abbrev spoken : Heard
spoken = record { dispatched = true; delivered = true; client_cut = false; outcome = served }

speech_paid : speech_charge spoken (pos 30) ≡ pos 30
unfolding speech_charge
speech_paid = refl

abbrev unheard : Heard
unheard = record spoken { delivered = false; client_cut = true; outcome = cut }

speech_free : speech_charge unheard (pos 30) ≡ pos 0
unfolding speech_charge
speech_free = refl

abbrev settled : MeterState
settled = settle_speech spoken (pos 30) reserved

speech_within_example :
    (settled.today +ℤ settled.reserved ≤ℤ pos 60) × (settled.reserved ≡ total [])
speech_within_example =
    speech_within (pos 60) (omega arith)
      (settles spoken (pos 30) [] [] (reserves 9 (pos 30) begins (omega arith) granted))
