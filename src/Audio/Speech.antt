-- ===== src/Audio/Speech.antt =====
-- Speech keeps within its daily budget.
use infercat.Common.{ℤ, pos, ◌+ℤ◌, ◌≤ℤ◌, ◌<ℤ◌, ◌≡◌, List}
use infercat.Limiter.{MeterState}
use infercat.Audio.Budget.{History, total, History-Kept}

-- Under a daily limit that is set, in every history of a speech meter in which reservations are at
-- least zero: what is reserved is the sum of what the live requests reserved, and with what is
-- charged today it is at most the limit.
pub speech_within :
    (limit : ℤ) {m : MeterState} {live : List ℤ}
    → pos 0 <ℤ limit
    → History limit m live
    → (m.today +ℤ m.reserved ≤ℤ limit) × (m.reserved ≡ total live)
speech_within limit set t = let k = History-Kept limit set t in (k.within, k.balance)
