-- ===== src/Run/Schedule/Tests.antt =====
-- internal/run/manager.go: a line of two planted chats and an interactive one.
use Prim.Native.String.{String}
use infercat.Common.{ℕ, ◌≤◌, ◌≡◌, refl, false, List, [], ◌∷◌, arith}
use infercat.Run.{Run, queued, running}
use infercat.Run.Store.Tests.{chat_run}
use infercat.Run.Schedule.{
  ranks, ranks_from, Lines, active_of, acquired_position, queued_rows, schedule, before,
}
use infercat.Run.Schedule.Ranks.{acquired-ranks}
use infercat.Run.Schedule.Serial.{Started, schedule_serial}

abbrev chat : String → String → ℕ → Run
chat id priority created = record (chat_run queued) {
  id = id;
  priority = priority;
  created = created;
}

abbrev line : List Run
line = chat "r_1" "planted" 10 ∷ chat "r_2" "planted" 9 ∷ chat "r_3" "interactive" 12 ∷ []

abbrev sorted : List Run
sorted = chat "r_3" "interactive" 12 ∷ chat "r_2" "planted" 9 ∷ chat "r_1" "planted" 10 ∷ []

sorts_line : queued_rows "chat" (chat_run running ∷ line) ≡ sorted
unfolding queued_rows before
sorts_line = refl

moves_up : acquired_position "r_2" (ranks sorted) ≡ ("r_3", 1) ∷ ("r_1", 2) ∷ []
unfolding acquired_position ranks_from
moves_up = refl

acquired-ranks_example :
    acquired_position "r_2" (ranks sorted)
    ≡ ranks (chat "r_3" "interactive" 12 ∷ chat "r_1" "planted" 10 ∷ [])
acquired-ranks_example = acquired-ranks "r_2" sorted ((refl, (refl, tt)), ((refl, tt), (tt, tt)))

abbrev idle : Lines
idle = record { stopped = false; positions = []; active = ("r_9", "image") ∷ [] }

starts_third : (schedule false "chat" line idle).active ≡ ("r_9", "image") ∷ ("r_3", "chat") ∷ []
unfolding schedule before
starts_third = refl

none_of_kind : active_of "chat" idle.active ≤ 1
unfolding active_of
none_of_kind = omega arith

schedule_serial_example :
    (active_of "chat" (schedule false "chat" line idle).active ≤ 1)
    × Started "chat" line idle (schedule false "chat" line idle)
schedule_serial_example = schedule_serial false "chat" line idle none_of_kind
