-- ===== src/Usage/Recorder/Tests.antt =====
-- internal/usage/recorder.go: a short life of a recorder.
use infercat.Common.{ℕ, suc, ◌≡◌, refl, pos, Bool, true, none, some, List, [], ◌∷◌, length, keep}
use infercat.Usage.Stats.{Event}
use infercat.Usage.Recorder.{new_file_recorder, record_at, record_event, turn, turns, close}
use infercat.Usage.Recorder.Books.{Act, records, turns_writer, closes, run, offered, Booked}
use infercat.Usage.Recorder.Drains.{Drained, close_drains}

abbrev any_event : Event → Bool
any_event e = true

abbrev chat : ℕ → Event
chat n = record {
  settled_at = none;
  meters = none;
  kind = "text";
  seconds = pos 0;
  characters = pos 0;
  via = "";
  ts = n;
  key_id = "k_1";
  endpoint = "/v1/chat/completions";
  model = "m";
  status = 200;
  code = "";
  prompt_tokens = pos 3;
  completion_tokens = pos 4;
  ttft_ms = 1;
  total_ms = 2;
}

-- Two events, of which one is written before the close, and one that comes too late.
abbrev short_life : List Act
short_life =
    records 20_000_000_000 (some 7) (chat 1)
    ∷ turns_writer
    ∷ records 21_000_000_000 none (chat 2)
    ∷ closes
    ∷ records 22_000_000_000 (some 9) (chat 3)
    ∷ []

late_event-dropped : (run any_event short_life new_file_recorder).dropped ≡ 1
unfolding run new_file_recorder record_at record_event turn close
late_event-dropped = refl

close_drains_example :
    (b : Booked any_event (offered short_life) (close (run any_event short_life new_file_recorder)))
    × Drained any_event (keep any_event b.taken) (
        turns any_event
          (suc (length (close (run any_event short_life new_file_recorder)).queue))
          (close (run any_event short_life new_file_recorder)))
close_drains_example = close_drains any_event short_life
