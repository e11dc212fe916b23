-- ===== src/Usage/Tests.antt =====
-- A small log: a chat of ann's, a poll of bob's, a chat of bob's that failed, and a broken line.
use Prim.Native.String.{String}
use infercat.Common.{ℕ, ◌*◌, ◌≤◌, ◌<◌, pos, ◌≡◌, refl, none, List, [], ◌∷◌, length, arith}
use infercat.Usage.{model_endpoint, class_of}
use infercat.Usage.Stats.{
  Event, add, add_row, model_call, resource_meters, percentile, sort, insert, rank,
}
use infercat.Usage.Report.{
  Filter, Line, event, unparsed, aggregate, add_lines, add_line, add_event, add_pass, add_part,
  add_group, matches,
}
use infercat.Usage.Sums.{Sums}
use infercat.Usage.Rank.{upto, below, percentile_rank}
use infercat.Usage.Split.{Everywhere, IsSplit, aggregate-IsSplit}

abbrev row : String → String → ℕ → Event
row key path status = record {
  settled_at = none;
  meters = none;
  kind = "";
  seconds = pos 0;
  characters = pos 0;
  via = "";
  ts = 90_000_000_000_000;
  key_id = key;
  endpoint = path;
  model = "";
  status = status;
  code = "";
  prompt_tokens = pos 10;
  completion_tokens = pos 5;
  ttft_ms = 3;
  total_ms = 40;
}

abbrev lines : List Line
lines =
    event (row "ann" "/v1/chat/completions" 200)
    ∷ event (row "bob" "/me" 200)
    ∷ unparsed
    ∷ event (row "bob" "/v1/chat/completions" 429)
    ∷ []

abbrev every : Filter
every = record { key_id = ""; since = none; until = none; days = 1 }

three_requests : (aggregate every lines).all.whole.total.requests ≡ 3
unfolding aggregate add_lines add_line add_event add_pass matches add_part add_group add add_row
    model_call model_endpoint class_of resource_meters
three_requests = refl

aggregate-IsSplit_example : Everywhere IsSplit (aggregate every lines)
aggregate-IsSplit_example = aggregate-IsSplit every lines

abbrev samples : List ℕ
samples = 30 ∷ 10 ∷ 20 ∷ 40 ∷ []

-- The median of four is the second, and the 95th percentile the last.
median : percentile samples 50 ≡ 20
unfolding percentile sort insert rank
median = refl

tail : percentile samples 95 ≡ 40
unfolding percentile sort insert rank
tail = refl

percentile_rank_example :
    (50 * length samples ≤ 100 * upto (percentile samples 50) samples)
    × (100 * below (percentile samples 50) samples < 50 * length samples)
percentile_rank_example = percentile_rank 50 samples (omega arith) (omega arith) (omega arith)
