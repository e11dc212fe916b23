-- ===== src/Run/Ending.antt =====
-- internal/run/store.go: what `change` and `commitFor` make of one run: its stamp, and what is left of
-- it where there is no room for its texts.

use text.Mathlib.Text.{◌==◌ as str_eq}
use infercat.Common.{
  codes, ℕ, ◌+◌, Bool, true, false, not, ◌&&◌, ◌||◌, Option, none, some, List, [], ◌∷◌,
  if◌then◌else◌,
}
use infercat.Run.{
  Raw, retention, State, queued, running, waiting, done, failed, cancelled, terminal, Attempt, Run,
  ImageOutput, image_output, stored,
}
use infercat.Run.Moves.{last_attempt, set_last}

-- What `change` adds to its function's work.
unfoldable pub stamp : ℕ → Run → Run → Run
stamp now old r = record r {
  updated = now;
  expires = if terminal r.state && not (terminal old.state) then now + retention else r.expires;
}

-- `lifecycle`: whether a change is more than data.
same_state : State → State → Bool
same_state queued queued = true
same_state running running = true
same_state waiting waiting = true
same_state done done = true
same_state failed failed = true
same_state cancelled cancelled = true
same_state _ _ = false

abbrev same_flag : Bool → Bool → Bool
same_flag true b = b
same_flag false b = not b

unfoldable pub lifecycle : Run → Run → Bool
unfolding same_state
lifecycle old new =
    not (same_state old.state new.state)
    || not (same_flag old.cancel_requested new.cancel_requested)

abbrev dropped_output : Raw
dropped_output = codes "{\"error\":\"output not retained: budget\"}"

unfoldable pub or_dropped : Raw → Raw
or_dropped [] = dropped_output
or_dropped (b ∷ bs) = b ∷ bs

-- The last attempt keeps its accounting, and of its texts what the old run had of them.
prior_texts : Attempt → Option Attempt → Attempt
prior_texts a none = record a {
  output = [];
  usage = record a.usage { prompt = ""; completion = "" };
}
prior_texts a (some prior) =
    if str_eq prior.id a.id
    then record a {
      output = prior.output;
      usage = record a.usage { prompt = prior.usage.prompt; completion = prior.usage.completion };
    }
    else record a { output = []; usage = record a.usage { prompt = ""; completion = "" } }

unfoldable pub last_texts : Option Attempt → List Attempt → Option Attempt → List Attempt
unfolding prior_texts
last_texts prior xs none = xs
last_texts prior xs (some a) = set_last (prior_texts a prior) xs

module _ (image_json : Raw → Option ImageOutput) where
  -- `commitFor`: the new run without the texts that there is no room for.
  unfoldable pub without_output : Run → Run → Run
  unfolding or_dropped last_texts
  without_output old new =
      let attempts =
        last_texts (last_attempt old.attempts) new.attempts (last_attempt new.attempts) in
      if stored (image_output image_json new)
      then record new { attempts = attempts; reason = "output not retained: budget" }
      else record new { attempts = attempts; output = or_dropped old.output }

-- The end of a run for which there is no room even so.
unfoldable pub exhaust : Run → Run
exhaust r = record r {
  state = failed;
  reason = "storage exhausted";
  expires = r.updated + retention;
}
