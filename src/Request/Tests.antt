-- ===== src/Request/Tests.antt =====
-- One request that is served, one that leaves the queue, and one with no secret.
use Prim.Native.String.{String}
use infercat.Common.{pos, ◌+ℤ◌, ◌≡◌, refl, ap, All, true, false, none, some, [], ◌∷◌}
use infercat.Errors.{Code, errf}
use infercat.Outcome.{queue_lost}
use infercat.Keys.{active}
use infercat.Limiter.{Admission, ok}
use infercat.Usage.{model_endpoint, class_of}
use infercat.Request.{
  Answers, found, no_bearer, acquired, unmanaged, whole, passes, answers, counts_against_rpm,
  key_seen, member_acquired, member_released, admitted, body_counted, body_uncounted, reserved,
  slot_taken, engine_asked, slot_released, settled, recorded, continue,
}
use infercat.Request.Stages.{
  prepare_managed, check_health, read_body, route_host_tools, normalize, count_prompt,
  check_budgets, acquire_slot, call_upstream, relay,
}
use infercat.Request.Exit.{fail}
use infercat.Request.Serve.{serve}
use infercat.Request.Protocol.{follow, nothing}
use infercat.Request.Balance.{serve_balanced}
use infercat.Request.Charges.{asked, IsFree}
use infercat.Request.Unasked.{unasked-IsFree}

abbrev admission : Admission
admission = record { detached = false; seq = 1; reserved = pos 0 }

abbrev promised : Admission
promised = record admission { reserved = pos 300 }

-- A chat of a hundred tokens in and at most two hundred out, which used twenty.
abbrev all_well : Answers
all_well = record {
  presented = found active;
  member = acquired;
  healthy = true;
  admission = ok admission;
  body = whole;
  host_tools = passes;
  normalized = ok (record { stream = true; max_tok = pos 200 });
  count = pos 100;
  context = pos 4096;
  reservation = ok (promised, pos 200);
  queue = none;
  queue_wrote = false;
  stopped = false;
  engine = answers;
  relayed = record {
    head = true;
    ended = none;
    prompt_tokens = pos 100;
    completion_tokens = pos 20;
  };
  gone = false;
}

abbrev chat : String
chat = "/v1/chat/completions"

served_calls :
    serve chat all_well
    ≡ key_seen
      ∷ admitted
      ∷ member_acquired
      ∷ body_counted
      ∷ reserved (pos 100) (pos 200)
      ∷ slot_taken
      ∷ engine_asked
      ∷ slot_released
      ∷ settled promised true (pos 120)
      ∷ body_uncounted
      ∷ recorded none
      ∷ member_released
      ∷ []
unfolding serve continue prepare_managed check_health read_body route_host_tools normalize
    count_prompt check_budgets ◌+ℤ◌ acquire_slot call_upstream relay counts_against_rpm
    model_endpoint class_of fail
served_calls = refl

-- The wait for a slot timed out: the request counts, and is charged nothing.
abbrev timed_out : Answers
timed_out = record all_well {
  member = unmanaged;
  queue = some (queue_lost, errf Code.queue_timeout 5);
}

timed_out_calls :
    serve chat timed_out
    ≡ key_seen
      ∷ admitted
      ∷ body_counted
      ∷ reserved (pos 100) (pos 200)
      ∷ settled promised true (pos 0)
      ∷ body_uncounted
      ∷ recorded (some Code.queue_timeout)
      ∷ []
unfolding serve continue prepare_managed check_health read_body route_host_tools normalize
    count_prompt check_budgets ◌+ℤ◌ acquire_slot call_upstream relay counts_against_rpm
    model_endpoint class_of fail
timed_out_calls = refl

no_secret : serve chat (record all_well { presented = no_bearer }) ≡ []
unfolding serve fail
no_secret = refl

serve_balanced_example : follow (serve chat all_well) (some nothing) ≡ some nothing
serve_balanced_example = serve_balanced chat all_well

timed_out_unasked : asked (serve chat timed_out) ≡ false
timed_out_unasked = ap asked timed_out_calls

unasked-IsFree_example : All IsFree (serve chat timed_out)
unasked-IsFree_example = unasked-IsFree chat timed_out refl timed_out_unasked
