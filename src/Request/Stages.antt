-- ===== src/Request/Stages.antt =====
-- internal/gateway/request.go, managed.go and proxy.go: the stages of a text request, in the order
-- of the pipeline. Each takes what it needs onto the request and returns the first error.
use text.Mathlib.Text.{◌==◌ as str_eq}
use infercat.Common.{
  ℕ, ℤ, pos, negsuc, ◌+ℤ◌, ◌-ℤ◌, max_ℤ, ltb_ℤ, eqb_ℤ, Bool, true, false, not, ◌&&◌, Option, none,
  some, [], ◌∷◌, if◌then◌else◌,
}
use infercat.Errors.{Code, GwError, errf}
use infercat.Outcome.{Outcome, queue_lost, engine_err, cut}
use infercat.Keys.{Status, active, paused, revoked}
use infercat.Fit.{min_output_tokens}
use infercat.Limiter.{Admission, Result, ok, err}
use infercat.Request.{
  Request, key_seen, member_acquired, admitted, body_counted, reserved, slot_taken, engine_asked,
  Ran, done, fails, and_then, Presented, no_bearer, store_failed, unknown_secret, found, Member,
  unmanaged, acquired, unavailable, Body, declared_too_large, cut_off, too_late, broken, not_object,
  whole, HostTools, passes, hands_off, refuses, Normalized, Engine, not_encoded, friend_left,
  no_answer, bad_status, answers, Relayed,
}

abbrev retry_upstream_down : ℕ
retry_upstream_down = 10

status_error : Status → Option GwError
status_error active = none
status_error revoked = some (errf Code.key_revoked 0)
status_error paused = some (errf Code.key_paused 0)

unfoldable pub authenticate : Presented → Request → Ran
unfolding status_error
authenticate no_bearer q = fails (record q { no_event = true }) [] (errf Code.invalid_key 0)
authenticate store_failed q = fails q [] (errf Code.upstream_down 1)
authenticate unknown_secret q = fails (record q { no_event = true }) [] (errf Code.invalid_key 0)
authenticate (found st) q = record { request = q; calls = key_seen ∷ []; error = status_error st }

-- `admitKey`, where the request has no admission yet.
admit_now : Result Admission → Request → Ran
admit_now (ok a) q = done (record q { adm = some a }) (admitted ∷ [])
admit_now (err e) q = fails q [] e

unfoldable pub admit_key : Result Admission → Request → Ran
unfolding admit_now
admit_key r q = elim q.adm [ some _ ↦ done q [] | none ↦ admit_now r q ]

unfoldable pub start_member : Member → Request → Ran
start_member unmanaged q = done q []
start_member unavailable q = fails q [] (errf Code.upstream_down 3)
start_member acquired q = done (record q { managed = true }) (member_acquired ∷ [])

-- A member is started for a request that is admitted, since that bounds the wait for it.
unfoldable pub prepare_managed : Member → Result Admission → Request → Ran
unfolding start_member admit_key
prepare_managed unmanaged r q = done q []
prepare_managed unavailable r q = and_then (admit_key r q) (start_member unavailable)
prepare_managed acquired r q = and_then (admit_key r q) (start_member acquired)

unfoldable pub check_health : Bool → Request → Ran
check_health true q = done q []
check_health false q = fails q [] (errf Code.upstream_down retry_upstream_down)

unfoldable pub read_body : Body → Request → Ran
read_body declared_too_large q = fails q [] (errf Code.body_too_large 0)
read_body cut_off q =
    fails (record q { buffered = true }) (body_counted ∷ []) (errf Code.body_too_large 0)
read_body too_late q =
    fails (record q { buffered = true; stalled = true }) (body_counted ∷ [])
      (errf Code.invalid_request 0)
read_body broken q =
    fails (record q { buffered = true }) (body_counted ∷ []) (errf Code.invalid_request 0)
read_body not_object q =
    fails (record q { buffered = true }) (body_counted ∷ []) (errf Code.invalid_request 0)
read_body whole q = done (record q { buffered = true }) (body_counted ∷ [])

unfoldable pub route_host_tools : HostTools → Request → Ran
route_host_tools passes q = done q []
route_host_tools hands_off q = done (record q { handed_off = true }) []
route_host_tools (refuses e) q = fails q [] e

unfoldable pub normalize : Result Normalized → Request → Ran
normalize (ok n) q = done (record q { stream = n.stream; max_tok = n.max_tok }) []
normalize (err e) q = fails q [] e

-- `count`: n is the count that `countTokens` has of the engine's tokenizer, or its estimate. That
-- probe of the engine comes before the slot and is not among the calls that are recorded here.
unfoldable pub count_prompt : ℤ → Request → Ran
count_prompt n q = done (record q { prompt = n; prompt_tokens = n }) []

-- `fitContext`, with the effective context; zero is no bound.
unfoldable pub fit_context : ℤ → Request → Request × Option GwError
fit_context room q =
    if eqb_ℤ room (pos 0)
    then (q, none)
    else if ltb_ℤ room q.prompt
    then (q, some (errf Code.context_too_long 0))
    else if ltb_ℤ (pos 0) q.max_tok && ltb_ℤ room (q.prompt +ℤ q.max_tok)
    then (record q { max_tok = max_ℤ (room -ℤ q.prompt) min_output_tokens }, none)
    else (q, none)

-- The output that is asked of `reserve`: a chat with no cap has no bound.
unfoldable pub asked_output : Request → ℤ
asked_output q =
    if str_eq q.kind "/v1/chat/completions" && eqb_ℤ q.max_tok (pos 0) then negsuc 0 else q.max_tok

unfoldable pub take_reservation : Result (Admission × ℤ) → Request → Ran
unfolding asked_output
take_reservation (err e) q = fails q [] e
take_reservation (ok (a, fitted)) q =
    done
      (record q {
        adm = some a;
        max_tok =
            if ltb_ℤ (pos 0) fitted && not (eqb_ℤ fitted q.max_tok) then fitted else q.max_tok;
      })
      (reserved q.prompt (asked_output q) ∷ [])

unfoldable pub fit_then_reserve : Request × Option GwError → Result (Admission × ℤ) → Ran
unfolding take_reservation
fit_then_reserve (q, some e) r = fails q [] e
fit_then_reserve (q, none) r = take_reservation r q

unfoldable pub check_budgets : ℤ → Result (Admission × ℤ) → Request → Ran
unfolding fit_context fit_then_reserve
check_budgets room r q = fit_then_reserve (fit_context room q) r

-- The head that goes out first, by `writeHeader`.
abbrev with_head : Bool → Request → Request
with_head true q = record q {
  wrote_header = true;
  status = if q.wrote_header then q.status else 200;
}
with_head false q = q

-- `acquireSlot`, with what the queue answers; `onAcquired` may stop the request in the slot.
unfoldable pub acquire_slot : Option (Outcome × GwError) → Bool → Bool → Request → Ran
acquire_slot (some (o, e)) wrote stopped q =
    fails (record (with_head (q.stream && wrote) q) { outcome = o }) [] e
acquire_slot none wrote true q =
    fails (record (with_head (q.stream && wrote) q) { slot = true; outcome = queue_lost })
      (slot_taken ∷ []) (errf Code.client_closed 0)
acquire_slot none wrote false q =
    done (record (with_head (q.stream && wrote) q) { slot = true }) (slot_taken ∷ [])

unfoldable pub call_upstream : Engine → Request → Ran
call_upstream not_encoded q = fails q [] (errf Code.invalid_request 0)
call_upstream (friend_left sent) q =
    fails (record q { outcome = if sent then cut else queue_lost }) (engine_asked ∷ [])
      (errf Code.client_closed 0)
call_upstream (no_answer e) q = fails (record q { outcome = engine_err }) (engine_asked ∷ []) e
call_upstream (bad_status e) q = fails (record q { outcome = engine_err }) (engine_asked ∷ []) e
call_upstream answers q = done q (engine_asked ∷ [])

-- `relay`, with how the pipe ended.
relay_ended : Option (Outcome × GwError) → Request → Ran
relay_ended none q = done q []
relay_ended (some (o, e)) q = fails (record q { outcome = o }) [] e

unfoldable pub relay : Relayed → Request → Ran
unfolding relay_ended
relay r q = relay_ended r.ended (record (with_head r.head q) {
  prompt_tokens = r.prompt_tokens;
  completion_tokens = r.completion_tokens;
})
