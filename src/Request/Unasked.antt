-- ===== src/Request/Unasked.antt =====
-- A request whose engine was never asked is charged nothing.
use Prim.Native.String.{String}
use infercat.Common.{
  ℤ, pos, ◌≡◌, refl, sym, ap, ◌∙◌, inl, inr, Bool, true, false, not, ◌||◌, Option, none, some, List,
  ◌++◌, All, All-append, Bool-cases, arith,
}
use infercat.Errors.{GwError}
use infercat.Outcome.{Outcome, running}
use infercat.Limiter.{Admission}
use infercat.Request.{
  Request, new_request, Call, slot_released, body_uncounted, member_released, recorded, Presented,
  no_bearer, store_failed, unknown_secret, found, Answers,
}
use infercat.Request.Stages.{
  authenticate, admit_key, check_health, read_body, route_host_tools, count_prompt, check_budgets,
  acquire_slot, call_upstream, relay,
}
use infercat.Request.Exit.{fail, settle_row, settle_outcome, settlement, when, finish}
use infercat.Request.Serve.{
  before_tools, after_tools, unless_handed_off, stages, reject, proxy_ended, proxy, routed, serve,
}
use infercat.Request.Charges.{
  asked, asked-append, IsFree, is_unasked, IsQueueAnswer, Fair, Runs, Asks, and_then-Fair,
  admit_key-Fair, prepare_managed-Fair, check_health-Fair, read_body-Fair, route_host_tools-Fair,
  normalize-Fair, count_prompt-Fair, check_budgets-Fair, acquire_slot-Fair, call_upstream-Fair,
  relay-Fair,
}

before_tools-Fair :
    (a : Answers) (q : Request) (s : Bool) → Runs q s → Fair Runs s (before_tools a q)
unfolding before_tools
before_tools-Fair a q s h =
    let managed = prepare_managed-Fair a.member a.admission q s h in
    let healthy =
      and_then-Fair Runs Runs s _ (check_health a.healthy) managed (check_health-Fair a.healthy) in
    let admitted =
      and_then-Fair Runs Runs s _ (admit_key a.admission) healthy (admit_key-Fair a.admission) in
    let whole = and_then-Fair Runs Runs s _ (read_body a.body) admitted (read_body-Fair a.body) in
    and_then-Fair Runs Runs s _ (route_host_tools a.host_tools) whole
      (route_host_tools-Fair a.host_tools)

after_tools-Fair :
    (a : Answers) (q : Request) (s : Bool)
    → IsQueueAnswer a.queue
    → Runs q s
    → Fair Asks s (after_tools a q)
unfolding after_tools
after_tools-Fair a q s u h =
    let counted =
      and_then-Fair Runs Runs s _ (count_prompt a.count) (normalize-Fair a.normalized q s h)
        (count_prompt-Fair a.count) in
    let reserved =
      and_then-Fair Runs Runs s _ (check_budgets a.context a.reservation) counted
        (check_budgets-Fair a.context a.reservation) in
    let running =
      and_then-Fair Runs Runs s _ (acquire_slot a.queue a.queue_wrote a.stopped) reserved
        (λ p t k. acquire_slot-Fair a.queue a.queue_wrote a.stopped p t u k) in
    let asks =
      and_then-Fair Runs Asks s _ (call_upstream a.engine) running (call_upstream-Fair a.engine) in
    and_then-Fair Asks Asks s _ (relay a.relayed) asks (relay-Fair a.relayed)

-- A chat that goes on to its end without an error asked the engine; one that was handed off did not.
abbrev Ends : Request → Bool → Type 0
Ends q s = q.handed_off ≡ false → s ≡ true

unless_handed_off-Fair :
    (off : Bool) (a : Answers) (q : Request) (s : Bool)
    → IsQueueAnswer a.queue
    → q.handed_off ≡ off
    → Runs q s
    → Fair Ends s (unless_handed_off off a q)
unfolding unless_handed_off
unless_handed_off-Fair true a q s u o h = (λ _. rw h refl, tt, λ _ z. absurd (ground arith))
unless_handed_off-Fair false a q s u o h =
    let (f, c, p) = after_tools-Fair a q s u h in (f, c, λ e _. p e)

stages-Fair :
    (a : Answers) (q : Request)
    → IsQueueAnswer a.queue
    → Runs q false
    → Fair Ends false (stages a q)
unfolding stages
stages-Fair a q u h =
    and_then-Fair Runs Ends false (before_tools a q) _ (before_tools-Fair a q false h)
      (λ p t k. unless_handed_off-Fair p.handed_off a p t u refl k)

-- What a request was asked and charged so far, with the outcome that it ends with.
abbrev Cheap : Request × List Call → Type 0
Cheap (q, calls) = All IsFree calls × (asked calls ≡ false → is_unasked q.outcome ≡ true)

fail-outcome : (gone : Bool) (e : GwError) (q : Request) → (fail gone e q).outcome ≡ q.outcome
unfolding fail
fail-outcome gone e q = ground arith

reject_unasked : (o : Outcome) → is_unasked o ≡ true → is_unasked (reject o) ≡ true
unfolding reject
reject_unasked o h = ground arith

ended_unasked :
    (gone : Bool) (e : Option GwError) (q : Request)
    → is_unasked q.outcome ≡ true
    → (e ≡ none → q.handed_off ≡ true)
    → is_unasked (proxy_ended gone e q).outcome ≡ true
unfolding proxy_ended
ended_unasked gone (some e) q h f =
    ap is_unasked (fail-outcome gone e _) ∙ reject_unasked q.outcome h
ended_unasked gone none q h f = ground arith

proxy-Cheap :
    (kind : String) (a : Answers) (q : Request)
    → IsQueueAnswer a.queue
    → q.outcome ≡ running
    → Cheap (proxy kind a q)
unfolding proxy
proxy-Cheap kind a q u h =
    let r = stages a (record q { kind = kind }) in
    let (f, c, p) = stages-Fair a (record q { kind = kind }) u h in
    (
      c,
      λ n. ended_unasked a.gone r.error r.request (f n) (λ e.
          elim (Bool-cases r.request.handed_off) [
            | inl t ↦ t
            | inr t ↦ let bad : true ≡ false = sym (p e t) ∙ n in absurd cc
          ]),
    )

routed-Cheap :
    (e : Option GwError) (kind : String) (a : Answers) (q : Request)
    → IsQueueAnswer a.queue
    → q.outcome ≡ running
    → Cheap (routed e kind a q)
unfolding routed
routed-Cheap none kind a q u h = proxy-Cheap kind a q u h
routed-Cheap (some e) kind a q u h = (tt, λ _. ground (arith, fail-outcome a.gone e q))

settle_row-free : (q : Request) → is_unasked q.outcome ≡ true → (settle_row q).1 ≡ pos 0
unfolding settle_row settle_outcome
settle_row-free q h = ground arith

when-IsFree : (b : Bool) (c : Call) → IsFree c → All IsFree (when b c)
when-IsFree true c f = (f, tt)
when-IsFree false c f = tt

settlement-IsFree :
    (o : Option Admission) (row : Bool × ℤ) → row.1 ≡ pos 0 → All IsFree (settlement o row)
unfolding settlement
settlement-IsFree none row e = tt
settlement-IsFree (some a) (counted, charged) e = (e, tt)

finish-IsFree : (q : Request) → is_unasked q.outcome ≡ true → All IsFree (finish q)
unfolding finish
finish-IsFree q h = All-append IsFree _ _ (when-IsFree q.slot slot_released tt) (
    All-append IsFree _ _ (settlement-IsFree q.adm (settle_row q) (settle_row-free q h)) (
      All-append IsFree _ _ (when-IsFree q.buffered body_uncounted tt) (
        All-append IsFree _ _ (when-IsFree (not q.no_event) (recorded q.code) tt)
          (when-IsFree q.managed member_released tt))))

authenticate-outcome :
    (p : Presented)
    → ((authenticate p new_request).request.outcome ≡ running)
      × All IsFree (authenticate p new_request).calls
unfolding authenticate
authenticate-outcome no_bearer = (refl, tt)
authenticate-outcome store_failed = (refl, tt)
authenticate-outcome unknown_secret = (refl, tt)
authenticate-outcome (found st) = (refl, (tt, tt))

or_false : (a b : Bool) → (a || b) ≡ false → (a ≡ false) × (b ≡ false)
or_false true b e = absurd cc
or_false false b e = (refl, e)

-- Where the queue answers a request that it gives no slot with a rejection or a loss, a request whose
-- engine was never asked settles for a charge of zero, however it ends.
pub unasked-IsFree :
    (kind : String) (a : Answers)
    → IsQueueAnswer a.queue
    → asked (serve kind a) ≡ false
    → All IsFree (serve kind a)
unfolding serve
unasked-IsFree kind a u n =
    let r = authenticate a.presented new_request in
    let p = routed r.error kind a r.request in
    let (o, free) = authenticate-outcome a.presented in
    let (c, k) = routed-Cheap r.error kind a r.request u o in
    let (_, later) = or_false _ _ (sym (asked-append r.calls (p.1 ++ finish p.0)) ∙ n) in
    let (unasked, _) = or_false _ _ (sym (asked-append p.1 (finish p.0)) ∙ later) in
    All-append IsFree r.calls _ free (All-append IsFree p.1 _ c (finish-IsFree p.0 (k unasked)))
