-- ===== src/Request/Serve.antt =====
-- internal/gateway/request.go and gateway.go: a text request from its secret to its exit (`serve`,
-- `proxy` and the deferred `finish` of `serveHTTP`).
use Prim.Native.String.{String}
use infercat.Common.{Bool, true, false, Option, none, some, List, [], ◌++◌}
use infercat.Errors.{GwError}
use infercat.Outcome.{Outcome, running, rejected, served}
use infercat.Request.{Request, Call, Ran, done, and_then, Answers, new_request}
use infercat.Request.Stages.{
  authenticate, prepare_managed, check_health, admit_key, read_body, route_host_tools, normalize,
  count_prompt, check_budgets, acquire_slot, call_upstream, relay,
}
use infercat.Request.Exit.{fail, finish}

-- The stages that follow the hand-off of a chat to a run.
unfoldable pub after_tools : Answers → Request → Ran
after_tools a q =
    and_then
      (and_then
        (and_then
          (and_then (and_then (normalize a.normalized q) (count_prompt a.count))
            (check_budgets a.context a.reservation))
          (acquire_slot a.queue a.queue_wrote a.stopped))
        (call_upstream a.engine))
      (relay a.relayed)

unfoldable pub unless_handed_off : Bool → Answers → Request → Ran
unfolding after_tools
unless_handed_off true a q = done q []
unless_handed_off false a q = after_tools a q

unfoldable pub before_tools : Answers → Request → Ran
before_tools a q =
    and_then
      (and_then
        (and_then (and_then (prepare_managed a.member a.admission q) (check_health a.healthy))
          (admit_key a.admission))
        (read_body a.body))
      (route_host_tools a.host_tools)

unfoldable pub stages : Answers → Request → Ran
unfolding unless_handed_off before_tools
stages a q = and_then (before_tools a q) (λ r. unless_handed_off r.handed_off a r)

-- A stage that fails before it set the outcome makes a rejection.
unfoldable pub reject : Outcome → Outcome
reject running = rejected
reject o = o

unfoldable pub proxy_ended : Bool → Option GwError → Request → Request
unfolding reject
proxy_ended gone (some e) q = fail gone e (record q { outcome = reject q.outcome })
proxy_ended gone none q = elim q.handed_off [ true ↦ q | false ↦ record q { outcome = served } ]

-- `proxy`, which returns with no outcome where the chat was handed to a run.
unfoldable pub proxy : String → Answers → Request → Request × List Call
unfolding proxy_ended stages
proxy kind a q =
    let r = stages a (record q { kind = kind }) in (proxy_ended a.gone r.error r.request, r.calls)

-- The part of `serve` behind the routes of text requests; the other routes are left out.
unfoldable pub routed : Option GwError → String → Answers → Request → Request × List Call
unfolding proxy
routed (some e) kind a q = (fail a.gone e q, [])
routed none kind a q = proxy kind a q

-- The calls of a whole request.
unfoldable pub serve : String → Answers → List Call
unfolding routed authenticate finish
serve kind a =
    let r = authenticate a.presented new_request in
    let (q, calls) = routed r.error kind a r.request in r.calls ++ (calls ++ finish q)
