-- ===== src/Request/Balance.antt =====
-- A request that is served takes and gives back in the order of the protocol, whatever the outside
-- answers and wherever the request ends.
use Prim.Native.String.{String}
use infercat.Common.{
  ℤ, ◌≡◌, refl, sym, ap, subst, ◌∙◌, Bool, true, false, not, Option, none, some, List, [], ◌∷◌,
  ◌++◌, arith,
}
use infercat.Errors.{GwError}
use infercat.Limiter.{Admission}
use infercat.Request.{
  Request, new_request, Call, slot_released, body_uncounted, member_released, recorded, Ran,
  Presented, no_bearer, store_failed, unknown_secret, found, Answers,
}
use infercat.Request.Stages.{
  authenticate, admit_key, check_health, read_body, route_host_tools, count_prompt, check_budgets,
  acquire_slot, call_upstream, relay,
}
use infercat.Request.Exit.{fail, settle_row, settlement, when, finish}
use infercat.Request.Serve.{
  before_tools, after_tools, unless_handed_off, stages, proxy_ended, proxy, routed, serve,
}
use infercat.Request.Protocol.{
  Holding, nothing, step, follow, follow-append, holding, is_some, Sane, Stands, Kept,
  and_then-Kept,
}
use infercat.Request.Kept.{
  Early, prepare_managed-Kept, check_health-Kept, admit_key-Kept, read_body-Kept,
  route_host_tools-Kept, normalize-Kept, count_prompt-Kept, check_budgets-Kept, acquire_slot-Kept,
  call_upstream-Kept, relay-Kept,
}

before_tools-Kept :
    (a : Answers) (q : Request) (b : Bool)
    → Stands false false false false q b
    → q.managed ≡ false
    → Kept (Stands true true false false) (holding q b) (before_tools a q)
unfolding before_tools
before_tools-Kept a q b s n =
    let h = holding q b in
    let managed = prepare_managed-Kept a.member a.admission q b s n in
    let healthy =
      and_then-Kept Early Early h _ (check_health a.healthy) managed
        (λ p c k _. check_health-Kept a.healthy p c k) in
    let admitted =
      and_then-Kept Early (Stands true false false false) h _ (admit_key a.admission) healthy
        (λ p c k _. admit_key-Kept a.admission p c (is_some p.adm) k) in
    let whole =
      and_then-Kept (Stands true false false false) (Stands true true false false) h _
        (read_body a.body) admitted (λ p c k _. read_body-Kept a.body p c k) in
    and_then-Kept (Stands true true false false) (Stands true true false false) h _
      (route_host_tools a.host_tools) whole (λ p c k _. route_host_tools-Kept a.host_tools p c k)

after_tools-Kept :
    (a : Answers) (q : Request) (b : Bool)
    → Stands true true false false q b
    → Kept (Stands true true true true) (holding q b) (after_tools a q)
unfolding after_tools
after_tools-Kept a q b s =
    let h = holding q b in
    let named = normalize-Kept a.normalized q b s in
    let counted =
      and_then-Kept (Stands true true false false) (Stands true true false false) h _
        (count_prompt a.count) named (λ p c k _. count_prompt-Kept a.count p c k) in
    let reserved =
      and_then-Kept (Stands true true false false) (Stands true true false true) h _
        (check_budgets a.context a.reservation) counted
        (λ p c k _. check_budgets-Kept a.context a.reservation p c k) in
    let running =
      and_then-Kept (Stands true true false true) (Stands true true true true) h _
        (acquire_slot a.queue a.queue_wrote a.stopped) reserved
        (λ p c k _. acquire_slot-Kept a.queue a.queue_wrote a.stopped p c k) in
    let asked =
      and_then-Kept (Stands true true true true) (Stands true true true true) h _
        (call_upstream a.engine) running (λ p c k _. call_upstream-Kept a.engine p c k) in
    and_then-Kept (Stands true true true true) (Stands true true true true) h _ (relay a.relayed)
      asked (λ p c k _. relay-Kept a.relayed p c k)

-- Where the stages end without an error nothing more need be known.
abbrev Any : Request → Bool → Type 0
Any q b = Unit

weaken : (P : Request → Bool → Type 0) (h : Holding) (r : Ran) → Kept P h r → Kept Any h r
weaken P h r (b, f, s, p) = (b, f, s, λ _. tt)

unless_handed_off-Kept :
    (off : Bool) (a : Answers) (q : Request) (b : Bool)
    → Stands true true false false q b
    → Sane q b
    → Kept Any (holding q b) (unless_handed_off off a q)
unfolding unless_handed_off
unless_handed_off-Kept true a q b s k = (b, refl, k, λ _. tt)
unless_handed_off-Kept false a q b s k =
    weaken (Stands true true true true) (holding q b) (after_tools a q) (after_tools-Kept a q b s)

stages-Kept :
    (a : Answers) (q : Request) (b : Bool)
    → Stands false false false false q b
    → q.managed ≡ false
    → Kept Any (holding q b) (stages a q)
unfolding stages
stages-Kept a q b s n =
    and_then-Kept (Stands true true false false) Any (holding q b) (before_tools a q) _
      (before_tools-Kept a q b s n) (λ p c k z. unless_handed_off-Kept p.handed_off a p c k z)

-- The parts of the exit, each before the rest of it.
exit_slot :
    (s : Bool) (h : Holding) (rest : List Call)
    → follow (when s slot_released ++ rest) (some (record h { slot = s }))
      ≡ follow rest (some (record h { slot = false }))
exit_slot true h rest = refl
exit_slot false h rest = refl

exit_admission :
    (o : Option Admission) (row : Bool × ℤ) (m d b : Bool) (rest : List Call)
    → (b ≡ true → is_some o ≡ true)
    → follow (settlement o row ++ rest) (
        some
          (record { member = m; admission = is_some o; body = d; reservation = b; slot = false }))
      ≡ follow rest (some (record nothing { member = m; body = d }))
unfolding settlement
exit_admission (some a) (counted, charged) m d b rest s = refl
exit_admission none row m d true rest s = let bad : false ≡ true = s refl in absurd cc
exit_admission none row m d false rest s = refl

exit_body :
    (m d : Bool) (rest : List Call)
    → follow (when d body_uncounted ++ rest) (some (record nothing { member = m; body = d }))
      ≡ follow rest (some (record nothing { member = m }))
exit_body m true rest = refl
exit_body m false rest = refl

exit_rest :
    (ev m : Bool) (c : Call)
    → ((h : Holding) → h.body ≡ false → h.admission ≡ false → h.slot ≡ false → step c h ≡ some h)
    → follow (when ev c ++ when m member_released) (some (record nothing { member = m }))
      ≡ some nothing
exit_rest true true c k =
    ap (follow (member_released ∷ [])) (k (record nothing { member = true }) refl refl refl)
exit_rest true false c k = k nothing refl refl refl
exit_rest false true c k = refl
exit_rest false false c k = refl

-- The exit gives back what the request says that it holds.
finish-Holding :
    (q : Request) (b : Bool) → Sane q b → follow (finish q) (some (holding q b)) ≡ some nothing
unfolding finish
finish-Holding q b s =
    exit_slot q.slot (holding q b) _
    ∙ exit_admission q.adm (settle_row q) q.managed q.buffered b _ s
    ∙ exit_body q.managed q.buffered _
    ∙ exit_rest (not q.no_event) q.managed (recorded q.code) (λ h x y z. rw (x, y, z) refl)

fail-holding :
    (gone : Bool) (e : GwError) (q : Request) (b : Bool) → holding (fail gone e q) b ≡ holding q b
unfolding fail
fail-holding gone e q b = ground arith

proxy_ended-holding :
    (gone : Bool) (e : Option GwError) (q : Request) (b : Bool)
    → holding (proxy_ended gone e q) b ≡ holding q b
unfolding proxy_ended
proxy_ended-holding gone (some e) q b = fail-holding gone e _ b
proxy_ended-holding gone none q b = ground arith

-- A list of calls takes nothing from what it leaves with the request `q`.
abbrev Leaves : Request × List Call → Type 0
Leaves (q, calls) = (b : Bool) × (follow calls (some nothing) ≡ some (holding q b)) × Sane q b

Sane-of : (q p : Request) (b : Bool) → holding p b ≡ holding q b → Sane q b → Sane p b
Sane-of q p b e s t = ap (λ h. h.admission) e ∙ s t

proxy-Leaves :
    (kind : String) (a : Answers) (q : Request)
    → Stands false false false false q false
    → q.managed ≡ false
    → Leaves (proxy kind a q)
unfolding proxy
proxy-Leaves kind a q s n =
    let start : Request = record q { kind = kind } in
    let r = stages a start in
    let (b, f, k, _) = stages-Kept a start false s n in
    let same = proxy_ended-holding a.gone r.error r.request b in
    let empty : holding start false ≡ nothing = ground arith in
    (
      b,
      subst (λ h. follow r.calls (some h) ≡ some (holding r.request b)) empty f
          ∙ ap (λ h. some h) (sym same),
      Sane-of r.request (proxy_ended a.gone r.error r.request) b same k,
    )

routed-Leaves :
    (e : Option GwError) (kind : String) (a : Answers) (q : Request)
    → Stands false false false false q false
    → q.managed ≡ false
    → Leaves (routed e kind a q)
unfolding routed
routed-Leaves none kind a q s n = proxy-Leaves kind a q s n
routed-Leaves (some e) kind a q s n =
    let empty : holding q false ≡ nothing = ground arith in
    (false, ap (λ h. some h) (sym (fail-holding a.gone e q false ∙ empty)), λ t. absurd cc)

authenticate-holding :
    (p : Presented) (b : Bool)
    → holding (authenticate p new_request).request b ≡ holding new_request b
unfolding authenticate
authenticate-holding no_bearer b = refl
authenticate-holding store_failed b = refl
authenticate-holding unknown_secret b = refl
authenticate-holding (found st) b = refl

authenticate-calls :
    (p : Presented) → follow (authenticate p new_request).calls (some nothing) ≡ some nothing
unfolding authenticate
authenticate-calls no_bearer = refl
authenticate-calls store_failed = refl
authenticate-calls unknown_secret = refl
authenticate-calls (found st) = refl

-- Whatever the outside answers, the calls of a request keep to the protocol and leave nothing held:
-- a body, a member's start and a reservation come after the admission, a slot after the
-- reservation, and the engine is asked in the slot; the slot is given back before the admission is
-- settled, and that before the body, the event and the member; and what was taken is given back
-- once, what was not taken never.
pub serve_balanced :
    (kind : String) (a : Answers) → follow (serve kind a) (some nothing) ≡ some nothing
unfolding serve
serve_balanced kind a =
    let r = authenticate a.presented new_request in
    let p = routed r.error kind a r.request in
    let h = authenticate-holding a.presented false in
    let (b, f, s) =
      routed-Leaves r.error kind a r.request
        (ap (λ x. x.admission) h, ap (λ x. x.body) h, ap (λ x. x.slot) h, refl)
        (ap (λ x. x.member) h) in
    follow-append r.calls (p.1 ++ finish p.0) (some nothing)
    ∙ ap (follow (p.1 ++ finish p.0)) (authenticate-calls a.presented)
    ∙ follow-append p.1 (finish p.0) (some nothing)
    ∙ ap (follow (finish p.0)) f
    ∙ finish-Holding p.0 b s
