-- ===== src/Request/Kept.antt =====
-- Each stage takes what it needs in the order of the protocol.
use infercat.Common.{ℤ, ◌≡◌, refl, ap, subst, ◌∙◌, Bool, true, false, Option, none, some, arith}
use infercat.Errors.{GwError}
use infercat.Outcome.{Outcome}
use infercat.Limiter.{Admission, Result, ok, err}
use infercat.Request.{
  Request, Member, unmanaged, acquired, unavailable, Body, declared_too_large, cut_off, too_late,
  broken, not_object, whole, HostTools, passes, hands_off, refuses, Normalized, Engine, not_encoded,
  friend_left, no_answer, bad_status, answers, Relayed,
}
use infercat.Request.Stages.{
  admit_key, prepare_managed, check_health, read_body, route_host_tools, normalize, count_prompt,
  fit_context, check_budgets, take_reservation, fit_then_reserve, start_member, acquire_slot,
  call_upstream, relay,
}
use infercat.Request.Protocol.{holding, is_some, Stands, Kept, and_then-Kept}

pub admit_key-Kept :
    (r : Result Admission) (q : Request) (b a : Bool)
    → Stands a false false false q b
    → Kept (Stands true false false false) (holding q b) (admit_key r q)
unfolding admit_key
admit_key-Kept (ok x) q b a s = (b, ground arith, ground arith, ground arith)
admit_key-Kept (err e) q b a s = (b, ground arith, ground arith, ground arith)

pub read_body-Kept :
    (r : Body) (q : Request) (b : Bool)
    → Stands true false false false q b
    → Kept (Stands true true false false) (holding q b) (read_body r q)
unfolding read_body
read_body-Kept declared_too_large q b s = (b, refl, ground arith, ground arith)
read_body-Kept cut_off q b s = (b, ground arith, ground arith, ground arith)
read_body-Kept too_late q b s = (b, ground arith, ground arith, ground arith)
read_body-Kept broken q b s = (b, ground arith, ground arith, ground arith)
read_body-Kept not_object q b s = (b, ground arith, ground arith, ground arith)
read_body-Kept whole q b s = (b, ground arith, ground arith, ground arith)

pub route_host_tools-Kept :
    (r : HostTools) (q : Request) (b : Bool)
    → Stands true true false false q b
    → Kept (Stands true true false false) (holding q b) (route_host_tools r q)
unfolding route_host_tools
route_host_tools-Kept passes q b s = (b, refl, ground arith, λ _. s)
route_host_tools-Kept hands_off q b s = (b, refl, ground arith, λ _. s)
route_host_tools-Kept (refuses e) q b s = (b, refl, ground arith, λ _. s)

pub normalize-Kept :
    (r : Result Normalized) (q : Request) (b : Bool)
    → Stands true true false false q b
    → Kept (Stands true true false false) (holding q b) (normalize r q)
unfolding normalize
normalize-Kept (ok n) q b s = (b, refl, ground arith, λ _. s)
normalize-Kept (err e) q b s = (b, refl, ground arith, λ _. s)

admit_key-managed :
    (r : Result Admission) (q : Request) → (admit_key r q).request.managed ≡ q.managed
unfolding admit_key
admit_key-managed (ok x) q = ground arith
admit_key-managed (err e) q = ground arith

-- What the health check may find: an admission only where a member was started.
abbrev pub Early : Request → Bool → Type 0
Early q b = Stands (is_some q.adm) false false false q b

pub start_member-Kept :
    (m : Member) (q : Request) (b : Bool)
    → Stands true false false false q b × (q.managed ≡ false)
    → Kept Early (holding q b) (start_member m q)
unfolding start_member
start_member-Kept unmanaged q b s = (b, refl, ground arith, ground arith)
start_member-Kept unavailable q b s = (b, refl, ground arith, ground arith)
start_member-Kept acquired q b s = (b, ground arith, ground arith, ground arith)

admit_first :
    (r : Result Admission) (q : Request) (b : Bool)
    → Stands false false false false q b
    → q.managed ≡ false
    → Kept
        (λ p c. Stands true false false false p c × (p.managed ≡ false))
        (holding q b)
        (admit_key r q)
admit_first r q b s n =
    let (c, f, k, p) = admit_key-Kept r q b false s in
    (c, f, k, λ e. (p e, admit_key-managed r q ∙ n))

pub prepare_managed-Kept :
    (m : Member) (r : Result Admission) (q : Request) (b : Bool)
    → Stands false false false false q b
    → q.managed ≡ false
    → Kept Early (holding q b) (prepare_managed m r q)
unfolding prepare_managed
prepare_managed-Kept unmanaged r q b s n = (b, refl, ground arith, ground arith)
prepare_managed-Kept unavailable r q b s n =
    and_then-Kept _ Early (holding q b) (admit_key r q) (start_member unavailable)
      (admit_first r q b s n) (λ p c h _. start_member-Kept unavailable p c h)
prepare_managed-Kept acquired r q b s n =
    and_then-Kept _ Early (holding q b) (admit_key r q) (start_member acquired)
      (admit_first r q b s n) (λ p c h _. start_member-Kept acquired p c h)

pub check_health-Kept :
    (up : Bool) (q : Request) (b : Bool) → Early q b → Kept Early (holding q b) (check_health up q)
unfolding check_health
check_health-Kept true q b s = (b, refl, ground arith, λ _. s)
check_health-Kept false q b s = (b, refl, ground arith, λ _. s)

pub count_prompt-Kept :
    (n : ℤ) (q : Request) (b : Bool)
    → Stands true true false false q b
    → Kept (Stands true true false false) (holding q b) (count_prompt n q)
unfolding count_prompt
count_prompt-Kept n q b s = (b, refl, ground arith, λ _. s)

fit_context-holding :
    (room : ℤ) (q : Request) (b : Bool) → holding (fit_context room q).0 b ≡ holding q b
unfolding fit_context
fit_context-holding room q b = ground arith

pub take_reservation-Kept :
    (r : Result (Admission × ℤ)) (q : Request) (b : Bool)
    → Stands true true false false q b
    → Kept (Stands true true false true) (holding q b) (take_reservation r q)
unfolding take_reservation
take_reservation-Kept (ok (a, fitted)) q b s = (true, ground arith, ground arith, ground arith)
take_reservation-Kept (err e) q b s = (b, refl, ground arith, ground arith)

pub fit_then_reserve-Kept :
    (p : Request × Option GwError) (r : Result (Admission × ℤ)) (b : Bool)
    → Stands true true false false p.0 b
    → Kept (Stands true true false true) (holding p.0 b) (fit_then_reserve p r)
unfolding fit_then_reserve
fit_then_reserve-Kept (q, some e) r b s = (b, refl, ground arith, ground arith)
fit_then_reserve-Kept (q, none) r b s = take_reservation-Kept r q b s

Stands-of :
    (q p : Request) (b : Bool)
    → holding p b ≡ holding q b
    → Stands true true false false q b
    → Stands true true false false p b
Stands-of q p b e s =
    (ap (λ h. h.admission) e ∙ s.0, ap (λ h. h.body) e ∙ s.1, ap (λ h. h.slot) e ∙ s.2, s.3)

pub check_budgets-Kept :
    (room : ℤ) (r : Result (Admission × ℤ)) (q : Request) (b : Bool)
    → Stands true true false false q b
    → Kept (Stands true true false true) (holding q b) (check_budgets room r q)
unfolding check_budgets
check_budgets-Kept room r q b s =
    let p = fit_context room q in
    let same = fit_context-holding room q b in
    subst (λ h. Kept (Stands true true false true) h (fit_then_reserve p r)) same
      (fit_then_reserve-Kept p r b (Stands-of q p.0 b same s))

pub acquire_slot-Kept :
    (o : Option (Outcome × GwError)) (wrote stopped : Bool) (q : Request) (b : Bool)
    → Stands true true false true q b
    → Kept (Stands true true true true) (holding q b) (acquire_slot o wrote stopped q)
unfolding acquire_slot
acquire_slot-Kept (some (o, e)) wrote stopped q b s = (b, ground arith, ground arith, ground arith)
acquire_slot-Kept none wrote true q b s = (b, ground arith, ground arith, ground arith)
acquire_slot-Kept none wrote false q b s = (b, ground arith, ground arith, ground arith)

pub call_upstream-Kept :
    (e : Engine) (q : Request) (b : Bool)
    → Stands true true true true q b
    → Kept (Stands true true true true) (holding q b) (call_upstream e q)
unfolding call_upstream
call_upstream-Kept not_encoded q b s = (b, refl, ground arith, ground arith)
call_upstream-Kept (friend_left sent) q b s = (b, ground arith, ground arith, ground arith)
call_upstream-Kept (no_answer e) q b s = (b, ground arith, ground arith, ground arith)
call_upstream-Kept (bad_status e) q b s = (b, ground arith, ground arith, ground arith)
call_upstream-Kept answers q b s = (b, ground arith, ground arith, ground arith)

pub relay-Kept :
    (r : Relayed) (q : Request) (b : Bool)
    → Stands true true true true q b
    → Kept (Stands true true true true) (holding q b) (relay r q)
unfolding relay
relay-Kept r q b s = (b, ground arith, ground arith, ground arith)
