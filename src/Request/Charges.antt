-- ===== src/Request/Charges.antt =====
-- What a request is charged: nothing where the engine was not asked.
use infercat.Common.{
  ℤ, pos, ◌≡◌, refl, sym, ap, subst, ◌∙◌, inl, inr, Bool, true, false, ◌||◌, Option, none, some,
  List, [], ◌∷◌, ◌++◌, All, All-append, Option-cases, arith,
}
use infercat.Errors.{GwError}
use infercat.Outcome.{Outcome, running, rejected, queue_lost}
use infercat.Limiter.{Admission, Result, ok, err}
use infercat.Request.{
  Request, Call, engine_asked, settled, Ran, continue, and_then, Member, unmanaged, acquired,
  unavailable, Body, declared_too_large, cut_off, too_late, broken, not_object, whole, HostTools,
  passes, hands_off, refuses, Normalized, Engine, not_encoded, friend_left, no_answer, bad_status,
  answers, Relayed,
}
use infercat.Request.Stages.{
  admit_key, prepare_managed, start_member, check_health, read_body, route_host_tools, normalize,
  count_prompt, check_budgets, take_reservation, fit_then_reserve, fit_context, acquire_slot,
  call_upstream, relay,
}

abbrev pub is_ask : Call → Bool
is_ask engine_asked = true
is_ask _ = false

-- Whether the engine was asked.
abbrev pub asked : List Call → Bool
asked [] = false
asked (c ∷ cs) = is_ask c || asked cs

pub asked-append : (xs ys : List Call) → asked (xs ++ ys) ≡ (asked xs || asked ys)
asked-append [] ys = refl
asked-append (c ∷ xs) ys = ground (arith, asked-append xs ys)

-- A settlement that charges nothing.
abbrev pub IsFree : Call → Type 0
IsFree (settled a counted charged) = charged ≡ pos 0
IsFree _ = Unit

abbrev pub is_unasked : Outcome → Bool
is_unasked running = true
is_unasked rejected = true
is_unasked queue_lost = true
is_unasked _ = false

-- The queue answers a request that it does not give a slot with a rejection or a loss.
abbrev pub IsQueueAnswer : Option (Outcome × GwError) → Type 0
IsQueueAnswer none = Unit
IsQueueAnswer (some (o, e)) = is_unasked o ≡ true

-- After `s`, whether the engine was asked before: an outcome that may be charged needs it.
abbrev pub Fair : (Request → Bool → Type 0) → Bool → Ran → Type 0
Fair P s r =
    ((s || asked r.calls) ≡ false → is_unasked r.request.outcome ≡ true)
    × All IsFree r.calls
    × (r.error ≡ none → P r.request (s || asked r.calls))

or_assoc : (a b c : Bool) → ((a || b) || c) ≡ (a || (b || c))
or_assoc true b c = refl
or_assoc false b c = refl

pub and_then-Fair :
    (P Q : Request → Bool → Type 0) (s : Bool) (r : Ran) (next : Request → Ran)
    → Fair P s r
    → ((q : Request) (t : Bool) → P q t → Fair Q t (next q))
    → Fair Q s (and_then r next)
unfolding continue
and_then-Fair P Q s r next (f, a, p) k = elim (Option-cases r.error) [
  | inl e ↦
      let n = next r.request in
      let (f', a', p') = k r.request (s || asked r.calls) (p e) in
      let same : (s || asked (r.calls ++ n.calls)) ≡ ((s || asked r.calls) || asked n.calls) =
        ap (λ x. s || x) (asked-append r.calls n.calls)
        ∙ sym (or_assoc s (asked r.calls) (asked n.calls)) in
      rw (e, continue)
        (
          λ h. f' (sym same ∙ h),
          All-append IsFree r.calls n.calls a a',
          λ h. subst (Q n.request) (sym same) (p' h),
        )
  | inr (x, e) ↦ rw (e, continue) (f, a, λ z. absurd cc)
]

-- Before the engine is asked the outcome is not set.
abbrev pub Runs : Request → Bool → Type 0
Runs q s = q.outcome ≡ running

pub admit_key-Fair :
    (r : Result Admission) (q : Request) (s : Bool) → Runs q s → Fair Runs s (admit_key r q)
unfolding admit_key
admit_key-Fair (ok x) q s h = elim (Option-cases q.adm) [
  | inl e ↦ rw (e, admit_key) (λ _. rw h refl, (tt, tt), λ _. h)
  | inr (a, e) ↦ rw (e, admit_key) (λ _. rw h refl, tt, λ _. h)
]
admit_key-Fair (err x) q s h = elim (Option-cases q.adm) [
  | inl e ↦ rw (e, admit_key) (λ _. rw h refl, tt, λ _. h)
  | inr (a, e) ↦ rw (e, admit_key) (λ _. rw h refl, tt, λ _. h)
]

pub start_member-Fair :
    (m : Member) (q : Request) (s : Bool) → Runs q s → Fair Runs s (start_member m q)
unfolding start_member
start_member-Fair unmanaged q s h = (λ _. rw h refl, tt, λ _. h)
start_member-Fair unavailable q s h = (λ _. rw h refl, tt, λ _. h)
start_member-Fair acquired q s h = (λ _. rw h refl, (tt, tt), λ _. h)

pub prepare_managed-Fair :
    (m : Member) (r : Result Admission) (q : Request) (s : Bool)
    → Runs q s
    → Fair Runs s (prepare_managed m r q)
unfolding prepare_managed
prepare_managed-Fair unmanaged r q s h = (λ _. rw h refl, tt, λ _. h)
prepare_managed-Fair unavailable r q s h =
    and_then-Fair Runs Runs s (admit_key r q) (start_member unavailable) (admit_key-Fair r q s h)
      (start_member-Fair unavailable)
prepare_managed-Fair acquired r q s h =
    and_then-Fair Runs Runs s (admit_key r q) (start_member acquired) (admit_key-Fair r q s h)
      (start_member-Fair acquired)

pub check_health-Fair :
    (up : Bool) (q : Request) (s : Bool) → Runs q s → Fair Runs s (check_health up q)
unfolding check_health
check_health-Fair true q s h = (λ _. rw h refl, tt, λ _. h)
check_health-Fair false q s h = (λ _. rw h refl, tt, λ _. h)

pub read_body-Fair : (r : Body) (q : Request) (s : Bool) → Runs q s → Fair Runs s (read_body r q)
unfolding read_body
read_body-Fair declared_too_large q s h = (λ _. rw h refl, tt, λ _. h)
read_body-Fair cut_off q s h = (λ _. rw h refl, (tt, tt), λ _. h)
read_body-Fair too_late q s h = (λ _. rw h refl, (tt, tt), λ _. h)
read_body-Fair broken q s h = (λ _. rw h refl, (tt, tt), λ _. h)
read_body-Fair not_object q s h = (λ _. rw h refl, (tt, tt), λ _. h)
read_body-Fair whole q s h = (λ _. rw h refl, (tt, tt), λ _. h)

pub route_host_tools-Fair :
    (r : HostTools) (q : Request) (s : Bool) → Runs q s → Fair Runs s (route_host_tools r q)
unfolding route_host_tools
route_host_tools-Fair passes q s h = (λ _. rw h refl, tt, λ _. h)
route_host_tools-Fair hands_off q s h = (λ _. rw h refl, tt, λ _. h)
route_host_tools-Fair (refuses e) q s h = (λ _. rw h refl, tt, λ _. h)

pub normalize-Fair :
    (r : Result Normalized) (q : Request) (s : Bool) → Runs q s → Fair Runs s (normalize r q)
unfolding normalize
normalize-Fair (ok n) q s h = (λ _. rw h refl, tt, λ _. h)
normalize-Fair (err e) q s h = (λ _. rw h refl, tt, λ _. h)

pub count_prompt-Fair : (n : ℤ) (q : Request) (s : Bool) → Runs q s → Fair Runs s (count_prompt n q)
unfolding count_prompt
count_prompt-Fair n q s h = (λ _. rw h refl, tt, λ _. h)

fit_context-outcome : (room : ℤ) (q : Request) → (fit_context room q).0.outcome ≡ q.outcome
unfolding fit_context
fit_context-outcome room q = ground arith

take_reservation-Fair :
    (r : Result (Admission × ℤ)) (q : Request) (s : Bool)
    → Runs q s
    → Fair Runs s (take_reservation r q)
unfolding take_reservation
take_reservation-Fair (ok (a, fitted)) q s h = (λ _. rw h refl, (tt, tt), λ _. h)
take_reservation-Fair (err e) q s h = (λ _. rw h refl, tt, λ _. h)

fit_then_reserve-Fair :
    (p : Request × Option GwError) (r : Result (Admission × ℤ)) (s : Bool)
    → Runs p.0 s
    → Fair Runs s (fit_then_reserve p r)
unfolding fit_then_reserve
fit_then_reserve-Fair (q, some e) r s h = (λ _. rw h refl, tt, λ z. absurd cc)
fit_then_reserve-Fair (q, none) r s h = take_reservation-Fair r q s h

pub check_budgets-Fair :
    (room : ℤ) (r : Result (Admission × ℤ)) (q : Request) (s : Bool)
    → Runs q s
    → Fair Runs s (check_budgets room r q)
unfolding check_budgets
check_budgets-Fair room r q s h =
    fit_then_reserve-Fair (fit_context room q) r s (fit_context-outcome room q ∙ h)

pub acquire_slot-Fair :
    (o : Option (Outcome × GwError)) (wrote stopped : Bool) (q : Request) (s : Bool)
    → IsQueueAnswer o
    → Runs q s
    → Fair Runs s (acquire_slot o wrote stopped q)
unfolding acquire_slot
acquire_slot-Fair (some (o, e)) wrote stopped q s u h = (λ _. u, tt, λ z. absurd cc)
acquire_slot-Fair none wrote true q s u h = (λ _. refl, (tt, tt), λ z. absurd cc)
acquire_slot-Fair none wrote false q s u h = (λ _. ground arith, (tt, tt), λ _. ground arith)

-- Once the engine was asked, nothing more is claimed.
abbrev pub Asks : Request → Bool → Type 0
Asks q s = s ≡ true

or_true : (s : Bool) → (s || true) ≡ true
or_true true = refl
or_true false = refl

pub call_upstream-Fair :
    (e : Engine) (q : Request) (s : Bool) → Runs q s → Fair Asks s (call_upstream e q)
unfolding call_upstream
call_upstream-Fair not_encoded q s h = (λ _. rw h refl, tt, λ z. absurd cc)
call_upstream-Fair (friend_left sent) q s h =
    (λ z. absurd (ground (arith, or_true s)), (tt, tt), λ z. absurd cc)
call_upstream-Fair (no_answer e) q s h =
    (λ z. absurd (ground (arith, or_true s)), (tt, tt), λ z. absurd cc)
call_upstream-Fair (bad_status e) q s h =
    (λ z. absurd (ground (arith, or_true s)), (tt, tt), λ z. absurd cc)
call_upstream-Fair answers q s h =
    (λ z. absurd (ground (arith, or_true s)), (tt, tt), λ _. or_true s)

pub relay-Fair : (r : Relayed) (q : Request) (s : Bool) → Asks q s → Fair Asks s (relay r q)
unfolding relay
relay-Fair r q s h = (λ z. absurd (ground arith), ground arith, λ _. ground arith)
