-- ===== src/Request/Protocol.antt =====
-- What the shared parts may count on: the order in which a request takes and gives back what they
-- hold for it. A request that is served goes from holding nothing to holding nothing.
use infercat.Common.{
  ◌≡◌, refl, sym, ap, ◌∙◌, inl, inr, Bool, true, false, not, ◌&&◌, Option, none, some, List, [],
  ◌∷◌, ◌++◌, Option-cases,
}
use infercat.Limiter.{Admission}
use infercat.Request.{
  Request, Call, key_seen, member_acquired, member_released, admitted, body_counted, body_uncounted,
  reserved, slot_taken, engine_asked, slot_released, settled, recorded, Ran, continue, and_then,
}

-- What the shared parts hold for one request.
pub record Holding : Type 0 where
  pub member : Bool
  pub admission : Bool
  pub body : Bool
  pub reservation : Bool
  pub slot : Bool

abbrev pub nothing : Holding
nothing = record {
  member = false;
  admission = false;
  body = false;
  reservation = false;
  slot = false;
}

abbrev pub guard : Bool → Holding → Option Holding
guard true h = some h
guard false h = none

-- When each call is in order. A body, a member and a reservation need an admission; a slot needs a
-- reservation; the engine is asked in the slot; the slot is given back before the admission is
-- settled, and the rest after that.
abbrev pub step : Call → Holding → Option Holding
step key_seen h = some h
step admitted h = guard (not h.admission) (record h { admission = true })
step member_acquired h = guard (h.admission && not h.member) (record h { member = true })
step body_counted h = guard (h.admission && not h.body) (record h { body = true })
step (reserved _ _) h = guard (h.body && not h.reservation) (record h { reservation = true })
step slot_taken h = guard (h.reservation && not h.slot) (record h { slot = true })
step engine_asked h = guard h.slot h
step slot_released h = guard h.slot (record h { slot = false })
step (settled _ _ _) h =
    guard (h.admission && not h.slot) (record h { admission = false; reservation = false })
step body_uncounted h =
    guard (h.body && (not h.slot && not h.admission)) (record h { body = false })
step (recorded _) h = guard (not h.slot && (not h.admission && not h.body)) h
step member_released h =
    guard (h.member && (not h.slot && (not h.admission && not h.body)))
      (record h { member = false })

abbrev pub follow : List Call → Option Holding → Option Holding
follow [] o = o
follow (c ∷ cs) none = none
follow (c ∷ cs) (some h) = follow cs (step c h)

follow-none : (cs : List Call) → follow cs none ≡ none
follow-none [] = refl
follow-none (c ∷ cs) = refl

pub follow-append :
    (xs ys : List Call) (o : Option Holding) → follow (xs ++ ys) o ≡ follow ys (follow xs o)
follow-append [] ys o = refl
follow-append (c ∷ xs) ys none = sym (follow-none ys)
follow-append (c ∷ xs) ys (some h) = follow-append xs ys (step c h)

abbrev pub is_some : Option Admission → Bool
is_some none = false
is_some (some _) = true

-- What a request says that it holds; `b` is whether a reservation is among it.
abbrev pub holding : Request → Bool → Holding
holding q b = record {
  member = q.managed;
  admission = is_some q.adm;
  body = q.buffered;
  reservation = b;
  slot = q.slot;
}

-- A reservation is on an admission.
abbrev pub Sane : Request → Bool → Type 0
Sane q b = b ≡ true → is_some q.adm ≡ true

abbrev pub Stands : Bool → Bool → Bool → Bool → Request → Bool → Type 0
Stands a d s r q b = (is_some q.adm ≡ a) × (q.buffered ≡ d) × (q.slot ≡ s) × (b ≡ r)

-- A part of the pipeline takes things in order, and where it returns no error it stands as `P` says.
abbrev pub Kept : (Request → Bool → Type 0) → Holding → Ran → Type 0
Kept P h r =
    (b : Bool) × (follow r.calls (some h) ≡ some (holding r.request b))
    × Sane r.request b
    × (r.error ≡ none → P r.request b)

pub and_then-Kept :
    (P Q : Request → Bool → Type 0) (h : Holding) (r : Ran) (next : Request → Ran)
    → Kept P h r
    → ((q : Request) (b : Bool) → P q b → Sane q b → Kept Q (holding q b) (next q))
    → Kept Q h (and_then r next)
unfolding continue
and_then-Kept P Q h r next (b, f, s, p) k = elim (Option-cases r.error) [
  | inl e ↦
      let (b', f', s', p') = k r.request b (p e) s in
      rw (e, continue)
        (
          b',
          follow-append r.calls (next r.request).calls (some h)
              ∙ ap (follow (next r.request).calls) f
              ∙ f',
          s',
          p',
        )
  | inr (x, e) ↦ rw (e, continue) (b, f, s, λ z. absurd cc)
]
