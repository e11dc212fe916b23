-- ===== src/Run/Moves/Attempts.antt =====
-- internal/run: the attempts of a run before and after its changes: which are there, what they cost.
use Prim.Native.String.{String}
use infercat.Common.{
  ◌≡◌, refl, sym, ap, ◌∙◌, subst, ◌⊎◌, not, Option, none, some, List, [], ◌∷◌, ◌++◌, map, arith,
  All, inl, inr,
}
use infercat.Run.{Attempt}
use infercat.Run.Moves.{StepResult, last_attempt, set_last, new_attempt, uncertain}
use infercat.Run.Ending.{last_texts}

-- An attempt is settled, or its accounting is marked as uncertain, and not both.
abbrev pub Accounted : Attempt → Type 0
Accounted a = a.accounting_uncertain ≡ not a.settled

-- What the attempt used and whether it was sent and settled.
abbrev pub SameCharge : Attempt → Attempt → Type 0
SameCharge x y =
    (y.usage.event ≡ x.usage.event) × (y.dispatched ≡ x.dispatched) × (y.settled ≡ x.settled)

-- The later list has the attempts of the earlier one, in their order, and others after them. All are
-- accounted for, and those whose ids P holds of have the same charge.
abbrev pub Continues : (String → Type 0) → List Attempt → List Attempt → Type 0
Continues P [] ys = All Accounted ys
Continues P (x ∷ xs) [] = ⊥
Continues P (x ∷ xs) (y ∷ ys) =
    (y.id ≡ x.id) × Accounted y × (P x.id → SameCharge x y) × Continues P xs ys

pub Continues-Accounted :
    (P : String → Type 0) (xs ys : List Attempt) → Continues P xs ys → All Accounted ys
Continues-Accounted P [] ys h = h
Continues-Accounted P (x ∷ xs) [] h = absurd h
Continues-Accounted P (x ∷ xs) (y ∷ ys) h = (h.1, Continues-Accounted P xs ys h.3)

pub Continues-trans :
    (P Q R : String → Type 0) (xs ys zs : List Attempt)
    → ((a : String) → R a → P a × Q a)
    → Continues P xs ys
    → Continues Q ys zs
    → Continues R xs zs
Continues-trans P Q R [] ys zs f j k = Continues-Accounted Q ys zs k
Continues-trans P Q R (x ∷ xs) [] zs f j k = absurd j
Continues-trans P Q R (x ∷ xs) (y ∷ ys) [] f j k = absurd k
Continues-trans P Q R (x ∷ xs) (y ∷ ys) (z ∷ zs) f j k = (
  k.0 ∙ j.0,
  k.1,
  λ r.
      let first = j.2 (f x.id r).0 in
      let next = k.2 (subst Q (sym j.0) (f x.id r).1) in
      (next.0 ∙ first.0, next.1 ∙ first.1, next.2 ∙ first.2),
  Continues-trans P Q R xs ys zs f j.3 k.3,
)

pub Continues-refl :
    (P : String → Type 0) (xs : List Attempt) → All Accounted xs → Continues P xs xs
Continues-refl P [] t = tt
Continues-refl P (x ∷ xs) t = (refl, t.0, λ h. (refl, refl, refl), Continues-refl P xs t.1)

pub Continues-same :
    (P : String → Type 0) (xs ys : List Attempt) → ys ≡ xs → All Accounted xs → Continues P xs ys
Continues-same P xs ys e t = subst (λ l. Continues P xs l) (sym e) (Continues-refl P xs t)

pub Continues-new :
    (P : String → Type 0) (xs : List Attempt) (aid purpose : String)
    → All Accounted xs
    → Continues P xs (xs ++ new_attempt aid purpose ∷ [])
Continues-new P [] aid purpose t = (refl, tt)
Continues-new P (x ∷ xs) aid purpose t =
    (refl, t.0, λ h. (refl, refl, refl), Continues-new P xs aid purpose t.1)

some-injective : {x d : Attempt} → some x ≡ some d → x ≡ d
some-injective {x} e = ap (λ (o : Option Attempt). elim o [ some y ↦ y | none ↦ x ]) e

-- A change of the last attempt.
pub Continues-last :
    (P : String → Type 0) (n a : Attempt) (xs : List Attempt)
    → last_attempt xs ≡ some a
    → n.id ≡ a.id
    → Accounted n
    → (P a.id → SameCharge a n)
    → All Accounted xs
    → Continues P xs (set_last n xs)
unfolding set_last last_attempt
Continues-last P n a [] l h y same t = cc
Continues-last P n a (x ∷ []) l h y same t =
    let e = some-injective l in subst (λ u. Continues P (u ∷ []) (n ∷ [])) (sym e) (h, y, same, tt)
Continues-last P n a (x ∷ b ∷ rest) l h y same t =
    (refl, t.0, λ p. (refl, refl, refl), Continues-last P n a (b ∷ rest) l h y same t.1)

pub Continues-uncertain :
    (P : String → Type 0) (xs : List Attempt) → All Accounted xs → Continues P xs (map uncertain xs)
Continues-uncertain P [] t = tt
Continues-uncertain P (x ∷ xs) t =
    (ground arith, ground (arith, t.0), λ h. ground arith, Continues-uncertain P xs t.1)

last-Accounted :
    (a : Attempt) (xs : List Attempt) → last_attempt xs ≡ some a → All Accounted xs → Accounted a
unfolding last_attempt
last-Accounted a [] l t = cc
last-Accounted a (x ∷ []) l t = ground arith
last-Accounted a (x ∷ b ∷ rest) l t = last-Accounted a (b ∷ rest) l t.1

pub last_texts-Continues :
    (P : String → Type 0) (prior : Option Attempt) (xs : List Attempt) (o : Option Attempt)
    → last_attempt xs ≡ o
    → All Accounted xs
    → Continues P xs (last_texts prior xs o)
unfolding last_texts
last_texts-Continues P prior xs none l t = Continues-refl P xs t
last_texts-Continues P none xs (some a) l t =
    Continues-last P _ a xs l refl (last-Accounted a xs l t) (λ h. (refl, refl, refl)) t
last_texts-Continues P (some prior) xs (some a) l t =
    Continues-last P _ a xs l (ground arith) (ground (arith, last-Accounted a xs l t))
      (λ h. ground arith) t

-- Some attempt of that id has the charge that the result says.
abbrev pub Charged : String → StepResult → List Attempt → Type 0
Charged aid res [] = ⊥
Charged aid res (y ∷ ys) =
    ((y.id ≡ aid)
      × (y.usage.event ≡ res.usage.event)
      × (y.dispatched ≡ res.dispatched)
      × (y.settled ≡ res.settled))
    ⊎ Charged aid res ys

pub Continues-Charged :
    (P : String → Type 0) (aid : String) (res : StepResult) (xs ys : List Attempt)
    → P aid
    → Continues P xs ys
    → Charged aid res xs
    → Charged aid res ys
Continues-Charged P aid res [] ys p k h = absurd h
Continues-Charged P aid res (x ∷ xs) [] p k h = absurd k
Continues-Charged P aid res (x ∷ xs) (y ∷ ys) p k (inl h) =
    let same = k.2 (subst P (sym h.0) p) in
    inl (k.0 ∙ h.0, same.0 ∙ h.1, same.1 ∙ h.2, same.2 ∙ h.3)
Continues-Charged P aid res (x ∷ xs) (y ∷ ys) p k (inr h) =
    inr (Continues-Charged P aid res xs ys p k.3 h)

pub set_last-Charged :
    (aid : String) (res : StepResult) (n a : Attempt) (xs : List Attempt)
    → last_attempt xs ≡ some a
    → (n.id ≡ aid)
      × (n.usage.event ≡ res.usage.event)
      × (n.dispatched ≡ res.dispatched)
      × (n.settled ≡ res.settled)
    → Charged aid res (set_last n xs)
unfolding set_last last_attempt
set_last-Charged aid res n a [] l h = cc
set_last-Charged aid res n a (x ∷ []) l h = inl h
set_last-Charged aid res n a (x ∷ b ∷ rest) l h = inr (set_last-Charged aid res n a (b ∷ rest) l h)
