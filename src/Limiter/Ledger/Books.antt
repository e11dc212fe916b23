-- ===== src/Limiter/Ledger/Books.antt =====
-- What the live admissions hold together, and what pruning does to a meter.
use infercat.Common.{
  ℕ, suc, ℤ, pos, ◌+ℤ◌, ◌≤ℤ◌, ◌<ℤ◌, int_laws, +ℤ_parts, ◌≡◌, refl, ap, ◌∙◌, Bool, List, [], ◌∷◌,
  ◌++◌, if◌then◌else◌, All, arith, Bool-cases, inl, inr,
}
use infercat.Limits.{Limits}
use infercat.Limiter.{
  Admission, MeterCharge, MeterState, expired, charges, drop_charges, prune_meter,
}

-- The admissions that hold one of the key's concurrent places.
abbrev pub holding : List Admission → ℕ
holding [] = 0
holding (a ∷ rest) = if a.detached then holding rest else suc (holding rest)

abbrev pub held : List Admission → ℤ
held [] = pos 0
held (a ∷ rest) = a.reserved +ℤ held rest

pub holding-insert :
    (xs ys : List Admission) (a : Admission)
    → holding (xs ++ a ∷ ys) ≡ (if a.detached then holding (xs ++ ys) else suc (holding (xs ++ ys)))
holding-insert [] ys a = refl
holding-insert (x ∷ xs) ys a = ground (arith, holding-insert xs ys a)

swap_sum : (x y z : ℤ) → x +ℤ (y +ℤ z) ≡ y +ℤ (x +ℤ z)
swap_sum x y z = omega int_laws

pub held-insert :
    (xs ys : List Admission) (a : Admission) → held (xs ++ a ∷ ys) ≡ a.reserved +ℤ held (xs ++ ys)
held-insert [] ys a = refl
held-insert (x ∷ xs) ys a =
    ap (λ z. x.reserved +ℤ z) (held-insert xs ys a)
    ∙ swap_sum x.reserved a.reserved (held (xs ++ ys))

abbrev pub NonNeg : Admission → Type 0
NonNeg a = pos 0 ≤ℤ a.reserved

pub held_nonneg : (rest : List Admission) → All NonNeg rest → pos 0 ≤ℤ held rest
held_nonneg [] h = omega arith
held_nonneg (a ∷ rest) h = omega (arith, +ℤ_parts a.reserved (held rest), h.0, held_nonneg rest h.1)

pub All-insert :
    (xs ys : List Admission) (a b : Admission)
    → NonNeg b
    → All NonNeg (xs ++ a ∷ ys)
    → All NonNeg (xs ++ b ∷ ys)
All-insert [] ys a b n h = (n, h.1)
All-insert (x ∷ xs) ys a b n h = (h.0, All-insert xs ys a b n h.1)

pub All-delete :
    (xs ys : List Admission) (a : Admission) → All NonNeg (xs ++ a ∷ ys) → All NonNeg (xs ++ ys)
All-delete [] ys a h = h.1
All-delete (x ∷ xs) ys a h = (h.0, All-delete xs ys a h.1)

abbrev pub Charged : MeterCharge → Type 0
Charged c = pos 0 ≤ℤ c.amount

pub charges_nonneg : (cs : List MeterCharge) → All Charged cs → pos 0 ≤ℤ charges cs
unfolding charges
charges_nonneg [] h = omega arith
charges_nonneg (c ∷ cs) h =
    omega (arith, +ℤ_parts c.amount (charges cs), h.0, charges_nonneg cs h.1)

-- What leaves the window only lowers the sum of the charges.
pub charges-drop :
    (now : ℕ) (cs : List MeterCharge) → All Charged cs → charges (drop_charges now cs) ≤ℤ charges cs
unfolding charges drop_charges
charges-drop now [] h = omega arith
charges-drop now (c ∷ cs) h = elim (Bool-cases (expired now c.t)) [
  | inl e ↦
      rw (e, drop_charges)
        (omega (arith, +ℤ_parts c.amount (charges cs), h.0, charges-drop now cs h.1))
  | inr e ↦ rw (e, drop_charges) (omega arith)
]

pub Charged-drop :
    (now : ℕ) (cs : List MeterCharge) → All Charged cs → All Charged (drop_charges now cs)
unfolding drop_charges
Charged-drop now [] h = tt
Charged-drop now (c ∷ cs) h = elim (Bool-cases (expired now c.t)) [
  | inl e ↦ rw (e, drop_charges) (Charged-drop now cs h.1)
  | inr e ↦ rw (e, drop_charges) h
]

one_charge : (x : ℤ) → x +ℤ pos 0 ≡ pos 0 +ℤ x
one_charge x = omega int_laws

assoc_sum : (x y z : ℤ) → x +ℤ (y +ℤ z) ≡ x +ℤ y +ℤ z
assoc_sum x y z = omega int_laws

pub charges-append :
    (cs : List MeterCharge) (c : MeterCharge) → charges (cs ++ c ∷ []) ≡ charges cs +ℤ c.amount
unfolding charges
charges-append [] c = one_charge c.amount
charges-append (x ∷ cs) c =
    ap (λ z. x.amount +ℤ z) (charges-append cs c) ∙ assoc_sum x.amount (charges cs) c.amount

-- The books of one key: its counter, its token meter and its live admissions agree, and the sums
-- stay within the limits that are set.
pub record Kept (lim : Limits) (n : ℤ) (m : MeterState) (live : List Admission) : Type 0 where
  pub flight : n ≡ pos (holding live)
  pub balance : m.reserved ≡ held live
  pub promised : All NonNeg live
  pub charged : All Charged m.log
  pub spent : pos 0 ≤ℤ m.today
  pub minute : pos 0 <ℤ lim.tpm → charges m.log +ℤ m.reserved ≤ℤ lim.tpm
  pub daily : pos 0 <ℤ lim.daily_tokens → m.today +ℤ m.reserved ≤ℤ lim.daily_tokens
  pub at_once : pos 0 <ℤ lim.max_concurrent → n ≤ℤ lim.max_concurrent

sum_mono : (x y z : ℤ) (w : ℤ) → x ≤ℤ y → y +ℤ z ≤ℤ w → x +ℤ z ≤ℤ w
sum_mono x y z w h k = omega int_laws

-- A prune keeps the books.
pub prune-Kept :
    {lim : Limits} {n : ℤ} {m : MeterState} {live : List Admission} (now : ℕ) (same : Bool)
    → Kept lim n m live
    → Kept lim n (prune_meter now same m) live
unfolding prune_meter
prune-Kept {lim = lim} {m = m} now same k = record {
  flight = k.flight;
  balance = k.balance;
  promised = k.promised;
  charged = Charged-drop now m.log k.charged;
  spent = ground (arith, k.spent);
  minute = λ h.
      sum_mono (charges (drop_charges now m.log)) (charges m.log) m.reserved lim.tpm
        (charges-drop now m.log k.charged) (k.minute h);
  daily = λ h.
      sum_mono (if same then m.today else pos 0) m.today m.reserved lim.daily_tokens
        (ground (arith, k.spent)) (k.daily h);
  at_once = k.at_once;
}
