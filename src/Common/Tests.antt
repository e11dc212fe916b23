-- ===== src/Common/Tests.antt =====
-- Boolean tests on numbers, the conditional, and case lemmas that keep an equation.
use Prim.Native.Nat.{ℕ, ◌≤◌, ◌<◌, compare, Ordering}
use mathlib.Core.Path.{◌≡◌, refl}
use mathlib.Core.Logic.{◌↔◌, ◌⊎◌, inl, inr}
use mathlib.Core.Bool.{Bool, true, false}
use mathlib.Core.Option.{Option, none, some}
use native.Mathlib.Omega.{arith}

infix 1 if◌then◌else◌
abbrev pub if◌then◌else◌ {ℓ} : {A : Type ℓ} → Bool → A → A → A
if true then x else y = x
if false then x else y = y

-- What holds of both branches holds of the conditional.
pub if_ind {ℓ κ} :
    {A : Type ℓ} (P : A → Type κ) (b : Bool) (x y : A) → P x → P y → P (if b then x else y)
if_ind P true x y p q = p
if_ind P false x y p q = q

-- The same, where each branch has the test's answer.
pub if_split {ℓ κ} :
    {A : Type ℓ} (P : A → Type κ) (b : Bool) (x y : A)
    → (b ≡ true → P x)
    → (b ≡ false → P y)
    → P (if b then x else y)
if_split P true x y p q = p refl
if_split P false x y p q = q refl

infix 50 ◌==◌
abbrev pub ◌==◌ : ℕ → ℕ → Bool
n == m = elim (compare n m) [ Ordering.eq ↦ true | _ ↦ false ]

abbrev pub leb : ℕ → ℕ → Bool
leb n m = elim (compare n m) [ Ordering.gt ↦ false | _ ↦ true ]

abbrev pub ltb : ℕ → ℕ → Bool
ltb n m = elim (compare n m) [ Ordering.lt ↦ true | _ ↦ false ]

pub ltb→lt : (n m : ℕ) → ltb n m ≡ true → n < m
ltb→lt n m e = ground arith

pub ltb→ge : (n m : ℕ) → ltb n m ≡ false → m ≤ n
ltb→ge n m e = ground arith

pub lt→ltb : (n m : ℕ) → n < m → ltb n m ≡ true
lt→ltb n m e = ground arith

pub ge→ltb : (n m : ℕ) → m ≤ n → ltb n m ≡ false
ge→ltb n m e = ground arith

pub leb→le : (n m : ℕ) → leb n m ≡ true → n ≤ m
leb→le n m e = ground arith

pub leb→gt : (n m : ℕ) → leb n m ≡ false → m < n
leb→gt n m e = ground arith

pub ==-refl : (n : ℕ) → (n == n) ≡ true
==-refl n = ground arith

pub ==_iff : (n m : ℕ) → ((n == m) ≡ true) ↔ (n ≡ m)
==_iff n m = ground arith

pub Bool-cases : (b : Bool) → (b ≡ true) ⊎ (b ≡ false)
Bool-cases false = inr refl
Bool-cases true = inl refl

pub Option-cases {ℓ} : {A : Type ℓ} (o : Option A) → (o ≡ none) ⊎ ((a : A) × (o ≡ some a))
Option-cases (some a) = inr (a, refl)
Option-cases none = inl refl
