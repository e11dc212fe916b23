-- ===== src/Run/Store/Reserve/Leases.antt =====
-- internal/run/retained.go: the leases of a key, where one is given, spent, given back or dropped.
use Prim.Native.String.{String}
use text.Mathlib.Text.{◌==◌ as str_eq}
use text.Mathlib.TextEquality.{eq_iff}
use infercat.Common.{
  ℕ, ◌+◌, ◌-◌, ◌≤◌, ◌≡◌, refl, sym, subst, pos, false, Option, none, some, List, [], ◌∷◌, arith,
  Bool-cases, inl, inr,
}
use infercat.Run.{Raw, ImageOutput, ok, Run}
use infercat.Run.Store.{
  KeyData, Lease, Snapshot, lookup, insert, remove, budget, reserved_bytes, with_bytes,
}
use infercat.Run.Store.Commit.{finished, ended}
use infercat.Run.Store.Reserve.{new_lease, lease_bytes, lease_run}

pub lookup-insert_lease :
    (k : String) (l : Lease) (m : List (String × Lease)) → lookup k (insert k l m) ≡ some l
unfolding lookup insert
lookup-insert_lease k l [] = ground (arith, eq_iff k k)
lookup-insert_lease k l ((j, x) ∷ m) = ground (arith, eq_iff j k, lookup-insert_lease k l m)

pub reserved_bytes-insert :
    (k : String) (l : Lease) (m : List (String × Lease))
    → lookup k m ≡ none
    → reserved_bytes (insert k l m) ≡ reserved_bytes m + l.bytes
unfolding lookup insert reserved_bytes
reserved_bytes-insert k l [] n = omega arith
reserved_bytes-insert k l ((j, x) ∷ m) n = ground (arith, reserved_bytes-insert k l m)

pub lookup-insert_other :
    (j k : String) (l : Lease) (m : List (String × Lease))
    → str_eq j k ≡ false
    → lookup k (insert j l m) ≡ lookup k m
unfolding lookup insert
lookup-insert_other j k l [] n = ground (arith, n)
lookup-insert_other j k l ((i, x) ∷ m) n =
    ground (arith, n, lookup-insert_other j k l m n, eq_iff i j, eq_iff i k, eq_iff j k)

pub lookup-remove_other :
    (j k : String) (m : List (String × Lease))
    → str_eq j k ≡ false
    → lookup k (remove j m) ≡ lookup k m
unfolding lookup remove
lookup-remove_other j k [] n = refl
lookup-remove_other j k ((i, x) ∷ m) n =
    ground (arith, n, lookup-remove_other j k m n, eq_iff i j, eq_iff i k, eq_iff j k)

pub reserved_bytes-remove :
    (j : String) (m : List (String × Lease)) → reserved_bytes (remove j m) ≤ reserved_bytes m
unfolding reserved_bytes remove
reserved_bytes-remove j [] = omega arith
reserved_bytes-remove j ((i, x) ∷ m) = ground (arith, reserved_bytes-remove j m)

-- Spending some of a lease.
pub reserved_bytes-spend :
    (k : String) (l : Lease) (n : ℕ) (m : List (String × Lease))
    → lookup k m ≡ some l
    → n ≤ l.bytes
    → reserved_bytes (insert k (with_bytes (l.bytes - n) l) m) + n ≡ reserved_bytes m
unfolding lookup insert reserved_bytes
reserved_bytes-spend k l n [] e h = absurd (cc)
reserved_bytes-spend k l n ((j, x) ∷ m) e h = elim (Bool-cases (str_eq j k)) [
  | inl y ↦ ground (arith, y)
  | inr y ↦ ground (arith, y, reserved_bytes-spend k l n m (ground (arith, y)) h)
]

module _ (image_json : Raw → Option ImageOutput) (stored : ℕ) (size : Snapshot → ℕ) where
  pub reserved_bytes-finished :
      (runs : List (String × Run)) (m : List (String × Lease))
      → reserved_bytes (finished image_json stored size runs m) ≤ reserved_bytes m
  unfolding reserved_bytes finished
  reserved_bytes-finished runs [] = omega arith
  reserved_bytes-finished runs ((rid, l) ∷ m) = ground (arith, reserved_bytes-finished runs m)

  -- The lease of a run that goes on is kept.
  pub lookup-finished :
      (runs : List (String × Run)) (rid : String) (m : List (String × Lease))
      → ended (lookup rid runs) ≡ false
      → lookup rid (finished image_json stored size runs m) ≡ lookup rid m
  unfolding finished lookup
  lookup-finished runs rid [] e = refl
  lookup-finished runs rid ((j, l) ∷ m) e = elim (Bool-cases (str_eq j rid)) [
    | inl y ↦
        let goes_on : ended (lookup j runs) ≡ false =
          subst (λ k. ended (lookup k runs) ≡ false) (sym ((eq_iff j rid).0 y)) e in
        ground (arith, y, goes_on)
    | inr y ↦ ground (arith, y, lookup-finished runs rid m e)
  ]

-- What is true of a lease that is given.
abbrev pub Given : ℕ → KeyData → String → ℕ → List (String × Lease) → Type 0
Given stored d rid n m =
    (lookup rid d.leases ≡ none)
    × (d.snapshot.encoded_bytes + reserved_bytes d.leases + n ≤ budget stored)
    × (m ≡ insert rid (record { late = false; bytes = n }) d.leases)

module _ (stored : ℕ) (d : KeyData) (rid : String) (n : ℕ) (m : List (String × Lease)) where
  new_lease-Given :
      (o : Option Lease)
      → lookup rid d.leases ≡ o
      → new_lease stored d rid n o ≡ ok m
      → Given stored d rid n m
  unfolding new_lease
  new_lease-Given (some l) y e = absurd (cc)
  new_lease-Given none y e = ground (arith, y)

  lease_bytes-Given : lease_bytes stored d rid (pos n) ≡ ok m → Given stored d rid n m
  lease_bytes-Given e =
      new_lease-Given (lookup rid d.leases) refl (unfold lease_bytes in ground (arith, e))

  pub lease_run-Given :
      (o : Option Run) → lease_run stored d rid (pos n) o ≡ ok m → Given stored d rid n m
  lease_run-Given none e = absurd (unfold lease_run in ground (arith, e))
  lease_run-Given (some r) e = lease_bytes-Given (unfold lease_run in ground (arith, e))
