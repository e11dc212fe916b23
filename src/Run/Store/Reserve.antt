-- ===== src/Run/Store/Reserve.antt =====
-- internal/run/retained.go: `Admit`, by which a consumer reserves bytes of the key's budget before it
-- goes on. What gives a lease back removes it, if it is still the run's (the source compares pointers).
pub mod Leases
pub mod Pays
pub mod Tests
use Prim.Native.String.{String}
use text.Mathlib.Text.{◌==◌ as str_eq}
use text.Mathlib.TextEquality.{eq_iff}
use infercat.Common.{
  ℕ, ◌+◌, ◌-◌, ◌≤◌, ◌≡◌, refl, ap, ◌∙◌, ℤ, pos, negsuc, Bool, true, false, ◌||◌, Option, none, some,
  List, [], ◌∷◌, if◌then◌else◌, ltb, ◌==◌, arith,
}
use infercat.Run.{RunError, limit, not_found, conflict, Result, ok, err, terminal, Run}
use infercat.Run.Store.{KeyData, Lease, lookup, insert, budget, reserved_bytes, retained_budget}

-- The lease of a run that has none.
unfoldable pub new_lease : ℕ → KeyData → String → ℕ → Option Lease → Result (List (String × Lease))
unfolding budget reserved_bytes insert
new_lease stored d rid n (some l) = err conflict
new_lease stored d rid n none =
    if ltb (budget stored) (d.snapshot.encoded_bytes + reserved_bytes d.leases + n)
    then err limit
    else ok (insert rid (record { late = false; bytes = n }) d.leases)

unfoldable pub lease_bytes : ℕ → KeyData → String → ℤ → Result (List (String × Lease))
unfolding new_lease lookup
lease_bytes stored d rid (negsuc k) = err limit
lease_bytes stored d rid (pos n) =
    if n == 0 || ltb (budget stored) n
    then err limit
    else new_lease stored d rid n (lookup rid d.leases)

unfoldable pub lease_run : ℕ → KeyData → String → ℤ → Option Run → Result (List (String × Lease))
unfolding lease_bytes
lease_run stored d rid bytes none = err not_found
lease_run stored d rid bytes (some r) =
    if terminal r.state || r.cancel_requested then err conflict else lease_bytes stored d rid bytes

-- `Admit`, of a key that is in memory: the leases that it leaves.
unfoldable pub reserve_bytes : ℕ → KeyData → String → ℤ → Result (List (String × Lease))
unfolding lease_run lookup
reserve_bytes stored d rid bytes = lease_run stored d rid bytes (lookup rid d.snapshot.runs)

abbrev pub accepted {ℓ} : {A : Type ℓ} → Result A → Bool
accepted (ok a) = true
accepted (err e) = false
