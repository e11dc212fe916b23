-- ===== src/Run/Store/Create/Counts.antt =====
-- internal/run/store.go: how many runs a key and the host have, through the steps of `createBatch`.
use Prim.Native.String.{String}
use text.Mathlib.TextEquality.{eq_iff}
use infercat.Common.{
  ℕ, suc, ◌+◌, ◌≤◌, ◌≡◌, refl, Bool, Option, some, List, [], ◌∷◌, length, arith, if◌then◌else◌,
}
use infercat.Run.{Raw, Run, ImageOutput}
use infercat.Run.Store.{KeyData, lookup, insert}
use infercat.Run.Store.Load.{Host}
use infercat.Run.Store.Commit.{stamp_images}
use infercat.Run.Store.Create.{tally_runs, live, host_live, add_rows, new_rows, read_rows, Ask}

tally_runs-insert :
    (p : Run → Bool) (id : String) (r : Run) (m : List (String × Run))
    → tally_runs p (insert id r m) ≤ tally_runs p m + 1
unfolding tally_runs insert
tally_runs-insert p id r [] = ground arith
tally_runs-insert p id r ((j, w) ∷ m) = ground (arith, tally_runs-insert p id r m)

length-insert :
    (id : String) (r : Run) (m : List (String × Run)) → length (insert id r m) ≤ length m + 1
unfolding insert
length-insert id r [] = omega arith
length-insert id r ((j, w) ∷ m) = ground (arith, length-insert id r m)

pub tally_runs-add_rows :
    (p : Run → Bool) (rows : List Run) (m : List (String × Run))
    → tally_runs p (add_rows rows m) ≤ tally_runs p m + length rows
unfolding add_rows
tally_runs-add_rows p [] m = omega arith
tally_runs-add_rows p (r ∷ rs) m =
    omega (arith, tally_runs-add_rows p rs (insert r.id r m), tally_runs-insert p r.id r m)

pub length-add_rows :
    (rows : List Run) (m : List (String × Run)) → length (add_rows rows m) ≤ length m + length rows
unfolding add_rows
length-add_rows [] m = omega arith
length-add_rows (r ∷ rs) m =
    omega (arith, length-add_rows rs (insert r.id r m), length-insert r.id r m)

pub length-new_rows :
    (ids : ℕ → String) (batch : String) (now : ℕ) (a : Ask) (i : ℕ) (inputs : List Raw)
    → length (new_rows ids batch now a i inputs) ≡ length inputs
unfolding new_rows
length-new_rows ids batch now a i [] = refl
length-new_rows ids batch now a i (x ∷ xs) =
    omega (arith, length-new_rows ids batch now a (suc i) xs)

pub length-read_rows :
    (rows : List Run) (m : List (String × Run)) → length (read_rows rows m) ≡ length rows
unfolding read_rows
length-read_rows [] m = refl
length-read_rows (r ∷ rs) m = omega (arith, length-read_rows rs m)

module _ (image_json : Raw → Option ImageOutput) (now : ℕ) (old : List (String × Run)) where
  -- A test that does not look at when the run was changed.
  pub tally_runs-stamp_images :
      (p : Run → Bool)
      → ((r : Run) → p (record r { updated = now }) ≡ p r)
      → (m : List (String × Run))
      → tally_runs p (stamp_images image_json now old m) ≡ tally_runs p m
  unfolding tally_runs stamp_images
  tally_runs-stamp_images p k [] = refl
  tally_runs-stamp_images p k ((id, r) ∷ m) = ground (arith, k r, tally_runs-stamp_images p k m)

  pub length-stamp_images :
      (m : List (String × Run)) → length (stamp_images image_json now old m) ≡ length m
  unfolding stamp_images
  length-stamp_images [] = refl
  length-stamp_images ((id, r) ∷ m) = omega (arith, length-stamp_images m)

-- What a key counts for on the host.
abbrev pub weight : KeyData → ℕ
weight d = if d.broken then 0 else live d.snapshot.runs

pub host_live-insert :
    (key : String) (d e : KeyData) (h : Host)
    → lookup key h ≡ some d
    → host_live (insert key e h) + weight d ≡ host_live h + weight e
unfolding host_live insert lookup
host_live-insert key d e [] l = absurd (cc)
host_live-insert key d e ((j, x) ∷ h) l = ground (arith, host_live-insert key d e h)

pub lookup-insert_data :
    (key : String) (d : KeyData) (h : Host) → lookup key (insert key d h) ≡ some d
unfolding lookup insert
lookup-insert_data key d [] = ground (arith, eq_iff key key)
lookup-insert_data key d ((j, x) ∷ h) = ground (arith, eq_iff j key, lookup-insert_data key d h)
