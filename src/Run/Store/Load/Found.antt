-- ===== src/Run/Store/Load/Found.antt =====
-- internal/run/store.go: a key that `load` answers is in memory, and not closed.
use Prim.Native.String.{String}
use infercat.Common.{ℕ, ◌≡◌, refl, false, Option, none, some, length, arith, if_ind, ltb}
use infercat.Run.{Raw, RunError, limit, invalid, Result, ok, err}
use infercat.Run.Store.{Snapshot, KeyData, lookup, insert, hard_cap}
use infercat.Run.Store.Load.{
  Host, fresh, decoded, take_in, opened, in_memory, looked, load, safe_id, is_valid,
}
use infercat.Run.Store.Create.Counts.{lookup-insert_data}

module _ (stored : ℕ) (size : Snapshot → ℕ) (now : ℕ) (decode : String → Raw → Option Snapshot)
    (epoch : String) where
  -- What a load answers is in memory, and open.
  abbrev pub Found : String → Result KeyData × Host → Type 0
  Found key (r, h) = (d : KeyData) → r ≡ ok d → (lookup key h ≡ some d) × (d.broken ≡ false)

  refused-Found : (key : String) (h : Host) (e : RunError) → Found key (err e, h)
  refused-Found key h e d q = absurd (cc)

  kept-Found :
      (key : String) (h : Host) (e : KeyData) → e.broken ≡ false → Found key (ok e, insert key e h)
  kept-Found key h e b d q = ground (arith, lookup-insert_data key e h)

  take_in-Found :
      (key : String) (h : Host) (u : Snapshot) → Found key (take_in stored size now key h u)
  unfolding take_in
  take_in-Found key h u =
      if_ind (Found key) _ _ _ (refused-Found key _ _)
        (if_ind (Found key) _ _ _ (kept-Found key h _ refl) (refused-Found key h _))

  decoded-Found :
      (key : String) (h : Host) (n : ℕ) (v : Option Snapshot)
      → Found key (decoded stored size now key h n v)
  unfolding decoded
  decoded-Found key h n none = refused-Found key h _
  decoded-Found key h n (some v) =
      if_ind (Found key) (is_valid key v)
        (take_in stored size now key h (record v { encoded_bytes = n })) (err invalid, h)
        (take_in-Found key h (record v { encoded_bytes = n })) (refused-Found key h invalid)

  opened-Found :
      (key : String) (h : Host) (r : Result (Option Raw))
      → Found key (opened stored size now decode epoch key h r)
  unfolding opened
  opened-Found key h (err e) = refused-Found key h e
  opened-Found key h (ok none) = take_in-Found key h (fresh stored size now epoch)
  opened-Found key h (ok (some raw)) =
      if_ind (Found key) (ltb (hard_cap stored) (length raw)) (err limit, h)
        (decoded stored size now key h (length raw) (decode epoch raw)) (refused-Found key h limit)
        (decoded-Found key h (length raw) (decode epoch raw))

  looked-Found :
      (read : String → Result (Option Raw)) (key : String) (h : Host) (o : Option KeyData)
      → lookup key h ≡ o
      → Found key (looked stored size now decode epoch read key h o)
  unfolding looked in_memory
  looked-Found read key h none l e q = opened-Found key h (read key) e q
  looked-Found read key h (some d) l e q = ground arith

  pub load-Found :
      (read : String → Result (Option Raw)) (key : String) (h : Host)
      → Found key (load stored size now decode epoch read key h)
  unfolding load
  load-Found read key h =
      if_ind (Found key) (safe_id key)
        (looked stored size now decode epoch read key h (lookup key h)) (err invalid, h)
        (looked-Found read key h (lookup key h) refl) (refused-Found key h invalid)
