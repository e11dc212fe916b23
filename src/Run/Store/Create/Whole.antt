-- ===== src/Run/Store/Create/Whole.antt =====
-- internal/run/store.go: `createBatch` is all or nothing: what refuses a batch, or fails to write
-- it, leaves every key's runs as they were and takes back what was reserved.
use Prim.Native.String.{String}
use text.Mathlib.Text.{◌==◌ as str_eq}
use text.Mathlib.TextEquality.{eq_iff}
use infercat.Common.{
  ℕ, ◌+◌, ◌≡◌, refl, Bool, true, false, Option, none, some, List, [], ◌∷◌, length, arith, if_ind,
  ltb, Bool-cases, inl, inr,
}
use infercat.Run.{Raw, RunError, limit, queued, max_live_host, Result, ok, err, Run, ImageOutput}
use infercat.Run.Store.{Snapshot, Event, KeyData, Lease, lookup, insert}
use infercat.Run.Store.Load.{
  Host, fresh, decoded, take_in, opened, in_memory, looked, load, sized, entry,
}
use infercat.Run.Store.Load.Found.{load-Found}
use infercat.Run.Store.Commit.{Draft, written, commit_for, blank}
use infercat.Run.Store.Create.{
  Ask, Admit, Created, add_rows, new_rows, first_id, host_live, no_room, bad_ask, turned_away,
  settled, reserved, with_room, in_key, asked, create_batch,
}

abbrev snapshot_of : Option KeyData → Option Snapshot
snapshot_of none = none
snapshot_of (some d) = some d.snapshot

-- Every snapshot in memory is as it was.
abbrev pub Kept : Host → Host → Type 0
Kept h i =
    (k : String) (s : Snapshot)
    → snapshot_of (lookup k h) ≡ some s
    → snapshot_of (lookup k i) ≡ some s

insert-Kept :
    (key : String) (e : KeyData) (h : Host)
    → ((s : Snapshot) → snapshot_of (lookup key h) ≡ some s → e.snapshot ≡ s)
    → Kept h (insert key e h)
unfolding lookup insert
insert-Kept key e [] same k s l = absurd (cc)
insert-Kept key e ((j, x) ∷ h) same k s l = elim (Bool-cases (str_eq j key)) [
  | inl y ↦ elim (Bool-cases (str_eq j k)) [
    | inl z ↦ ground (arith, y, z, same s, eq_iff j key, eq_iff j k)
    | inr z ↦ ground (arith, y, z)
  ]
  | inr y ↦ elim (Bool-cases (str_eq j k)) [
    | inl z ↦ ground (arith, y, z)
    | inr z ↦ ground (
      arith,
      y,
      z,
      insert-Kept key e h (λ v q. same v (ground (arith, y, q))) k s (ground (arith, z, l)),
    )
  ]
]

module _ (image_json : Raw → Option ImageOutput) (stored : ℕ) (size : Snapshot → ℕ) where
  -- A commit that fails says nothing and keeps the snapshot.
  abbrev Failed : KeyData → KeyData × List Event × Result Snapshot → Type 0
  Failed d (e, es, r) = (z : RunError) → r ≡ err z → (es ≡ []) × (e.snapshot ≡ d.snapshot)

  written-Failed :
      (wrote : Bool) (d : KeyData) (r : Result (Draft × List (String × Lease)))
      → Failed d (written image_json stored size wrote d r)
  unfolding written
  written-Failed wrote d (err e) z q = ground arith
  written-Failed false d (ok (w, m)) z q = ground arith
  written-Failed true d (ok (w, m)) z q = absurd (cc)

  commit_for-Failed :
      (now : ℕ) (wrote : Bool) (rid : Option String) (e : Option Event) (v : Snapshot) (d : KeyData)
      → Failed d (commit_for image_json stored size now wrote rid e v d)
  unfolding commit_for
  commit_for-Failed now wrote rid e v d =
      if_ind (Failed d) d.broken (d, [], err _) _ (λ z q. (refl, refl)) (written-Failed wrote d _)

module _ (stored : ℕ) (size : Snapshot → ℕ) (now : ℕ) (decode : String → Raw → Option Snapshot)
    (epoch : String) where
  take_in-Kept :
      (key : String) (h : Host) (u : Snapshot)
      → lookup key h ≡ none
      → Kept h (take_in stored size now key h u).1
  unfolding take_in
  take_in-Kept key h u n =
      let v = sized stored size now u in
      let first : (e : KeyData) → Kept h (insert key e h) =
        λ e. insert-Kept key e h (λ s q. absurd (ground (arith, n))) in
      λ k s l. ground (
        arith,
        first (entry stored size now v true) k s l,
        first (entry stored size now v false) k s l,
      )

  decoded-Kept :
      (key : String) (h : Host) (n : ℕ) (v : Option Snapshot)
      → lookup key h ≡ none
      → Kept h (decoded stored size now key h n v).1
  unfolding decoded
  decoded-Kept key h n none e = λ k s l. l
  decoded-Kept key h n (some v) e =
      λ k s l. ground (arith, take_in-Kept key h (record v { encoded_bytes = n }) e k s l)

  opened-Kept :
      (key : String) (h : Host) (r : Result (Option Raw))
      → lookup key h ≡ none
      → Kept h (opened stored size now decode epoch key h r).1
  unfolding opened
  opened-Kept key h (err e) n = λ k s l. l
  opened-Kept key h (ok none) n = take_in-Kept key h (fresh stored size now epoch) n
  opened-Kept key h (ok (some raw)) n =
      λ k s l. ground (arith, decoded-Kept key h (length raw) (decode epoch raw) n k s l)

  looked-Kept :
      (read : String → Result (Option Raw)) (key : String) (h : Host) (o : Option KeyData)
      → lookup key h ≡ o
      → Kept h (looked stored size now decode epoch read key h o).1
  unfolding looked in_memory
  looked-Kept read key h none n = opened-Kept key h (read key) n
  looked-Kept read key h (some d) n = λ k s l. l

  load-Kept :
      (read : String → Result (Option Raw)) (key : String) (h : Host)
      → Kept h (load stored size now decode epoch read key h).1
  unfolding load
  load-Kept read key h k s l = ground (arith, looked-Kept read key h (lookup key h) refl k s l)

module _ {ℓ} {W : Type ℓ} (image_json : Raw → Option ImageOutput) (stored : ℕ) (size : Snapshot → ℕ)
    (json_valid : Raw → Bool) (run_id : ℕ → String) (batch_id : String) (now : ℕ) (wrote : Bool)
    (admit : Admit W) where
  -- What `admit` answers can be taken back.
  abbrev pub Restores : Type ℓ
  Restores = (rows : List Run) (w v : W) (back : W → W) → admit rows w ≡ ok (v, back) → back v ≡ w

  -- What is left of a batch that is not admitted.
  abbrev pub Nothing : Host → W → Created W → Type ℓ
  Nothing h w c = (e : RunError) → c.rows ≡ err e → Kept h c.host × (c.world ≡ w) × (c.events ≡ [])

  settled-Nothing :
      (key : String) (h : Host) (w v : W) (back : W → W) (rows : List Run) (d : KeyData)
      → lookup key h ≡ some d
      → back v ≡ w
      → (x : KeyData × List Event × Result Snapshot) → Failed image_json stored size d x
      → Nothing h w (
          settled image_json stored size json_valid run_id batch_id now wrote admit key h v back
            rows x)
  unfolding settled
  settled-Nothing key h w v back rows d l b (e, es, ok s) f z q = absurd (cc)
  settled-Nothing key h w v back rows d l b (e, es, err y) f z q =
      let (silent, same) = f y refl in
      (insert-Kept key e h (λ s r. ground (arith, l, same)), b, silent)

  module _ (a : Ask) (h : Host) (w : W) (d : KeyData) (l : lookup a.key h ≡ some d) where
    reserved-Nothing :
        (rows : List Run) (r : Result (W × (W → W)))
        → ((v : W) (back : W → W) → r ≡ ok (v, back) → back v ≡ w)
        → Nothing h w (
            reserved image_json stored size json_valid run_id batch_id now wrote admit a d h w rows
              r)
    unfolding reserved
    reserved-Nothing rows (err e) b = λ z q. ((λ k s l. l), refl, refl)
    reserved-Nothing rows (ok (v, back)) b =
        let next = record d.snapshot { runs = add_rows rows d.snapshot.runs } in
        let id = first_id rows in
        let e = some (blank id (some queued) now) in
        let c = commit_for image_json stored size now wrote (some id) e next d in
        if_ind (Nothing h w) (ltb max_live_host (host_live h + length a.inputs))
          (turned_away h (back v) limit)
          (settled image_json stored size json_valid run_id batch_id now wrote admit a.key h v back
            rows c)
          (λ z q. ((λ k s l. l), b v back refl, refl))
          (settled-Nothing a.key h w v back rows d l (b v back refl) c
            (commit_for-Failed image_json stored size now wrote (some id) e next d))

    with_room-Nothing :
        (rows : List Run) (o : Option RunError)
        → Restores
        → Nothing h w (
            with_room image_json stored size json_valid run_id batch_id now wrote admit a d h w rows
              o)
    unfolding with_room
    with_room-Nothing rows (some e) b = λ z q. ((λ k s l. l), refl, refl)
    with_room-Nothing rows none b =
        reserved-Nothing rows (admit rows w) (λ v back q. b rows w v back q)

  in_key-Nothing :
      (a : Ask) (w : W) (p : Result KeyData × Host)
      → ((d : KeyData) → p.0 ≡ ok d → lookup a.key p.1 ≡ some d)
      → Restores
      → Nothing p.1 w
          (in_key image_json stored size json_valid run_id batch_id now wrote admit a w p)
  unfolding in_key
  in_key-Nothing a w (err e, h) found b = λ z q. ((λ k s l. l), refl, refl)
  in_key-Nothing a w (ok d, h) found b =
      with_room-Nothing a h w d (found d refl) (new_rows run_id batch_id now a 0 a.inputs)
        (no_room a d.snapshot.runs) b

  asked-Nothing :
      (ld : String → Host → Result KeyData × Host) (a : Ask) (h : Host) (w : W)
      (o : Option RunError)
      → Kept h (ld a.key h).1
      → ((d : KeyData) → (ld a.key h).0 ≡ ok d → lookup a.key (ld a.key h).1 ≡ some d)
      → Restores
      → Nothing h w
          (asked image_json stored size json_valid run_id batch_id now wrote admit ld a h w o)
  unfolding asked
  asked-Nothing ld a h w (some e) kept found b = λ z q. ((λ k s l. l), refl, refl)
  asked-Nothing ld a h w none kept found b = λ z q.
      let (x, y, t) = in_key-Nothing a w (ld a.key h) found b z q in
      ((λ k s l. x k s (kept k s l)), y, t)

  -- Whatever refuses a batch, and also where its write fails: every snapshot that was in memory is as
  -- it was, no event is published, and the manager's state is what it was before `admit`, where what
  -- `admit` answers takes back what it did.
  pub batch_whole :
      (decode : String → Raw → Option Snapshot) (epoch : String)
      (read : String → Result (Option Raw)) (a : Ask) (h : Host) (w : W) (e : RunError)
      → Restores
      → (create_batch image_json stored size json_valid run_id batch_id now wrote admit
          (load stored size now decode epoch read)
          a
          h
          w).rows
        ≡ err e
      → Kept h
          (create_batch image_json stored size json_valid run_id batch_id now wrote admit
            (load stored size now decode epoch read)
            a
            h
            w).host
        × ((create_batch image_json stored size json_valid run_id batch_id now wrote admit
              (load stored size now decode epoch read)
              a
              h
              w).world
            ≡ w)
        × ((create_batch image_json stored size json_valid run_id batch_id now wrote admit
              (load stored size now decode epoch read)
              a
              h
              w).events
            ≡ [])
  unfolding create_batch
  batch_whole decode epoch read a h w e b q =
      asked-Nothing (load stored size now decode epoch read) a h w (bad_ask json_valid a)
        (load-Kept stored size now decode epoch read a.key h)
        (λ d y. (load-Found stored size now decode epoch read a.key h d y).0) b e q
