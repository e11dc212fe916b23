-- ===== src/Run/Store/Create/Within.antt =====
-- internal/run/store.go: `createBatch` keeps the limits of runs: sixteen live ones and a hundred in
-- all for each key, and sixty-four live ones on the host.
use Prim.Native.String.{String}
use infercat.Common.{
  ℕ, ◌+◌, ◌≤◌, ◌≡◌, refl, sym, ◌∙◌, Bool, false, Option, none, some, List, [], ◌∷◌, length, arith,
  ltb, ap, if_split, ℤ, pos, negsuc, subst,
}
use infercat.Run.{
  Raw, RunError, limit, queued, Result, ok, err, Run, ImageOutput, max_live_key, max_live_host,
  max_runs,
}
use infercat.Run.Store.{Snapshot, Event, KeyData, lookup, insert}
use infercat.Run.Store.Load.{Host, load}
use infercat.Run.Store.Load.Found.{Found, load-Found}
use infercat.Run.Store.Commit.New.{Drafted, commit_new}
use infercat.Run.Store.Commit.{stamp_images, commit_for, blank}
use infercat.Run.Store.Create.{
  tally_runs, is_live, is_queued_as, beyond, live, host_live, add_rows, new_rows, first_id, no_room,
  bad_ask, Ask, Admit, Created, settled, reserved, with_room, asked, in_key, create_batch,
  turned_away,
}
use infercat.Run.Store.Create.Counts.{
  tally_runs-add_rows, length-add_rows, length-new_rows, length-read_rows, tally_runs-stamp_images,
  length-stamp_images, host_live-insert, lookup-insert_data,
}

-- A key's runs are within their limits, those that wait within the caller's, and the host's live
-- runs within its own.
pub record KeepsLimits (a : Ask) (h : Host) : Type 0 where
  pub key_data : KeyData
  pub found : lookup a.key h ≡ some key_data
  pub few_live : live key_data.snapshot.runs ≤ max_live_key
  pub few : length key_data.snapshot.runs ≤ max_runs
  pub waiting : beyond a.cap (tally_runs (is_queued_as a.kind) key_data.snapshot.runs) ≡ false
  pub host_few : host_live h ≤ max_live_host

beyond-le : (c : ℤ) (n m : ℕ) → n ≤ m → beyond c m ≡ false → beyond c n ≡ false
beyond-le (pos c) n m l e = ground arith
beyond-le (negsuc k) n m l e = refl

-- What admits the rows: there is room for them under the key.
no_room-cases :
    (a : Ask) (m : List (String × Run))
    → no_room a m ≡ none
    → (live m + length a.inputs ≤ max_live_key)
      × (length m + length a.inputs ≤ max_runs)
      × (beyond a.cap (tally_runs (is_queued_as a.kind) m + length a.inputs) ≡ false)
unfolding no_room
no_room-cases a m e = ground arith

-- The rows added to a key's runs, as they are written.
abbrev grown : (Raw → Option ImageOutput) → ℕ → List Run → List (String × Run) → List (String × Run)
grown image_json now rows m = stamp_images image_json now m (add_rows rows m)

module _ (image_json : Raw → Option ImageOutput) (now : ℕ) (rows : List Run)
    (m x : List (String × Run)) (g : x ≡ grown image_json now rows m) where
  tally_runs-grown :
      (p : Run → Bool)
      → ((r : Run) → p (record r { updated = now }) ≡ p r)
      → tally_runs p x ≤ tally_runs p m + length rows
  tally_runs-grown p k = omega (
    arith,
    ap (tally_runs p) g,
    tally_runs-stamp_images image_json now m p k (add_rows rows m),
    tally_runs-add_rows p rows m,
  )

  length-grown : length x ≤ length m + length rows
  length-grown = omega (
    arith,
    ap length g,
    length-stamp_images image_json now m (add_rows rows m),
    length-add_rows rows m,
  )

grown-KeepsLimits :
    (image_json : Raw → Option ImageOutput) (now : ℕ) (rows : List Run) (a : Ask) (h : Host)
    (d e : KeyData)
    → lookup a.key h ≡ some d
    → d.broken ≡ false
    → e.broken ≡ false
    → length rows ≡ length a.inputs
    → no_room a d.snapshot.runs ≡ none
    → host_live h + length a.inputs ≤ max_live_host
    → e.snapshot.runs ≡ grown image_json now rows d.snapshot.runs
    → KeepsLimits a (insert a.key e h)
grown-KeepsLimits image_json now rows a h d e l b c n room host g =
    let (x, y, z) = no_room-cases a d.snapshot.runs room in
    let m = d.snapshot.runs in
    let more = tally_runs-grown image_json now rows m e.snapshot.runs g in
    let t : live e.snapshot.runs ≤ live m + length rows = unfold live in more is_live (λ r. refl) in
    let k = length-grown image_json now rows m e.snapshot.runs g in
    record {
      key_data = e;
      found = lookup-insert_data a.key e h;
      few_live = omega (arith, t, x, n);
      few = omega (arith, k, y, n);
      waiting = beyond-le a.cap _ _ (omega (arith, more (is_queued_as a.kind) (λ r. refl), n)) z;
      host_few = ground (arith, host_live-insert a.key d e h l, b, c, t, n, host);
    }

module _ {ℓ} {W : Type ℓ} (image_json : Raw → Option ImageOutput) (stored : ℕ) (size : Snapshot → ℕ)
    (json_valid : Raw → Bool) (run_id : ℕ → String) (batch_id : String) (now : ℕ) (wrote : Bool)
    (admit : Admit W) (decode : String → Raw → Option Snapshot) (epoch : String) where
  -- What is true of a batch that is admitted.
  abbrev Good : Ask → List Run → Created W → Type 0
  Good a rows c =
      (rs : List Run) → c.rows ≡ ok rs → KeepsLimits a c.host × (length rs ≡ length rows)

  settled-Good :
      (a : Ask) (h : Host) (w : W) (back : W → W) (rows : List Run) (d : KeyData)
      → lookup a.key h ≡ some d
      → d.broken ≡ false
      → length rows ≡ length a.inputs
      → no_room a d.snapshot.runs ≡ none
      → host_live h + length a.inputs ≤ max_live_host
      → (x : KeyData × List Event × Result Snapshot)
      → Drafted image_json stored size d (grown image_json now rows d.snapshot.runs) x
      → Good a rows (
          settled image_json stored size json_valid run_id batch_id now wrote admit a.key h w back
            rows x)
  unfolding settled
  settled-Good a h w back rows d l b n room host (e, es, err z) k rs q = absurd (cc)
  settled-Good a h w back rows d l b n room host (e, es, ok s) k rs q =
      let (x, y, z) = k s refl in
      (
        grown-KeepsLimits image_json now rows a h d e l b (y ∙ b) n room host
            (ap (λ (v : Snapshot). v.runs) x ∙ z),
        ground (arith, length-read_rows rows s.runs),
      )

  module _ (a : Ask) (h : Host) (w : W) (d : KeyData) (l : lookup a.key h ≡ some d)
      (b : d.broken ≡ false) where
    reserved-Good :
        (rows : List Run)
        → length rows ≡ length a.inputs
        → lookup (first_id rows) d.snapshot.runs ≡ none
        → no_room a d.snapshot.runs ≡ none
        → (r : Result (W × (W → W)))
        → Good a rows (
            reserved image_json stored size json_valid run_id batch_id now wrote admit a d h w rows
              r)
    unfolding reserved
    reserved-Good rows n new room (err e) = λ rs q. absurd (cc)
    reserved-Good rows n new room (ok (v, back)) =
        let next = record d.snapshot { runs = add_rows rows d.snapshot.runs } in
        let id = first_id rows in
        let c =
          commit_for image_json stored size now wrote (some id) (some (blank id (some queued) now))
            next d in
        if_split (Good a rows) (ltb max_live_host (host_live h + length a.inputs))
          (turned_away h (back v) limit)
          (settled image_json stored size json_valid run_id batch_id now wrote admit a.key h v back
            rows c)
          (λ y rs q. absurd (cc))
          (λ y. settled-Good a h v back rows d l b n room (ground (arith, y)) c (
            commit_new image_json stored size now wrote id (some (blank id (some queued) now)) next
              d new))

    with_room-Good :
        (rows : List Run)
        → length rows ≡ length a.inputs
        → lookup (first_id rows) d.snapshot.runs ≡ none
        → (o : Option RunError) → no_room a d.snapshot.runs ≡ o
        → Good a rows (
            with_room image_json stored size json_valid run_id batch_id now wrote admit a d h w rows
              o)
    unfolding with_room
    with_room-Good rows n new (some e) y = λ rs q. absurd (cc)
    with_room-Good rows n new none y = reserved-Good rows n new y (admit rows w)

    in_key-Good :
        lookup (first_id (new_rows run_id batch_id now a 0 a.inputs)) d.snapshot.runs ≡ none
        → Good a
            (new_rows run_id batch_id now a 0 a.inputs)
            (in_key image_json stored size json_valid run_id batch_id now wrote admit a w (ok d, h))
    unfolding in_key
    in_key-Good new =
        with_room-Good (new_rows run_id batch_id now a 0 a.inputs)
          (length-new_rows run_id batch_id now a 0 a.inputs) new (no_room a d.snapshot.runs) refl

  some_inputs : (a : Ask) → bad_ask json_valid a ≡ none → 1 ≤ length a.inputs
  unfolding bad_ask
  some_inputs a e = ground arith

  first-new_rows :
      (a : Ask) (inputs : List Raw)
      → 1 ≤ length inputs
      → first_id (new_rows run_id batch_id now a 0 inputs) ≡ run_id 0
  unfolding new_rows
  first-new_rows a [] n = absurd (omega arith)
  first-new_rows a (x ∷ xs) n = refl

  -- The batch's first id is new to the key.
  abbrev pub IsNew : Result KeyData × Host → Type 0
  IsNew p = (d : KeyData) → p.0 ≡ ok d → lookup (run_id 0) d.snapshot.runs ≡ none

  loaded-Good :
      (a : Ask) (w : W) (p : Result KeyData × Host)
      → 1 ≤ length a.inputs
      → Found stored size now decode epoch a.key p
      → IsNew p
      → Good a
          (new_rows run_id batch_id now a 0 a.inputs)
          (in_key image_json stored size json_valid run_id batch_id now wrote admit a w p)
  loaded-Good a w (err e, h) n found new = unfold in_key in λ rs q. absurd (cc)
  loaded-Good a w (ok d, h) n found new =
      let (l, b) = found d refl in
      in_key-Good a h w d l b (
        subst (λ id. lookup id d.snapshot.runs ≡ none) (sym (first-new_rows a a.inputs n))
          (new d refl))

  asked-Good :
      (ld : String → Host → Result KeyData × Host) (a : Ask) (h : Host) (w : W)
      (o : Option RunError)
      → bad_ask json_valid a ≡ o
      → Found stored size now decode epoch a.key (ld a.key h)
      → IsNew (ld a.key h)
      → Good a
          (new_rows run_id batch_id now a 0 a.inputs)
          (asked image_json stored size json_valid run_id batch_id now wrote admit ld a h w o)
  unfolding asked
  asked-Good ld a h w (some e) y found new = λ rs q. absurd (cc)
  asked-Good ld a h w none y found new = loaded-Good a w (ld a.key h) (some_inputs a y) found new

  -- A batch that `createBatch` admits, where the batch's first id is new to the key, leaves at most
  -- sixteen live runs and a hundred in all under the key, no more waiting runs of its kind than the
  -- caller's cap, if it has one, and at most sixty-four live runs on the host; as many rows come back
  -- as there were inputs.
  pub batch_within :
      (read : String → Result (Option Raw)) (a : Ask) (h : Host) (w : W) (rs : List Run)
      → IsNew (load stored size now decode epoch read a.key h)
      → (create_batch image_json stored size json_valid run_id batch_id now wrote admit
          (load stored size now decode epoch read)
          a
          h
          w).rows
        ≡ ok rs
      → KeepsLimits a
          (create_batch image_json stored size json_valid run_id batch_id now wrote admit
            (load stored size now decode epoch read)
            a
            h
            w).host
        × (length rs ≡ length a.inputs)
  unfolding create_batch
  batch_within read a h w rs new r =
      let ld = load stored size now decode epoch read in
      let (x, n) =
        asked-Good ld a h w (bad_ask json_valid a) refl
          (load-Found stored size now decode epoch read a.key h) new rs r in
      (x, n ∙ length-new_rows run_id batch_id now a 0 a.inputs)
