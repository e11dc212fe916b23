-- ===== src/Run/Store/Numbers/Publish.antt =====
-- internal/run/store.go: a commit publishes what it appends to the log, under the numbers that follow
-- the snapshot's.
use Prim.Native.String.{String}
use infercat.Common.{
  ℕ, ◌+◌, ◌-◌, ◌^◌, ◌≤◌, ◌<◌, ◌≡◌, refl, sym, subst, Bool, true, false, Option, List, [], ◌++◌,
  drop, ltb, length, arith, if_ind, length-append, length-drop, Bool-cases, inl, inr,
}
use infercat.Run.{Raw, Result, ok, err, Run, ImageOutput}
use infercat.Run.Ending.{without_output}
use infercat.Run.Store.{Snapshot, Event, KeyData, Lease, max_events, insert, terminal_bound}
use infercat.Run.Store.Commit.{
  Draft, prune, append_events, advance, fits, number_events, tail_events, mark_last, trim_events,
  announced, image_events, draft, end_run, shorten, tally, written, commit_for,
}
use infercat.Run.Store.Commit.Kept.{within_budget-keeps}
use infercat.Run.Store.Commit.Bounds.{length-mark_last, length-trim_events}
use infercat.Run.Store.Numbers.{
  Numbered, IsLog, IsNumbered, Numbered-append, Numbered-drop, number_events-Numbered, advance_lem,
  length-number_events, map-mark-Numbered, length-mark, mark_last-Numbered, trim_events-Numbered,
}

drop-IsLog :
    (epoch : String) (n j : ℕ) (es : List Event)
    → j ≤ length es
    → IsLog epoch n es
    → IsLog epoch n (drop j es)
drop-IsLog epoch n j es l h = (
  omega (arith, length-drop j es),
  subst (λ t. Numbered epoch t (drop j es)) (omega (arith, length-drop j es, h.0))
      (Numbered-drop epoch (n - length es) j es l h.1),
)

tail_events-IsLog :
    (epoch : String) (n : ℕ) (es : List Event) → IsLog epoch n es → IsLog epoch n (tail_events es)
unfolding tail_events
tail_events-IsLog epoch n es h = elim (Bool-cases (ltb max_events (length es))) [
  | inl y ↦ rw y (drop-IsLog epoch n (length es - max_events) es (omega arith) h)
  | inr l ↦ rw l h
]

append-IsLog :
    (epoch : String) (k : ℕ) (xs ys : List Event)
    → IsLog epoch k xs
    → Numbered epoch k ys
    → IsLog epoch (k + length ys) (xs ++ ys)
append-IsLog epoch k xs ys h q = (
  omega (arith, length-append xs ys, h.0),
  Numbered-append epoch _ k xs ys (omega (arith, length-append xs ys, h.0))
      (subst (λ t. Numbered epoch t xs) (omega (arith, length-append xs ys, h.0)) h.1) q,
)

marked-IsLog :
    (p : List Event → Bool) (j : ℕ) (rid epoch : String) (n : ℕ) (es : List Event)
    → IsLog epoch n es
    → IsLog epoch n (trim_events p (mark_last j rid es))
marked-IsLog p j rid epoch n es h =
    let m = mark_last-Numbered j rid epoch (n - length es) es h.1 in
    let l = length-mark_last j rid es in
    let t = length-trim_events p (mark_last j rid es) in
    (
      omega (arith, l, t, h.0),
      subst (λ k. Numbered epoch k (trim_events p (mark_last j rid es))) (omega (arith, l, t, h.0))
          (trim_events-Numbered p epoch (n - length es) (mark_last j rid es) m),
    )

-- The log is numbered, and the news are the numbers after `k`, up to its last.
pub record Follows (epoch : String) (k : ℕ) (s : Snapshot) (news : List Event) : Type 0 where
  pub same_epoch : s.epoch ≡ epoch
  pub log : IsLog epoch s.seq s.events
  pub numbered : Numbered epoch k news
  pub reaches : k + length news ≡ s.seq

abbrev Sound : String → ℕ → Draft → Type 0
Sound epoch k w = Follows epoch k w.snapshot w.events

module _ (image_json : Raw → Option ImageOutput) (stored : ℕ) (size : Snapshot → ℕ) where
  -- The events that a commit announces: its own, and those of new images.
  abbrev pub news : ℕ → Option Event → Snapshot → Snapshot → List Event
  news now e old v = announced e (image_events image_json now e old.runs v.runs)

  draft-Sound :
      (now : ℕ) (e : Option Event) (old v : Snapshot)
      → IsNumbered v
      → v.seq + length (news now e old v) < 2 ^ 64
      → Sound v.epoch v.seq (draft image_json stored size now e old v)
  unfolding draft prune append_events
  draft-Sound now e old v h room =
      let es = news now e old v in
      let numbered = number_events-Numbered v.epoch v.seq es room in
      let last : v.seq + length (number_events v.epoch v.seq es) ≡ advance v.seq es =
        omega (arith, length-number_events v.epoch v.seq es, advance_lem v.seq es room) in
      record {
        same_epoch = refl;
        log =
            subst (λ n. IsLog v.epoch n (tail_events (v.events ++ number_events v.epoch v.seq es)))
              last
              (tail_events-IsLog v.epoch _ _
                (append-IsLog v.epoch v.seq v.events (number_events v.epoch v.seq es) h numbered));
        numbered = numbered;
        reaches = last;
      }

  end_run-Sound :
      (epoch : String) (k : ℕ) (rid : String) (used : ℕ) (old : Snapshot) (r : Run) (w : Draft)
      → Sound epoch k w
      → Sound epoch k (end_run image_json stored size rid used old r w)
  unfolding end_run
  end_run-Sound epoch k rid used old r w h = record {
    same_epoch = h.same_epoch;
    log = search (marked-IsLog, h.log);
    numbered = map-mark-Numbered rid epoch k w.events h.numbered;
    reaches = omega (arith, length-mark rid w.events, h.reaches);
  }

  shorten-Sound :
      (epoch : String) (k : ℕ) (rid : String) (used : ℕ) (old : Snapshot) (before after : Run)
      (w : Draft)
      → Sound epoch k w
      → Sound epoch k (shorten image_json stored size rid used old before after w)
  unfolding shorten
  shorten-Sound epoch k rid used old before after w h =
      let r = without_output image_json before after in
      let next = record w.snapshot {
        runs = insert rid r w.snapshot.runs;
        exception_bytes = insert rid terminal_bound w.snapshot.exception_bytes;
      } in
      let within : Sound epoch k (record { snapshot = next; events = w.events }) = record {
        same_epoch = h.same_epoch;
        log = h.log;
        numbered = h.numbered;
        reaches = h.reaches;
      } in
      if_ind (λ (x : Draft). Sound epoch k x) _ _ _ within
        (end_run-Sound epoch k rid used old r _ within)

  tally-Sound :
      (epoch : String) (k : ℕ) (rid : String) (used : ℕ) (old : Snapshot) (w x : Draft)
      → Sound epoch k w
      → tally image_json stored size rid used old w ≡ ok x
      → Sound epoch k x
  unfolding tally
  tally-Sound epoch k rid used old w x h e =
      elim (Bool-cases (fits image_json stored size terminal_bound used old w.snapshot)) [
        | inl y ↦ record {
          same_epoch = ground (arith, y, h);
          log =
              let es : x.snapshot.events ≡ w.snapshot.events = ground (arith, y) in
              let n : x.snapshot.seq ≡ w.snapshot.seq = ground (arith, y) in
              subst (λ t. IsLog epoch x.snapshot.seq t) (sym es)
                (subst (λ t. IsLog epoch t w.snapshot.events) (sym n) h.log);
          numbered = ground (arith, y, h);
          reaches = ground (arith, y, h);
        }
        | inr n ↦ absurd (ground (arith, n))
      ]

  -- What a commit gives back, from a draft whose log is sound.
  abbrev pub Committed : String → ℕ → KeyData → KeyData × List Event × Result Snapshot → Type 0
  Committed epoch k d (t, es, ok s) = (t.snapshot ≡ s) × Follows epoch k s es
  Committed epoch k d (t, es, err e) = (t.snapshot ≡ d.snapshot) × (es ≡ [])

  written-Committed :
      (epoch : String) (k : ℕ) (wrote : Bool) (d : KeyData)
      (r : Result (Draft × List (String × Lease)))
      → ((x : Draft) (m : List (String × Lease)) → r ≡ ok (x, m) → Sound epoch k x)
      → Committed epoch k d (written image_json stored size wrote d r)
  unfolding written
  written-Committed epoch k wrote d (err e) h = (refl, refl)
  written-Committed epoch k false d (ok (w, leases)) h = (refl, refl)
  written-Committed epoch k true d (ok (w, leases)) h =
      let s = h w leases refl in
      (
        refl,
        record {
          same_epoch = s.same_epoch;
          log = s.log;
          numbered = s.numbered;
          reaches = s.reaches;
        },
      )

  -- From a numbered log, and where the 64 bits of the number have room, a commit that succeeds
  -- publishes the numbers that follow the log's last, one after the other up to the new last, and
  -- leaves a log that is numbered up to it again, under the same epoch; one that fails publishes
  -- nothing and changes nothing in the snapshot.
  pub commit_numbers :
      (now : ℕ) (wrote : Bool) (rid : Option String) (e : Option Event) (v : Snapshot) (d : KeyData)
      → IsNumbered v
      → v.seq + length (news now e d.snapshot v) < 2 ^ 64
      → Committed v.epoch v.seq d (commit_for image_json stored size now wrote rid e v d)
  unfolding commit_for
  commit_numbers now wrote rid e v d h room =
      if_ind (Committed v.epoch v.seq d) d.broken _ _ (refl, refl)
        (written-Committed v.epoch v.seq wrote d _ (
          within_budget-keeps image_json stored size (Sound v.epoch v.seq)
            (shorten-Sound v.epoch v.seq) (tally-Sound v.epoch v.seq) rid d _ _
            (draft-Sound now e d.snapshot v h room)))
