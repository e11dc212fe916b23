-- ===== src/Run/Store/Subscribe/NoGap.antt =====
-- internal/run/store.go: a client that comes back with its cursor misses no event, whatever commits
-- and reads are interleaved, until its channel is closed.
use Prim.Native.String.{String}
use mathlib.Core.List.{append_assoc}
use infercat.Common.{
  ℕ, ◌+◌, ◌^◌, ◌<◌, ◌≡◌, refl, sym, ap, ◌∙◌, subst, Bool, true, Option, List, [], ◌∷◌, ◌++◌, length,
  take, arith, length-append, Bool-cases, ◌⊎◌, inl, inr,
}
use infercat.Run.{Raw, Result, ok, err, ImageOutput}
use infercat.Run.Store.{Snapshot, Event, KeyData}
use infercat.Run.Store.Commit.{commit_for}
use infercat.Run.Store.Numbers.{Numbered, IsLog, IsNumbered, Numbered-append, Numbered-take}
use infercat.Run.Store.Numbers.Publish.{Follows, news, Committed, commit_numbers}
use infercat.Run.Store.Subscribe.{Asked, subscribe, Reader, publish_all, receive, stop, subscribed}
use infercat.Run.Store.Subscribe.Replay.{Replayed, publish_all-Got, subscribe-Replayed}

pub record View : Type 0 where
  pub key : KeyData
  pub reader : Reader

Nil-cases : (es : List Event) → (es ≡ []) ⊎ ((x : Event) × (xs : List Event) × (es ≡ x ∷ xs))
Nil-cases [] = inl refl
Nil-cases (x ∷ xs) = inr (x, xs, refl)

module _ (image_json : Raw → Option ImageOutput) (stored : ℕ) (size : Snapshot → ℕ) where
  unfoldable pub commit : ℕ → Bool → Option String → Option Event → Snapshot → View → View
  commit now wrote rid e v w =
      let c = commit_for image_json stored size now wrote rid e v w.key in
      record { key = c.0; reader = publish_all c.1 w.reader }

  -- What can happen beside a client: a commit of a changed copy of the snapshot, whose log is the
  -- snapshot's, where the number has room in its 64 bits; a read of the channel; its closing.
  pub data Step : View → View → Type 0 where
    commits :
        {w : View} (now : ℕ) (wrote : Bool) (rid : Option String) (e : Option Event) (v : Snapshot)
        → v.epoch ≡ w.key.snapshot.epoch
        → v.seq ≡ w.key.snapshot.seq
        → v.events ≡ w.key.snapshot.events
        → v.seq + length (news image_json stored size now e w.key.snapshot v) < 2 ^ 64
        → Step w (commit now wrote rid e v w)
    reads : {w : View} → Step w (record w { reader = receive w.reader })
    stops : {w : View} → Step w (record w { reader = stop w.reader })

  pub data Reach (w : View) : View → Type 0 where
    here : Reach w w
    next : {u v : View} → Reach w u → Step u v → Reach w v

  -- What the client has read, and what waits for it, is the replay and the numbers that follow it.
  pub record Tracks (epoch : String) (k : ℕ) (replay : List Event) (w : View) : Type 0 where
    pub same_epoch : w.key.snapshot.epoch ≡ epoch
    pub log : IsNumbered w.key.snapshot
    pub more : List Event
    pub spelled : w.reader.seen ++ w.reader.buffer ≡ replay ++ more
    pub numbered : Numbered epoch k more
    pub caught_up : w.reader.open_channel ≡ true → k + length more ≡ w.key.snapshot.seq

  receive-spelled : (r : Reader) → (receive r).seen ++ (receive r).buffer ≡ r.seen ++ r.buffer
  unfolding receive
  receive-spelled r = elim (Nil-cases r.buffer) [
    | inl e ↦ rw e refl
    | inr (x, xs, e) ↦
        let got : receive r ≡ record r { buffer = xs; seen = r.seen ++ x ∷ [] } =
          ground (arith, e) in
        ap (λ (q : Reader). q.seen ++ q.buffer) got
        ∙ append_assoc r.seen (x ∷ []) xs
        ∙ ap (λ t. r.seen ++ t) (sym e)
  ]

  receive-open : (r : Reader) → (receive r).open_channel ≡ r.open_channel
  unfolding receive
  receive-open r = ground arith

  published-Tracks :
      (epoch : String) (k : ℕ) (replay : List Event) (w : View) (d : KeyData) (s : Snapshot)
      (es : List Event)
      → Tracks epoch k replay w
      → d.snapshot ≡ s
      → Follows epoch w.key.snapshot.seq s es
      → Tracks epoch k replay (record { key = d; reader = publish_all es w.reader })
  published-Tracks epoch k replay w d s es t same f =
      let g = publish_all-Got es w.reader in
      let log' =
        subst (λ x. IsNumbered x) (sym same)
          (subst (λ t. IsLog t s.seq s.events) (sym f.same_epoch) f.log) in
      elim (Bool-cases w.reader.open_channel) [
        | inl live ↦ record {
          same_epoch = ap (λ (x : Snapshot). x.epoch) same ∙ f.same_epoch;
          log = log';
          more = t.more ++ take g.number es;
          spelled =
              (λ i. g.seen i ++ g.buffer i)
              ∙ sym (append_assoc w.reader.seen w.reader.buffer (take g.number es))
              ∙ ap (λ l. l ++ take g.number es) t.spelled
              ∙ append_assoc replay t.more (take g.number es);
          numbered =
              Numbered-append epoch k w.key.snapshot.seq t.more (take g.number es)
                (t.caught_up live) t.numbered (Numbered-take epoch _ g.number es f.numbered);
          caught_up = λ q. omega (
            arith,
            length-append t.more (take g.number es),
            ap length (g.all q),
            t.caught_up live,
            f.reaches,
            ap (λ (x : Snapshot). x.seq) same,
          );
        }
        | inr closed ↦ record {
          same_epoch = ap (λ (x : Snapshot). x.epoch) same ∙ f.same_epoch;
          log = log';
          more = t.more;
          spelled = (λ i. g.seen i ++ g.shut closed i) ∙ t.spelled;
          numbered = t.numbered;
          caught_up = λ q. absurd (cc (g.was_open q));
        }
      ]

  Committed-Tracks :
      (epoch : String) (k : ℕ) (replay : List Event) (w : View)
      (c : KeyData × List Event × Result Snapshot)
      → Tracks epoch k replay w
      → Committed image_json stored size epoch w.key.snapshot.seq w.key c
      → Tracks epoch k replay (record { key = c.0; reader = publish_all c.1 w.reader })
  Committed-Tracks epoch k replay w (d, es, ok s) t h =
      published-Tracks epoch k replay w d s es t h.0 h.1
  Committed-Tracks epoch k replay w (d, es, err e) t h =
      subst (λ l. Tracks epoch k replay (record { key = d; reader = publish_all l w.reader }))
        (sym h.1)
        (unfold publish_all in
          record {
            same_epoch = ap (λ (x : Snapshot). x.epoch) h.0 ∙ t.same_epoch;
            log = subst (λ x. IsNumbered x) (sym h.0) t.log;
            more = t.more;
            spelled = t.spelled;
            numbered = t.numbered;
            caught_up = λ q. t.caught_up q ∙ ap (λ (x : Snapshot). x.seq) (sym h.0);
          })

  Step-Tracks :
      (epoch : String) (k : ℕ) (replay : List Event) {w v : View}
      → Step w v
      → Tracks epoch k replay w
      → Tracks epoch k replay v
  Step-Tracks epoch k replay {w} (commits now wrote rid e v he hn hs room) t =
      unfold commit in
      let c = commit_for image_json stored size now wrote rid e v w.key in
      let copied =
        subst (λ l. IsLog v.epoch v.seq l) (sym hs)
          (subst (λ n. IsLog v.epoch n w.key.snapshot.events) (sym hn)
            (subst (λ x. IsLog x w.key.snapshot.seq w.key.snapshot.events) (sym he) t.log)) in
      let h = commit_numbers image_json stored size now wrote rid e v w.key copied room in
      Committed-Tracks epoch k replay w c t (
        subst (λ n. Committed image_json stored size epoch n w.key c) hn
          (subst (λ x. Committed image_json stored size x v.seq w.key c) (he ∙ t.same_epoch) h))
  Step-Tracks epoch k replay reads t = record {
    same_epoch = t.same_epoch;
    log = t.log;
    more = t.more;
    spelled = receive-spelled _ ∙ t.spelled;
    numbered = t.numbered;
    caught_up = λ q. t.caught_up (sym (receive-open _) ∙ q);
  }
  Step-Tracks epoch k replay stops t = record {
    same_epoch = t.same_epoch;
    log = t.log;
    more = t.more;
    spelled = unfold stop in t.spelled;
    numbered = t.numbered;
    caught_up = λ q. absurd (unfold stop in ground arith);
  }

  Reach-Tracks :
      (epoch : String) (k : ℕ) (replay : List Event) {w v : View}
      → Reach w v
      → Tracks epoch k replay w
      → Tracks epoch k replay v
  Reach-Tracks epoch k replay here t = t
  Reach-Tracks epoch k replay (next r s) t =
      Step-Tracks epoch k replay s (Reach-Tracks epoch k replay r t)

  -- A client that subscribes with its cursor gets either one event that resets it to what is stored
  -- now, or exactly the events after its cursor; and then, whatever commits, reads and closings
  -- follow in whatever order, what it has read and what waits for it is that replay and the next
  -- numbers, one after the other, with none left out or repeated; and as long as its channel is
  -- open these go up to the last number of the log.
  pub no_gap :
      (now subscribers : ℕ) (a : Asked) (d : KeyData) (replay : List Event) {w : View}
      → IsNumbered d.snapshot
      → subscribe now subscribers a d.snapshot ≡ ok replay
      → Reach (record { key = d; reader = subscribed replay }) w
      → Replayed a d.snapshot replay × Tracks d.snapshot.epoch d.snapshot.seq replay w
  no_gap now subscribers a d replay h e r = (
    subscribe-Replayed now subscribers a d.snapshot h e,
    Reach-Tracks d.snapshot.epoch d.snapshot.seq replay r (
        unfold subscribed in
        record {
          same_epoch = refl;
          log = h;
          more = [];
          spelled = refl;
          numbered = tt;
          caught_up = λ q. omega arith;
        }),
  )
