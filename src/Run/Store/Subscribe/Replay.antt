-- ===== src/Run/Store/Subscribe/Replay.antt =====
-- internal/run/store.go: what a client is replayed, and what a channel takes of the events that are
-- published.
use Prim.Native.String.{String}
use mathlib.Core.List.{append_assoc, append-nil}
use text.Mathlib.Text.{◌==◌ as str_eq}
use text.Mathlib.TextEquality.{eq_iff}
use infercat.Common.{
  ℕ, zero, suc, ◌+◌, ◌-◌, ◌≤◌, ◌≡◌, refl, sym, ap, ◌∙◌, subst, Bool, true, false, not, some, List,
  [], ◌∷◌, ◌++◌, ltb, ltb→ge, leb, length, take, drop, keep, arith, length-drop, Bool-cases, inl,
  inr,
}
use infercat.Run.{ok}
use infercat.Run.Store.{Snapshot, Event, Cursor}
use infercat.Run.Store.Numbers.{Numbered, IsNumbered, Numbered-drop}
use infercat.Run.Store.Subscribe.{
  Asked, nothing, malformed, after, number_of, replay_after, reset_event, subscribe, Reader,
  publish, publish_all, list, capacity,
}

number_of-eq : (e : Event) {c : Cursor} → e.cursor ≡ some c → number_of e ≡ c.number
unfolding number_of
number_of-eq e h = ground arith

keep-all :
    (epoch : String) (k n : ℕ) (es : List Event)
    → n ≤ k
    → Numbered epoch k es
    → keep (λ e. ltb n (number_of e)) es ≡ es
keep-all epoch k n [] h p = refl
keep-all epoch k n (e ∷ es) h p =
    ground (arith, number_of-eq e p.0, keep-all epoch (k + 1) n es (omega arith) p.1)

drop-nil : (n : ℕ) → drop {A = Event} n [] ≡ []
drop-nil zero = refl
drop-nil (suc n) = refl

-- The events with a number above `n` are the rest of the log.
keep-Numbered :
    (epoch : String) (k n : ℕ) (es : List Event)
    → k ≤ n
    → Numbered epoch k es
    → keep (λ e. ltb n (number_of e)) es ≡ drop (n - k) es
keep-Numbered epoch k n [] h p = sym (drop-nil (n - k))
keep-Numbered epoch k n (e ∷ es) h p = elim (Bool-cases (ltb k n)) [
  | inl y ↦
      let left : n - k ≡ suc (n - (k + 1)) = ground arith in
      rw left
        (ground (arith, number_of-eq e p.0, keep-Numbered epoch (k + 1) n es (ground arith) p.1))
  | inr z ↦
      let none_left : n - k ≡ 0 = ground arith in
      rw none_left (keep-all epoch k n (e ∷ es) (ground arith) p)
]

-- A replay says what is stored now, or has all that follows the client's cursor.
pub data Replayed : Asked → Snapshot → List Event → Type 0 where
  restarts :
      {a : Asked} {v : Snapshot} {e : Event}
      → e.reset ≡ true
      → e.runs ≡ list v.runs
      → e.cursor ≡ some (record { epoch = v.epoch; number = v.seq })
      → Replayed a v (e ∷ [])
  resumes :
      {epoch : String} {n : ℕ} {v : Snapshot} {es : List Event}
      → epoch ≡ v.epoch
      → Numbered v.epoch n es
      → n + length es ≡ v.seq
      → Replayed (after epoch n) v es

replay-Replayed :
    (now n : ℕ) (epoch : String) (v : Snapshot) (same : Bool)
    → IsNumbered v
    → (same ≡ true → n ≤ v.seq)
    → (same ≡ true → epoch ≡ v.epoch)
    → Replayed (after epoch n) v (replay_after now v (not same) n)
unfolding replay_after
replay-Replayed now n epoch v false h l e = restarts refl refl refl
replay-Replayed now n epoch v true h l e = elim (Bool-cases (ltb n (v.seq - length v.events))) [
  | inl y ↦ rw y (restarts refl refl refl)
  | inr z ↦
      let below = ltb→ge n (v.seq - length v.events) z in
      let kept = keep-Numbered v.epoch (v.seq - length v.events) n v.events below h.1 in
      rw z (
        resumes (e refl)
          (subst (λ t. Numbered v.epoch n t) (sym kept)
            (subst (λ k. Numbered v.epoch k (drop (n - (v.seq - length v.events)) v.events))
              (omega (arith, below))
              (Numbered-drop v.epoch (v.seq - length v.events) (n - (v.seq - length v.events))
                v.events (omega (arith, l refl, h.0)) h.1)))
          (omega (
            arith,
            ap length kept,
            length-drop (n - (v.seq - length v.events)) v.events,
            l refl,
            h.0,
            below,
          )))
]

pub subscribe-Replayed :
    (now subscribers : ℕ) (a : Asked) (v : Snapshot) {replay : List Event}
    → IsNumbered v
    → subscribe now subscribers a v ≡ ok replay
    → Replayed a v replay
unfolding subscribe
subscribe-Replayed now subscribers nothing v {replay} h e = elim (Bool-cases (leb 2 subscribers)) [
  | inl y ↦ absurd (ground arith)
  | inr z ↦
      let same : reset_event now v ∷ [] ≡ replay = unfold replay_after in ground arith in
      subst (λ t. Replayed nothing v t) same
        (restarts (unfold reset_event in refl) (unfold reset_event in refl)
          (unfold reset_event in refl))
]
subscribe-Replayed now subscribers malformed v h e = absurd (ground arith)
subscribe-Replayed now subscribers (after epoch n) v {replay} h e =
    elim (Bool-cases (str_eq epoch v.epoch)) [
      | inl y ↦
          let same : replay_after now v (not (str_eq epoch v.epoch)) n ≡ replay = ground arith in
          subst (λ t. Replayed (after epoch n) v t) same
            (replay-Replayed now n epoch v (str_eq epoch v.epoch) h (λ q. ground arith)
              (λ q. (eq_iff epoch v.epoch).0 q))
      | inr z ↦
          let same : replay_after now v (not (str_eq epoch v.epoch)) n ≡ replay = ground arith in
          subst (λ t. Replayed (after epoch n) v t) same
            (replay-Replayed now n epoch v (str_eq epoch v.epoch) h (λ q. ground arith)
              (λ q. (eq_iff epoch v.epoch).0 q))
    ]

-- What a closing channel got of the events that are published.
pub record Got (es : List Event) (r s : Reader) : Type 0 where
  pub number : ℕ
  pub buffer : s.buffer ≡ r.buffer ++ take number es
  pub seen : s.seen ≡ r.seen
  pub shut : r.open_channel ≡ false → s.buffer ≡ r.buffer
  pub was_open : s.open_channel ≡ true → r.open_channel ≡ true
  pub all : s.open_channel ≡ true → take number es ≡ es

closed-same : (es : List Event) (r : Reader) → r.open_channel ≡ false → publish_all es r ≡ r
unfolding publish_all
closed-same [] r h = refl
closed-same (e ∷ es) r h =
    let same : publish e r ≡ r = unfold publish in rw h in rw same (closed-same es r h)

closed-Got :
    (es ds : List Event) (r s : Reader)
    → s.buffer ≡ r.buffer
    → s.seen ≡ r.seen
    → s.open_channel ≡ false
    → Got es r (publish_all ds s)
closed-Got es ds r s b n h =
    subst (λ t. Got es r t) (sym (closed-same ds s h))
      (record {
        number = 0;
        buffer = b ∙ sym (append-nil r.buffer);
        seen = n;
        shut = λ q. b;
        was_open = λ q. cc;
        all = λ q. cc;
      })

pub publish_all-Got : (es : List Event) (r : Reader) → Got es r (publish_all es r)
unfolding publish_all
publish_all-Got [] r = record {
  number = 0;
  buffer = sym (append-nil r.buffer);
  seen = refl;
  shut = λ q. refl;
  was_open = λ q. q;
  all = λ q. refl;
}
publish_all-Got (e ∷ es) r = elim (Bool-cases r.open_channel) [
  | inr shut ↦ closed-Got (e ∷ es) (e ∷ es) r r refl refl shut
  | inl live ↦ elim (Bool-cases (ltb (length r.buffer) capacity)) [
    | inl room ↦
        let longer = record r { buffer = r.buffer ++ e ∷ [] } in
        let step : longer ≡ publish e r = unfold publish in ground (arith, live, room) in
        let rest = publish_all-Got es longer in
        subst (λ t. Got (e ∷ es) r (publish_all es t)) step
          (record {
            number = suc rest.number;
            buffer = rest.buffer ∙ append_assoc r.buffer (e ∷ []) (take rest.number es);
            seen = rest.seen;
            shut = λ q. cc;
            was_open = λ q. live;
            all = λ q. ap (λ t. e ∷ t) (rest.all q);
          })
    | inr full ↦
        let closed = record r { open_channel = false } in
        let step : closed ≡ publish e r = unfold publish in ground (arith, live, full) in
        subst (λ t. Got (e ∷ es) r (publish_all es t)) step
          (closed-Got (e ∷ es) es r closed refl refl refl)
  ]
]
