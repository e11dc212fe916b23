-- ===== src/Queue/System/Capacity.antt =====
-- The engine's capacity. Each step keeps the counter below the cap read at that step or lets it
-- drain; while the cap stays the same no slot idles before a waiter, and the line is bounded.
use infercat.Common.{
  ℕ, suc, ◌*◌, ◌≤◌, ◌<◌, ℤ, pos, ◌+ℤ◌, ◌-ℤ◌, ◌≤ℤ◌, ◌<ℤ◌, +ℤ_parts, -ℤ_parts, ◌≡◌, refl, ap, ◌⊎◌,
  inl, inr, List, [], ◌∷◌, ◌++◌, max, length, length-append, arith,
}
use infercat.Queue.{SlotQueue, limit, fill_loop, enter, leave, release, remove}
use infercat.Queue.Cases.{enter_cases, leave_cases}
use infercat.Queue.Fill.{fill_loop-split, fill_loop_stops, fill_loop_bounded}
use infercat.Queue.System.{
  System, empty, arrive, start, give_up, finish, Step, arrives, starts, gives_up, finishes,
}

-- A free slot and a waiter do not stand side by side, and the line has at most so many places.
pub record IsBusy (l : ℕ) (q : SlotQueue) : Type 0 where
  pub working : (q.waiters ≡ []) ⊎ (pos l ≤ℤ q.in_flight)
  pub within : q.in_flight ≤ℤ pos l
  pub short : length q.waiters ≤ max 2 (2 * l)

length-rest : (l : ℕ) (n : ℤ) (ws : List ℕ) → length (fill_loop l n ws).rest ≤ length ws
length-rest l n ws = omega (
  arith,
  ap length (fill_loop-split l n ws),
  length-append {0} (fill_loop l n ws).handed (fill_loop l n ws).rest,
)

length-remove-le : (w : ℕ) (ws : List ℕ) → length (remove w ws) ≤ length ws
length-remove-le w [] = omega arith
length-remove-le w (x ∷ ws) = ground (arith, length-remove-le w ws)

remove-nil : (w : ℕ) (ws : List ℕ) → ws ≡ [] → remove w ws ≡ []
remove-nil w [] e = refl
remove-nil w (x ∷ ws) e = cc

filled :
    (l next : ℕ) (n : ℤ) (ws : List ℕ)
    → n ≤ℤ pos l
    → length ws ≤ max 2 (2 * l)
    → let r = fill_loop l n ws in
      IsBusy l (record { in_flight = r.slots; waiters = r.rest; next = next })
filled l next n ws h k = record {
  working = fill_loop_stops l n ws;
  within = fill_loop_bounded l n ws h;
  short = omega (arith, length-rest l n ws);
}

admit-IsBusy :
    (l : ℕ) (q : SlotQueue)
    → IsBusy l q
    → q.in_flight <ℤ pos l
    → IsBusy l (record q { in_flight = q.in_flight +ℤ pos 1 })
admit-IsBusy l q b h = record {
  working = ground (arith, b.working);
  within = omega (arith, +ℤ_parts q.in_flight (pos 1));
  short = b.short;
}

queue-IsBusy :
    (l : ℕ) (q : SlotQueue)
    → IsBusy l q
    → pos l ≤ℤ q.in_flight
    → length q.waiters < max 2 (2 * l)
    → IsBusy l (record q { waiters = q.waiters ++ q.next ∷ []; next = suc q.next })
queue-IsBusy l q b h k = record {
  working = inr h;
  within = b.within;
  short = omega (arith, length-append {0} q.waiters (q.next ∷ []));
}

module _ (cap : ℤ) (q : SlotQueue) (b : IsBusy (limit cap) q) where
  enter-IsBusy : IsBusy (limit cap) (enter cap q).queue
  enter-IsBusy =
      let f = filled (limit cap) q.next q.in_flight q.waiters b.within b.short in
      enter_cases cap q (λ e. IsBusy (limit cap) e.queue) (λ h. admit-IsBusy (limit cap) _ f h)
        (λ _ _. f) (λ h k. queue-IsBusy (limit cap) _ f h k)

  less : q.in_flight -ℤ pos 1 ≤ℤ pos (limit cap)
  less = omega (arith, -ℤ_parts q.in_flight (pos 1), b.within)

  release-IsBusy : IsBusy (limit cap) (release cap q).queue
  unfolding release
  release-IsBusy = filled (limit cap) q.next (q.in_flight -ℤ pos 1) q.waiters less b.short

  removed-IsBusy : (w : ℕ) → IsBusy (limit cap) (record q { waiters = remove w q.waiters })
  removed-IsBusy w = record {
    working = ground (arith, b.working, remove-nil w q.waiters);
    within = b.within;
    short = omega (arith, b.short, length-remove-le w q.waiters);
  }

  leave-IsBusy : (w : ℕ) → IsBusy (limit cap) (leave cap w q).queue
  leave-IsBusy w =
      leave_cases cap q w (λ e. IsBusy (limit cap) e.queue) (λ _. removed-IsBusy w)
        (λ _. filled (limit cap) q.next (q.in_flight -ℤ pos 1) q.waiters less b.short)

-- The step read this cap.
abbrev pub AtCap : (cap : ℤ) {s t : System} → Step s t → Type 0
AtCap cap (arrives c) = c ≡ cap
AtCap cap (starts _ _) = Unit
AtCap cap (gives_up c _ _) = c ≡ cap
AtCap cap (finishes c _) = c ≡ cap

-- The states that are reached while the cap stays the same.
pub data Steady (cap : ℤ) : System → Type 0 where
  idle : Steady cap empty
  later : {s t : System} → Steady cap s → (st : Step s t) → AtCap cap st → Steady cap t

Step-IsBusy :
    {s t : System} (cap : ℤ) (st : Step s t)
    → AtCap cap st
    → IsBusy (limit cap) s.queue
    → IsBusy (limit cap) t.queue
unfolding arrive start give_up finish
Step-IsBusy {s} cap (arrives c) e b = rw e (enter-IsBusy cap s.queue b)
Step-IsBusy {s} cap (starts _ _) e b = b
Step-IsBusy {s} cap (gives_up c w _) e b = rw e (leave-IsBusy cap s.queue b w)
Step-IsBusy {s} cap (finishes c _) e b = rw e (release-IsBusy cap s.queue b)

-- Under a steady cap, in every interleaving: a request waits only while all slots are taken, no
-- more than `limit cap` slots are out, and at most `max 2 (2 * limit cap)` requests wait.
pub Steady-IsBusy : (cap : ℤ) {s : System} → Steady cap s → IsBusy (limit cap) s.queue
unfolding empty
Steady-IsBusy c idle = record { working = inl refl; within = omega arith; short = omega arith }
Steady-IsBusy c (later r st e) = Step-IsBusy c st e (Steady-IsBusy c r)
