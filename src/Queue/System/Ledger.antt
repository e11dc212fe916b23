-- ===== src/Queue/System/Ledger.antt =====
-- No slot is lost or made up: `inFlight` counts the requests that hold a slot and the waiters
-- that were handed one, in every interleaving.
use infercat.Common.{
  ℕ, suc, ◌+◌, ◌-◌, ◌<◌, ℤ, pos, ◌+ℤ◌, ◌-ℤ◌, pos-add, pos-sub, ◌≡◌, refl, ap, ◌∙◌, ◌⊎◌, true, List,
  [], ◌∷◌, ◌++◌, length, length-append, arith,
}
use infercat.Queue.{limit, fill_loop, enter, leave, release, contains, remove}
use infercat.Queue.Fill.{fill_loop-slots}
use infercat.Queue.System.{
  System, empty, granted, arrive, start, give_up, finish, Step, arrives, starts, gives_up, finishes,
  Reach, idle, later,
}

abbrev pub IsBalanced : System → Type 0
IsBalanced s = s.in_flight ≡ pos (s.active + length s.pending)

filled :
    (l m : ℕ) (n : ℤ) (ws : List ℕ)
    → n ≡ pos m
    → (fill_loop l n ws).slots ≡ pos (m + length (fill_loop l n ws).handed)
filled l m n ws e =
    fill_loop-slots l n ws ∙ ap (λ x. x +ℤ pos (length (fill_loop l n ws).handed)) e ∙ pos-add m _

arrive-IsBalanced : (cap : ℤ) (s : System) → IsBalanced s → IsBalanced (arrive cap s)
unfolding arrive enter granted
arrive-IsBalanced cap s b = ground (
  arith,
  filled (limit cap) (s.active + length s.pending) s.in_flight s.waiters b,
  pos-add
      (s.active + length s.pending + length (fill_loop (limit cap) s.in_flight s.waiters).handed) 1,
  length-append s.pending (fill_loop (limit cap) s.in_flight s.waiters).handed,
)

length-remove :
    (w : ℕ) (ws : List ℕ) → contains w ws ≡ true → suc (length (remove w ws)) ≡ length ws
length-remove w [] h = cc
length-remove w (x ∷ ws) h = ground (arith, length-remove w ws)

start-IsBalanced :
    (w : ℕ) (s : System) → contains w s.pending ≡ true → IsBalanced s → IsBalanced (start w s)
unfolding start
start-IsBalanced w s h b = ground (arith, length-remove w s.pending h)

one_less : (m : ℕ) (n : ℤ) → 0 < m → n ≡ pos m → n -ℤ pos 1 ≡ pos (m - 1)
one_less m n h e = ap (λ x. x -ℤ pos 1) e ∙ pos-sub m 1 h

finish-IsBalanced : (cap : ℤ) (s : System) → 0 < s.active → IsBalanced s → IsBalanced (finish cap s)
unfolding finish release
finish-IsBalanced cap s h b = ground (
  arith,
  filled (limit cap) (s.active + length s.pending - 1) (s.in_flight -ℤ pos 1) s.waiters,
  one_less (s.active + length s.pending) s.in_flight,
  length-append s.pending (fill_loop (limit cap) (s.in_flight -ℤ pos 1) s.waiters).handed,
)

append-nil_length : (xs : List ℕ) → length (xs ++ []) ≡ length xs
append-nil_length xs = omega (arith, length-append {0} xs [])

-- A waiter that gives up after it was served hands its slot back to the queue.
give_up-IsBalanced :
    (cap : ℤ) (w : ℕ) (s : System)
    → (contains w s.waiters ≡ true) ⊎ (contains w s.pending ≡ true)
    → IsBalanced s
    → IsBalanced (give_up cap w s)
unfolding give_up leave
give_up-IsBalanced cap w s h b = ground (
  arith,
  filled (limit cap) (s.active + length s.pending - 1) (s.in_flight -ℤ pos 1) s.waiters,
  one_less (s.active + length s.pending) s.in_flight,
  length-remove w s.pending,
  append-nil_length s.pending,
  length-append (remove w s.pending)
      (fill_loop (limit cap) (s.in_flight -ℤ pos 1) s.waiters).handed,
)

pub Step-IsBalanced : {s t : System} → Step s t → IsBalanced s → IsBalanced t
Step-IsBalanced {s} (arrives cap) b = arrive-IsBalanced cap s b
Step-IsBalanced {s} (starts w h) b = start-IsBalanced w s h b
Step-IsBalanced {s} (gives_up cap w h) b = give_up-IsBalanced cap w s h b
Step-IsBalanced {s} (finishes cap h) b = finish-IsBalanced cap s h b

-- In every reachable state the counter `inFlight` is exactly the number of requests that hold a
-- slot plus the number of waiters that were handed one and have not returned from `wait` yet.
pub Reach-IsBalanced : {s : System} → Reach s → IsBalanced s
unfolding empty
Reach-IsBalanced idle = refl
Reach-IsBalanced (later r st) = Step-IsBalanced st (Reach-IsBalanced r)
