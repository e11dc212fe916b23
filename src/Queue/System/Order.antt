-- ===== src/Queue/System/Order.antt =====
-- First come, first served: channels are numbered in the order in which waiters arrive.
use infercat.Common.{
  ℕ, suc, ◌≤◌, ◌<◌, subst, ==_iff, ℤ, pos, ◌-ℤ◌, ◌≡◌, inl, inr, true, List, [], ◌∷◌, ◌++◌,
  if◌then◌else◌, ◌==◌, Bool-cases, arith, All, All-append, All-map,
}
use infercat.Queue.{limit, fill_loop, release, contains, remove}
use infercat.Queue.Cases.{enter_cases, leave_cases}
use infercat.Queue.Fill.{fill_loop-split}
use infercat.Queue.System.{
  System, empty, arrive, start, give_up, finish, Step, arrives, starts, gives_up, finishes, Reach,
  idle, later,
}

-- An increasing list within bounds.
abbrev pub Chain : ℕ → ℕ → List ℕ → Type 0
Chain lo hi [] = lo ≤ hi
Chain lo hi (x ∷ xs) = (lo ≤ x) × Chain (suc x) hi xs

Chain-le : (lo hi : ℕ) (xs : List ℕ) → Chain lo hi xs → lo ≤ hi
Chain-le lo hi [] c = c
Chain-le lo hi (x ∷ xs) c = omega (arith, Chain-le (suc x) hi xs c.1)

Chain-mono : (lo lo' hi : ℕ) (xs : List ℕ) → lo' ≤ lo → Chain lo hi xs → Chain lo' hi xs
Chain-mono lo lo' hi [] h c = omega arith
Chain-mono lo lo' hi (x ∷ xs) h c = (omega arith, c.1)

Chain-split :
    (lo hi : ℕ) (xs ys : List ℕ)
    → Chain lo hi (xs ++ ys)
    → (mid : ℕ) × (lo ≤ mid) × All (λ x. x < mid) xs × Chain mid hi ys
Chain-split lo hi [] ys c = (lo, omega arith, tt, c)
Chain-split lo hi (x ∷ xs) ys c =
    let (mid, h, below, above) = Chain-split (suc x) hi xs ys c.1 in
    (mid, omega arith, (omega arith, below), above)

Chain-append : (lo hi : ℕ) (xs : List ℕ) → Chain lo hi xs → Chain lo (suc hi) (xs ++ hi ∷ [])
Chain-append lo hi [] c = (c, omega arith)
Chain-append lo hi (x ∷ xs) c = (c.0, Chain-append (suc x) hi xs c.1)

Chain-remove : (w lo hi : ℕ) (xs : List ℕ) → Chain lo hi xs → Chain lo hi (remove w xs)
Chain-remove w lo hi [] c = c
Chain-remove w lo hi (x ∷ xs) c = elim (Bool-cases (x == w)) [
  | inl e ↦ rw (e, remove) (Chain-mono (suc x) lo hi xs (omega arith) c.1)
  | inr e ↦ rw (e, remove) (c.0, Chain-remove w (suc x) hi xs c.1)
]

All-remove : (P : ℕ → Type 0) (w : ℕ) (xs : List ℕ) → All P xs → All P (remove w xs)
All-remove P w [] h = tt
All-remove P w (x ∷ xs) h = elim (Bool-cases (x == w)) [
  | inl e ↦ rw (e, remove) h.1
  | inr e ↦ rw (e, remove) (h.0, All-remove P w xs h.1)
]

-- Those that were handed a slot all came before those that still wait, who stand in order.
abbrev pub IsOrdered : System → Type 0
IsOrdered s = (lo : ℕ) × All (λ p. p < lo) s.pending × Chain lo s.next s.waiters

below_mono : (lo hi : ℕ) (xs : List ℕ) → lo ≤ hi → All (λ x. x < lo) xs → All (λ x. x < hi) xs
below_mono lo hi xs h = All-map (λ x. x < lo) (λ x. x < hi) xs (λ x lt. omega arith)

-- A hand-over moves the front of the line behind those that were served before.
filled :
    (lo hi l : ℕ) (n : ℤ) (ps ws : List ℕ)
    → All (λ p. p < lo) ps
    → Chain lo hi ws
    → (mid : ℕ) × All (λ p. p < mid) (ps ++ (fill_loop l n ws).handed)
      × Chain mid hi (fill_loop l n ws).rest
filled lo hi l n ps ws below c =
    let (mid, h, front, back) = Chain-split lo hi _ _ (rw (fill_loop-split l n ws) c) in
    (mid, All-append (λ p. p < mid) ps _ (below_mono lo mid ps h below) front, back)

arrive-IsOrdered : (cap : ℤ) (s : System) → IsOrdered s → IsOrdered (arrive cap s)
unfolding arrive
arrive-IsOrdered cap s (lo, below, c) =
    let (mid, b, c') = filled lo s.next (limit cap) s.in_flight s.pending s.waiters below c in
    enter_cases cap s.queue
      (λ e.
        (lo : ℕ) × All (λ p. p < lo) (s.pending ++ e.handed)
        × Chain lo e.queue.next e.queue.waiters)
      (λ _. (mid, b, c')) (λ _ _. (mid, b, c')) (λ _ _. (mid, b, Chain-append mid s.next _ c'))

append-nil_All : (P : ℕ → Type 0) (xs : List ℕ) → All P xs → All P (xs ++ [])
append-nil_All P xs h = All-append P xs [] h tt

give_up-IsOrdered : (cap : ℤ) (w : ℕ) (s : System) → IsOrdered s → IsOrdered (give_up cap w s)
unfolding give_up
give_up-IsOrdered cap w s (lo, below, c) =
    leave_cases cap s.queue w
      (λ e.
        (lo : ℕ) × All (λ p. p < lo)
          ((if contains w s.waiters then s.pending else remove w s.pending) ++ e.handed)
        × Chain lo e.queue.next e.queue.waiters)
      (λ e. rw e (lo, append-nil_All _ s.pending below, Chain-remove w lo s.next s.waiters c))
      (λ e. rw e (
        filled lo s.next (limit cap) _ (remove w s.pending) s.waiters
          (All-remove _ w s.pending below) c))

finish-IsOrdered : (cap : ℤ) (s : System) → IsOrdered s → IsOrdered (finish cap s)
unfolding finish release
finish-IsOrdered cap s (lo, below, c) =
    filled lo s.next (limit cap) (s.in_flight -ℤ pos 1) s.pending s.waiters below c

start-IsOrdered : (w : ℕ) (s : System) → IsOrdered s → IsOrdered (start w s)
unfolding start
start-IsOrdered w s (lo, below, c) = (lo, All-remove _ w s.pending below, c)

pub Step-IsOrdered : {s t : System} → Step s t → IsOrdered s → IsOrdered t
Step-IsOrdered {s} (arrives cap) o = arrive-IsOrdered cap s o
Step-IsOrdered {s} (starts w _) o = start-IsOrdered w s o
Step-IsOrdered {s} (gives_up cap w _) o = give_up-IsOrdered cap w s o
Step-IsOrdered {s} (finishes cap _) o = finish-IsOrdered cap s o

pub Reach-IsOrdered : {s : System} → Reach s → IsOrdered s
unfolding empty
Reach-IsOrdered idle = (0, tt, omega arith)
Reach-IsOrdered (later r st) = Step-IsOrdered st (Reach-IsOrdered r)

All-contains : (P : ℕ → Type 0) (w : ℕ) (xs : List ℕ) → All P xs → contains w xs ≡ true → P w
All-contains P w [] h e = absurd (cc)
All-contains P w (x ∷ xs) h e = elim (Bool-cases (x == w)) [
  | inl t ↦ subst P ((==_iff x w).0 t) h.0
  | inr t ↦ All-contains P w xs h.1 (ground arith)
]

pub Chain-contains :
    (w lo hi : ℕ) (xs : List ℕ) → Chain lo hi xs → contains w xs ≡ true → (lo ≤ w) × (w < hi)
Chain-contains w lo hi [] c e = cc
Chain-contains w lo hi (x ∷ xs) c e =
    ground (arith, Chain-contains w (suc x) hi xs c.1, Chain-le (suc x) hi xs c.1)

-- A slot is handed out in arrival order: in every reachable state each waiter that was handed a
-- slot arrived before each waiter that still waits.
pub served_in_order :
    {s : System} (p w : ℕ)
    → Reach s
    → contains p s.pending ≡ true
    → contains w s.waiters ≡ true
    → p < w
served_in_order {s} p w r hp hw =
    let (lo, below, c) = Reach-IsOrdered r in
    omega (arith, All-contains _ p s.pending below hp, Chain-contains w lo s.next s.waiters c hw)
