-- ===== src/Queue/System/Overtaking.antt =====
-- Nobody overtakes: no step puts more requests in front of one that waits.
use infercat.Common.{
  ℕ, suc, ◌+◌, ◌≤◌, ◌<◌, ℤ, pos, ◌-ℤ◌, ◌≡◌, ap, true, List, [], ◌∷◌, ◌++◌, if◌then◌else◌, ltb,
  arith,
}
use infercat.Queue.{limit, fill_loop, release, contains, remove}
use infercat.Queue.Cases.{enter_cases, leave_cases}
use infercat.Queue.Fill.{fill_loop-split}
use infercat.Queue.System.{
  System, arrive, start, give_up, finish, Step, arrives, starts, gives_up, finishes, Reach,
}
use infercat.Queue.System.Order.{Reach-IsOrdered, Chain-contains}

-- How many of the waiting requests arrived before `w`.
abbrev pub earlier : ℕ → List ℕ → ℕ
earlier w [] = 0
earlier w (x ∷ xs) = let rest = earlier w xs in if ltb x w then suc rest else rest

earlier-append : (w : ℕ) (xs ys : List ℕ) → earlier w (xs ++ ys) ≡ earlier w xs + earlier w ys
earlier-append w [] ys = omega arith
earlier-append w (x ∷ xs) ys = ground (arith, earlier-append w xs ys)

earlier-remove : (w v : ℕ) (xs : List ℕ) → earlier w (remove v xs) ≤ earlier w xs
earlier-remove w v [] = omega arith
earlier-remove w v (x ∷ xs) = ground (arith, earlier-remove w v xs)

earlier-filled : (w l : ℕ) (n : ℤ) (ws : List ℕ) → earlier w (fill_loop l n ws).rest ≤ earlier w ws
earlier-filled w l n ws = omega (
  arith,
  earlier-append w (fill_loop l n ws).handed (fill_loop l n ws).rest,
  ap (earlier w) (fill_loop-split l n ws),
)

earlier-last : (w v : ℕ) (xs : List ℕ) → w < v → earlier w (xs ++ v ∷ []) ≡ earlier w xs
earlier-last w v xs h = ground (arith, earlier-append w xs (v ∷ []))

Step-earlier :
    {s t : System} (w : ℕ) → Step s t → w < s.next → earlier w t.waiters ≤ earlier w s.waiters
unfolding arrive start give_up finish release
Step-earlier {s} w (arrives cap) h =
    enter_cases cap s.queue (λ e. earlier w e.queue.waiters ≤ earlier w s.waiters) (λ _. shorter)
      (λ _ _. shorter)
      (λ _ _.
        rw (earlier-last w s.next (fill_loop (limit cap) s.in_flight s.waiters).rest h) shorter)
  where
    shorter : earlier w (fill_loop (limit cap) s.in_flight s.waiters).rest ≤ earlier w s.waiters
    shorter = earlier-filled w (limit cap) s.in_flight s.waiters
Step-earlier {s} w (starts v _) h = omega arith
Step-earlier {s} w (gives_up cap v _) h =
    leave_cases cap s.queue v (λ e. earlier w e.queue.waiters ≤ earlier w s.waiters)
      (λ _. earlier-remove w v s.waiters)
      (λ _. earlier-filled w (limit cap) (s.in_flight -ℤ pos 1) s.waiters)
Step-earlier {s} w (finishes cap _) h =
    earlier-filled w (limit cap) (s.in_flight -ℤ pos 1) s.waiters

-- While a request waits, no step of any request puts another one in front of it.
pub no_overtaking :
    {s t : System} (w : ℕ)
    → Reach s
    → Step s t
    → contains w s.waiters ≡ true
    → earlier w t.waiters ≤ earlier w s.waiters
no_overtaking {s} w r st h =
    let (lo, below, c) = Reach-IsOrdered r in
    Step-earlier w st (Chain-contains w lo s.next s.waiters c h).1
