-- ===== src/Queue/System/Tests.antt =====
-- The queue on small inputs.
use infercat.Common.{◌≤◌, ◌<◌, pos, ◌+ℤ◌, ◌-ℤ◌, ◌≡◌, refl, false, List, [], ◌∷◌, arith}
use infercat.Queue.{refused, fill_loop, fill, enter, release, Ready, handed_over, timed_out, tick}
use infercat.Queue.System.{
  System, empty, granted, arrive, finish, arrives, finishes, Reach, idle, later,
}
use infercat.Queue.System.Ledger.{IsBalanced, Reach-IsBalanced}
use infercat.Queue.System.Order.{served_in_order}
use infercat.Queue.System.Overtaking.{earlier, no_overtaking}
use infercat.Queue.System.Capacity.{IsBusy, Steady, Steady-IsBusy}

-- Three requests at an engine with one slot: the first runs, the others wait.
abbrev line : System
line = arrive (pos 1) (arrive (pos 1) (arrive (pos 1) empty))

-- The first finishes, and the second is handed the slot.
abbrev handed : System
handed = finish (pos 1) line

line-active : 0 < line.active
unfolding arrive enter fill fill_loop granted empty ◌+ℤ◌
line-active = omega arith

line-Reach : Reach line
line-Reach = later (later (later idle (arrives (pos 1))) (arrives (pos 1))) (arrives (pos 1))

handed-Reach : Reach handed
handed-Reach = later line-Reach (finishes (pos 1) line-active)

handed_state : handed ≡ record {
  queue = record { in_flight = pos 1; waiters = 1 ∷ []; next = 2 };
  pending = 0 ∷ [];
  active = 0;
}
unfolding arrive finish enter release fill fill_loop granted empty ◌+ℤ◌ ◌-ℤ◌
handed_state = refl

-- A line of two before one slot is full.
refused_third : (enter (pos 1) line.queue).result ≡ refused 2
unfolding arrive enter fill fill_loop granted empty ◌+ℤ◌
refused_third = refl

Reach-IsBalanced_example : IsBalanced handed
Reach-IsBalanced_example = Reach-IsBalanced handed-Reach

served_in_order_example : ◌<◌ 0 1
unfolding arrive finish enter release fill fill_loop granted empty ◌+ℤ◌ ◌-ℤ◌
served_in_order_example = served_in_order 0 1 handed-Reach refl refl

no_overtaking_example : earlier 1 handed.waiters ≤ earlier 1 line.waiters
unfolding arrive enter fill fill_loop granted empty ◌+ℤ◌
no_overtaking_example = no_overtaking 1 line-Reach (finishes (pos 1) line-active) refl

line-Steady : Steady (pos 1) line
line-Steady =
    Steady.later
      (Steady.later (Steady.later Steady.idle (arrives (pos 1)) refl) (arrives (pos 1)) refl)
      (arrives (pos 1)) refl

Steady-IsBusy_example : IsBusy 1 line.queue
Steady-IsBusy_example = Steady-IsBusy (pos 1) line-Steady

abbrev events : List Ready
events = tick false ∷ handed_over false ∷ timed_out ∷ []
