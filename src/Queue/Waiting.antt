-- ===== src/Queue/Waiting.antt =====
-- The waiter's side of `acquire`: a slot is taken only by a friend who is still there.
use infercat.Common.{◌≡◌, refl, Bool, true, false, none, some, List, [], ◌∷◌, ◌++◌}
use infercat.Queue.{Ready, handed_over, timed_out, client_gone, tick, wait_loop, wait}

-- The keepalives that a waiter saw, all of them sent.
abbrev pub AllSent : List Ready → Type 0
AllSent [] = Unit
AllSent (handed_over _ ∷ _) = ⊥
AllSent (timed_out ∷ _) = ⊥
AllSent (client_gone ∷ _) = ⊥
AllSent (tick failed ∷ rs) = (failed ≡ false) × AllSent rs

-- What the loop took before the event that ended it, and that event.
pub record Ends (rs : List Ready) (last : Ready) : Type 0 where
  pub before : List Ready
  pub after : List Ready
  pub split : rs ≡ before ++ last ∷ after
  pub sent : AllSent before

Ends-cons : (rs : List Ready) (last : Ready) → Ends rs last → Ends (tick false ∷ rs) last
Ends-cons rs last e = record {
  before = tick false ∷ e.before;
  after = e.after;
  split = rw e.split;
  sent = (refl, e.sent);
}

loop_served : (rs : List Ready) → wait_loop true rs ≡ some none → Ends rs (handed_over false)
unfolding wait_loop
loop_served [] h = absurd (cc)
loop_served (handed_over true ∷ rs) h = absurd (cc)
loop_served (handed_over false ∷ rs) h = record { before = []; after = rs; split = refl; sent = tt }
loop_served (timed_out ∷ rs) h = absurd (cc)
loop_served (client_gone ∷ rs) h = absurd (cc)
loop_served (tick true ∷ rs) h = absurd (cc)
loop_served (tick false ∷ rs) h = Ends-cons rs (handed_over false) (loop_served rs h)

-- `wait` of a streaming request returns nil only if its first word and every keepalive before the
-- hand-over reached the friend, no timeout and no departure came first, and the friend was there
-- at the hand-over.
pub wait_served :
    (failed : Bool) (rs : List Ready)
    → wait (some failed) rs ≡ some none
    → (failed ≡ false) × Ends rs (handed_over false)
unfolding wait
wait_served true rs h = absurd (cc)
wait_served false rs h = (refl, loop_served rs h)
