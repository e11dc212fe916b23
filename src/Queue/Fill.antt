-- ===== src/Queue/Fill.antt =====
-- What `fill` does: the oldest waiters get the free slots.
use infercat.Common.{
  ℕ, zero, suc, ℤ, pos, ◌+ℤ◌, ◌-ℤ◌, ◌≤ℤ◌, ◌<ℤ◌, ltb_ℤ, pos_part, int_laws, ◌≡◌, refl, ◌∙◌, ◌⊎◌, inl,
  inr, List, [], ◌∷◌, ◌++◌, Bool-cases, length, take, drop, min, arith, ltb→lt, ltb→ge,
}
use infercat.Queue.{Filled, fill_loop}

pub fill_loop-split :
    (l : ℕ) (n : ℤ) (ws : List ℕ) → (fill_loop l n ws).handed ++ (fill_loop l n ws).rest ≡ ws
unfolding fill_loop
fill_loop-split l n [] = refl
fill_loop-split l n (w ∷ ws) = ground (arith, fill_loop-split l (n +ℤ pos 1) ws)

one_more : (n : ℤ) (k : ℕ) → n +ℤ pos 1 +ℤ pos k ≡ n +ℤ pos (suc k)
one_more n k = omega int_laws

none_more : (n : ℤ) → n ≡ n +ℤ pos 0
none_more n = omega int_laws

pub fill_loop-slots :
    (l : ℕ) (n : ℤ) (ws : List ℕ)
    → (fill_loop l n ws).slots ≡ n +ℤ pos (length (fill_loop l n ws).handed)
unfolding fill_loop
fill_loop-slots l n [] = none_more n
fill_loop-slots l n (w ∷ ws) = elim (Bool-cases (ltb_ℤ n (pos l))) [
  | inl e ↦
      rw (e, fill_loop)
        (fill_loop-slots l (n +ℤ pos 1) ws
          ∙ one_more n (length (fill_loop l (n +ℤ pos 1) ws).handed))
  | inr e ↦ rw (e, fill_loop) (none_more n)
]

-- The loop stops only when nobody waits or no slot is left.
pub fill_loop_stops :
    (l : ℕ) (n : ℤ) (ws : List ℕ)
    → ((fill_loop l n ws).rest ≡ []) ⊎ (pos l ≤ℤ (fill_loop l n ws).slots)
unfolding fill_loop
fill_loop_stops l n [] = inl refl
fill_loop_stops l n (w ∷ ws) = elim (Bool-cases (ltb_ℤ n (pos l))) [
  | inl e ↦ rw (e, fill_loop) (fill_loop_stops l (n +ℤ pos 1) ws)
  | inr e ↦ rw (e, fill_loop) (inr (ltb→ge _ _ e))
]

-- From at most the limit it never goes past it.
pub fill_loop_bounded :
    (l : ℕ) (n : ℤ) (ws : List ℕ) → n ≤ℤ pos l → (fill_loop l n ws).slots ≤ℤ pos l
unfolding fill_loop
fill_loop_bounded l n [] h = h
fill_loop_bounded l n (w ∷ ws) h = elim (Bool-cases (ltb_ℤ n (pos l))) [
  | inl e ↦ rw (e, fill_loop) (fill_loop_bounded l (n +ℤ pos 1) ws (omega (int_laws, ltb→lt _ _ e)))
  | inr e ↦ rw (e, fill_loop) h
]

-- At or past the limit it hands nothing over.
pub fill_loop_full :
    (l : ℕ) (n : ℤ) (ws : List ℕ)
    → pos l ≤ℤ n
    → fill_loop l n ws ≡ record { slots = n; handed = []; rest = ws }
unfolding fill_loop
fill_loop_full l n [] h = refl
fill_loop_full l n (w ∷ ws) h = elim (Bool-cases (ltb_ℤ n (pos l))) [
  | inl e ↦ absurd (omega (arith, ltb→lt _ _ e))
  | inr e ↦ rw (e, fill_loop)
]

-- The room under the limit, which a source `int` may put below zero.
abbrev pub room : ℕ → ℤ → ℕ
room l n = pos_part (pos l -ℤ n)

room_none : (l : ℕ) (n : ℤ) → pos l ≤ℤ n → room l n ≡ 0
unfolding ◌-ℤ◌
room_none l n h = ground arith

room_some : (l : ℕ) (n : ℤ) → n <ℤ pos l → room l n ≡ suc (room l (n +ℤ pos 1))
unfolding ◌-ℤ◌ ◌+ℤ◌
room_some l n h = ground arith

prefix : ℤ → ℕ → List ℕ → Filled
prefix n k ws = record { slots = n +ℤ pos k; handed = take k ws; rest = drop k ws }

prefix_none : (n : ℤ) (ws : List ℕ) → record { slots = n; handed = []; rest = ws } ≡ prefix n 0 ws
unfolding prefix
prefix_none n ws = cc (none_more n)

min_zero : (k : ℕ) → min k 0 ≡ 0
min_zero k = omega arith

min-suc : (k m : ℕ) → min (suc k) (suc m) ≡ suc (min k m)
min-suc k m = omega arith

min_zero_left : (m : ℕ) → min 0 m ≡ 0
min_zero_left m = omega arith

room_zero : (l : ℕ) (n : ℤ) → room l n ≡ 0 → pos l ≤ℤ n
unfolding ◌-ℤ◌
room_zero l n e = ground arith

room_step : (l k : ℕ) (n : ℤ) → n <ℤ pos l → room l n ≡ suc k → room l (n +ℤ pos 1) ≡ k
room_step l k n h e = omega (arith, room_some l n h)

prefix-step :
    (n : ℤ) (w k : ℕ) (ws : List ℕ) (r : Filled)
    → r ≡ prefix (n +ℤ pos 1) k ws
    → record { slots = r.slots; handed = w ∷ r.handed; rest = r.rest } ≡ prefix n (suc k) (w ∷ ws)
unfolding prefix
prefix-step n w k ws r e = rw e (cc (one_more n k))

fill_loop-prefix :
    (l : ℕ) (n : ℤ) (ws : List ℕ) (k : ℕ)
    → room l n ≡ k
    → fill_loop l n ws ≡ prefix n (min k (length ws)) ws
unfolding fill_loop
fill_loop-prefix l n [] k e = rw (min_zero k) (prefix_none n [])
fill_loop-prefix l n (w ∷ ws) zero e =
    rw (min_zero_left (length (w ∷ ws)))
      (fill_loop_full l n (w ∷ ws) (room_zero l n e) ∙ prefix_none n (w ∷ ws))
fill_loop-prefix l n (w ∷ ws) (suc k) e = elim (Bool-cases (ltb_ℤ n (pos l))) [
  | inl t ↦
      rw (t, fill_loop, min-suc k (length ws))
        (prefix-step n w _ ws _
          (fill_loop-prefix l (n +ℤ pos 1) ws k (room_step l k n (ltb→lt _ _ t) e)))
  | inr t ↦ absurd (omega (arith, room_none l n (ltb→ge _ _ t)))
]

-- The loop of `fill` hands the free slots to the front of the waiting line, as many as there are
-- or as there are waiters, and leaves the rest of the line.
pub fill_loop-take-drop :
    (l : ℕ) (n : ℤ) (ws : List ℕ)
    → let k = min (room l n) (length ws) in
      fill_loop l n ws ≡ record { slots = n +ℤ pos k; handed = take k ws; rest = drop k ws }
unfolding prefix
fill_loop-take-drop l n ws = fill_loop-prefix l n ws (room l n) refl
