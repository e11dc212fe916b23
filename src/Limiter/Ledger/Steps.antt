-- ===== src/Limiter/Ledger/Steps.antt =====
-- Every call of the limiter keeps the books.
use infercat.Common.{
  ℕ, suc, ℤ, pos, ◌+ℤ◌, ◌-ℤ◌, ◌≤ℤ◌, ◌<ℤ◌, max_ℤ, ltb_ℤ, int_laws, +ℤ_parts, -ℤ_parts, pos-add,
  pos-sub, ◌≡◌, refl, sym, ap, subst, ◌∙◌, Bool, true, false, List, [], ◌∷◌, ◌++◌, All, All-append,
  arith, Bool-cases, inl, inr, ltb→lt,
}
use infercat.Limits.{Limits, tokens}
use infercat.Limiter.{
  KeyState, Admission, MeterState, Result, ok, charges, prune, busy, count_admission,
  admit_resource, put_reservation, reserve, charge_meter, settle, same_day, midnight,
}
use infercat.Limiter.Admit.{seen, admit_cases}
use infercat.Limiter.Reserve.{meter, minute_fit, day_fit, reserve_cases}
use infercat.Limiter.Grant.{minute_bound, day_bound}
use infercat.Limiter.Ledger.Books.{
  Kept, NonNeg, Charged, holding, held, holding-insert, held-insert, All-insert, All-delete,
  charges-append, prune-Kept,
}

abbrev pub KeptAt : Limits → KeyState → List Admission → Type 0
KeptAt lim st live = Kept lim st.in_flight (st.meters tokens) live

pub pruned :
    {lim : Limits} {live : List Admission} (now : ℕ) (st : KeyState)
    → KeptAt lim st live
    → KeptAt lim (prune now st) live
unfolding prune
pruned now st k = prune-Kept now (same_day st.day (midnight now)) k

zero_sum : (x : ℤ) → pos 0 +ℤ x ≡ x
zero_sum x = omega int_laws

one_more_at_once :
    (lim : Limits) (st : KeyState) (detached : Bool)
    → busy lim detached st ≡ false
    → detached ≡ false
    → pos 0 <ℤ lim.max_concurrent
    → st.in_flight +ℤ pos 1 ≤ℤ lim.max_concurrent
unfolding busy ◌+ℤ◌
one_more_at_once lim st detached b d h = ground arith

-- A new admission holds nothing yet, and a place unless it is detached.
counted :
    (lim : Limits) (now : ℕ) (detached : Bool) (st : KeyState) (live : List Admission) (s : ℕ)
    → busy lim detached st ≡ false
    → KeptAt lim st live
    → KeptAt lim
        (count_admission now detached st)
        (record { detached = detached; seq = s; reserved = pos 0 } ∷ live)
unfolding count_admission
counted lim now true st live s b k = record {
  flight = k.flight;
  balance = k.balance ∙ sym (zero_sum (held live));
  promised = (omega arith, k.promised);
  charged = k.charged;
  spent = k.spent;
  minute = k.minute;
  daily = k.daily;
  at_once = k.at_once;
}
counted lim now false st live s b k = record {
  flight = ap (λ x. x +ℤ pos 1) k.flight ∙ pos-add (holding live) 1 ∙ ap pos (omega arith);
  balance = k.balance ∙ sym (zero_sum (held live));
  promised = (omega arith, k.promised);
  charged = k.charged;
  spent = k.spent;
  minute = k.minute;
  daily = k.daily;
  at_once = λ h. one_more_at_once lim st false b refl h;
}

ok-injective : {x y : Admission} → ◌≡◌ {A = Result Admission} (ok x) (ok y) → x ≡ y
ok-injective e = cc

pub admit-Kept :
    {lim : Limits} {live : List Admission} (now : ℕ) (detached : Bool) (a : Admission)
    (st : KeyState)
    → (admit_resource now lim detached st).1 ≡ ok a
    → KeptAt lim st live
    → KeptAt lim (admit_resource now lim detached st).0 (a ∷ live)
admit-Kept {lim} {live} now detached a st e k =
    admit_cases now lim detached st (λ r. r.1 ≡ ok a → KeptAt lim r.0 (a ∷ live))
      (λ _ h. absurd (cc)) (λ _ _ h. absurd (cc))
      (λ b _ h.
        subst (λ x. KeptAt lim (count_admission now detached (seen now lim detached st)) (x ∷ live))
          (ok-injective h)
          (counted lim now detached (seen now lim detached st) live _ b (pruned now st k)))
      e

nonneg_max : (x y : ℤ) → pos 0 ≤ℤ x → pos 0 ≤ℤ x +ℤ max_ℤ y (pos 0)
nonneg_max x y h = omega (arith, +ℤ_parts x (max_ℤ y (pos 0)), max_nonneg y)
  where
    max_nonneg : (y : ℤ) → pos 0 ≤ℤ max_ℤ y (pos 0)
    max_nonneg y = ground arith

regroup : (x y z w : ℤ) → x +ℤ y +ℤ z ≤ℤ w → x +ℤ (y +ℤ z) ≤ℤ w
regroup x y z w h = omega int_laws

replace_held : (x r b h : ℤ) → x ≡ b +ℤ h → b ≡ pos 0 → x +ℤ r ≡ r +ℤ h
replace_held x r b h e f = ap (λ z. z +ℤ r) (e ∙ ap (λ z. z +ℤ h) f) ∙ zero_swap h r
  where
    zero_swap : (h r : ℤ) → pos 0 +ℤ h +ℤ r ≡ r +ℤ h
    zero_swap h r = omega int_laws

module _ (lim : Limits) (now : ℕ) (prompt out : ℤ) (a : Admission) (xs ys : List Admission)
    (st : KeyState) (fresh : a.reserved ≡ pos 0) (asked : pos 0 ≤ℤ prompt)
    (k : KeptAt lim st (xs ++ a ∷ ys)) where
  reserved_now : ℤ
  reserved_now = prompt +ℤ max_ℤ (day_fit now lim prompt out a st).0 (pos 0)

  same_places : holding (xs ++ a ∷ ys) ≡ holding (xs ++ record a { reserved = reserved_now } ∷ ys)
  same_places =
      holding-insert xs ys a ∙ sym (holding-insert xs ys (record a { reserved = reserved_now }))

  grant-Kept :
      (minute_fit now lim prompt out a st).1 ≡ true
      → (day_fit now lim prompt out a st).1 ≡ true
      → let r = put_reservation prompt (day_fit now lim prompt out a st).0 a (prune now st) in
        KeptAt lim r.0 (xs ++ r.1 ∷ ys)
  unfolding put_reservation reserved_now
  grant-Kept e f =
      let p = pruned now st k in
      let m = meter now lim prompt out a st in
      let r = prompt +ℤ max_ℤ (day_fit now lim prompt out a st).0 (pos 0) in
      record {
        flight = p.flight ∙ ap pos same_places;
        balance =
            replace_held m.reserved r a.reserved (held (xs ++ ys)) (p.balance ∙ held-insert xs ys a)
              fresh
            ∙ sym (held-insert xs ys (record a { reserved = r }));
        promised =
            All-insert xs ys a (record a { reserved = r })
              (nonneg_max prompt (day_fit now lim prompt out a st).0 asked) p.promised;
        charged = p.charged;
        spent = p.spent;
        minute = λ h.
            regroup (charges m.log) m.reserved r lim.tpm
              (minute_bound now lim prompt out a st h e f);
        daily = λ h.
            regroup m.today m.reserved r lim.daily_tokens (day_bound now lim prompt out a st h f);
        at_once = p.at_once;
      }

  pub reserve-Kept :
      {granted : ℤ}
      → (reserve now lim prompt out a st).2 ≡ ok granted
      → KeptAt lim
          (reserve now lim prompt out a st).0
          (xs ++ (reserve now lim prompt out a st).1 ∷ ys)
  reserve-Kept {granted} =
      reserve_cases now lim prompt out a st
        (λ r. r.2 ≡ ok granted → KeptAt lim r.0 (xs ++ r.1 ∷ ys)) (λ _ h. absurd (cc))
        (λ _ _ h. absurd (cc)) (λ e f _. grant-Kept e f)

less_place : (n : ℕ) (x : ℤ) → x ≡ pos (suc n) → x -ℤ pos 1 ≡ pos n
less_place n x e = ap (λ z. z -ℤ pos 1) e ∙ pos-sub (suc n) 1 (omega arith) ∙ ap pos (omega arith)

give_back : (x b h : ℤ) → x ≡ b +ℤ h → x -ℤ b ≡ h
give_back x b h e = ap (λ z. z -ℤ b) e ∙ cancel b h
  where
    cancel : (b h : ℤ) → b +ℤ h -ℤ b ≡ h
    cancel b h = omega int_laws

less : (x y b : ℤ) (w : ℤ) → pos 0 ≤ℤ b → x +ℤ y ≤ℤ w → x +ℤ (y -ℤ b) ≤ℤ w
less x y b w n h = omega int_laws

exchange : (x y b c : ℤ) (w : ℤ) → c ≤ℤ b → x +ℤ y ≤ℤ w → x +ℤ c +ℤ (y -ℤ b) ≤ℤ w
exchange x y b c w n h = omega int_laws

grown : (x c : ℤ) → pos 0 ≤ℤ x → pos 0 <ℤ c → pos 0 ≤ℤ x +ℤ c
grown x c h k = omega int_laws

All-at : (xs ys : List Admission) (a : Admission) → All NonNeg (xs ++ a ∷ ys) → NonNeg a
All-at [] ys a h = h.0
All-at (x ∷ xs) ys a h = All-at xs ys a h.1

-- Settling gives back the place and the reservation, and charges at most that reservation.
settle_meter :
    {lim : Limits} {n : ℤ} {m : MeterState} (now : ℕ) (a : Admission) (charged : ℤ)
    (xs ys : List Admission)
    → charged ≤ℤ a.reserved
    → Kept lim n m (xs ++ a ∷ ys)
    → (f : ℤ) → f ≡ pos (holding (xs ++ ys))
    → (pos 0 <ℤ lim.max_concurrent → f ≤ℤ lim.max_concurrent)
    → Kept lim f
        (charge_meter now charged (record m { reserved = m.reserved -ℤ a.reserved }))
        (xs ++ ys)
unfolding charge_meter
settle_meter {lim} {n} {m} now a charged xs ys most k f e c =
    elim (Bool-cases (ltb_ℤ (pos 0) charged)) [
      | inr t ↦
          rw (t, charge_meter)
            (record {
              flight = e;
              balance = balanced;
              promised = All-delete xs ys a k.promised;
              charged = k.charged;
              spent = k.spent;
              minute = λ h. less (charges m.log) m.reserved a.reserved lim.tpm owed (k.minute h);
              daily = λ h. less m.today m.reserved a.reserved lim.daily_tokens owed (k.daily h);
              at_once = c;
            })
      | inl t ↦
          rw (t, charge_meter)
            (record {
              flight = e;
              balance = balanced;
              promised = All-delete xs ys a k.promised;
              charged = All-append Charged m.log _ k.charged (omega (arith, ltb→lt _ _ t), tt);
              spent = grown m.today charged k.spent (ltb→lt _ _ t);
              minute = λ h. rw (charges-append m.log (record { t = now; amount = charged })) (
                  exchange (charges m.log) m.reserved a.reserved charged lim.tpm most (k.minute h));
              daily = λ h.
                  exchange m.today m.reserved a.reserved charged lim.daily_tokens most (k.daily h);
              at_once = c;
            })
    ]
  where
    owed : NonNeg a
    owed = All-at xs ys a k.promised

    balanced : m.reserved -ℤ a.reserved ≡ held (xs ++ ys)
    balanced = give_back m.reserved a.reserved (held (xs ++ ys)) (k.balance ∙ held-insert xs ys a)

module _ (lim : Limits) (now : ℕ) (a : Admission) (counts : Bool) (charged : ℤ)
    (xs ys : List Admission) (st : KeyState) (most : charged ≤ℤ a.reserved) where
  hold_detached : a.detached ≡ true → holding (xs ++ a ∷ ys) ≡ holding (xs ++ ys)
  hold_detached d = ground (arith, holding-insert xs ys a)

  hold_place : a.detached ≡ false → holding (xs ++ a ∷ ys) ≡ suc (holding (xs ++ ys))
  hold_place d = ground (arith, holding-insert xs ys a)

  pub settle-Kept :
      KeptAt lim st (xs ++ a ∷ ys) → KeptAt lim (settle now a counts charged st) (xs ++ ys)
  unfolding settle prune
  settle-Kept k =
      let p = pruned now st k in
      elim (Bool-cases a.detached) [
        | inl d ↦
            rw (d, settle)
              (settle_meter now a charged xs ys most p st.in_flight
                (p.flight ∙ ap pos (hold_detached d)) p.at_once)
        | inr d ↦
            rw (d, settle)
              (settle_meter now a charged xs ys most p (st.in_flight -ℤ pos 1)
                (less_place _ _ (p.flight ∙ ap pos (hold_place d)))
                (λ h. omega (arith, -ℤ_parts st.in_flight (pos 1), p.at_once h)))
      ]
