-- ===== src/Audio/Budget.antt =====
-- The daily budget of speech: what its meter has in every history of reservations and settlements.
use infercat.Common.{
  ℕ, ℤ, pos, ◌+ℤ◌, ◌-ℤ◌, ◌≤ℤ◌, ◌<ℤ◌, int_laws, ltb_ℤ, ◌≡◌, refl, sym, ap, subst, ◌∙◌, inl, inr,
  false, ◌&&◌, none, List, [], ◌∷◌, ◌++◌, Bool-cases, arith, All, All-append, All-append_left,
  All-append_right,
}
use infercat.Limiter.{MeterState, empty_meter}
use infercat.Audio.{reserve_speech, Heard, speech_charge, settle_speech}

abbrev pub total : List ℤ → ℤ
total [] = pos 0
total (n ∷ ns) = n +ℤ total ns

-- The histories of a meter, with what its live requests reserved. A reservation is at least zero; at
-- midnight the day starts again.
pub data History (limit : ℤ) : MeterState → List ℤ → Type 0 where
  begins : History limit empty_meter []
  reserves :
      {m : MeterState} {live : List ℤ} (retry : ℕ) (need : ℤ)
      → History limit m live
      → pos 0 ≤ℤ need
      → (reserve_speech limit retry need m).1 ≡ none
      → History limit (reserve_speech limit retry need m).0 (need ∷ live)
  settles :
      {m : MeterState} (h : Heard) (n : ℤ) (xs ys : List ℤ)
      → History limit m (xs ++ n ∷ ys)
      → History limit (settle_speech h n m) (xs ++ ys)
  midnight :
      {m : MeterState} {live : List ℤ}
      → History limit m live
      → History limit (record m { today = pos 0 }) live

total-append : (xs ys : List ℤ) → total (xs ++ ys) ≡ total xs +ℤ total ys
total-append [] ys = zero_left (total ys)
  where
    zero_left : (x : ℤ) → x ≡ pos 0 +ℤ x
    zero_left x = omega int_laws
total-append (x ∷ xs) ys = ap (λ t. x +ℤ t) (total-append xs ys) ∙ assoc x (total xs) (total ys)
  where
    assoc : (a b c : ℤ) → a +ℤ (b +ℤ c) ≡ a +ℤ b +ℤ c
    assoc a b c = omega int_laws

without : (a n b : ℤ) → a +ℤ (n +ℤ b) -ℤ n ≡ a +ℤ b
without a n b = omega int_laws

total-without : (xs ys : List ℤ) (n : ℤ) → total (xs ++ n ∷ ys) -ℤ n ≡ total (xs ++ ys)
total-without xs ys n =
    ap (λ t. t -ℤ n) (total-append xs (n ∷ ys))
    ∙ without (total xs) n (total ys)
    ∙ sym (total-append xs ys)

swap : (a b : ℤ) → a +ℤ b ≡ b +ℤ a
swap a b = omega int_laws

speech_charge_nonneg : (h : Heard) (n : ℤ) → pos 0 ≤ℤ n → pos 0 ≤ℤ speech_charge h n
unfolding speech_charge
speech_charge_nonneg h n k = ground arith

speech_charge_most : (h : Heard) (n : ℤ) → pos 0 ≤ℤ n → speech_charge h n ≤ℤ n
unfolding speech_charge
speech_charge_most h n k = ground arith

pub record Kept (limit : ℤ) (m : MeterState) (live : List ℤ) : Type 0 where
  pub balance : m.reserved ≡ total live
  pub within : m.today +ℤ m.reserved ≤ℤ limit
  pub today : pos 0 ≤ℤ m.today
  pub promised : All (λ n. pos 0 ≤ℤ n) live

fits :
    (limit t need : ℤ)
    → pos 0 <ℤ limit
    → (ltb_ℤ (pos 0) limit && ltb_ℤ limit (t +ℤ need)) ≡ false
    → t +ℤ need ≤ℤ limit
fits limit t need h e = ground arith

regroup : (t r n : ℤ) → t +ℤ (r +ℤ n) ≡ t +ℤ r +ℤ n
regroup t r n = omega int_laws

reserve_speech-Kept :
    (limit : ℤ) (retry : ℕ) (need : ℤ) (m : MeterState) (live : List ℤ)
    → pos 0 <ℤ limit
    → pos 0 ≤ℤ need
    → (reserve_speech limit retry need m).1 ≡ none
    → Kept limit m live
    → Kept limit (reserve_speech limit retry need m).0 (need ∷ live)
unfolding reserve_speech
reserve_speech-Kept limit retry need m live set p e k =
    elim (Bool-cases (ltb_ℤ (pos 0) limit && ltb_ℤ limit (m.today +ℤ m.reserved +ℤ need))) [
      | inl b ↦ absurd (ground arith)
      | inr b ↦ rw b (record {
        balance = ap (λ r. r +ℤ need) k.balance ∙ swap (total live) need;
        within =
            subst (λ x. x ≤ℤ limit) (sym (regroup m.today m.reserved need))
              (fits limit (m.today +ℤ m.reserved) need set b);
        today = k.today;
        promised = (p, k.promised);
      })
    ]

settle_le : (limit t r n c : ℤ) → t +ℤ r ≤ℤ limit → c ≤ℤ n → t +ℤ c +ℤ (r -ℤ n) ≤ℤ limit
settle_le limit t r n c h k = omega int_laws

sum_nonneg : (a b : ℤ) → pos 0 ≤ℤ a → pos 0 ≤ℤ b → pos 0 ≤ℤ a +ℤ b
sum_nonneg a b h k = omega int_laws

settle_speech-Kept :
    (limit : ℤ) (h : Heard) (n : ℤ) (m : MeterState) (xs ys : List ℤ)
    → Kept limit m (xs ++ n ∷ ys)
    → Kept limit (settle_speech h n m) (xs ++ ys)
unfolding settle_speech
settle_speech-Kept limit h n m xs ys k =
    let right = All-append_right (λ n. pos 0 ≤ℤ n) xs (n ∷ ys) k.promised in
    record {
      balance = ap (λ r. r -ℤ n) k.balance ∙ total-without xs ys n;
      within =
          settle_le limit m.today m.reserved n (speech_charge h n) k.within
            (speech_charge_most h n right.0);
      today = sum_nonneg m.today _ k.today (speech_charge_nonneg h n right.0);
      promised =
          All-append (λ n. pos 0 ≤ℤ n) xs ys
            (All-append_left (λ n. pos 0 ≤ℤ n) xs (n ∷ ys) k.promised) right.1;
    }

new_day : (limit t r : ℤ) → pos 0 ≤ℤ t → t +ℤ r ≤ℤ limit → pos 0 +ℤ r ≤ℤ limit
new_day limit t r h k = omega int_laws

first_day : (limit : ℤ) → pos 0 <ℤ limit → pos 0 +ℤ pos 0 ≤ℤ limit
first_day limit h = omega int_laws

pub History-Kept :
    (limit : ℤ) {m : MeterState} {live : List ℤ}
    → pos 0 <ℤ limit
    → History limit m live
    → Kept limit m live
History-Kept limit set begins = record {
  balance = refl;
  within = first_day limit set;
  today = omega arith;
  promised = tt;
}
History-Kept limit set (reserves {m} {live} retry need t p e) =
    reserve_speech-Kept limit retry need m live set p e (History-Kept limit set t)
History-Kept limit set (settles {m} h n xs ys t) =
    settle_speech-Kept limit h n m xs ys (History-Kept limit set t)
History-Kept limit set (midnight {m} {live} t) =
    let k = History-Kept limit set t in
    record {
      balance = k.balance;
      within = new_day limit m.today m.reserved k.today k.within;
      today = omega arith;
      promised = k.promised;
    }
