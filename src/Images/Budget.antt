-- ===== src/Images/Budget.antt =====
-- The images of a day, with those that are held, stay within the daily budget.
use Prim.Native.String.{String}
use infercat.Common.{
  ℕ, suc, ◌+◌, ◌≤◌, ℤ, pos, ◌+ℤ◌, ◌≤ℤ◌, ◌<ℤ◌, int_laws, ltb_ℤ, ◌≡◌, inl, inr, Bool, true, false,
  ◌&&◌, List, [], ◌∷◌, length, Bool-cases, arith,
}
use infercat.Images.{
  ImageState, ImageResult, has_hold, add_hold, add_holds, drop_hold, reserve_batch, release_hold,
  settle_image, is_charged,
}

-- The histories of a key's images under a daily budget. A run whose image is charged has its hold
-- still; at midnight the day's count starts again.
pub data History (daily : ℤ) : ImageState → Type 0 where
  begins : History daily (record { today = pos 0; holds = [] })
  reserves :
      {st : ImageState} (retry : ℕ) (rows : List String)
      → History daily st
      → History daily (reserve_batch daily retry rows st).0
  releases : {st : ImageState} (id : String) → History daily st → History daily (release_hold id st)
  settles :
      {st : ImageState} (id : String) (r : ImageResult)
      → History daily st
      → (is_charged r ≡ true → has_hold id st.holds ≡ true)
      → History daily (settle_image id r st)
  midnight : {st : ImageState} → History daily st → History daily (record st { today = pos 0 })

length-add_hold :
    (id : String) (holds : List String) → length (add_hold id holds) ≤ suc (length holds)
unfolding add_hold
length-add_hold id holds = ground arith

length-add_holds :
    (ids holds : List String) → length (add_holds ids holds) ≤ length holds + length ids
unfolding add_holds
length-add_holds [] holds = omega arith
length-add_holds (id ∷ ids) holds =
    omega (arith, length-add_hold id holds, length-add_holds ids (add_hold id holds))

length-drop_hold : (id : String) (holds : List String) → length (drop_hold id holds) ≤ length holds
unfolding drop_hold
length-drop_hold id [] = omega arith
length-drop_hold id (x ∷ xs) = ground (arith, length-drop_hold id xs)

drop_hold-has_hold :
    (id : String) (holds : List String)
    → has_hold id holds ≡ true
    → suc (length (drop_hold id holds)) ≡ length holds
unfolding drop_hold
drop_hold-has_hold id [] h = absurd cc
drop_hold-has_hold id (x ∷ xs) h = ground (arith, drop_hold-has_hold id xs)

abbrev Within : ℤ → ImageState → Type 0
Within daily st = (pos 0 ≤ℤ st.today) × (st.today +ℤ pos (length st.holds) ≤ℤ daily)

fewer : (daily t : ℤ) (n m : ℕ) → m ≤ n → t +ℤ pos n ≤ℤ daily → t +ℤ pos m ≤ℤ daily
fewer daily t n m h w = omega int_laws

fits :
    (daily t : ℤ) (n m : ℕ)
    → pos 0 <ℤ daily
    → (ltb_ℤ (pos 0) daily && ltb_ℤ daily (t +ℤ pos (n + m))) ≡ false
    → t +ℤ pos (n + m) ≤ℤ daily
fits daily t n m h e = ground arith

reserve_batch-Within :
    (daily : ℤ) (retry : ℕ) (rows : List String) (st : ImageState)
    → pos 0 <ℤ daily
    → Within daily st
    → Within daily (reserve_batch daily retry rows st).0
unfolding reserve_batch
reserve_batch-Within daily retry rows st h w = elim (Bool-cases full) [
  | inl e ↦ rw e w
  | inr e ↦ rw e (
    w.0,
    fewer daily st.today _ _ (length-add_holds rows st.holds)
        (fits daily st.today (length st.holds) (length rows) h e),
  )
]
  where
    full : Bool
    full = ltb_ℤ (pos 0) daily && ltb_ℤ daily (st.today +ℤ pos (length st.holds + length rows))

one_charged :
    (daily t : ℤ) (n m : ℕ) → suc m ≡ n → t +ℤ pos n ≤ℤ daily → t +ℤ pos 1 +ℤ pos m ≤ℤ daily
one_charged daily t n m h w = omega int_laws

one_more : (t : ℤ) → pos 0 ≤ℤ t → pos 0 ≤ℤ t +ℤ pos 1
one_more t h = omega int_laws

settle_image-Within :
    (daily : ℤ) (id : String) (r : ImageResult) (st : ImageState)
    → (is_charged r ≡ true → has_hold id st.holds ≡ true)
    → Within daily st
    → Within daily (settle_image id r st)
unfolding settle_image
settle_image-Within daily id r st k w = elim (Bool-cases (is_charged r)) [
  | inl e ↦ rw e (
    one_more st.today w.0,
    one_charged daily st.today _ _ (drop_hold-has_hold id st.holds (k e)) w.1,
  )
  | inr e ↦ rw e (w.0, fewer daily st.today _ _ (length-drop_hold id st.holds) w.1)
]

at_midnight : (daily t : ℤ) (n : ℕ) → pos 0 ≤ℤ t → t +ℤ pos n ≤ℤ daily → pos 0 +ℤ pos n ≤ℤ daily
at_midnight daily t n h w = omega int_laws

at_start : (daily : ℤ) → pos 0 <ℤ daily → pos 0 +ℤ pos 0 ≤ℤ daily
at_start daily h = omega int_laws

-- Under a daily budget that is set, in every history in which a run whose image is charged has its
-- hold still, the images charged today are at least none, and with the images that are held they
-- are at most the budget.
pub images_within :
    (daily : ℤ) {st : ImageState}
    → pos 0 <ℤ daily
    → History daily st
    → (pos 0 ≤ℤ st.today) × (st.today +ℤ pos (length st.holds) ≤ℤ daily)
unfolding release_hold
images_within daily set begins = (omega arith, at_start daily set)
images_within daily set (reserves {st} retry rows h) =
    reserve_batch-Within daily retry rows st set (images_within daily set h)
images_within daily set (releases {st} id h) =
    let w = images_within daily set h in
    (w.0, fewer daily st.today _ _ (length-drop_hold id st.holds) w.1)
images_within daily set (settles {st} id r h k) =
    settle_image-Within daily id r st k (images_within daily set h)
images_within daily set (midnight {st} h) =
    let w = images_within daily set h in (omega arith, at_midnight daily st.today _ w.0 w.1)
