-- ===== src/Images.antt =====
-- internal/gateway/images.go: the daily budget of images, which run holds and settles, and the health
-- of the image engine, which is suspect after two failures in a row. A hold is the id of a run.
pub mod Budget
pub mod Backoff
pub mod Tests
use Prim.Native.String.{String}
use text.Mathlib.Text.{◌==◌ as str_eq}
use infercat.Common.{
  ℕ, suc, ◌+◌, ◌-◌, ◌*◌, ℤ, pos, ◌+ℤ◌, ltb_ℤ, Bool, true, false, not, ◌&&◌, ◌||◌, Option, none,
  some, List, [], ◌∷◌, if◌then◌else◌, leb, ltb, length, min, max,
}
use infercat.Errors.{Code, GwError, errf}
use infercat.Limits.{Limits, image_defaults}

-- `runstate.MaxLiveKey`
abbrev max_live_key : ℤ
max_live_key = pos 16

-- `ImageQueueCap`
pub image_queue_cap : Limits → ℤ
image_queue_cap l =
    let cap = (image_defaults l).max_queued_images in
    if ltb_ℤ cap (pos 0) || ltb_ℤ max_live_key cap then max_live_key else cap

-- The image part of a key's state.
pub record ImageState : Type 0 where
  pub today : ℤ
  pub holds : List String

abbrev pub has_hold : String → List String → Bool
has_hold id [] = false
has_hold id (x ∷ xs) = if str_eq x id then true else has_hold id xs

-- The map of holds, as its keys.
unfoldable pub add_hold : String → List String → List String
add_hold id holds = if has_hold id holds then holds else id ∷ holds

unfoldable pub add_holds : List String → List String → List String
unfolding add_hold
add_holds [] holds = holds
add_holds (id ∷ ids) holds = add_holds ids (add_hold id holds)

unfoldable pub drop_hold : String → List String → List String
drop_hold id [] = []
drop_hold id (x ∷ xs) = let rest = drop_hold id xs in if str_eq x id then xs else x ∷ rest

-- `Reserve` of a batch, after the prune; `retry` is the seconds to midnight.
unfoldable pub reserve_batch : ℤ → ℕ → List String → ImageState → ImageState × Option GwError
unfolding add_holds
reserve_batch daily retry rows st =
    if ltb_ℤ (pos 0) daily && ltb_ℤ daily (st.today +ℤ pos (length st.holds + length rows))
    then (st, some (errf Code.image_budget_exhausted retry))
    else (record st { holds = add_holds rows st.holds }, none)

-- `releaseImageReservation`
unfoldable pub release_hold : String → ImageState → ImageState
unfolding drop_hold
release_hold id st = record st { holds = drop_hold id st.holds }

unfoldable pub reserve_image : String → ImageState → Option GwError
reserve_image id st = if has_hold id st.holds then none else some (errf Code.invalid_request 0)

-- What became of the image of a run.
pub record ImageResult : Type 0 where
  pub dispatched : Bool
  pub definitive_failure : Bool
  pub measured : Bool
  pub suspect : Bool
  pub oversized : Bool

pub is_charged : ImageResult → Bool
is_charged r = r.dispatched && (not r.definitive_failure && not (r.suspect && not r.measured))

-- `settleImage` on the key's state, after the prune.
unfoldable pub settle_image : String → ImageResult → ImageState → ImageState
unfolding is_charged drop_hold
settle_image id r st = record st {
  holds = drop_hold id st.holds;
  today = if is_charged r then st.today +ℤ pos 1 else st.today;
}

-- The atomics of a destination; a `retry_at` of `none` is zero.
pub record ImageHealth : Type 0 where
  pub abandons : ℕ
  pub retry_at : Option ℕ
  pub backoff : ℕ

abbrev pub healthy : ImageHealth
healthy = record { abandons = 0; retry_at = none; backoff = 0 }

-- A failure that counts against the engine.
pub is_counted : ImageResult → Bool
is_counted r = r.dispatched && (not r.definitive_failure || r.oversized)

unfoldable pub next_delay : ℕ → ℕ → ℕ
next_delay base before = min (max base (2 * before)) (15 * base)

-- `recordImageResult` at a time, with a base delay above zero.
unfoldable pub record_result : ℕ → ℕ → ImageResult → ImageHealth → ImageHealth
unfolding is_counted next_delay
record_result base now r h =
    let n = if is_counted r then suc h.abandons else h.abandons in
    let delay = next_delay base h.backoff in
    if r.measured
    then healthy
    else if leb 2 n && is_counted r
    then record { abandons = n; retry_at = some (now + delay); backoff = delay }
    else record h { abandons = n }

-- A request that finds two failures or more waits for the retry and then counts as a probe.
pub is_probe : ImageHealth → Bool
is_probe h = leb 2 h.abandons
