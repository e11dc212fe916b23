-- ===== src/Images/Tests.antt =====
-- A budget of two images, and an engine that fails.
use infercat.Common.{
  ℕ, ◌*◌, ◌^◌, min, pos, ◌+ℤ◌, ◌≤ℤ◌, ◌≡◌, refl, true, false, some, List, [], ◌∷◌, length, arith,
}
use infercat.Errors.{Code, errf}
use infercat.Images.{ImageState, ImageResult, reserve_batch, settle_image, is_counted}
use infercat.Images.Budget.{History, begins, reserves, settles, images_within}
use infercat.Images.Backoff.{after, backoff_doubles}

abbrev fresh : ImageState
fresh = record { today = pos 0; holds = [] }

abbrev made : ImageResult
made = record {
  dispatched = true;
  definitive_failure = false;
  measured = true;
  suspect = false;
  oversized = false;
}

abbrev lost : ImageResult
lost = record made { measured = false }

-- Two are held, one is made, and two more are too many.
abbrev held : ImageState
held = (reserve_batch (pos 2) 60 ("r_1" ∷ "r_2" ∷ []) fresh).0

abbrev one_made : ImageState
one_made = settle_image "r_1" made held

too_many :
    reserve_batch (pos 2) 60 ("r_3" ∷ "r_4" ∷ []) one_made
    ≡ (record { today = pos 1; holds = "r_2" ∷ [] }, some (errf Code.image_budget_exhausted 60))
unfolding reserve_batch settle_image ◌+ℤ◌
too_many = refl

one_made-History : History (pos 2) one_made
unfolding reserve_batch ◌+ℤ◌
one_made-History = settles "r_1" made (reserves 60 ("r_1" ∷ "r_2" ∷ []) begins) (λ _. refl)

images_within_example :
    (pos 0 ≤ℤ one_made.today) × (one_made.today +ℤ pos (length one_made.holds) ≤ℤ pos 2)
images_within_example = images_within (pos 2) (omega arith) one_made-History

abbrev failures : List (ℕ × ImageResult)
failures = (900, lost) ∷ (500, lost) ∷ (100, lost) ∷ []

backoff_doubles_example :
    ((after 60 failures).abandons ≡ 3) × ((after 60 failures).backoff ≡ min (60 * 2 ^ 1) (15 * 60))
unfolding is_counted
backoff_doubles_example =
    backoff_doubles 60 1 failures ((refl, refl), ((refl, refl), ((refl, refl), tt))) refl
