-- ===== src/Images/Backoff.antt =====
-- The back-off of a suspect image engine doubles from the base up to fifteen times the base.
use native.Mathlib.Nat.{mul_left_comm, pow-succ'}
use infercat.Common.{
  ℕ, zero, suc, ◌+◌, ◌*◌, ◌^◌, ◌≤◌, min, ◌≡◌, sym, ap, ◌∙◌, true, false, some, List, [], ◌∷◌, All,
  length, arith,
}
use infercat.Images.{ImageResult, ImageHealth, healthy, is_counted, next_delay, record_result}

-- Results in a row, each with its time, the last of them first.
abbrev pub after : ℕ → List (ℕ × ImageResult) → ImageHealth
after base [] = healthy
after base ((now, r) ∷ rs) = record_result base now r (after base rs)

-- A failure that counts against the engine.
abbrev pub IsFailure : ℕ × ImageResult → Type 0
IsFailure (now, r) = (r.measured ≡ false) × (is_counted r ≡ true)

failure :
    (base now : ℕ) (r : ImageResult) (h : ImageHealth)
    → IsFailure (now, r)
    → 1 ≤ h.abandons
    → record_result base now r h ≡ record {
      abandons = suc h.abandons;
      retry_at = some (now + next_delay base h.backoff);
      backoff = next_delay base h.backoff;
    }
unfolding record_result
failure base now r h f k = ground arith

first_failure :
    (base now : ℕ) (r : ImageResult)
    → IsFailure (now, r)
    → record_result base now r healthy ≡ record healthy { abandons = 1 }
unfolding record_result
first_failure base now r f = ground arith

doubled : (base x : ℕ) → base ≤ x → next_delay base (min x (15 * base)) ≡ min (2 * x) (15 * base)
unfolding next_delay
doubled base x h = omega arith

power : (base k : ℕ) → 2 * (base * 2 ^ k) ≡ base * 2 ^ suc k
power base k = mul_left_comm 2 base (2 ^ k) ∙ ap (λ x. base * x) (sym (pow-succ' 2 k))

base_le : (base k : ℕ) → base ≤ base * 2 ^ k
base_le base zero = omega arith
base_le base (suc k) = omega (arith, base_le base k, power base k)

first_delay : (base : ℕ) → next_delay base 0 ≡ min (base * 2 ^ 0) (15 * base)
unfolding next_delay
first_delay base = omega arith

-- After two failures in a row and `k` more, with no image in between, the engine has that many
-- failures against it, and the delay before the next probe is the base doubled `k` times, but at
-- most fifteen times the base.
pub backoff_doubles :
    (base k : ℕ) (rs : List (ℕ × ImageResult))
    → All IsFailure rs
    → length rs ≡ suc (suc k)
    → ((after base rs).abandons ≡ suc (suc k))
      × ((after base rs).backoff ≡ min (base * 2 ^ k) (15 * base))
backoff_doubles base k [] f e = absurd (omega arith)
backoff_doubles base k (_ ∷ []) f e = absurd (omega arith)
backoff_doubles base zero ((now, r) ∷ (then, q) ∷ []) f e =
    let one = first_failure base then q f.1.0 in
    let two = failure base now r (record healthy { abandons = 1 }) f.0 (omega arith) in
    let both = ap (record_result base now r) one ∙ two in
    (ap (λ h. h.abandons) both, ap (λ h. h.backoff) both ∙ first_delay base)
backoff_doubles base zero (_ ∷ _ ∷ _ ∷ _) f e = absurd (omega arith)
backoff_doubles base (suc k) ((now, r) ∷ x ∷ rs) f e =
    let (n, d) = backoff_doubles base k (x ∷ rs) f.1 (omega arith) in
    let next = failure base now r (after base (x ∷ rs)) f.0 (omega (arith, n)) in
    (
      ap (λ h. h.abandons) next ∙ ap suc n,
      ap (λ h. h.backoff) next
          ∙ ap (next_delay base) d
          ∙ doubled base (base * 2 ^ k) (base_le base k)
          ∙ ap (λ x. min x (15 * base)) (power base k),
    )
