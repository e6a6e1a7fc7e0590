-- ===== src/Timers/Sums.antt =====
-- The running sums of a timer's values, and what the loop over the percentiles reads of them.
use statsd.Base.{
  ℕ, zero, suc, ◌-◌, ◌≤◌, ◌<◌, ◌≡◌, refl, ap, ap₂, ◌∙◌, true, List, [], ◌∷◌, none, some, length,
  take_all, get_elem?, take, arith,
}
use statsd.Js.Number.{JsNumber, HasNan}
use statsd.Timers.Thresholds.{sums_from, cumulative, operand, from_end, top_sum}

module _ {ℓ} {N : Type ℓ} (num : JsNumber N) where
  -- The sum of `f` over values, added up from the left as the source does.
  abbrev pub total_from : (N → N) → N → List N → N
  total_from f sum [] = sum
  total_from f sum (x ∷ xs) = total_from f (num.add (f x) sum) xs

  abbrev pub total : (N → N) → N → List N → N
  total f x xs = total_from f (f x) xs

  abbrev pub square : N → N
  square x = num.mul x x

  sums_from_at :
      (f : N → N) (sum : N) (xs : List N) (i : ℕ)
      → i < length xs
      → get_elem? (sums_from num f sum xs) i ≡ some (total_from f sum (take (suc i) xs))
  unfolding sums_from
  sums_from_at f sum [] i h = ground arith
  sums_from_at f sum (x ∷ xs) zero h = refl
  sums_from_at f sum (x ∷ xs) (suc i) h = sums_from_at f (num.add (f x) sum) xs i (omega arith)

  pub cumulative_at :
      (f : N → N) (x : N) (xs : List N) (i : ℕ)
      → i ≤ length xs
      → get_elem? (cumulative num f (x ∷ xs)) i ≡ some (total f x (take i xs))
  unfolding cumulative
  cumulative_at f x xs zero h = refl
  cumulative_at f x xs (suc i) h = sums_from_at f (f x) xs i (omega arith)

  length-sums_from :
      (f : N → N) (sum : N) (xs : List N) → length (sums_from num f sum xs) ≡ length xs
  unfolding sums_from
  length-sums_from f sum [] = refl
  length-sums_from f sum (x ∷ xs) = omega (arith, length-sums_from f (num.add (f x) sum) xs)

  pub length-cumulative : (f : N → N) (xs : List N) → length (cumulative num f xs) ≡ length xs
  unfolding cumulative
  length-cumulative f [] = refl
  length-cumulative f (x ∷ xs) = omega (arith, length-sums_from f (f x) xs)

pub from_end_at {ℓ} :
    {A : Type ℓ} (xs : List A) (n : ℕ)
    → n ≤ length xs
    → from_end xs n ≡ get_elem? xs (length xs - n)
unfolding from_end
from_end_at xs n h = ground arith

from_end_out {ℓ} : {A : Type ℓ} (xs : List A) (n : ℕ) → length xs < n → from_end xs n ≡ none
unfolding from_end
from_end_out xs n h = ground arith

module _ {ℓ} {N : Type ℓ} (num : JsNumber N) where
  get_take_all :
      (f : N → N) (x : N) (xs : List N) → total num f x (take (length xs) xs) ≡ total num f x xs
  get_take_all f x xs = ap (total num f x) (take_all xs)

  pub last_sum :
      (f : N → N) (x : N) (xs : List N)
      → get_elem? (cumulative num f (x ∷ xs)) (length (cumulative num f (x ∷ xs)) - 1)
        ≡ some (total num f x xs)
  last_sum f x xs =
      let index : length (cumulative num f (x ∷ xs)) - 1 ≡ length xs =
        omega (arith, length-cumulative num f (x ∷ xs)) in
      rw index (cumulative_at num f x xs (length xs) (omega arith) ∙ ap some (get_take_all f x xs))

  pub top_sum_lem :
      (f : N → N) (x : N) (xs : List N) (k : ℕ)
      → k < length xs
      → top_sum num (cumulative num f (x ∷ xs)) (suc k)
        ≡ num.sub (total num f x xs) (total num f x (take (length xs - suc k) xs))
  unfolding top_sum
  top_sum_lem f x xs k h =
      let sums = cumulative num f (x ∷ xs) in
      let size = length-cumulative num f (x ∷ xs) in
      let index : length sums - suc (suc k) ≡ length xs - suc k = omega (arith, size) in
      let before =
        from_end_at sums (suc (suc k)) (omega (arith, size))
        ∙ ap (get_elem? sums) index
        ∙ cumulative_at num f x xs (length xs - suc k) (omega arith) in
      ap₂ (λ u v. num.sub (operand num u) (operand num v)) (last_sum f x xs) before

  pub top_sum_all :
      (f : N → N) (x : N) (xs : List N)
      → HasNan num
      → num.is_nan (top_sum num (cumulative num f (x ∷ xs)) (suc (length xs))) ≡ true
  unfolding top_sum
  top_sum_all f x xs h =
      let sums = cumulative num f (x ∷ xs) in
      let size = length-cumulative num f (x ∷ xs) in
      rw (from_end_out sums (suc (suc (length xs))) (omega (arith, size)), top_sum)
        (h.sub_nan _ num.nan h.nan_lem)
