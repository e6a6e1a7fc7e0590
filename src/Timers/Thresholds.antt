-- ===== src/Timers/Thresholds.antt =====
-- lib/process_metrics.js, the loop over the percentiles: running sums, the values in the threshold,
-- and the statistics of each percentile.
use statsd.Base.{
  ℕ, suc, ◌-◌, List, [], ◌∷◌, ◌++◌, Option, none, some, ◌==◌, ltb, leb, if◌then◌else◌, length,
  get_elem?,
}
use statsd.Js.Number.{JsNumber, nought}
use statsd.Js.Object.{Object, put}
use statsd.Js.Text.{Text, codes, replace_first}

-- A value in the statistics of a timer: a number, `undefined`, or the histogram.
pub data Datum {ℓ} (N : Type ℓ) : Type ℓ where
  number : N → Datum N
  undefined : Datum N
  bins : Object N → Datum N

abbrev pub datum {ℓ} : {N : Type ℓ} → Option N → Datum N
datum none = undefined
datum (some x) = number x

-- The variables that the loop carries from one percentile to the next.
pub record Running {ℓ} (N : Type ℓ) : Type ℓ where
  pub sum : Option N
  pub sum_squares : Option N
  pub mean : N
  pub threshold_boundary : Option N
  pub timer_data : Object (Datum N)

-- `values[count - n]`; a negative index finds nothing
unfoldable pub from_end {ℓ} : {A : Type ℓ} → List A → ℕ → Option A
from_end xs n = if leb n (length xs) then get_elem? xs (length xs - n) else none

module _ {ℓ} {N : Type ℓ} (num : JsNumber N) where
  -- The loop that adds `f(values[i])` to the sum before.
  unfoldable pub sums_from : (N → N) → N → List N → List N
  sums_from f sum [] = []
  sums_from f sum (x ∷ xs) = let next = num.add (f x) sum in next ∷ sums_from f next xs

  -- `cumulativeValues`, with `f` the identity, and `cumulSumSquaresValues`, with `f` the square
  unfoldable pub cumulative : (N → N) → List N → List N
  unfolding sums_from
  cumulative f [] = []
  cumulative f (x ∷ xs) = f x ∷ sums_from f (f x) xs

  -- An operand that may be `undefined`.
  abbrev pub operand : Option N → N
  operand none = num.nan
  operand (some x) = x

  -- `Math.round(Math.abs(pct) / 100 * count)`
  unfoldable pub in_threshold : N → ℕ → ℕ
  in_threshold pct count =
      num.round (num.mul (num.div (num.abs pct) (num.of_nat 100)) (num.of_nat count))

  -- `sums[count - 1] - sums[count - n - 1]`, where `undefined` makes NaN
  unfoldable pub top_sum : List N → ℕ → N
  unfolding from_end
  top_sum sums n =
      num.sub (operand (get_elem? sums (length sums - 1))) (operand (from_end sums (suc n)))

  -- The variables for a percentile with `n` values in the threshold, more than one value in all.
  unfoldable pub cut : N → ℕ → List N → Running N → Running N
  unfolding top_sum cumulative
  cut pct n values r =
      let sums = cumulative (λ x. x) values in
      let squares = cumulative (λ x. num.mul x x) values in
      if num.lt (nought num) pct
      then record r {
        threshold_boundary = get_elem? values (n - 1);
        sum = get_elem? sums (n - 1);
        sum_squares = get_elem? squares (n - 1);
        mean = num.div (operand (get_elem? sums (n - 1))) (num.of_nat n);
      }
      else record r {
        threshold_boundary = from_end values n;
        sum = some (top_sum sums n);
        sum_squares = some (top_sum squares n);
        mean = num.div (top_sum sums n) (num.of_nat n);
      }

  -- `clean_pct`
  unfoldable pub clean_pct : N → Text
  unfolding replace_first
  clean_pct pct =
      replace_first b'-' (codes "top") (replace_first b'.' (codes "_") (num.to_text pct))

  -- The five entries of a percentile.
  unfoldable pub record_pct : N → ℕ → Running N → Running N
  unfolding clean_pct put
  record_pct pct n r =
      let name = clean_pct pct in
      let bound = if num.lt (nought num) pct then codes "upper_" else codes "lower_" in
      record r {
        timer_data = put (codes "sum_squares_" ++ name) (datum r.sum_squares) (
            put (codes "sum_" ++ name) (datum r.sum) (
              put (bound ++ name) (datum r.threshold_boundary) (
                put (codes "mean_" ++ name) (number r.mean)
                  (put (codes "count_" ++ name) (number (num.of_nat n)) r.timer_data))));
      }

  -- One round of the loop: nothing for a percentile with no value in the threshold.
  unfoldable pub threshold : List N → N → Running N → Running N
  unfolding in_threshold cut record_pct
  threshold values pct r =
      let count = length values in
      if ltb 1 count
      then if in_threshold pct count == 0
        then r
        else record_pct pct (in_threshold pct count) (cut pct (in_threshold pct count) values r)
      else record_pct pct count r

  unfoldable pub thresholds : List N → List N → Running N → Running N
  unfolding threshold
  thresholds values [] r = r
  thresholds values (pct ∷ pcts) r = thresholds values pcts (threshold values pct r)
