-- ===== src/Timers.antt =====
-- lib/process_metrics.js: rates of the counters and the statistics of the timers at a flush.
pub mod Filter
pub mod Histogram
pub mod Sort
pub mod Percentiles
pub mod Summary
pub mod Sums
pub mod Thresholds
use statsd.Base.{
  ℕ, suc, ◌-◌, ◌/◌, ◌%◌, Bool, true, false, List, [], ◌∷◌, ◌++◌, Option, none, some, ◌==◌,
  if◌then◌else◌, length, get_elem?, get_or,
}
use statsd.Js.Number.{JsNumber, nought}
use statsd.Js.Object.{Object, lookup, map_values, put}
use statsd.Js.Text.{Text, codes}
use Filter.{filter_timer_metrics}
use Histogram.{Limit, bins_of, frequencies, add_histogram}
use Sort.{sort}
use Thresholds.{Datum, number, undefined, datum, cumulative, thresholds, Running}

-- The last entry of a list that is not empty.
abbrev pub last_of {ℓ} : {A : Type ℓ} → A → List A → A
last_of x [] = x
last_of x (y ∷ ys) = last_of y ys

module _ {ℓ} {N : Type ℓ} (num : JsNumber N) where
  -- `flushInterval / 1000`
  unfoldable pub seconds : N → N
  seconds flush_interval = num.div flush_interval (num.of_nat 1000)

  -- The loop over the counters.
  unfoldable pub rates : N → Object N → Object N
  unfolding map_values seconds
  rates flush_interval counters =
      map_values (λ key value. num.div value (seconds flush_interval)) counters

  -- `sumOfDiffs`, from a sum so far
  unfoldable pub sum_of_diffs : N → N → List N → N
  sum_of_diffs mean sum [] = sum
  sum_of_diffs mean sum (x ∷ xs) =
      sum_of_diffs mean (num.add sum (num.mul (num.sub x mean) (num.sub x mean))) xs

  -- The middle value, or the mean of the two middle ones.
  unfoldable pub median : List N → N
  median values =
      let mid = length values / 2 in
      if length values % 2 == 0
      then num.div (num.add (get_or values (mid - 1) num.nan) (get_or values mid num.nan))
          (num.of_nat 2)
      else get_or values mid num.nan

  -- `timer_counters[key] / (flushInterval / 1000)`; `undefined` gives NaN
  unfoldable pub per_second : N → Option N → N
  unfolding seconds
  per_second flush_interval none = num.nan
  per_second flush_interval (some x) = num.div x (seconds flush_interval)

  -- The statistics of the whole timer, behind those of the percentiles.
  unfoldable pub add_summary : N → Option N → N → List N → Object (Datum N) → Object (Datum N)
  unfolding sum_of_diffs median per_second cumulative put
  add_summary flush_interval counter least others timer_data =
      let values = least ∷ others in
      let count = num.of_nat (length values) in
      let sum = last_of num.nan (cumulative num (λ x. x) values) in
      let mean = num.div sum count in
      put (codes "median") (number (median values)) (
        put (codes "mean") (number mean) (
          put (codes "sum_squares")
            (number (last_of num.nan (cumulative num (λ x. num.mul x x) values)))
            (put (codes "sum") (number sum) (
              put (codes "count_ps") (number (per_second flush_interval counter)) (
                put (codes "count") (datum counter) (
                  put (codes "lower") (number least) (
                    put (codes "upper") (number (last_of least others)) (
                      put (codes "std")
                        (number (num.sqrt (num.div (sum_of_diffs mean (nought num) values) count)))
                        timer_data))))))))

  -- The variables before the loop over the percentiles.
  unfoldable pub before_thresholds : N → List N → Running N
  before_thresholds least others = record {
    sum = some least;
    sum_squares = some (num.mul least least);
    mean = least;
    threshold_boundary = some (last_of least others);
    timer_data = [];
  }

  -- `current_timer_data` of a timer, from its sorted values. (Of two assignments in one, the right one
  -- comes first.)
  unfoldable pub timer_stats :
      List N → List (Text × List (Limit N)) → N → Text → Option N → List N → Object (Datum N)
  unfolding thresholds before_thresholds add_summary add_histogram bins_of put
  timer_stats pct_threshold histogram flush_interval key counter [] =
      put (codes "count") (number (nought num)) (put (codes "count_ps") (number (nought num)) [])
  timer_stats pct_threshold histogram flush_interval key counter (least ∷ others) =
      let values = least ∷ others in
      let r = thresholds num values pct_threshold (before_thresholds least others) in
      add_histogram num (bins_of histogram key) values
        (add_summary flush_interval counter least others r.timer_data)

-- What a flush hands to the backends beside the tables themselves.
pub record Processed {ℓ} (N : Type ℓ) : Type ℓ where
  pub timers : Object (List N)
  pub counter_rates : Object N
  pub timer_data : Object (Object (Datum N))
  pub statsd_metrics : Object N

-- What of the configuration the computation reads.
pub record Options {ℓ} (N : Type ℓ) : Type ℓ where
  pub pct_threshold : List N
  pub histogram : List (Text × List (Limit N))
  pub calculated_timer_metrics : Option (List Text)
  pub flush_interval : N

-- `process_metrics`: the timers are sorted in place, and `processing_time` is what the clock says.
unfoldable pub process_metrics {ℓ} :
    {N : Type ℓ} → JsNumber N → Options N → N → Object N → Object (List N) → Object N → Processed N
unfolding rates timer_stats filter_timer_metrics sort lookup map_values
process_metrics num options processing_time counters timers timer_counters =
    let sorted = map_values (λ key values. sort num values) timers in
    record {
      timers = sorted;
      counter_rates = rates num options.flush_interval counters;
      timer_data =
          map_values
            (λ key values.
              filter_timer_metrics
                (timer_stats num options.pct_threshold options.histogram options.flush_interval key
                  (lookup key timer_counters) values)
                options.calculated_timer_metrics)
            sorted;
      statsd_metrics = (codes "processing_time", processing_time) ∷ [];
    }
