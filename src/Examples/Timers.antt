-- ===== src/Examples/Timers.antt =====
-- Timers, and the theorems about them.
use mathlib.Core.List.{Perm, Memᴰ}
use statsd.Base.{All, arith, ◌≡◌, refl, true, List, [], ◌∷◌, Option, some, map}
use statsd.Base.Int.{pos, negsuc}
use statsd.Examples.Numbers.{Whole, whole_number, whole-IsOrdered, whole-HasNan, hundredth_number}
use statsd.Js.Object.{Object}
use statsd.Js.Text.{Text, codes}
use statsd.Timers.{timer_stats, last_of}
use statsd.Timers.Filter.{cleaned_key, filter_timer_metrics}
use statsd.Timers.Histogram.{Limit, upper, inf, frequencies}
use statsd.Timers.Histogram.Frequencies.{count_below, running, frequencies_lem}
use statsd.Timers.Percentiles.{
  HasNanEntry, bottom_percentile, top_percentile, whole_percentile, IsRecorded,
}
use statsd.Timers.Sort.{IsSorted, sort, sort_lem}
use statsd.Timers.Summary.{IsSummary, timer_stats_lem}
use statsd.Timers.Sums.{total, square}
use statsd.Timers.Thresholds.{Running, in_threshold, threshold}

abbrev durations : List Whole
durations = some (pos 30) ∷ some (pos 10) ∷ some (pos 20) ∷ []

sorted_durations : sort whole_number durations ≡ some (pos 10) ∷ some (pos 20) ∷ some (pos 30) ∷ []
unfolding sort
sorted_durations = refl

top_cleaned : cleaned_key (codes "upper_top90") ≡ codes "upper_percent"
unfolding cleaned_key
top_cleaned = refl

-- a percentile with a fraction is not cleaned in full
fraction_cleaned : cleaned_key (codes "upper_99_9") ≡ codes "upper_99_percent"
unfolding cleaned_key
fraction_cleaned = refl

abbrev limits : List (Limit Whole)
limits = upper (some (pos 15)) ∷ upper (some (pos 30)) ∷ inf ∷ []

bins_counted : frequencies whole_number limits (sort whole_number durations) ≡ 1 ∷ 1 ∷ 1 ∷ []
unfolding frequencies sort
bins_counted = refl

sort_lem_example :
    IsSorted whole_number (sort whole_number durations)
    × Perm (sort whole_number durations) durations
sort_lem_example = sort_lem whole_number whole-IsOrdered durations (refl, (refl, (refl, tt)))

frequencies_lem_example :
    running 0 (frequencies whole_number limits (sort whole_number durations))
    ≡ map (λ b. count_below whole_number b durations) limits
frequencies_lem_example =
    frequencies_lem whole_number whole-IsOrdered limits durations
      (refl, (refl, (refl, tt)), (refl, (refl, tt), (tt, tt, tt))) (refl, (refl, (refl, tt)))

abbrev wanted : Option (List Text)
wanted = some (codes "count" ∷ codes "upper_percent" ∷ [])

abbrev statistics : Object Whole
statistics =
    (codes "upper_90", some (pos 30))
    ∷ (codes "count", some (pos 3))
    ∷ (codes "std", some (pos 8))
    ∷ []

kept_statistics :
    filter_timer_metrics statistics wanted
    ≡ (codes "upper_90", some (pos 30)) ∷ (codes "count", some (pos 3)) ∷ []
unfolding filter_timer_metrics
kept_statistics = refl

-- The variables before the first percentile.
abbrev start : Running Whole
start = record {
  sum = some (some (pos 100));
  sum_squares = some (some (pos 100));
  mean = some (pos 100);
  threshold_boundary = some (some (pos 400));
  timer_data = [];
}

abbrev others : List Whole
others = some (pos 200) ∷ some (pos 300) ∷ some (pos 400) ∷ []

two_of_four : in_threshold hundredth_number (some (pos 5000)) 4 ≡ 2
unfolding in_threshold
two_of_four = refl

bottom_percentile_example :
    let first = some (pos 200) ∷ [] in
    let sum = total hundredth_number (λ x. x) (some (pos 100)) first in
    IsRecorded hundredth_number
      (codes "upper_")
      (some (pos 5000))
      2
      sum
      (total hundredth_number (square hundredth_number) (some (pos 100)) first)
      (some (some (pos 200)))
      (threshold hundredth_number (some (pos 100) ∷ others) (some (pos 5000)) start)
unfolding in_threshold
bottom_percentile_example =
    bottom_percentile hundredth_number (some (pos 100)) others (some (pos 5000)) 1 start
      (omega arith) refl refl (omega arith)

top_percentile_example :
    let part = λ (f : Whole → Whole).
      hundredth_number.sub
        (total hundredth_number f (some (pos 100)) others)
        (total hundredth_number f (some (pos 100)) (some (pos 200) ∷ [])) in
    IsRecorded hundredth_number
      (codes "lower_")
      (some (negsuc 4999))
      2
      (part (λ x. x))
      (part (square hundredth_number))
      (some (some (pos 300)))
      (threshold hundredth_number (some (pos 100) ∷ others) (some (negsuc 4999)) start)
unfolding in_threshold
top_percentile_example =
    top_percentile hundredth_number (some (pos 100)) others (some (negsuc 4999)) 1 start refl refl
      (omega arith)

whole_percentile_example :
    let r = threshold whole_number (some (pos 100) ∷ others) (some (negsuc 99)) start in
    HasNanEntry whole_number (codes "sum_") (some (negsuc 99)) r
    × HasNanEntry whole_number (codes "sum_squares_") (some (negsuc 99)) r
    × HasNanEntry whole_number (codes "mean_") (some (negsuc 99)) r
unfolding in_threshold
whole_percentile_example =
    whole_percentile whole_number (some (pos 100)) others (some (negsuc 99)) start whole-HasNan
      (omega arith) refl refl

timer_stats_lem_example :
    (least : Whole) × (rest : List Whole) × (sort whole_number durations ≡ least ∷ rest)
    × IsSummary whole_number (some (pos 10)) (some (some (pos 3))) least rest (
        timer_stats whole_number [] []
          (some (pos 10))
          (codes "t")
          (some (some (pos 3)))
          (sort whole_number durations))
    × Memᴰ least durations
    × Memᴰ (last_of least rest) durations
    × All (λ x. whole_number.le least x ≡ true) durations
    × All (λ x. whole_number.le x (last_of least rest) ≡ true) durations
timer_stats_lem_example =
    timer_stats_lem whole_number whole-IsOrdered [] [] (some (pos 10)) (codes "t")
      (some (some (pos 3))) (some (pos 30)) (some (pos 10) ∷ some (pos 20) ∷ [])
      (refl, (refl, (refl, tt)))
