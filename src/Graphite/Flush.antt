-- ===== src/Graphite/Flush.antt =====
-- backends/graphite.js: which metrics a flush sends.
use mathlib.Core.List.Memᴰ
use mathlib.Core.List.{Memᴰ}
use statsd.Base.{
  ℕ, ◌+◌, ◌*◌, ◌≡◌, refl, ◌∙◌, List, [], ◌∷◌, ◌++◌, if◌then◌else◌, All, length, length-append,
  arith,
}
use statsd.Graphite.{
  Flushed, metric, rate_of, counter_metrics, all_counters, sub_metrics, datum_metrics,
  timer_metrics, all_timers, all_gauges, all_sets, num_stats, own_metrics, count_metrics,
  flush_stats, format,
}
use statsd.Graphite.Settings.{Graphite}
use statsd.Graphite.Wire.{Metric}
use statsd.Js.Number.{JsNumber}
use statsd.Js.Object.{Object, access}
use statsd.Js.Text.{Text, codes}
use statsd.Set.{Set, size}
use statsd.Timers.Thresholds.{Datum, number, undefined, bins}

-- Every element of the first list is in the second.
abbrev pub AreIn {ℓ} : {A : Type ℓ} → List A → List A → Type ℓ
AreIn xs ys = All (λ x. Memᴰ x ys) xs

pub AreIn-left {ℓ} : {A : Type ℓ} (xs ys zs : List A) → AreIn xs ys → AreIn xs (ys ++ zs)
AreIn-left [] ys zs h = tt
AreIn-left (x ∷ xs) ys zs (m, h) = (Memᴰ.append_left zs m, AreIn-left xs ys zs h)

pub AreIn-right {ℓ} : {A : Type ℓ} (xs ys zs : List A) → AreIn xs zs → AreIn xs (ys ++ zs)
AreIn-right [] ys zs h = tt
AreIn-right (x ∷ xs) ys zs (m, h) = (Memᴰ.append_right ys m, AreIn-right xs ys zs h)

pub AreIn-self {ℓ} : {A : Type ℓ} (xs : List A) → AreIn xs xs
AreIn-self [] = tt
AreIn-self (x ∷ xs) = (Memᴰ.head refl, AreIn-right xs (x ∷ []) xs (AreIn-self xs))

-- The numbers and the histogram's bins of a timer.
abbrev pub count_of {ℓ} : {N : Type ℓ} → Object (Datum N) → ℕ
count_of [] = 0
count_of ((key, number x) ∷ m) = 1 + count_of m
count_of ((key, undefined) ∷ m) = count_of m
count_of ((key, bins b) ∷ m) = length b + count_of m

abbrev pub counts_of {ℓ} : {N : Type ℓ} → Object (Object (Datum N)) → ℕ
counts_of [] = 0
counts_of ((key, data_of) ∷ m) = count_of data_of + counts_of m

module _ {ℓ} {N : Type ℓ} (num : JsNumber N) (g : Graphite) (ts : N) where
  length-counter_metrics :
      (key : Text) (value rate : N)
      → length (counter_metrics num g ts key value rate) ≡ (if g.flush_counts then 2 else 1)
  unfolding counter_metrics
  length-counter_metrics key value rate = ground arith

  length-all_counters :
      (rates m : Object N)
      → length (all_counters num g ts rates m) ≡ (if g.flush_counts then 2 else 1) * length m
  unfolding all_counters
  length-all_counters rates [] = ground arith
  length-all_counters rates ((key, value) ∷ m) =
      let rate = rate_of num g ts (access key rates) in
      length-append (counter_metrics num g ts key value rate) (all_counters num g ts rates m)
      ∙ ground (arith, length-counter_metrics key value rate, length-all_counters rates m)

  length-sub_metrics :
      (key data_key : Text) (m : Object N) → length (sub_metrics num g ts key data_key m) ≡ length m
  unfolding sub_metrics
  length-sub_metrics key data_key [] = refl
  length-sub_metrics key data_key ((k, x) ∷ m) = omega (arith, length-sub_metrics key data_key m)

  length-timer_metrics :
      (key : Text) (m : Object (Datum N)) → length (timer_metrics num g ts key m) ≡ count_of m
  unfolding timer_metrics datum_metrics
  length-timer_metrics key [] = refl
  length-timer_metrics key ((k, number x) ∷ m) = omega (arith, length-timer_metrics key m)
  length-timer_metrics key ((k, undefined) ∷ m) = length-timer_metrics key m
  length-timer_metrics key ((k, bins b) ∷ m) =
      length-append (sub_metrics num g ts key k b) (timer_metrics num g ts key m)
      ∙ omega (arith, length-sub_metrics key k b, length-timer_metrics key m)

  length-all_timers : (m : Object (Object (Datum N))) → length (all_timers num g ts m) ≡ counts_of m
  unfolding all_timers
  length-all_timers [] = refl
  length-all_timers ((key, t) ∷ m) =
      length-append (timer_metrics num g ts key t) (all_timers num g ts m)
      ∙ omega (arith, length-timer_metrics key t, length-all_timers m)

  length-all_gauges : (m : Object N) → length (all_gauges num g ts m) ≡ length m
  unfolding all_gauges
  length-all_gauges [] = refl
  length-all_gauges ((key, x) ∷ m) = omega (arith, length-all_gauges m)

  length-all_sets : (m : Object Set) → length (all_sets num g ts m) ≡ length m
  unfolding all_sets
  length-all_sets [] = refl
  length-all_sets ((key, x) ∷ m) = omega (arith, length-all_sets m)

  length-own_metrics : (m : Object N) → length (own_metrics num g ts m) ≡ length m
  unfolding own_metrics
  length-own_metrics [] = refl
  length-own_metrics ((key, x) ∷ m) = omega (arith, length-own_metrics m)

  length-count_metrics : (n : ℕ) (x : N) → length (count_metrics num g ts n x) ≡ 2
  unfolding count_metrics
  length-count_metrics n x = ground arith

  -- A flush sends one metric for each gauge and each set, one for each counter or two if counts are
  -- sent too, one for each number and each bin among the statistics of the timers, one for each entry
  -- about the daemon, and two more.
  length-flush_stats :
      (f : Flushed N) (calculation_time : N)
      → length (flush_stats num g ts f calculation_time)
        ≡ (if g.flush_counts then 2 else 1) * length f.counters
          + counts_of f.timer_data
          + length f.gauges
          + length f.sets
          + 2
          + length f.statsd_metrics
  unfolding flush_stats
  length-flush_stats f time =
      let cs = all_counters num g ts f.counter_rates f.counters in
      let ts' = all_timers num g ts f.timer_data in
      let gs = all_gauges num g ts f.gauges in
      let ss = all_sets num g ts f.sets in
      let ns = count_metrics num g ts (num_stats num g ts f) time in
      let os = own_metrics num g ts f.statsd_metrics in
      ground (
        arith,
        length-append cs (ts' ++ (gs ++ (ss ++ (ns ++ os)))),
        length-append ts' (gs ++ (ss ++ (ns ++ os))),
        length-append gs (ss ++ (ns ++ os)),
        length-append ss (ns ++ os),
        length-append ns os,
        length-all_counters f.counter_rates f.counters,
        length-all_timers f.timer_data,
        length-all_gauges f.gauges,
        length-all_sets f.sets,
        length-count_metrics (num_stats num g ts f) time,
        length-own_metrics f.statsd_metrics,
      )

module _ {ℓ} {N : Type ℓ} (num : JsNumber N) (g : Graphite) (ts : N) where
  abbrev pub of_gauge : Text × N → Metric N
  of_gauge (key, x) = metric num g ts (format g g.gauges_namespace key []) x

  abbrev pub of_set : Text × Set → Metric N
  of_set (key, set) =
      metric num g ts (format g g.sets_namespace key (codes "count" ∷ [])) (num.of_nat (size set))
