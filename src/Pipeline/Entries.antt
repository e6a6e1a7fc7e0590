-- ===== src/Pipeline/Entries.antt =====
-- What is known of a key between two flushes, as lines of backends/graphite.js, and that a flush has them.
use mathlib.Core.Option
use mathlib.Core.List.Memᴰ
use mathlib.Core.List.{Memᴰ}
use statsd.Base.{
  ◌≡◌, refl, sym, ap₂, subst, List, [], ◌∷◌, ◌++◌, Option, none, some, All, arith, Bool-cases, inl,
  inr, length,
}
use statsd.Aggregate.{View}
use statsd.Aggregate.Interval.{reported, IsSent}
use statsd.Flush.Cycle.{Emitted}
use statsd.Graphite.{Flushed}
use statsd.Graphite.Flush.{AreIn, AreIn-left, AreIn-right, AreIn-self}
use statsd.Graphite.Lines.{
  line, timer_name, counter_lines, timer_lines, datum_lines, gauge_line, rate_at, each, flush_lines,
}
use statsd.Graphite.Settings.{GraphiteConfig}
use statsd.Js.Number.{JsNumber}
use statsd.Js.Object.{Object, lookup}
use statsd.Js.Text.{Text, codes, eqb, eqb_iff}
use statsd.Stats.{Names, Config}
use statsd.Timers.{Options, seconds, last_of, timer_stats}
use statsd.Timers.Filter.{filter_timer_metrics}
use statsd.Timers.Sort.{sort}
use statsd.Timers.Summary.{timer_stats-IsSummary}
use statsd.Timers.Sums.{total, square}
use statsd.Timers.Thresholds.{Datum, number}

AreIn-append {ℓ} :
    {A : Type ℓ} (xs ys zs : List A) → AreIn xs zs → AreIn ys zs → AreIn (xs ++ ys) zs
AreIn-append [] ys zs h e = e
AreIn-append (x ∷ xs) ys zs (m, h) e = (m, AreIn-append xs ys zs h e)

pub AreIn-trans {ℓ} : {A : Type ℓ} (xs ys zs : List A) → AreIn xs ys → AreIn ys zs → AreIn xs zs
AreIn-trans [] ys zs h k = tt
AreIn-trans {A} (x ∷ xs) ys zs (m, h) k = (at ys m k, AreIn-trans xs ys zs h k)
  where
    at : (ys : List A) → Memᴰ x ys → All (λ y. Memᴰ y zs) ys → Memᴰ x zs
    at [] m k = elim m [ ]
    at (y ∷ ys) (Memᴰ.head e) (k, ks) = subst (λ z. Memᴰ z zs) (sym e) k
    at (y ∷ ys) (Memᴰ.tail m) (k, ks) = at ys m ks

-- What of a flush graphite reads.
abbrev pub flushed_of {ℓ} : {N : Type ℓ} → Emitted N → Flushed N
flushed_of sent = record {
  counters = sent.counters;
  gauges = sent.gauges;
  sets = sent.sets;
  counter_rates = sent.counter_rates;
  timer_data = sent.timer_data;
  statsd_metrics = sent.statsd_metrics;
}

module _ {ℓ} {N : Type ℓ} (num : JsNumber N) where
  module _ (names : Names) (conf : Config) (options : Options N) (c : GraphiteConfig) (ts : N) where
    -- the lines of the entry of a table at a key
    each-in {κ} :
        {V : Type κ} (lines : Text → V → List Text) (m : Object V) (k : Text) (v : V)
        → lookup k m ≡ some v
        → AreIn (lines k v) (each c num ts lines m)
    unfolding lookup
    each-in lines [] k v h = cc
    each-in lines ((j, w) ∷ m) k v h = elim (Bool-cases (eqb j k)) [
      | inl e ↦
          let same : w ≡ v = ground arith in
          subst (λ ls. AreIn ls (lines j w ++ each c num ts lines m))
            (ap₂ lines ((eqb_iff j k).0 e) same)
            (AreIn-left (lines j w) (lines j w) (each c num ts lines m) (AreIn-self (lines j w)))
      | inr e ↦
          AreIn-right (lines k v) (lines j w) (each c num ts lines m)
            (each-in lines m k v (ground arith))
    ]

    -- The lines of what is known of a key: a counter's value and its rate, by the seconds of a flush.
    abbrev pub counter_part : Text → Option N → List Text
    counter_part k none = []
    counter_part k (some x) =
        counter_lines c num ts k x (num.div x (num.div options.flush_interval (num.of_nat 1000)))

    -- All statistics of a timer.
    abbrev pub timer_part : Text → Option N → Option (List N) → List Text
    timer_part k weight none = []
    timer_part k weight (some xs) =
        timer_lines c num ts k (reported num names conf options k weight xs)

    abbrev pub gauge_part : Text → Option N → List Text
    gauge_part k none = []
    gauge_part k (some x) = gauge_line c num ts k x ∷ []

    -- Of a timer's values, in ascending order: the least and the greatest one, their sum, the sum of their
    -- squares, and their mean.
    abbrev pub summary_lines : Text → List N → List Text
    summary_lines k [] = []
    summary_lines k (least ∷ others) =
        let sum = total num (λ x. x) least others in
        line c num ts (timer_name c k (codes ".lower")) least
        ∷ line c num ts (timer_name c k (codes ".upper")) (last_of least others)
        ∷ line c num ts (timer_name c k (codes ".sum")) sum
        ∷ line c num ts (timer_name c k (codes ".sum_squares"))
            (total num (square num) least others)
        ∷ line c num ts (timer_name c k (codes ".mean"))
            (num.div sum (num.of_nat (length (least ∷ others))))
        ∷ []

    abbrev pub summary_part : Text → Option (List N) → List Text
    summary_part k none = []
    summary_part k (some xs) = summary_lines k (sort num xs)

    -- each of them in the lines of a flush
    counter_in :
        (sent : Emitted N) (time : N) (k : Text) (o : Option N)
        → lookup k sent.counters ≡ o
        → lookup k sent.counter_rates
          ≡ Option.map (λ x. num.div x (num.div options.flush_interval (num.of_nat 1000))) o
        → AreIn (counter_part k o) (flush_lines c num ts (flushed_of sent) time)
    counter_in sent time k none e r = tt
    counter_in sent time k (some x) e r = AreIn-left (counter_part k (some x)) _ _ (
        subst
          (λ o. AreIn (counter_lines c num ts k x (rate_at c num ts o)) (
            each c num ts
              (λ key value.
                counter_lines c num ts key value (rate_at c num ts (lookup key sent.counter_rates)))
              sent.counters))
          r
          (each-in
            (λ key value.
              counter_lines c num ts key value (rate_at c num ts (lookup key sent.counter_rates)))
            sent.counters k x e))

    timer_data_in :
        (sent : Emitted N) (time : N) (k : Text) (m : Object (Datum N))
        → lookup k sent.timer_data ≡ some m
        → AreIn (timer_lines c num ts k m) (flush_lines c num ts (flushed_of sent) time)
    timer_data_in sent time k m e = AreIn-right (timer_lines c num ts k m) _ _ (
        AreIn-left (timer_lines c num ts k m) _ _
          (each-in (timer_lines c num ts) sent.timer_data k m e))

    pub timer_in :
        (sent : Emitted N) (time : N) (k : Text) (weight : Option N) (o : Option (List N))
        → lookup k sent.timer_data ≡ Option.map (reported num names conf options k weight) o
        → AreIn (timer_part k weight o) (flush_lines c num ts (flushed_of sent) time)
    timer_in sent time k weight none d = tt
    timer_in sent time k weight (some xs) d = timer_data_in sent time k _ d

    gauge_in :
        (sent : Emitted N) (time : N) (k : Text) (o : Option N)
        → lookup k sent.gauges ≡ o
        → AreIn (gauge_part k o) (flush_lines c num ts (flushed_of sent) time)
    gauge_in sent time k none e = tt
    gauge_in sent time k (some x) e =
        let here = gauge_line c num ts k x ∷ [] in
        AreIn-right here _ _ (
          AreIn-right here _ _ (
            AreIn-left here _ _
              (each-in (λ key y. gauge_line c num ts key y ∷ []) sent.gauges k x e)))

    -- a statistic that is a number has its line
    datum_in :
        (k stat : Text) (m : Object (Datum N)) (x : N)
        → lookup stat m ≡ some (number x)
        → Memᴰ (line c num ts (timer_name c k (codes "." ++ stat)) x) (timer_lines c num ts k m)
    unfolding lookup
    datum_in k stat [] x h = cc
    datum_in k stat ((j, d) ∷ m) x h = elim (Bool-cases (eqb j stat)) [
      | inl e ↦
          let same : d ≡ number x = ground arith in
          subst
            (λ j.
              Memᴰ (line c num ts (timer_name c k (codes "." ++ stat)) x)
                (datum_lines c num ts k j d ++ timer_lines c num ts k m))
            (sym ((eqb_iff j stat).0 e)) (rw same (Memᴰ.head refl))
      | inr e ↦ Memᴰ.append_right (datum_lines c num ts k j d) (datum_in k stat m x (ground arith))
    ]

    summary_in :
        (k : Text) (interval : N) (weight : Option N) (sorted : List N)
        → AreIn (summary_lines k sorted) (
            timer_lines c num ts k
              (timer_stats num options.pct_threshold options.histogram interval k weight sorted))
    summary_in k interval weight [] = tt
    summary_in k interval weight (least ∷ others) =
        let m =
          timer_stats num options.pct_threshold options.histogram interval k weight
            (least ∷ others) in
        let s =
          timer_stats-IsSummary num options.pct_threshold options.histogram interval k weight least
            others in
        let (lower, upper, _, _, sum, squares, mean, _) = s in
        (
          datum_in k (codes "lower") m _ lower,
          (
            datum_in k (codes "upper") m _ upper,
            (
              datum_in k (codes "sum") m _ sum,
              (
                datum_in k (codes "sum_squares") m _ squares,
                (datum_in k (codes "mean") m _ mean, tt),
              ),
            ),
          ),
        )

    -- All that is known of a key, as lines.
    abbrev pub known_lines : Text → View N → View N → List Text
    known_lines k v late =
        counter_part k (v.counters k)
        ++ (timer_part k (v.timer_counters k) (v.timers k) ++ gauge_part k (late.gauges k))

    pub known_in :
        (sent : Emitted N) (time : N) (k : Text) (v late : View N)
        → IsSent num names conf options k v late sent
        → AreIn (known_lines k v late) (flush_lines c num ts (flushed_of sent) time)
    unfolding seconds
    known_in sent time k v late (e, r, _, _, d, _, g) =
        let all = flush_lines c num ts (flushed_of sent) time in
        let weight = v.timer_counters k in
        AreIn-append (counter_part k (v.counters k))
          (timer_part k weight (v.timers k) ++ gauge_part k (late.gauges k)) all
          (counter_in sent time k (v.counters k) e r)
          (AreIn-append (timer_part k weight (v.timers k)) (gauge_part k (late.gauges k)) all
            (timer_in sent time k weight (v.timers k) d) (gauge_in sent time k (late.gauges k) g))

    -- where every statistic is wanted, the summary is among them
    pub summary_part_in :
        (k : Text) (weight : Option N) (o : Option (List N))
        → options.calculated_timer_metrics ≡ none
        → AreIn (summary_part k o) (timer_part k weight o)
    unfolding filter_timer_metrics
    summary_part_in k weight none h = tt
    summary_part_in k weight (some xs) h =
        rw h (summary_in k options.flush_interval weight (sort num xs))
