-- ===== src/Graphite.antt =====
-- backends/graphite.js: the names and values of a flush, for graphite.
pub mod Wire
pub mod Settings
pub mod Names
pub mod Flush
pub mod Lines
pub mod Post
pub mod Send
use statsd.Base.{
  ℕ, suc, ◌+◌, Bool, true, false, List, [], ◌∷◌, ◌++◌, Option, none, some, if◌then◌else◌, length,
}
use statsd.Js.Number.{JsNumber}
use statsd.Js.Object.{Object, access, Access, own, inherited, missing}
use statsd.Js.Text.{Text, codes, split, join}
use statsd.Packet.Key.{sanitize_text}
use statsd.Set.{Set, size}
use statsd.Timers.Thresholds.{Datum, number, undefined, bins}
use Settings.{Graphite}
use Wire.{Metric}

-- `sk`
unfoldable pub sk : Graphite → Text → Text
unfolding sanitize_text
sk g key = if g.global_key_sanitize then key else sanitize_text key

-- `';' + splitName.slice(1).join(';')`, if there is a second part
unfoldable pub tags_of : List Text → Text
unfolding join
tags_of [] = []
tags_of (tag ∷ tags) = b';' ∷ join (codes ";") (tag ∷ tags)

abbrev head_of : List Text → Text
head_of [] = []
head_of (t ∷ ts) = t

abbrev tail_of : List Text → List Text
tail_of [] = []
tail_of (t ∷ ts) = ts

-- the result, from `splitName`
abbrev pub format_parts : Graphite → List Text → List Text → List Text → Text
format_parts g namespace more split_name =
    join (codes ".") (namespace ++ (sk g (head_of split_name) ∷ more))
    ++ (g.global_suffix ++ tags_of (tail_of split_name))

-- `format`, with the arguments behind the key in a list
unfoldable pub format : Graphite → List Text → Text → List Text → Text
unfolding sk tags_of split join
format g namespace key more = format_parts g namespace more (split (codes ";") key)

-- What a flush hands over.
pub record Flushed {ℓ} (N : Type ℓ) : Type ℓ where
  pub counters : Object N
  pub gauges : Object N
  pub sets : Object Set
  pub counter_rates : Object N
  pub timer_data : Object (Object (Datum N))
  pub statsd_metrics : Object N

module _ {ℓ} {N : Type ℓ} (num : JsNumber N) (g : Graphite) (ts : N) where
  -- `stats.add`
  abbrev pub metric : Text → N → Metric N
  metric key value = record { key = key; value = value; ts = ts }

  -- `counter_rates[key]`: `process_metrics` has made an entry for each counter
  abbrev pub rate_of : Access N → N
  rate_of (own x) = x
  rate_of inherited = num.nan
  rate_of missing = num.nan

  -- what one counter adds
  unfoldable pub counter_metrics : Text → N → N → List (Metric N)
  unfolding format
  counter_metrics key value per_second =
      if g.legacy_namespace
      then metric (format g g.counter_namespace key []) per_second
        ∷ (if g.flush_counts
            then metric (format g (codes "stats_counts" ∷ []) key []) value ∷ []
            else [])
      else metric (format g g.counter_namespace key (codes "rate" ∷ [])) per_second
        ∷ (if g.flush_counts
            then metric (format g g.counter_namespace key (codes "count" ∷ [])) value ∷ []
            else [])

  unfoldable pub all_counters : Object N → Object N → List (Metric N)
  unfolding counter_metrics access
  all_counters rates [] = []
  all_counters rates ((key, value) ∷ m) =
      counter_metrics key value (rate_of (access key rates)) ++ all_counters rates m

  -- The loop over an entry that is no number.
  unfoldable pub sub_metrics : Text → Text → Object N → List (Metric N)
  unfolding format
  sub_metrics key data_key [] = []
  sub_metrics key data_key ((sub_key, x) ∷ m) =
      metric (format g g.timer_namespace key (data_key ∷ sub_key ∷ [])) x
      ∷ sub_metrics key data_key m

  -- one entry of a timer; `undefined` has no properties to loop over
  unfoldable pub datum_metrics : Text → Text → Datum N → List (Metric N)
  unfolding format sub_metrics
  datum_metrics key data_key (number x) =
      metric (format g g.timer_namespace key (data_key ∷ [])) x ∷ []
  datum_metrics key data_key undefined = []
  datum_metrics key data_key (bins m) = sub_metrics key data_key m

  unfoldable pub timer_metrics : Text → Object (Datum N) → List (Metric N)
  unfolding datum_metrics
  timer_metrics key [] = []
  timer_metrics key ((data_key, d) ∷ m) = datum_metrics key data_key d ++ timer_metrics key m

  unfoldable pub all_timers : Object (Object (Datum N)) → List (Metric N)
  unfolding timer_metrics
  all_timers [] = []
  all_timers ((key, data_of) ∷ m) = timer_metrics key data_of ++ all_timers m

  unfoldable pub all_gauges : Object N → List (Metric N)
  unfolding format
  all_gauges [] = []
  all_gauges ((key, x) ∷ m) = metric (format g g.gauges_namespace key []) x ∷ all_gauges m

  unfoldable pub all_sets : Object Set → List (Metric N)
  unfolding format size
  all_sets [] = []
  all_sets ((key, set) ∷ m) =
      metric (format g g.sets_namespace key (codes "count" ∷ [])) (num.of_nat (size set))
      ∷ all_sets m

  -- `numStats`: one for each key
  unfoldable pub num_stats : Flushed N → ℕ
  num_stats f = length f.counters + length f.timer_data + length f.gauges + length f.sets

  -- The entries about the daemon itself.
  unfoldable pub own_metrics : Object N → List (Metric N)
  unfolding format
  own_metrics [] = []
  own_metrics ((key, x) ∷ m) =
      (if g.legacy_namespace
        then metric (codes "stats." ++ (g.prefix_stats ++ (b'.' ∷ key)) ++ g.global_suffix) x
        else metric (format g g.global_namespace g.prefix_stats (key ∷ [])) x)
      ∷ own_metrics m

  -- The number of stats, and the time of the calculation.
  unfoldable pub count_metrics : ℕ → N → List (Metric N)
  unfolding format
  count_metrics count calculation_time =
      if g.legacy_namespace
      then metric (g.prefix_stats ++ codes ".numStats" ++ g.global_suffix) (num.of_nat count)
        ∷ metric
            (codes "stats."
              ++ g.prefix_stats
              ++ codes ".graphiteStats.calculationtime"
              ++ g.global_suffix)
            calculation_time
        ∷ []
      else metric (format g g.global_namespace g.prefix_stats (codes "numStats" ∷ []))
          (num.of_nat count)
        ∷ metric
            (format g g.global_namespace g.prefix_stats
              (codes "graphiteStats" ∷ codes "calculationtime" ∷ []))
            calculation_time
        ∷ []

  -- `flush_stats`: the metrics for `post_stats`, in their order.
  unfoldable pub flush_stats : Flushed N → N → List (Metric N)
  unfolding all_counters all_timers all_gauges all_sets num_stats count_metrics own_metrics
  flush_stats f calculation_time =
      all_counters f.counter_rates f.counters
      ++ (all_timers f.timer_data
          ++ (all_gauges f.gauges
              ++ (all_sets f.sets
                  ++ (count_metrics (num_stats f) calculation_time
                      ++ own_metrics f.statsd_metrics))))
