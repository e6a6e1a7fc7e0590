-- ===== src/Aggregate/Interval.antt =====
-- `flushMetrics` against the view of the tables: what the backends get of what came in between two
-- flushes.
use mathlib.Core.Option
use statsd.Base.{ℕ, ◌≡◌, refl, ap, ap₂, ◌∙◌, List, Option, none, some, subst}
use statsd.Aggregate.{View, view, members, apply_all}
use statsd.Aggregate.Flushes.{cleared, lagged, record_lag-view, flush_metrics_refines}
use statsd.Aggregate.Packets.{handle_packets, packets_events, handle_packets-view}
use statsd.Flush.Cycle.{
  Emitted, flush_metrics, flush_metrics_lem, record_lag, record_lag-same, processed,
}
use statsd.Js.Number.{JsNumber}
use statsd.Js.Object.{Object, lookup, map_values, IsObject}
use statsd.Js.Object.Laws.{lookup-map_values}
use statsd.Js.Text.{Text}
use statsd.Packet.Metric.{done}
use statsd.Stats.{Stats, Names, Config}
use statsd.Timers.{Options, process_metrics, timer_stats, seconds}
use statsd.Timers.Filter.{filter_timer_metrics}
use statsd.Timers.Thresholds.{Datum}
use statsd.Timers.Sort.{sort}

module _ {ℓ} {V W : Type ℓ} where
  mapped :
      (f : V → W) (found : Option V)
      → elim found as (λ _. Option W) [ none ↦ none | some v ↦ some (f v) ] ≡ Option.map f found
  mapped f none = refl
  mapped f (some v) = refl

  -- what `map_values` leaves at a key
  lookup-mapped :
      (f : Text → V → W) (k : Text) (m : Object V)
      → lookup k (map_values f m) ≡ Option.map (f k) (lookup k m)
  lookup-mapped f k m = lookup-map_values f k m ∙ mapped (f k) (lookup k m)

module _ {ℓ} {N : Type ℓ} (num : JsNumber N) (names : Names) (conf : Config)
    (options : Options N) where
  -- The statistics of a timer, from its values and its weight.
  abbrev pub reported : Text → Option N → List N → Object (Datum N)
  reported k weight xs =
      filter_timer_metrics
        (timer_stats num options.pct_threshold options.histogram options.flush_interval k weight
          (sort num xs))
        options.calculated_timer_metrics

  -- What the backends get for a key is what a view says: the counter and its rate by the second, the
  -- timer's values sorted, its weight and its statistics, the set's members, and the gauge.
  abbrev pub IsSent : Text → View N → View N → Emitted N → Type ℓ
  IsSent k v late sent =
      (lookup k sent.counters ≡ v.counters k)
      × (lookup k sent.counter_rates
          ≡ Option.map (λ x. num.div x (seconds num options.flush_interval)) (v.counters k))
      × (lookup k sent.timers ≡ Option.map (sort num) (v.timers k))
      × (lookup k sent.timer_counters ≡ v.timer_counters k)
      × (lookup k sent.timer_data ≡ Option.map (reported k (v.timer_counters k)) (v.timers k))
      × (members (lookup k sent.sets) ≡ v.sets k)
      × (lookup k sent.gauges ≡ late.gauges k)

  option_twice :
      (f : List N → Object (Datum N)) (found : Option (List N))
      → Option.map f (Option.map (sort num) found) ≡ Option.map (λ xs. f (sort num xs)) found
  option_twice f none = refl
  option_twice f (some xs) = refl

  -- the statistics of a timer that is sorted first
  timer_data-sorted :
      (timer_counters : Object N) (timers : Object (List N)) (k : Text)
      → lookup k (
          map_values
            (λ key values.
              filter_timer_metrics
                (timer_stats num options.pct_threshold options.histogram options.flush_interval key
                  (lookup key timer_counters)
                  values)
                options.calculated_timer_metrics)
            (map_values (λ key values. sort num values) timers))
        ≡ Option.map (reported k (lookup k timer_counters)) (lookup k timers)
  timer_data-sorted timer_counters timers k =
      let stats = λ (key : Text) (values : List N).
        filter_timer_metrics
          (timer_stats num options.pct_threshold options.histogram options.flush_interval key
            (lookup key timer_counters) values)
          options.calculated_timer_metrics in
      lookup-mapped stats k (map_values (λ key values. sort num values) timers)
      ∙ ap (Option.map (stats k)) (lookup-mapped (λ key values. sort num values) k timers)
      ∙ option_twice (stats k) (lookup k timers)

  -- what the backends get, by the view
  pub sent_lem :
      (time_stamp old_timestamp : ℕ) (elapsed : N) (s : Stats N) (k : Text)
      → IsSent k
          (view s)
          (lagged num names conf options old_timestamp time_stamp (view s))
          (flush_metrics num names conf options time_stamp elapsed (old_timestamp, s)).0
  unfolding flush_metrics processed process_metrics
  sent_lem now old elapsed s k =
      let late = record_lag num names conf options old now s in
      let (_, same_timers, same_counters, _) = record_lag-same num names conf options old now s in
      let (c, ts, tc, ss, rs, _, _) =
        flush_metrics_lem num names conf options now old elapsed s k in
      (
        ap (lookup k) c,
        ap (lookup k) rs
            ∙ lookup-mapped (λ key x. num.div x (seconds num options.flush_interval)) k s.counters,
        ap (lookup k) ts ∙ lookup-mapped (λ key values. sort num values) k s.timers,
        ap (lookup k) tc,
        timer_data-sorted late.timer_counters late.timers k
            ∙ ap₂ (λ w m. Option.map (reported k (lookup k w)) (lookup k m)) same_counters
                same_timers,
        ap (λ m. members (lookup k m)) ss,
        ap (λ (v : View N). v.gauges k) (record_lag-view num names conf options old now s),
      )

  -- From one flush to the next: what the backends get for a key at the second is what the events of
  -- the packets in between make of the cleared tables: a counter's sum and its rate, a timer's values
  -- in order, its weight and the statistics of these, a set's members, and a gauge. The times to live
  -- stand under different keys before, and every packet is handled.
  pub interval_lem :
      (time_stamp next_stamp old_timestamp : ℕ) (elapsed lasting : N) (packets : List (ℕ × Text))
      → (s t : Stats N) (k : Text) → IsObject s.gauges_ttl
      → handle_packets num names conf packets
          (flush_metrics num names conf options time_stamp elapsed (old_timestamp, s)).1.1
        ≡ done t
      → let v =
          apply_all num conf
            (packets_events num names conf packets)
            (cleared num conf (lagged num names conf options old_timestamp time_stamp (view s))) in
        IsSent k v
          (lagged num names conf options time_stamp next_stamp v)
          (flush_metrics num names conf options next_stamp lasting (time_stamp, t)).0
  interval_lem now next old elapsed lasting packets s t k once h =
      let flushed = (flush_metrics num names conf options now elapsed (old, s)).1.1 in
      let sent = (flush_metrics num names conf options next lasting (now, t)).0 in
      subst (λ (v : View N). IsSent k v (lagged num names conf options now next v) sent)
        (handle_packets-view num names conf packets flushed t h
          ∙ ap (apply_all num conf (packets_events num names conf packets))
              (flush_metrics_refines num names conf options now old elapsed s once))
        (sent_lem next now lasting t k)
