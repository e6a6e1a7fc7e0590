-- ===== src/Flush/Cycle.antt =====
-- stats.js, `flushMetrics`: the tables are processed, handed to the backends, and cleared.
use statsd.Base.{
  ℕ, ◌≡◌, refl, ap, subst, ◌∙◌, false, List, [], Option, none, some, if◌then◌else◌, ltb, is_some,
  not, ◌&&◌, ◌||◌, All, arith, Bool-cases, inl, inr,
}
use statsd.Flush.{clear_metrics, is_internal}
use statsd.Flush.Clear.{clear_metrics_tables}
use statsd.Flush.Clear.Invariant.{clear_metrics-IsWellFormed}
use statsd.Js.Number.{JsNumber, nought}
use statsd.Js.Object.{Object, lookup, assign, map_values}
use statsd.Js.Object.Laws.{lookup-map_values}
use statsd.Js.Text.{Text}
use statsd.Set.{Set}
use statsd.Stats.{Stats, Names, Config, IsWellFormed, same-IsWellFormed}
use statsd.Timers.{Options, Processed, process_metrics, seconds, rates}
use statsd.Timers.Sort.{sort, sort-All}
use statsd.Timers.Thresholds.{Datum}

-- What the backends get with a flush.
pub record Emitted {ℓ} (N : Type ℓ) : Type ℓ where
  pub counters : Object N
  pub gauges : Object N
  pub timers : Object (List N)
  pub timer_counters : Object N
  pub sets : Object Set
  pub counter_rates : Object N
  pub timer_data : Object (Object (Datum N))
  pub statsd_metrics : Object N

module _ {ℓ} {N : Type ℓ} (num : JsNumber N) (names : Names) (conf : Config)
    (options : Options N) where
  -- From the second flush on, how late it is.
  unfoldable pub record_lag : ℕ → ℕ → Stats N → Stats N
  unfolding seconds assign
  record_lag old_timestamp time_stamp s =
      if ltb 0 old_timestamp
      then record s {
        gauges =
            assign names.timestamp_lag
              (num.sub (num.sub (num.of_nat time_stamp) (num.of_nat old_timestamp))
                (seconds num options.flush_interval))
              s.gauges;
      }
      else s

  -- The timers are sorted where they stand.
  unfoldable pub processed : N → Stats N → Processed N
  unfolding process_metrics
  processed elapsed s = process_metrics num options elapsed s.counters s.timers s.timer_counters

  -- `flushMetrics`, with the time and how long the processing took: what the backends get, and the
  -- tables and `old_timestamp` behind it.
  unfoldable pub flush_metrics : ℕ → N → ℕ × Stats N → Emitted N × (ℕ × Stats N)
  unfolding record_lag processed clear_metrics
  flush_metrics time_stamp elapsed (old_timestamp, before) =
      let s = record_lag old_timestamp time_stamp before in
      let p = processed elapsed s in
      (
        record {
          counters = s.counters;
          gauges = s.gauges;
          timers = p.timers;
          timer_counters = s.timer_counters;
          sets = s.sets;
          counter_rates = p.counter_rates;
          timer_data = p.timer_data;
          statsd_metrics = p.statsd_metrics;
        },
        (time_stamp, clear_metrics num conf (record s { timers = p.timers })),
      )

  record_lag-IsWellFormed :
      (top old now : ℕ) (s : Stats N)
      → IsWellFormed num top s
      → IsWellFormed num top (record_lag old now s)
  unfolding record_lag
  record_lag-IsWellFormed top old now s w = elim (Bool-cases (ltb 0 old)) [
    | inl e ↦ rw e (same-IsWellFormed w refl refl refl refl)
    | inr e ↦ rw e w
  ]

  -- the timers that were there before the sort
  unsorted :
      (k : Text) (xs : List N) (m : Object (List N))
      → lookup k (map_values (λ key values. sort num values) m) ≡ some xs
      → (ys : List N) × (lookup k m ≡ some ys) × (sort num ys ≡ xs)
  unsorted k xs m h = go (lookup k m) refl
    where
      go :
          (found : Option (List N))
          → lookup k m ≡ found
          → (ys : List N) × (lookup k m ≡ some ys) × (sort num ys ≡ xs)
      go none e = let known = lookup-map_values (λ key values. sort num values) k m in cc
      go (some ys) e =
          let known = lookup-map_values (λ key values. sort num values) k m in
          (ys, e, ground (arith, known, h, e))

  sorted-IsWellFormed :
      (top : ℕ) (elapsed : N) (s : Stats N)
      → IsWellFormed num top s
      → IsWellFormed num top (record s { timers = (processed elapsed s).timers })
  unfolding processed process_metrics
  sorted-IsWellFormed top elapsed s w = record {
    paired = λ k xs h. let (ys, e, _) = unsorted k xs s.timers h in w.paired k ys e;
    numeric = λ k xs h.
        let (ys, e, sorted) = unsorted k xs s.timers h in
        subst (All λ x. num.is_nan x ≡ false) sorted
          (sort-All num (λ x. num.is_nan x ≡ false) ys (w.numeric k ys e));
    alive = w.alive;
    counted = w.counted;
    once = w.once;
  }

  -- A whole flush leaves well formed tables well formed, at any time.
  pub flush_metrics-IsWellFormed :
      (top time_stamp old_timestamp : ℕ) (elapsed : N) (s : Stats N)
      → IsWellFormed num top s
      → IsWellFormed num top (flush_metrics time_stamp elapsed (old_timestamp, s)).1.1
  unfolding flush_metrics
  flush_metrics-IsWellFormed top now old elapsed s w =
      let lagged = record_lag old now s in
      clear_metrics-IsWellFormed num conf
        (record lagged { timers = (processed elapsed lagged).timers }) top
        (sorted-IsWellFormed top elapsed lagged (record_lag-IsWellFormed top old now s w))

  -- the lag changes no other table
  pub record_lag-same :
      (old now : ℕ) (s : Stats N)
      → ((record_lag old now s).counters ≡ s.counters)
        × ((record_lag old now s).timers ≡ s.timers)
        × ((record_lag old now s).timer_counters ≡ s.timer_counters)
        × ((record_lag old now s).sets ≡ s.sets)
  unfolding record_lag
  record_lag-same old now s = elim (Bool-cases (ltb 0 old)) [
    | inl e ↦ rw e (refl, refl, refl, refl)
    | inr e ↦ rw e (refl, refl, refl, refl)
  ]

  -- A flush hands to the backends the counters, the timers' counters and the sets as they stand, the
  -- timers sorted, and a rate for each counter, its value by the seconds of an interval. After it a
  -- counter that stood there is zero, or gone if counters are deleted and it is not one of the daemon's
  -- own, and a timer that stood there has no values or is gone.
  pub flush_metrics_lem :
      (time_stamp old_timestamp : ℕ) (elapsed : N) (s : Stats N) (k : Text)
      → let (sent, (_, t)) = flush_metrics time_stamp elapsed (old_timestamp, s) in
        (sent.counters ≡ s.counters)
        × (sent.timers ≡ map_values (λ key values. sort num values) s.timers)
        × (sent.timer_counters ≡ s.timer_counters)
        × (sent.sets ≡ s.sets)
        × (sent.counter_rates
            ≡ map_values (λ key x. num.div x (seconds num options.flush_interval)) s.counters)
        × (lookup k t.counters ≡ (
            if is_some (lookup k s.counters) && (not conf.delete_counters || is_internal k)
            then some (nought num)
            else none))
        × (lookup k t.timers ≡ (
            if is_some (lookup k s.timers)
            then (if conf.delete_timers then none else some [])
            else none))
  unfolding flush_metrics processed process_metrics rates
  flush_metrics_lem now old elapsed s k =
      let lagged = record_lag old now s in
      let (c, ts, tc, ss) = record_lag-same old now s in
      let sorted = map_values (λ key values. sort num values) lagged.timers in
      let after = clear_metrics_tables num conf (record lagged { timers = sorted }) k in
      let there : is_some (lookup k sorted) ≡ is_some (lookup k s.timers) =
        ap is_some (lookup-map_values (λ key values. sort num values) k lagged.timers)
        ∙ kept (lookup k lagged.timers)
        ∙ ap (λ m. is_some (lookup k m)) ts in
      (
        c,
        ap (map_values (λ key values. sort num values)) ts,
        tc,
        ss,
        ap (map_values (λ key x. num.div x (seconds num options.flush_interval))) c,
        after.0
            ∙ ap
                (λ m.
                  if is_some (lookup k m) && (not conf.delete_counters || is_internal k)
                  then some (nought num)
                  else none)
                c,
        after.1
            ∙ ap (λ b. if b then (if conf.delete_timers then none else some []) else none) there,
      )
    where
      kept :
          (found : Option (List N))
          → is_some {A = List N} (elim found [ none ↦ none | some v ↦ some (sort num v) ])
            ≡ is_some found
      kept none = refl
      kept (some v) = refl
