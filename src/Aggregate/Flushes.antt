-- ===== src/Aggregate/Flushes.antt =====
-- `flushMetrics` against the view of the tables.
use mathlib.Core.Path.{fun_ext}
use statsd.Base.{
  ℕ, ◌≡◌, refl, ap, ◌∙◌, Bool, true, false, not, ◌&&◌, ◌||◌, List, [], Option, none, some,
  if◌then◌else◌, ltb, is_some, Bool-cases, inl, inr,
}
use statsd.Aggregate.{View, view, members, update_own}
use statsd.Flush.{clear_metrics, is_internal}
use statsd.Flush.Clear.{
  aged, expired, clear_metrics_tables, clear_metrics_gauges, clear_metrics-key_counter,
}
use statsd.Flush.Cycle.{flush_metrics, record_lag, processed}
use statsd.Js.Number.{JsNumber, nought}
use statsd.Js.Object.{Object, lookup, map_values, IsObject}
use statsd.Js.Object.Laws.{lookup-map_values, lookup-assign}
use statsd.Js.Text.{Text}
use statsd.Set.{Set, empty}
use statsd.Set.Laws.{has-empty}
use statsd.Stats.{Stats, Names, Config}
use statsd.Timers.{Options, process_metrics, seconds}
use statsd.Timers.Sort.{sort}

module _ {ℓ} {N : Type ℓ} (num : JsNumber N) (conf : Config) where
  -- What clearing does to a view.
  abbrev pub cleared : View N → View N
  cleared v = record {
    counters = λ k.
        if is_some (v.counters k) && (not conf.delete_counters || is_internal k)
        then some (nought num)
        else none;
    timers =
        λ k. if is_some (v.timers k) then (if conf.delete_timers then none else some []) else none;
    timer_counters = λ k.
        if is_some (v.timers k)
        then (if conf.delete_timers then none else some (nought num))
        else v.timer_counters k;
    gauges = λ k. if conf.delete_gauges && expired (v.gauges_ttl k) then none else v.gauges k;
    gauges_ttl = λ k. if conf.delete_gauges then aged (v.gauges_ttl k) else v.gauges_ttl k;
    sets = λ k. if is_some (v.sets k) && not conf.delete_sets then some (λ w. false) else none;
    key_counter = v.key_counter;
  }

  emptied_members :
      (s : Stats N) (k : Text)
      → members (lookup k (clear_metrics num conf s).sets) ≡ (
          if is_some (members (lookup k s.sets)) && not conf.delete_sets
          then some (λ w. false)
          else none)
  emptied_members s k =
      ap members (clear_metrics_tables num conf s k).3 ∙ go (lookup k s.sets) conf.delete_sets
    where
      go :
          (o : Option Set) (d : Bool)
          → members (if is_some o && not d then some empty else none)
            ≡ (if is_some (members o) && not d then some (λ w. false) else none)
      go none d = refl
      go (some m) true = refl
      go (some m) false = ap some (fun_ext has-empty)

  clear_metrics-view :
      (s : Stats N) → IsObject s.gauges_ttl → view (clear_metrics num conf s) ≡ cleared (view s)
  clear_metrics-view s h = λ i. record {
    counters = fun_ext (λ k. (clear_metrics_tables num conf s k).0) i;
    timers = fun_ext (λ k. (clear_metrics_tables num conf s k).1) i;
    timer_counters = fun_ext (λ k. (clear_metrics_tables num conf s k).2) i;
    gauges = fun_ext (λ k. (clear_metrics_gauges num conf s k h).1) i;
    gauges_ttl = fun_ext (λ k. (clear_metrics_gauges num conf s k h).0) i;
    sets = fun_ext (emptied_members s) i;
    key_counter = λ k. lookup k (clear_metrics-key_counter num conf s i);
  }

module _ {ℓ} {N : Type ℓ} (num : JsNumber N) (names : Names) (conf : Config)
    (options : Options N) where
  -- What the gauge for the lag does to a view.
  abbrev pub lagged : ℕ → ℕ → View N → View N
  lagged old now v =
      if ltb 0 old
      then record v {
        gauges =
            update_own names.timestamp_lag
              (some (
                num.sub (num.sub (num.of_nat now) (num.of_nat old))
                  (seconds num options.flush_interval)))
              v.gauges;
      }
      else v

  pub record_lag-view :
      (old now : ℕ) (s : Stats N)
      → view (record_lag num names conf options old now s) ≡ lagged old now (view s)
  unfolding record_lag
  record_lag-view old now s = elim (Bool-cases (ltb 0 old)) [
    | inl e ↦ rw e (
        ap (λ f. record (view s) { gauges = f })
          (fun_ext λ k. lookup-assign names.timestamp_lag k _ s.gauges))
    | inr e ↦ rw e refl
  ]

  record_lag-once :
      (old now : ℕ) (s : Stats N)
      → IsObject s.gauges_ttl
      → IsObject (record_lag num names conf options old now s).gauges_ttl
  unfolding record_lag
  record_lag-once old now s h = elim (Bool-cases (ltb 0 old)) [ inl e ↦ rw e h | inr e ↦ rw e h ]

  is_some-sorted :
      (m : Object (List N)) (k : Text)
      → is_some (lookup k (map_values (λ key values. sort num values) m)) ≡ is_some (lookup k m)
  is_some-sorted m k =
      ap is_some (lookup-map_values (λ key values. sort num values) k m) ∙ kept (lookup k m)
    where
      kept :
          (found : Option (List N))
          → is_some {A = List N} (elim found [ none ↦ none | some v ↦ some (sort num v) ])
            ≡ is_some found
      kept none = refl
      kept (some v) = refl

  -- clearing does not look at the values of a timer
  cleared-sorted :
      (elapsed : N) (s : Stats N)
      → cleared num conf
          (view (record s { timers = (processed num names conf options elapsed s).timers }))
        ≡ cleared num conf (view s)
  unfolding processed process_metrics
  cleared-sorted elapsed s = λ i. record (cleared num conf (view s)) {
    timers = λ k.
        if is_some-sorted s.timers k i
        then (if conf.delete_timers then none else some [])
        else none;
    timer_counters = λ k.
        if is_some-sorted s.timers k i
        then (if conf.delete_timers then none else some (nought num))
        else lookup k s.timer_counters;
  }

  -- A flush does to the tables what the lag and the clearing do to their view: a counter becomes zero
  -- or goes, a timer loses its values or goes with its counter, a set loses its members or goes, and,
  -- where gauges are deleted, a gauge goes when its time to live runs out. The times to live stand
  -- under different keys.
  pub flush_metrics_refines :
      (time_stamp old_timestamp : ℕ) (elapsed : N) (s : Stats N)
      → IsObject s.gauges_ttl
      → view (flush_metrics num names conf options time_stamp elapsed (old_timestamp, s)).1.1
        ≡ cleared num conf (lagged old_timestamp time_stamp (view s))
  unfolding flush_metrics
  flush_metrics_refines now old elapsed s h =
      let late = record_lag num names conf options old now s in
      clear_metrics-view num conf
        (record late { timers = (processed num names conf options elapsed late).timers })
        (record_lag-once old now s h)
      ∙ cleared-sorted elapsed late
      ∙ ap (cleared num conf) (record_lag-view old now s)
