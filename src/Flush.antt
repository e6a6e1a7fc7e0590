-- ===== src/Flush.antt =====
-- stats.js, `flushMetrics`: what happens to the tables after the backends have had them.
pub mod Clear
pub mod Cycle
pub mod Idle
pub mod Settings
pub mod Schedule
pub mod Timeout
use statsd.Base.{
  ℕ, ◌-◌, Bool, true, false, ◌||◌, List, [], ◌∷◌, Option, none, some, if◌then◌else◌, ltb,
}
use statsd.Js.Number.{JsNumber, nought}
use statsd.Js.Object.{Object, keys, map_values, put, remove}
use statsd.Js.Text.{Text, codes, includes}
use statsd.Set.{Set, empty}
use statsd.Stats.{Stats, Config}

-- `counter_key.indexOf("packets_received") != -1`, and two other names
unfoldable pub is_internal : Text → Bool
unfolding includes
is_internal counter_key =
    includes (codes "packets_received") counter_key
    || includes (codes "metrics_received") counter_key
    || includes (codes "bad_lines_seen") counter_key

module _ {ℓ} {N : Type ℓ} (num : JsNumber N) where
  -- The loop over the counters: each is set to zero or deleted where it stands.
  unfoldable pub clear_counters : Bool → Object N → Object N
  unfolding is_internal
  clear_counters delete_counters [] = []
  clear_counters delete_counters ((key, x) ∷ m) =
      let rest = clear_counters delete_counters m in
      if delete_counters
      then if is_internal key then (key, nought num) ∷ rest else rest
      else (key, nought num) ∷ rest

  -- The loop over the keys of the timers: two tables change.
  unfoldable pub clear_timers : Bool → List Text → Stats N → Stats N
  unfolding put remove
  clear_timers delete_timers [] s = s
  clear_timers delete_timers (key ∷ timer_keys) s = clear_timers delete_timers timer_keys (
      if delete_timers
      then record s { timers = remove key s.timers; timer_counters = remove key s.timer_counters }
      else record s {
        timers = put key [] s.timers;
        timer_counters = put key (nought num) s.timer_counters;
      })

-- The loop over the sets.
unfoldable pub clear_sets : Bool → Object Set → Object Set
unfolding map_values
clear_sets delete_sets sets = if delete_sets then [] else map_values (λ key set. empty) sets

-- The loop over `gaugesTTL`: `gaugesTTL[gauge_key]--`, and below 1 the gauge and its entry go.
unfoldable pub age_gauges {ℓ} : {V : Type ℓ} → Object ℕ → Object V → Object ℕ × Object V
unfolding remove
age_gauges [] gauges = ([], gauges)
age_gauges ((key, ttl) ∷ m) gauges =
    let gone = ltb (ttl - 1) 1 in
    let rest = age_gauges m (if gone then remove key gauges else gauges) in
    (if gone then rest.0 else (key, ttl - 1) ∷ rest.0, rest.1)

unfoldable pub clear_gauges {ℓ} : {N : Type ℓ} → Config → Stats N → Stats N
unfolding age_gauges
clear_gauges conf s =
    let aged = age_gauges s.gauges_ttl s.gauges in
    if conf.delete_gauges then record s { gauges_ttl = aged.0; gauges = aged.1 } else s

-- `clear_metrics`, the last listener of a flush.
unfoldable pub clear_metrics {ℓ} : {N : Type ℓ} → JsNumber N → Config → Stats N → Stats N
unfolding clear_counters clear_timers clear_sets clear_gauges keys
clear_metrics num conf s =
    let t = record s { counters = clear_counters num conf.delete_counters s.counters } in
    let u = clear_timers num conf.delete_timers (keys t.timers) t in
    clear_gauges conf (record u { sets = clear_sets conf.delete_sets u.sets })
