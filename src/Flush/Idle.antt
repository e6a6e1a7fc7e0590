-- ===== src/Flush/Idle.antt =====
-- How long an idle gauge lives.
use statsd.Base.{ℕ, zero, suc, ◌≤◌, ◌≡◌, true, none, some, if◌then◌else◌, arith, ltb}
use statsd.Flush.{clear_metrics}
use statsd.Flush.Clear.{clear_metrics_gauges, clear_metrics-once}
use statsd.Js.Number.{JsNumber}
use statsd.Js.Object.{lookup, IsObject}
use statsd.Js.Text.{Text}
use statsd.Stats.{Stats, Config}

module _ {ℓ} {N : Type ℓ} (num : JsNumber N) (conf : Config) where
  -- The clearing of `n` flushes with no packet between them. A flush also records its lag in a gauge of
  -- its own (`record_lag`), which is not counted here.
  abbrev pub idle_flushes : ℕ → Stats N → Stats N
  idle_flushes zero s = s
  idle_flushes (suc n) s = idle_flushes n (clear_metrics num conf s)

  -- a gauge that is gone does not come back
  stays_gone :
      (n : ℕ) (s : Stats N) (k : Text)
      → IsObject s.gauges_ttl
      → lookup k s.gauges ≡ none
      → lookup k (idle_flushes n s).gauges ≡ none
  stays_gone zero s k o h = h
  stays_gone (suc n) s k o h =
      let (e0, e1) = clear_metrics_gauges num conf s k o in
      stays_gone n (clear_metrics num conf s) k (clear_metrics-once num conf s o)
        (ground (arith, e1))

  -- Where gauges are deleted, a gauge with the time to live `ttl` keeps its value through fewer than
  -- `ttl` flushes without an update, and from flush number `ttl` on it is gone. The flushes are what
  -- `clear_metrics` does at each, the gauge of the lag, which each writes again, apart.
  pub idle_gauge :
      (n : ℕ) (s : Stats N) (k : Text) (ttl : ℕ)
      → conf.delete_gauges ≡ true
      → IsObject s.gauges_ttl
      → lookup k s.gauges_ttl ≡ some ttl
      → 1 ≤ ttl
      → lookup k (idle_flushes n s).gauges ≡ (if ltb n ttl then lookup k s.gauges else none)
  idle_gauge zero s k ttl d o h lt = ground arith
  idle_gauge (suc n) s k zero d o h lt = absurd (omega arith)
  idle_gauge (suc n) s k (suc zero) d o h lt =
      let (e0, e1) = clear_metrics_gauges num conf s k o in
      ground
        (arith, e1, stays_gone n (clear_metrics num conf s) k (clear_metrics-once num conf s o))
  idle_gauge (suc n) s k (suc (suc m)) d o h lt =
      let (e0, e1) = clear_metrics_gauges num conf s k o in
      ground (
        arith,
        e0,
        e1,
        idle_gauge n (clear_metrics num conf s) k (suc m) d (clear_metrics-once num conf s o),
      )
