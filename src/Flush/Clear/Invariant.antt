-- ===== src/Flush/Clear/Invariant.antt =====
-- stats.js, `clear_metrics`: the invariant of the tables.
use statsd.Base.{ℕ, ◌≤◌, ◌≡◌, true, false, List, [], ◌∷◌, some, arith, All, ◌+◌}
use statsd.Flush.{clear_metrics}
use statsd.Js.Number.{JsNumber}
use statsd.Js.Object.{lookup, has}
use statsd.Js.Text.{Text}
use statsd.Stats.{Stats, Config, IsWellFormed}
use statsd.Flush.Clear.{
  clear_metrics_tables, clear_metrics_gauges, clear_metrics-once, clear_metrics-key_counter,
}

module _ {ℓ} {N : Type ℓ} (num : JsNumber N) (conf : Config) (s : Stats N) (top : ℕ)
    (w : IsWellFormed num top s) where
  paired_lem :
      (k : Text) (xs : List N)
      → lookup k (clear_metrics num conf s).timers ≡ some xs
      → has k (clear_metrics num conf s).timer_counters ≡ true
  unfolding has
  paired_lem k xs h =
      let (_, e1, e2, _) = clear_metrics_tables num conf s k in rw (e2) (ground (arith, e1))

  numeric_lem :
      (k : Text) (xs : List N)
      → lookup k (clear_metrics num conf s).timers ≡ some xs
      → All (λ x. num.is_nan x ≡ false) xs
  numeric_lem k [] h = tt
  numeric_lem k (x ∷ xs) h =
      let e = (clear_metrics_tables num conf s k).1 in absurd (ground (arith, e))

  alive_lem :
      (k : Text) (n : ℕ)
      → lookup k (clear_metrics num conf s).gauges_ttl ≡ some n
      → (1 ≤ n) × (n ≤ top)
  alive_lem k n h =
      let e = (clear_metrics_gauges num conf s k w.once).0 in
      ground (arith, e, w.alive k (n + 1), w.alive k n)

  -- A flush leaves well formed tables well formed.
  pub clear_metrics-IsWellFormed : IsWellFormed num top (clear_metrics num conf s)
  clear_metrics-IsWellFormed = record {
    paired = paired_lem;
    numeric = numeric_lem;
    alive = alive_lem;
    counted = λ k n h. w.counted k n (rw (clear_metrics-key_counter num conf s) at h);
    once = clear_metrics-once num conf s w.once;
  }
