-- ===== src/Stats.antt =====
-- The state of stats.js: its tables, the base statistics, and the configuration that it reads.
use statsd.Base.{ℕ, ◌≤◌, ◌≡◌, Bool, true, false, List, some, All}
use statsd.Js.Text.{Text}
use statsd.Js.Number.{JsNumber}
use statsd.Js.Object.{Object, lookup, has, IsObject}
use statsd.Set.{Set}

-- The module's variables `keyCounter`, `counters`, `timers`, … and the fields of `stats.messages`.
pub record Stats {ℓ} (N : Type ℓ) : Type ℓ where
  pub key_counter : Object ℕ
  pub counters : Object N
  pub timers : Object (List N)
  pub timer_counters : Object N
  pub gauges : Object N
  pub gauges_ttl : Object ℕ
  pub sets : Object Set
  pub last_msg_seen : ℕ
  pub bad_lines_seen : ℕ

-- The names of the daemon's own statistics.
pub record Names : Type 0 where
  pub bad_lines : Text
  pub packets_received : Text
  pub metrics_received : Text
  pub timestamp_lag : Text

-- What the configuration settles: the deletions, the gauges' time to live, whether keys are
-- sanitized, and whether keys are counted (`keyFlushInterval > 0`).
pub record Config : Type 0 where
  pub delete_counters : Bool
  pub delete_timers : Bool
  pub delete_sets : Bool
  pub delete_gauges : Bool
  pub gauges_max_ttl : ℕ
  pub key_name_sanitize : Bool
  pub count_keys : Bool

-- What the tables keep to: a timer has its counter and its values are numbers, a gauge's time to
-- live is positive and at most `top`, and a counted key was seen.
pub record IsWellFormed {ℓ} {N : Type ℓ} (num : JsNumber N) (top : ℕ) (s : Stats N) : Type ℓ where
  pub paired :
      (k : Text) (xs : List N) → lookup k s.timers ≡ some xs → has k s.timer_counters ≡ true
  pub numeric :
      (k : Text) (xs : List N) → lookup k s.timers ≡ some xs → All (λ x. num.is_nan x ≡ false) xs
  pub alive : (k : Text) (n : ℕ) → lookup k s.gauges_ttl ≡ some n → (1 ≤ n) × (n ≤ top)
  pub counted : (k : Text) (n : ℕ) → lookup k s.key_counter ≡ some n → 1 ≤ n
  pub once : IsObject s.gauges_ttl

-- What the invariant reads is the same in another state.
pub same-IsWellFormed {ℓ} :
    {N : Type ℓ} {num : JsNumber N} {top : ℕ} {s t : Stats N}
    → IsWellFormed num top s
    → t.timers ≡ s.timers
    → t.timer_counters ≡ s.timer_counters
    → t.gauges_ttl ≡ s.gauges_ttl
    → t.key_counter ≡ s.key_counter
    → IsWellFormed num top t
same-IsWellFormed w timers weights ttl counts = record {
  paired = λ k xs h. rw weights (w.paired k xs (rw timers at h));
  numeric = λ k xs h. w.numeric k xs (rw timers at h);
  alive = λ k n h. w.alive k n (rw ttl at h);
  counted = λ k n h. w.counted k n (rw counts at h);
  once = rw ttl w.once;
}
