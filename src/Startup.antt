-- ===== src/Startup.antt =====
-- stats.js, the callback of `configFile`: the names of the daemon's own statistics, the tables at the
-- start, the percentiles, the intervals, and which servers and backends are loaded.
use statsd.Base.{ℕ, ◌≡◌, refl, true, List, [], ◌∷◌, ◌++◌, Option, none, some, if◌then◌else◌, arith}
use statsd.Flush.{is_internal}
use statsd.Js.Number.{JsNumber, nought, truthy}
use statsd.Js.Object.{put}
use statsd.Js.Text.{Text, codes, starts_with, includes}
use statsd.Stats.{Stats, Names, Config}

-- `prefixStats`: "statsd" where the file has none.
unfoldable pub prefix_of : Option Text → Text
prefix_of none = codes "statsd"
prefix_of (some prefix) = prefix

-- The names of the daemon's own statistics.
unfoldable pub names_of : Text → Names
names_of prefix_stats = record {
  bad_lines = prefix_stats ++ codes ".bad_lines_seen";
  packets_received = prefix_stats ++ codes ".packets_received";
  metrics_received = prefix_stats ++ codes ".metrics_received";
  timestamp_lag = prefix_stats ++ codes ".timestamp_lag";
}

-- The tables before the configuration is read.
unfoldable pub initial {ℓ} : {N : Type ℓ} → ℕ → Stats N
initial startup_time = record {
  key_counter = [];
  counters = [];
  timers = [];
  timer_counters = [];
  gauges = [];
  gauges_ttl = [];
  sets = [];
  last_msg_seen = startup_time;
  bad_lines_seen = 0;
}

-- `percentThreshold` as the file has it.
pub data Percentiles {ℓ} (N : Type ℓ) : Type ℓ where
  absent : Percentiles N
  single : N → Percentiles N
  listed : List N → Percentiles N

-- `keyFlush` as the file has it.
pub record KeyFlush {ℓ} (N : Type ℓ) : Type ℓ where
  pub interval : Option N
  pub percent : Option N
  pub log : Option Text

module _ {ℓ} {N : Type ℓ} (num : JsNumber N) where
  -- What the callback does to the tables, at the start and when the file changes: times to live are
  -- dropped where gauges are not deleted, and the daemon's own counters are zero. (No name of theirs
  -- is `__proto__`.)
  unfoldable pub configured : Config → Names → Stats N → Stats N
  unfolding put
  configured conf names s = record s {
    gauges_ttl = if conf.delete_gauges then s.gauges_ttl else [];
    counters =
        put names.metrics_received (nought num)
          (put names.packets_received (nought num) (put names.bad_lines (nought num) s.counters));
  }

  -- `x || n` of a number that may be missing
  unfoldable pub or_default : Option N → ℕ → N
  or_default none n = num.of_nat n
  or_default (some x) n = if truthy num x then x else num.of_nat n

  -- `pctThreshold`, a list in any case
  unfoldable pub pct_threshold : Percentiles N → List N
  unfolding or_default
  pct_threshold absent = num.of_nat 90 ∷ []
  pct_threshold (single x) = or_default (some x) 90 ∷ []
  pct_threshold (listed xs) = xs

  unfoldable pub flush_interval : Option N → N
  unfolding or_default
  flush_interval interval = or_default interval 10000

  -- `keyFlushInterval` and `keyFlushPercent`
  unfoldable pub key_flush_interval : Option (KeyFlush N) → N
  unfolding or_default
  key_flush_interval none = nought num
  key_flush_interval (some key_flush) = or_default key_flush.interval 0

  unfoldable pub key_flush_percent : Option (KeyFlush N) → N
  unfolding or_default
  key_flush_percent none = num.of_nat 100
  key_flush_percent (some key_flush) = or_default key_flush.percent 100

starts_with_self : (p : Text) → starts_with p p ≡ true
unfolding starts_with
starts_with_self [] = refl
starts_with_self (c ∷ p) = ground (arith, starts_with_self p)

includes_self : (p : Text) → includes p p ≡ true
unfolding includes starts_with
includes_self [] = refl
includes_self (c ∷ p) = ground (arith, starts_with_self p)

includes-tail : (a p : Text) (d : ℕ) → includes p (a ++ (d ∷ p)) ≡ true
unfolding includes
includes-tail [] p d = ground (arith, includes_self p)
includes-tail (c ∷ a) p d = ground (arith, includes-tail a p d)

-- Under every prefix a flush takes the three counters for the daemon's own.
pub names_of-internal :
    (prefix_stats : Text)
    → let names = names_of prefix_stats in
      (is_internal names.bad_lines ≡ true)
      × (is_internal names.packets_received ≡ true)
      × (is_internal names.metrics_received ≡ true)
unfolding is_internal names_of
names_of-internal prefix_stats = (
  ground (arith, includes-tail prefix_stats (codes "bad_lines_seen") b'.'),
  ground (arith, includes-tail prefix_stats (codes "packets_received") b'.'),
  ground (arith, includes-tail prefix_stats (codes "metrics_received") b'.'),
)
