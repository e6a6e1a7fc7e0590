-- ===== src/Flush/Settings.antt =====
-- stats.js, the callback of `configFile`: what the configuration settles before the first packet.
use statsd.Base.{ℕ, Bool, true, false, Option, none, some, if◌then◌else◌, ltb, ◌≤◌, arith}
use statsd.Stats.{Config}

-- A field of the configuration that may be `undefined`, read as a condition.
abbrev pub or_else : Option Bool → Bool → Bool
or_else none d = d
or_else (some b) d = b

-- The fields as the file gives them. `gauges_max_ttl` is `none` where it is no integer.
pub record RawConfig : Type 0 where
  pub delete_idle_stats : Option Bool
  pub delete_counters : Option Bool
  pub delete_timers : Option Bool
  pub delete_sets : Option Bool
  pub delete_gauges : Option Bool
  pub gauges_max_ttl : Option ℕ
  pub key_name_sanitize : Option Bool
  pub count_keys : Bool

-- `gaugesMaxTTL` is forced to 1 where it is not an integer above 1.
unfoldable pub max_ttl : Option ℕ → ℕ
max_ttl none = 1
max_ttl (some n) = if ltb 1 n then n else 1

-- `deleteIdleStats` sets each deletion that the file leaves open; what is still open is false when it
-- is read.
unfoldable pub settle : RawConfig → Config
unfolding max_ttl
settle raw =
    let idle = or_else raw.delete_idle_stats false in
    record {
      delete_counters = or_else raw.delete_counters idle;
      delete_timers = or_else raw.delete_timers idle;
      delete_sets = or_else raw.delete_sets idle;
      delete_gauges = or_else raw.delete_gauges idle;
      gauges_max_ttl = max_ttl raw.gauges_max_ttl;
      key_name_sanitize = or_else raw.key_name_sanitize true;
      count_keys = raw.count_keys;
    }

-- Every configuration settles on a positive time to live, as the invariant of the tables asks.
pub settle-max_ttl : (raw : RawConfig) → 1 ≤ (settle raw).gauges_max_ttl
unfolding settle
settle-max_ttl raw = ground arith

-- What the file settles when it has changed: `keyNameSanitize` stays as it was where the file has none,
-- and whether keys are counted is settled once.
unfoldable pub resettle : Config → RawConfig → Config
unfolding settle
resettle before raw = record (settle raw) {
  key_name_sanitize = or_else raw.key_name_sanitize before.key_name_sanitize;
  count_keys = before.count_keys;
}

pub resettle-max_ttl :
    (before : Config) (raw : RawConfig) → 1 ≤ (resettle before raw).gauges_max_ttl
unfolding resettle
resettle-max_ttl before raw = settle-max_ttl raw
