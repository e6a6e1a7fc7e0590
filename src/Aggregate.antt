-- ===== src/Aggregate.antt =====
-- What the tables of stats.js stand for: for each key a sum, a list, a last value or a set of items,
-- with no order and no representation; and what the events in a packet do to that.
pub mod Packets
pub mod Tables
pub mod Refines
pub mod Flushes
pub mod Interval
pub mod Lifetime
use statsd.Base.{
  ℕ, suc, ◌+◌, Bool, true, false, not, ◌&&◌, ◌||◌, List, [], ◌∷◌, ◌++◌, Option, none, some,
  if◌then◌else◌,
}
use statsd.Helpers.{is_valid_packet}
use statsd.Js.Number.{JsNumber, nought, one, truthy}
use statsd.Js.Object.{lookup, proto}
use statsd.Js.Text.{Text, codes, eqb, is_empty, split, trim}
use statsd.Packet.{lines_of, key_of, bits_of}
use statsd.Packet.Metric.{Outcome, done, fault, number_or, is_signed, sample_rate, field}
use statsd.Set.{Set, has}
use statsd.Set.Laws.{is_storable}
use statsd.Stats.{Stats, Names, Config}

-- One thing that a packet reports.
pub data Event {ℓ} (N : Type ℓ) : Type ℓ where
  -- a counter of the daemon grows by one
  bumped : Text → Event N
  -- a key was seen
  seen : Text → Event N
  counted : Text → N → Event N
  timed : Text → N → N → Event N
  gauged : Text → Text → Event N
  inserted : Text → Text → Event N

-- For each key, what is known of it.
pub record View {ℓ} (N : Type ℓ) : Type ℓ where
  pub counters : Text → Option N
  pub timers : Text → Option (List N)
  pub timer_counters : Text → Option N
  pub gauges : Text → Option N
  pub gauges_ttl : Text → Option ℕ
  pub sets : Text → Option (Text → Bool)
  pub key_counter : Text → Option ℕ

-- A set as a test of membership.
abbrev pub members : Option Set → Option (Text → Bool)
members none = none
members (some s) = some (λ w. has w s)

-- The tables as a view.
abbrev pub view {ℓ} : {N : Type ℓ} → Stats N → View N
view s = record {
  counters = λ k. lookup k s.counters;
  timers = λ k. lookup k s.timers;
  timer_counters = λ k. lookup k s.timer_counters;
  gauges = λ k. lookup k s.gauges;
  gauges_ttl = λ k. lookup k s.gauges_ttl;
  sets = λ k. members (lookup k s.sets);
  key_counter = λ k. lookup k s.key_counter;
}

-- A function changed at one key.
abbrev pub update {ℓ} : {A : Type ℓ} → Text → A → (Text → A) → Text → A
update key x f k = if eqb key k then x else f k

-- Changed at a key that an assignment can make.
abbrev pub update_own {ℓ} : {A : Type ℓ} → Text → A → (Text → A) → Text → A
update_own key x f k = if not (eqb key proto) && eqb key k then x else f k

abbrev pub items_of : Option (Text → Bool) → Text → Bool
items_of none w = false
items_of (some f) w = f w

abbrev pub values_of {ℓ} : {A : Type ℓ} → Option (List A) → List A
values_of none = []
values_of (some xs) = xs

abbrev pub times_seen : Option ℕ → ℕ
times_seen none = 0
times_seen (some n) = n

module _ {ℓ} {N : Type ℓ} (num : JsNumber N) where
  -- One more; an entry that is not there becomes NaN.
  abbrev pub one_more : Option N → N
  one_more none = num.nan
  one_more (some x) = num.add x (one num)

  -- What a counter is added to: nothing, zero and NaN count as zero.
  abbrev pub base_of : Option N → N
  base_of none = nought num
  base_of (some x) = if truthy num x then x else nought num

  -- The weight of a timer so far, if the timer is there.
  abbrev pub weight_of : Option (List N) → Option N → N
  weight_of none w = nought num
  weight_of (some xs) none = num.nan
  weight_of (some xs) (some w) = w

  -- A signed value is added to a gauge that is not zero, any other value replaces it.
  abbrev pub new_gauge : Option N → Text → N
  new_gauge none value = number_or num 0 value
  new_gauge (some x) value =
      if truthy num x && is_signed value
      then num.add x (number_or num 0 value)
      else number_or num 0 value

  -- What an event does to a view.
  abbrev pub apply : Config → Event N → View N → View N
  apply conf (bumped key) v = record v {
    counters = update key (some (one_more (v.counters key))) v.counters;
  }
  apply conf (seen key) v =
      if conf.count_keys
      then record v {
        key_counter = update key (some (times_seen (v.key_counter key) + 1)) v.key_counter;
      }
      else v
  apply conf (counted key x) v = record v {
    counters = update key (some (num.add (base_of (v.counters key)) x)) v.counters;
  }
  apply conf (timed key x w) v = record v {
    timers = update key (some (values_of (v.timers key) ++ x ∷ [])) v.timers;
    timer_counters =
        update key (some (num.add (weight_of (v.timers key) (v.timer_counters key)) w))
          v.timer_counters;
  }
  apply conf (gauged key value) v = record v {
    gauges = update_own key (some (new_gauge (v.gauges key) value)) v.gauges;
    gauges_ttl =
        if conf.delete_gauges
        then update_own key (some conf.gauges_max_ttl) v.gauges_ttl
        else v.gauges_ttl;
  }
  apply conf (inserted key item) v = record v {
    sets =
        update key (some (λ w. (is_storable item && eqb item w) || items_of (v.sets key) w)) v.sets;
  }

  abbrev pub apply_all : Config → List (Event N) → View N → View N
  apply_all conf [] v = v
  apply_all conf (e ∷ events) v = apply_all conf events (apply conf e v)

  -- The rate that a metric is sampled with.
  abbrev pub rate_of : Outcome N → N
  rate_of (done r) = r
  rate_of (fault e) = num.nan

  -- The event of a valid metric, by its type without the space around it.
  abbrev pub event_of : Text → Text → Text → N → Event N
  event_of key kind value rate =
      if eqb kind (codes "ms")
      then timed key (number_or num 0 value) (num.div (one num) rate)
      else if eqb kind (codes "g")
      then gauged key value
      else if eqb kind (codes "s")
      then inserted key (if is_empty value then codes "0" else value)
      else counted key (num.mul (number_or num 1 value) (num.div (one num) rate))

  -- The event of a metric: a bad one is only counted.
  abbrev pub metric_event : Names → Text → List Text → Event N
  metric_event names key fields =
      if is_valid_packet num fields
      then event_of key (trim (field fields 1)) (field fields 0) (rate_of (sample_rate num fields))
      else bumped names.bad_lines

  abbrev pub bit_events : Names → Text → List Text → List (Event N)
  bit_events names key [] = []
  bit_events names key (bit ∷ bits) =
      metric_event names key (split (codes "|") bit) ∷ bit_events names key bits

  -- The events of a line: it is counted, its key is seen, and then its metrics.
  abbrev pub line_events : Names → Config → Text → List (Event N)
  line_events names conf line =
      if is_empty line
      then []
      else bumped names.metrics_received
        ∷ seen (key_of conf.key_name_sanitize line)
        ∷ bit_events names (key_of conf.key_name_sanitize line) (bits_of line)

  abbrev pub lines_events : Names → Config → List Text → List (Event N)
  lines_events names conf [] = []
  lines_events names conf (line ∷ lines) =
      line_events names conf line ++ lines_events names conf lines

  -- The events of a packet.
  abbrev pub packet_events : Names → Config → Text → List (Event N)
  packet_events names conf packet =
      bumped names.packets_received ∷ lines_events names conf (lines_of packet)
