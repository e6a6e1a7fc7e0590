-- ===== src/Examples/Intervals.antt =====
-- Two flushes with packets in between, and the theorems about them.
use statsd.Base.{ℕ, ◌≡◌, refl, true, false, List, [], ◌∷◌, none, some}
use statsd.Base.Int.{pos}
use statsd.Aggregate.{view, apply_all, packet_events}
use statsd.Aggregate.Flushes.{cleared, lagged, flush_metrics_refines}
use statsd.Aggregate.Packets.{handle_packet_refines, handle_packets, packets_events}
use statsd.Examples.Numbers.{Whole, whole_number}
use statsd.Flush.Cycle.{flush_metrics}
use statsd.Helpers.{is_valid_packet}
use statsd.Js.Object.{access, assign, lookup, put}
use statsd.Js.Text.{Text, codes, split, trim, includes, contains, join}
use statsd.Packet.{handle_packet}
use statsd.Packet.Metric.{
  Outcome, done, fault, handle_valid, handle_fields, add_metric, add_counter, add_timer, add_gauge,
  add_to_set, count_bad_line,
}
use statsd.Set.{insert, empty}
use statsd.Stats.{Stats, Names, Config}
use statsd.Timers.{Options}

abbrev pub conf : Config
conf = record {
  delete_counters = false;
  delete_timers = true;
  delete_sets = false;
  delete_gauges = true;
  gauges_max_ttl = 2;
  key_name_sanitize = true;
  count_keys = true;
}

abbrev pub own_names : Names
own_names = record {
  bad_lines = codes "statsd.bad_lines_seen";
  packets_received = codes "statsd.packets_received";
  metrics_received = codes "statsd.metrics_received";
  timestamp_lag = codes "statsd.timestamp_lag";
}

abbrev pub options : Options Whole
options = record {
  pct_threshold = [];
  histogram = [];
  calculated_timer_metrics = none;
  flush_interval = some (pos 10000);
}

abbrev pub first : Stats Whole
first = record {
  key_counter = [];
  counters = (codes "c", some (pos 30)) ∷ [];
  timers = (codes "t", some (pos 9) ∷ []) ∷ [];
  timer_counters = (codes "t", some (pos 1)) ∷ [];
  gauges = (codes "g", some (pos 9)) ∷ [];
  gauges_ttl = (codes "g", 2) ∷ [];
  sets = (codes "u", empty) ∷ [];
  last_msg_seen = 0;
  bad_lines_seen = 0;
}

-- counts, a timer and a set, in two packets
abbrev pub packets : List (ℕ × Text)
packets = (112, codes "c:3|c\nt:5|ms") ∷ (115, codes "t:2|ms:x|ms\nu:joe|s\nc:4|c") ∷ []

abbrev state_of : Outcome (Stats Whole) → Stats Whole
state_of (done s) = s
state_of (fault e) = first

flushed : Stats Whole
unfolding flush_metrics
flushed = (flush_metrics whole_number own_names conf options 110 (some (pos 1)) (100, first)).1.1

unfoldable pub second : Stats Whole
unfolding handle_packet handle_fields handle_valid add_metric add_counter add_timer add_gauge
    add_to_set count_bad_line access put assign split trim contains is_valid_packet join insert
    includes flushed
second = state_of (handle_packets whole_number own_names conf packets flushed)

pub arrived :
    handle_packets whole_number own_names conf packets
      (flush_metrics whole_number own_names conf options 110 (some (pos 1)) (100, first)).1.1
    ≡ done second
unfolding second
arrived = refl

flush_metrics_refines_example :
    view (flush_metrics whole_number own_names conf options 110 (some (pos 1)) (100, first)).1.1
    ≡ cleared whole_number conf (lagged whole_number own_names conf options 100 110 (view first))
unfolding lookup
flush_metrics_refines_example =
    flush_metrics_refines whole_number own_names conf options 110 100 (some (pos 1)) first
      (refl, tt)

abbrev packet : Text
packet = codes "c:3|c\nt:x|ms"

after : Stats Whole
unfolding second
after = state_of (handle_packet whole_number own_names conf 105 packet first)

after_lem : handle_packet whole_number own_names conf 105 packet first ≡ done after
unfolding after
after_lem = refl

handle_packet_refines_example :
    view after
    ≡ apply_all whole_number conf (packet_events whole_number own_names conf packet) (view first)
handle_packet_refines_example =
    handle_packet_refines whole_number own_names conf 105 packet first after after_lem

-- what the second flush sends for the timer and the count
sent_timer :
    let v = apply_all whole_number conf (packets_events whole_number own_names conf packets) (
      cleared whole_number conf
        (lagged whole_number own_names conf options 100 110 (view first))) in
    (v.timers (codes "t") ≡ some (some (pos 5) ∷ some (pos 2) ∷ []))
    × (v.counters (codes "c") ≡ some (some (pos 7)))
unfolding second lookup
sent_timer = (refl, refl)
