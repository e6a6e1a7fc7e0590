-- ===== src/Examples/Packets.antt =====
-- Packets, and the theorems about `handlePacket` at them.
use statsd.Base.{◌+◌, ◌≡◌, refl, true, false, List, [], ◌∷◌, some, arith, All}
use statsd.Base.Int.{pos}
use statsd.Examples.Numbers.{Whole, whole_number}
use statsd.Helpers.{is_valid_packet}
use statsd.Js.Object.{is_inherited, access, assign, lookup, put}
use statsd.Js.Text.{Text, codes, split, trim, includes, contains, join, is_digit}
use statsd.Packet.{handle_packet, lines_of}
use statsd.Packet.BadLines.{bad_in_lines, handle_packet-bad_lines}
use statsd.Packet.Outcomes.{is_done, fault_of}
use statsd.Packet.Faults.{fault_of-handle_valid}
use statsd.Packet.Faults.Safe.{are_safe, handle_packet_total}
use statsd.Packet.Frame.{OnlyKey, handle_valid-OnlyKey}
use statsd.Packet.Invariant.Handler.{handle_packet-IsWellFormed}
use statsd.Packet.Key.{sanitize_key_name}
use statsd.Packet.Metric.{
  Outcome, done, fault, type_error, handle_valid, handle_fields, add_metric, add_counter, add_timer,
  add_gauge, add_to_set, count_bad_line,
}
use statsd.Packet.Sanitize.{IsKeyChar, one_pass, sanitize_key_name_lem}
use statsd.Set.{insert}
use statsd.Stats.{Stats, Names, Config, IsWellFormed}

abbrev statsd_names : Names
statsd_names = record {
  bad_lines = codes "statsd.bad_lines_seen";
  packets_received = codes "statsd.packets_received";
  metrics_received = codes "statsd.metrics_received";
  timestamp_lag = codes "statsd.timestamp_lag";
}

abbrev plain : Config
plain = record {
  delete_counters = false;
  delete_timers = false;
  delete_sets = false;
  delete_gauges = true;
  gauges_max_ttl = 3;
  key_name_sanitize = true;
  count_keys = true;
}

abbrev start : Stats Whole
start = record {
  key_counter = [];
  counters = [];
  timers = [];
  timer_counters = [];
  gauges = [];
  gauges_ttl = [];
  sets = [];
  last_msg_seen = 0;
  bad_lines_seen = 0;
}

-- three lines and an empty one; the second line has a metric that is no number
abbrev packet : Text
packet = codes "a b:3|c|@1\n\nt:5|ms:x|ms\ng:+4|g"

-- The handler on a packet, all of it open.
run : Text → Outcome (Stats Whole)
unfolding handle_packet handle_fields handle_valid add_metric add_counter add_timer add_gauge
    add_to_set count_bad_line access put assign split trim contains is_valid_packet join insert
    includes
run text = handle_packet whole_number statsd_names plain 7 text start

-- The state behind an outcome.
abbrev state_of : Outcome (Stats Whole) → Stats Whole
state_of (done s) = s
state_of (fault e) = start

after : Stats Whole
unfolding run
after = state_of (run packet)

after_lem : handle_packet whole_number statsd_names plain 7 packet start ≡ done after
unfolding run after
after_lem = refl

timer_of_packet :
    (lookup (codes "t") after.timers ≡ some (some (pos 5) ∷ []))
    × (lookup (codes "g") after.gauges_ttl ≡ some 3)
    × (lookup (codes "a_b") after.counters ≡ some (some (pos 3)))
    × (after.bad_lines_seen ≡ 1)
unfolding run after
timer_of_packet = (refl, refl, refl, refl)

start-IsWellFormed : IsWellFormed whole_number 3 start
unfolding lookup
start-IsWellFormed = record {
  paired = λ k xs h. absurd (ground arith);
  numeric = λ k xs h. absurd (ground arith);
  alive = λ k n h. absurd (ground arith);
  counted = λ k n h. absurd (ground arith);
  once = tt;
}

handle_packet-IsWellFormed_example : IsWellFormed whole_number 3 after
handle_packet-IsWellFormed_example =
    handle_packet-IsWellFormed whole_number plain 3 (omega arith, omega arith) statsd_names 7 packet
      start after start-IsWellFormed after_lem

handle_packet-bad_lines_example :
    (after.bad_lines_seen ≡ 0 + bad_in_lines whole_number (lines_of packet))
    × (after.last_msg_seen ≡ 7)
handle_packet-bad_lines_example =
    handle_packet-bad_lines whole_number statsd_names plain 7 packet start after after_lem

packet_safe : are_safe whole_number plain (lines_of packet) ≡ true
unfolding run is_inherited
packet_safe = refl

handle_packet_total_example :
    is_done (handle_packet whole_number statsd_names plain 7 packet start) ≡ true
handle_packet_total_example =
    handle_packet_total whole_number statsd_names plain 7 packet start packet_safe

-- a count whose sample rate is `@+1`: the check lets it through, and the match fails
abbrev plus_rate : List Text
plus_rate = codes "1" ∷ codes "c" ∷ codes "@+1" ∷ []

plus_rate_valid : is_valid_packet whole_number plus_rate ≡ true
unfolding is_valid_packet
plus_rate_valid = refl

x_plain : is_inherited (codes "x") ≡ false
unfolding is_inherited
x_plain = refl

fault_of-handle_valid_example :
    fault_of (handle_valid whole_number plain (codes "x") plus_rate start) ≡ some type_error
unfolding is_digit
fault_of-handle_valid_example =
    fault_of-handle_valid whole_number plain (codes "x") plus_rate start plus_rate_valid x_plain

abbrev one_count : List Text
one_count = codes "1" ∷ codes "c" ∷ []

counted : Stats Whole
unfolding run
counted = state_of (handle_valid whole_number plain (codes "x") one_count start)

counted_lem : handle_valid whole_number plain (codes "x") one_count start ≡ done counted
unfolding counted run
counted_lem = refl

handle_valid-OnlyKey_example : OnlyKey (codes "x") start counted
handle_valid-OnlyKey_example =
    handle_valid-OnlyKey whole_number (codes "x") start plain one_count counted counted_lem

sanitize_key_name_lem_example :
    let key = codes "a / b" in
    (sanitize_key_name true key ≡ one_pass false key)
    × All IsKeyChar (sanitize_key_name true key)
    × (sanitize_key_name true (sanitize_key_name true key) ≡ sanitize_key_name true key)
    × (sanitize_key_name false key ≡ key)
sanitize_key_name_lem_example = sanitize_key_name_lem (codes "a / b")
