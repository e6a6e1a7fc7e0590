-- ===== src/Examples/Cycles.antt =====
-- A whole flush and the management commands, and the theorems about them.
use statsd.Base.{◌+◌, ◌*◌, ◌≤◌, ◌≡◌, refl, true, false, List, [], ◌∷◌, none, some, arith}
use statsd.Base.Int.{pos}
use statsd.Examples.Numbers.{Whole, whole_number}
use statsd.Flush.Schedule.{FlushRun, flush_times, slots, IsBehind, schedule_lem}
use statsd.Flush.Timeout.{get_flush_timeout}
use statsd.Js.Object.{lookup}
use statsd.Js.Text.{codes, starts_with}
use statsd.Mgmt.{is_folder, folder_of}
use statsd.Mgmt.Commands.{Surroundings, delcounters, run_command, command_line}
use statsd.Mgmt.Effects.{deleted_counter}
use statsd.Packet.Metric.{increment}
use statsd.Set.{empty}
use statsd.Stats.{Stats, Names, Config}
use statsd.Timers.{Options}

abbrev conf : Config
conf = record {
  delete_counters = false;
  delete_timers = false;
  delete_sets = false;
  delete_gauges = true;
  gauges_max_ttl = 2;
  key_name_sanitize = true;
  count_keys = true;
}

abbrev own_names : Names
own_names = record {
  bad_lines = codes "statsd.bad_lines_seen";
  packets_received = codes "statsd.packets_received";
  metrics_received = codes "statsd.metrics_received";
  timestamp_lag = codes "statsd.timestamp_lag";
}

abbrev options : Options Whole
options = record {
  pct_threshold = some (pos 90) ∷ [];
  histogram = [];
  calculated_timer_metrics = none;
  flush_interval = some (pos 10000);
}

abbrev busy : Stats Whole
busy = record {
  key_counter = (codes "t", 3) ∷ [];
  counters = (codes "c", some (pos 30)) ∷ (codes "statsd.packets_received", some (pos 4)) ∷ [];
  timers = (codes "t", some (pos 9) ∷ some (pos 4) ∷ []) ∷ [];
  timer_counters = (codes "t", some (pos 2)) ∷ [];
  gauges = (codes "g", some (pos 9)) ∷ [];
  gauges_ttl = (codes "g", 2) ∷ [];
  sets = (codes "u", empty) ∷ [];
  last_msg_seen = 0;
  bad_lines_seen = 0;
}

soon : get_flush_timeout 10000 5000 27000 ≡ 8000
unfolding get_flush_timeout
soon = refl

-- Three flushes that are late and take time: the second one comes at its own time.
abbrev flush_runs : List FlushRun
flush_runs =
    record { late = 30; took = 200 }
    ∷ record { late = 0; took = 4000 }
    ∷ record { late = 5; took = 10 }
    ∷ []

apart : flush_times 10000 5000 6000 flush_runs ≡ 15030 ∷ 25000 ∷ 35005 ∷ []
unfolding flush_times
apart = refl

schedule_lem_example :
    let t = get_flush_timeout 10000 5000 6000 in
    (flush_times 10000 5000 6000 flush_runs ≡ slots 10000 (6000 + t) flush_runs)
    × (10000 ≤ 2 * t)
    × (2 * t ≤ 3 * 10000)
    × IsBehind 10000 5000 (6000 + t) 0
schedule_lem_example =
    schedule_lem 10000 5000 6000 flush_runs (omega arith)
      (omega arith, (omega arith, (omega arith, tt)))

abbrev around : Surroundings Whole
around = record {
  config_text = [];
  now = 200;
  startup_time = 100;
  inspect_numbers = λ m. codes "{}";
  inspect_timers = λ m. codes "{}";
  backend_status = [];
}

split_command :
    command_line (codes " delcounters a b\r\n") ≡ (codes "delcounters", codes "a" ∷ codes "b" ∷ [])
unfolding command_line
split_command = refl

deleted_counter_example :
    lookup (codes "statsd.packets_received") (
      increment whole_number
        (codes "statsd.packets_received")
        (run_command whole_number around delcounters
          (codes "statsd.*" ∷ [])
          (codes "up")
          busy).tables.counters)
    ≡ some whole_number.nan
unfolding is_folder folder_of starts_with
deleted_counter_example =
    deleted_counter whole_number around (codes "statsd.*" ∷ []) (codes "up") busy
      (codes "statsd.packets_received") refl
