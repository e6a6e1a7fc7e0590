-- ===== src/Examples/Daemons.antt =====
-- A run of the daemon, the flush of its key counts and its start, and the theorems about them.
use mathlib.Core.List.{Perm}
use statsd.Base.{
  ℕ, zero, suc, ◌≤◌, ◌≡◌, refl, Bool, true, false, not, List, [], ◌∷◌, ◌++◌, Option, none, some,
  is_some, length, take, arith,
}
use statsd.Base.Int.{pos}
use statsd.Daemon.{
  reload, reloaded, flushed_at, command_run, Daemon, received, flushed, commanded, Reach, begun,
  stepped, begin,
}
use statsd.Daemon.Counters.{own_counters_lem}
use statsd.Daemon.Invariant.{Reach-IsWellFormed}
use statsd.Examples.Numbers.{Whole, whole_number}
use statsd.Flush.Settings.{RawConfig, settle, resettle}
use statsd.Helpers.{is_valid_packet}
use statsd.Js.Object.{access, assign, lookup, put}
use statsd.Js.Text.{Text, codes, split, trim, includes, contains, join}
use statsd.KeyFlush.{shown, flush_keys}
use statsd.KeyFlush.Top.{IsDescending, IsShown, message_of, flush_keys_lem, flush_keys-fault}
use statsd.Loader.{load_all, ServerEntry, server_entries, backend_entries}
use statsd.Loader.Start.{calls, up_to_failure, all_start, exits, load_all_lem}
use statsd.Mgmt.Commands.{Surroundings, Command, delcounters, deltimers}
use statsd.Packet.{handle_packet}
use statsd.Packet.Metric.{
  Outcome, done, fault, type_error, handle_valid, handle_fields, add_metric, add_counter, add_timer,
  add_gauge, add_to_set, count_bad_line,
}
use statsd.Set.{insert}
use statsd.Startup.{prefix_of, KeyFlush, names_of}
use statsd.Stats.{Stats, Names, Config, IsWellFormed}
use statsd.Timers.{Options}

-- what the file says at the start, and after a change of it
abbrev raw : RawConfig
raw = record {
  delete_idle_stats = some true;
  delete_counters = none;
  delete_timers = none;
  delete_sets = some false;
  delete_gauges = none;
  gauges_max_ttl = some 2;
  key_name_sanitize = none;
  count_keys = true;
}

abbrev changed : RawConfig
changed = record raw { delete_idle_stats = none; gauges_max_ttl = some 4 }

abbrev conf : Config
conf = settle raw

abbrev options : Options Whole
options = record {
  pct_threshold = [];
  histogram = [];
  calculated_timer_metrics = none;
  flush_interval = some (pos 10000);
}

-- The share of all keys that is shown is a whole number of hundreds in these numbers.
abbrev all_keys : Option (KeyFlush Whole)
all_keys =
    some
      (record { interval = some (some (pos 10000)); percent = some (some (pos 100)); log = none })

abbrev twice : Option (KeyFlush Whole)
twice =
    some
      (record { interval = some (some (pos 10000)); percent = some (some (pos 200)); log = none })

-- every command but `delcounters`
abbrev safe : Command → Bool
safe delcounters = false
safe _ = true

abbrev around : Surroundings Whole
around = record {
  config_text = [];
  now = 200;
  startup_time = 100;
  inspect_numbers = λ m. codes "{}";
  inspect_timers = λ m. codes "{}";
  backend_status = [];
}

abbrev own_names : Names
own_names = names_of (codes "mon")

begin_state : Daemon Whole
begin_state = begin whole_number options all_keys safe raw (some (codes "mon")) 100

-- a state behind an outcome
abbrev state_of : Outcome (Stats Whole) → Stats Whole
state_of (done s) = s
state_of (fault e) = begin_state.tables

abbrev packet : Text
packet = codes "c:3|c\nt:5|ms\nc:x|c"

handled : Stats Whole
unfolding handle_packet handle_fields handle_valid add_metric add_counter add_timer add_gauge
    add_to_set count_bad_line access put assign split trim contains is_valid_packet join insert
    includes begin names_of begin_state settle prefix_of
handled = state_of (handle_packet whole_number own_names conf 105 packet begin_state.tables)

handled_lem : handle_packet whole_number own_names conf 105 packet begin_state.tables ≡ done handled
unfolding handled
handled_lem = refl

after_packet : Daemon Whole
unfolding begin_state
after_packet = record begin_state { tables = handled }

after_flush : Daemon Whole
after_flush = flushed_at whole_number options all_keys safe 110 (some (pos 1)) after_packet

after_command : Daemon Whole
after_command =
    command_run whole_number options all_keys safe around deltimers (codes "t" ∷ []) after_flush

after_reload : Daemon Whole
after_reload = reload whole_number options all_keys safe changed none after_command

reached : Reach whole_number options all_keys safe 4 after_reload
unfolding begin begin_state after_packet after_flush after_command after_reload flushed_at
    command_run reload settle resettle prefix_of
reached =
    stepped
      (stepped
        (stepped
          (stepped (begun raw (some (codes "mon")) 100 (omega arith))
            (received 105 packet handled_lem) (omega arith))
          (flushed 110 (some (pos 1))) (omega arith))
        (commanded around deltimers (codes "t" ∷ []) refl) (omega arith))
      (reloaded changed none) (omega arith)

Reach-IsWellFormed_example : IsWellFormed whole_number 4 after_reload.tables
Reach-IsWellFormed_example =
    Reach-IsWellFormed whole_number 4 options all_keys safe {d = after_reload} reached

own_counters_lem_example :
    let names = names_of after_reload.prefix_stats in
    (is_some (lookup names.bad_lines after_reload.tables.counters) ≡ true)
    × (is_some (lookup names.packets_received after_reload.tables.counters) ≡ true)
    × (is_some (lookup names.metrics_received after_reload.tables.counters) ≡ true)
own_counters_lem_example =
    own_counters_lem whole_number options all_keys safe 4 {d = after_reload} refl reached

abbrev counted : Stats Whole
counted = record begin_state.tables {
  key_counter = (codes "a", 1) ∷ (codes "b", 5) ∷ (codes "c", 2) ∷ [];
}

all_shown : whole_number.lt (whole_number.of_nat 3) (shown whole_number all_keys 3) ≡ false
unfolding shown
all_shown = refl

flush_keys_lem_example :
    (sorted : List (Text × ℕ)) × (n : ℕ) × IsDescending sorted
    × Perm sorted counted.key_counter
    × IsShown whole_number (shown whole_number all_keys (length counted.key_counter)) 0 n
    × (flush_keys whole_number all_keys (codes "now") counted
        ≡ done (
          message_of whole_number (codes "now") (take n sorted),
          record counted { key_counter = [] },
        ))
flush_keys_lem_example = flush_keys_lem whole_number all_keys (codes "now") counted all_shown

too_many :
    (j : ℕ) → j ≤ 3 → whole_number.lt (whole_number.of_nat j) (shown whole_number twice 3) ≡ true
unfolding shown
too_many zero h = refl
too_many (suc zero) h = refl
too_many (suc (suc zero)) h = refl
too_many (suc (suc (suc zero))) h = refl
too_many (suc (suc (suc (suc j)))) h = absurd (omega (arith, h))

flush_keys-fault_example : flush_keys whole_number twice (codes "now") counted ≡ fault type_error
flush_keys-fault_example = flush_keys-fault whole_number twice (codes "now") counted too_many

-- the second backend does not start
abbrev starts : Text → Bool
starts name = not (includes (codes "console") name)

abbrev udp_only : ServerEntry
udp_only = record { debug = true; server = none }

abbrev three : Option (List Text)
three = some (codes "a" ∷ codes "console" ∷ codes "b" ∷ [])

load_all_lem_example :
    let names = server_entries none udp_only ++ backend_entries true three in
    let (actions, on) = load_all starts none udp_only three in
    (calls actions ≡ up_to_failure starts names)
    × (on ≡ all_start starts names)
    × (exits actions ≡ not on)
load_all_lem_example = load_all_lem starts none udp_only three

three_called :
    (calls (load_all starts none udp_only three).0
      ≡ codes "./servers/udp" ∷ codes "a" ∷ codes "console" ∷ [])
unfolding load_all includes
three_called = refl
