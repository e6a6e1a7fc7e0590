-- ===== src/Examples/Flushes.antt =====
-- Sets and flushes, and the theorems about them.
use statsd.Base.{◌≡◌, ◌+◌, refl, true, false, List, [], ◌∷◌, none, some, if◌then◌else◌, ltb, arith}
use statsd.Base.Int.{pos}
use statsd.Examples.Numbers.{Whole, whole_number}
use statsd.Flush.Idle.{idle_flushes, idle_gauge}
use statsd.Flush.Settings.{RawConfig, settle}
use statsd.Js.Object.{lookup, IsObject}
use statsd.Js.Text.{Text, codes}
use statsd.Set.{empty, size, has as has_value}
use statsd.Set.Laws.{insert_all, distinct, size-insert_all}
use statsd.Stats.{Stats, Config}

abbrev events : List Text
events = codes "x" ∷ codes "y" ∷ codes "x" ∷ codes "__proto__" ∷ []

two_values : size (insert_all events empty) ≡ 0 + 2
unfolding has_value size
two_values = size-insert_all events empty

size-insert_all_example :
    size (insert_all events empty) ≡ size empty + distinct events (λ w. has_value w empty)
size-insert_all_example = size-insert_all events empty

abbrev open_config : RawConfig
open_config = record {
  delete_idle_stats = some true;
  delete_counters = some false;
  delete_timers = none;
  delete_sets = none;
  delete_gauges = none;
  gauges_max_ttl = some 2;
  key_name_sanitize = none;
  count_keys = false;
}

abbrev deleting : Config
deleting = record {
  delete_counters = false;
  delete_timers = true;
  delete_sets = true;
  delete_gauges = true;
  gauges_max_ttl = 2;
  key_name_sanitize = true;
  count_keys = false;
}

settled : settle open_config ≡ deleting
unfolding settle
settled = refl

abbrev tables : Stats Whole
tables = record {
  key_counter = [];
  counters = (codes "c", some (pos 3)) ∷ [];
  timers = [];
  timer_counters = [];
  gauges = (codes "g", some (pos 9)) ∷ [];
  gauges_ttl = (codes "g", 2) ∷ [];
  sets = (codes "u", empty) ∷ [];
  last_msg_seen = 0;
  bad_lines_seen = 0;
}

tables_once : IsObject tables.gauges_ttl
unfolding lookup
tables_once = (refl, tt)

two_flushes : lookup (codes "g") tables.gauges_ttl ≡ some 2
unfolding lookup
two_flushes = refl

idle_gauge_example :
    lookup (codes "g") (idle_flushes whole_number deleting 2 tables).gauges
    ≡ (if ltb 2 2 then lookup (codes "g") tables.gauges else none)
idle_gauge_example =
    idle_gauge whole_number deleting 2 tables (codes "g") 2 refl tables_once two_flushes
      (omega arith)
