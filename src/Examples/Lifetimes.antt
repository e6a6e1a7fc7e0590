-- ===== src/Examples/Lifetimes.antt =====
-- A daemon from its start to its exit, and the theorem about it.
use statsd.Base.{ℕ, ◌≡◌, refl, List, [], ◌∷◌, ◌++◌, some, arith}
use statsd.Base.Int.{pos}
use statsd.Aggregate.{view}
use statsd.Aggregate.Lifetime.{Input, packet, flush, until_exit, views, AllSent, lifetime_lem}
use statsd.Examples.Intervals.{conf, own_names, options}
use statsd.Examples.Numbers.{Whole, whole_number}
use statsd.Flush.Cycle.{Emitted}
use statsd.Helpers.{is_valid_packet}
use statsd.Js.Object.{access, assign, lookup, put}
use statsd.Js.Text.{codes, split, trim, includes, contains, join}
use statsd.Packet.Metric.{
  Outcome, done, fault, handle_valid, handle_fields, add_metric, add_counter, add_timer, add_gauge,
  add_to_set, count_bad_line,
}
use statsd.Set.{insert}
use statsd.Startup.{initial}
use statsd.Stats.{Stats, IsWellFormed}

start : Stats Whole
start = initial 100

-- Two packets, a flush, and a packet that only the exit flushes.
abbrev inputs : List (Input Whole)
inputs =
    packet 101 (codes "c:3|c")
    ∷ packet 105 (codes "c:4|c\nt:5|ms")
    ∷ flush 110 (some (pos 1))
    ∷ packet 112 (codes "c:1|c\nu:joe|s")
    ∷ []

abbrev result_of :
    Outcome (List (Emitted Whole) × (ℕ × Stats Whole)) → List (Emitted Whole) × (ℕ × Stats Whole)
result_of (done r) = r
result_of (fault e) = ([], (0, start))

lived : List (Emitted Whole) × (ℕ × Stats Whole)
unfolding until_exit handle_fields handle_valid add_metric add_counter add_timer add_gauge
    add_to_set count_bad_line access put assign split trim contains is_valid_packet join insert
    includes initial start
lived =
    result_of (until_exit whole_number own_names conf options inputs 117 (some (pos 1)) (0, start))

lived_lem :
    until_exit whole_number own_names conf options inputs 117 (some (pos 1)) (0, start) ≡ done lived
unfolding lived
lived_lem = refl

start-IsWellFormed : IsWellFormed whole_number 2 start
unfolding lookup initial start
start-IsWellFormed = record {
  paired = λ k xs h. absurd (ground arith);
  numeric = λ k xs h. absurd (ground arith);
  alive = λ k n h. absurd (ground arith);
  counted = λ k n h. absurd (ground arith);
  once = tt;
}

lifetime_lem_example :
    AllSent whole_number own_names conf options
      (codes "c")
      (views whole_number own_names conf options
        (inputs ++ (flush 117 (some (pos 1)) ∷ []))
        0
        (view start))
      lived.0
lifetime_lem_example =
    lifetime_lem whole_number own_names conf options 2 (omega arith, omega arith) (codes "c") inputs
      117 (some (pos 1)) 0 start lived.0 lived.1 start-IsWellFormed lived_lem
