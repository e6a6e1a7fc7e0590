-- ===== src/Examples/Pipelines.antt =====
-- Packets on their way to graphite, and the theorem about it.
use statsd.Base.{◌≡◌, refl, true, not, ◌&&◌, Bool, List, [], ◌∷◌, some, arith}
use statsd.Base.Int.{pos}
use statsd.Aggregate.{view, apply_all}
use statsd.Aggregate.Flushes.{cleared, lagged}
use statsd.Aggregate.Packets.{packets_events}
use statsd.Examples.Graphites.{new_names, sending, state, hosted, text_sent}
use statsd.Examples.Intervals.{conf, own_names, options, first, second, packets, arrived}
use statsd.Examples.Numbers.{Whole, whole_number}
use statsd.Flush.Cycle.{flush_metrics}
use statsd.Graphite.{flush_stats, format}
use statsd.Graphite.Flush.{AreIn}
use statsd.Graphite.Post.{post_metrics, body_of}
use statsd.Graphite.Send.{init_connection, connected, post_stats, sent_payload}
use statsd.Graphite.Settings.{init}
use statsd.Graphite.Wire.{Metric, AreLines}
use statsd.Js.Object.{access, lookup}
use statsd.Js.Text.{codes, contains, split}
use statsd.Pipeline.{pipeline_lem}
use statsd.Pipeline.Entries.{flushed_of, known_lines, summary_part}

-- whether no key has a newline
abbrev are_lines : List (Metric Whole) → Bool
are_lines [] = true
are_lines (m ∷ ms) = not (contains b'\n' m.key) && are_lines ms

are_lines_lem : (ms : List (Metric Whole)) → are_lines ms ≡ true → AreLines whole_number ms
are_lines_lem [] h = tt
are_lines_lem (m ∷ ms) h = (ground arith, are_lines_lem ms (ground arith))

-- what the second flush sends
abbrev metrics : List (Metric Whole)
metrics =
    flush_stats whole_number (init new_names) (some (pos 120))
      (flushed_of
        (flush_metrics whole_number own_names conf options 120 (some (pos 1)) (110, second)).0)
      (some (pos 1))

lines_lem :
    are_lines (post_metrics whole_number (init new_names) state (some (pos 121)) metrics) ≡ true
unfolding second flush_metrics flush_stats post_metrics init contains format access split
lines_lem = refl

pipeline_lem_example :
    let v = apply_all whole_number conf (packets_events whole_number own_names conf packets) (
      cleared whole_number conf
        (lagged whole_number own_names conf options 100 110 (view first))) in
    let late = lagged whole_number own_names conf options 110 120 v in
    let text = body_of (
      sent_payload
        (post_stats whole_number
          (init new_names)
          (init_connection sending)
          metrics
          (connected (some (pos 121)) (some (pos 1)) (some (pos 122)))
          state).payload) in
    AreIn
      (known_lines whole_number own_names conf options new_names
        (some (pos 120))
        (codes "t")
        v
        late)
      (split (codes "\n") text)
    × AreIn
        (summary_part whole_number own_names conf options new_names
          (some (pos 120))
          (codes "t")
          (v.timers (codes "t")))
        (split (codes "\n") text)
unfolding lookup contains
pipeline_lem_example =
    pipeline_lem whole_number own_names conf options new_names 110 120 100 (some (pos 1))
      (some (pos 1)) (some (pos 1)) packets first second (codes "t") (init_connection sending)
      (codes "graphite") (some (pos 120)) (some (pos 121)) (some (pos 1)) (some (pos 122)) state
      (refl, tt) refl arrived hosted text_sent (λ x. refl)
      (are_lines_lem (post_metrics whole_number (init new_names) state (some (pos 121)) metrics)
        lines_lem)
