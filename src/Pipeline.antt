-- ===== src/Pipeline.antt =====
-- The whole way of a metric: packets, a flush, and the text that backends/graphite.js sends.
pub mod Entries
use mathlib.Core.Option
use mathlib.Core.List.Memᴰ
use mathlib.Core.List.{Memᴰ}
use statsd.Base.{
  ℕ, ◌≡◌, refl, sym, ap, ap₂, subst, ◌∙◌, false, List, [], ◌∷◌, ◌++◌, Option, none, some, All,
  arith, Bool-cases, inl, inr, length,
}
use statsd.Aggregate.{View, view, apply_all}
use statsd.Aggregate.Flushes.{cleared, lagged}
use statsd.Aggregate.Interval.{reported, IsSent, interval_lem}
use statsd.Aggregate.Packets.{handle_packets, packets_events}
use statsd.Flush.Cycle.{Emitted, flush_metrics}
use statsd.Graphite.{Flushed, flush_stats}
use statsd.Graphite.Flush.{AreIn, AreIn-left, AreIn-right, AreIn-self}
use statsd.Graphite.Lines.{
  line, timer_name, counter_lines, timer_lines, datum_lines, gauge_line, rate_at, each, flush_lines,
}
use statsd.Graphite.Lines.Sent.{texts-append}
use statsd.Graphite.Lines.Whole.{flush_lines_lem}
use statsd.Graphite.Post.{GraphiteStats, post_metrics, body_of}
use statsd.Graphite.Send.{
  Connection, connected, is_pickle, post_stats, sent_payload, post_stats_lem,
}
use statsd.Graphite.Settings.{GraphiteConfig, init}
use statsd.Graphite.Wire.{texts, AreLines}
use statsd.Js.Number.{JsNumber}
use statsd.Js.Object.{Object, lookup, IsObject}
use statsd.Js.Text.{Text, codes, contains, eqb, eqb_iff, split}
use statsd.Packet.Metric.{done}
use statsd.Stats.{Stats, Names, Config}
use statsd.Timers.{Options, seconds, last_of, timer_stats}
use statsd.Timers.Filter.{filter_timer_metrics}
use statsd.Timers.Sort.{sort}
use statsd.Timers.Summary.{timer_stats-IsSummary}
use statsd.Timers.Sums.{total, square}
use statsd.Timers.Thresholds.{Datum, number}
use statsd.Pipeline.Entries.{
  AreIn-trans, flushed_of, timer_part, known_lines, summary_part, known_in, summary_part_in,
  timer_in,
}

module _ {ℓ} {N : Type ℓ} (num : JsNumber N) where
  module _ (names : Names) (conf : Config) (options : Options N) (c : GraphiteConfig) (ts : N) where
    -- the text of a flush has a line for each of its metrics
    sent_lines :
        (conn : Connection) (host : Text) (at elapsed now time : N) (s : GraphiteStats N)
        (ls : List Text) (f : Flushed N)
        → conn.host ≡ some host
        → is_pickle conn ≡ false
        → ((x : N) → contains b'\n' (num.to_text x) ≡ false)
        → AreLines num (post_metrics num (init c) s at (flush_stats num (init c) ts f time))
        → AreIn ls (flush_lines c num ts f time)
        → AreIn ls (
            split (codes "\n") (
              body_of (
                sent_payload
                  (post_stats num
                    (init c)
                    conn
                    (flush_stats num (init c) ts f time)
                    (connected at elapsed now)
                    s).payload)))
    unfolding post_metrics
    sent_lines conn host at elapsed now time s ls f h p clean lines inside =
        let metrics = flush_stats num (init c) ts f time in
        let own = texts num (post_metrics num (init c) s at []) in
        let all : texts num (post_metrics num (init c) s at metrics)
            ≡ flush_lines c num ts f time ++ own =
          texts-append c num ts metrics (post_metrics num (init c) s at [])
          ∙ ap (λ l. l ++ own) (flush_lines_lem num c ts f time) in
        subst (AreIn ls)
          (sym (
            (post_stats_lem num (init c) conn host metrics at elapsed now s h p clean lines).0
            ∙ ap (λ l. l ++ ([] ∷ [])) all))
          (AreIn-left ls (flush_lines c num ts f time ++ own) ([] ∷ [])
            (AreIn-left ls (flush_lines c num ts f time) own inside))

  -- From packets to graphite: between two flushes packets come in, and each is handled. Then the text
  -- that is sent at the second flush, over a connection that is there, has these lines for a key, by what
  -- the events of the packets make of the cleared tables: the counter's sum by the seconds of a flush,
  -- and the sum itself where counts are asked for; the statistics of the timer's values, among them the
  -- least and the greatest value, the sum, the sum of the squares and the mean; and the value of the
  -- gauge. Each line is the name, the value and the time, and the name stands under the prefix of its
  -- kind. The times to live stand under different keys before; all statistics of timers are asked for;
  -- no key and no number has a newline.
  pub pipeline_lem :
      (names : Names) (conf : Config) (options : Options N) (c : GraphiteConfig)
      → (time_stamp next_stamp old_timestamp : ℕ) (elapsed lasting time : N)
        (packets : List (ℕ × Text))
      → (s t : Stats N) (k : Text) (conn : Connection) (host : Text) (ts at writing now : N)
        (state : GraphiteStats N)
      → IsObject s.gauges_ttl
      → options.calculated_timer_metrics ≡ none
      → handle_packets num names conf packets
          (flush_metrics num names conf options time_stamp elapsed (old_timestamp, s)).1.1
        ≡ done t
      → conn.host ≡ some host
      → is_pickle conn ≡ false
      → ((x : N) → contains b'\n' (num.to_text x) ≡ false)
      → AreLines num (
          post_metrics num (init c) state at (
            flush_stats num
              (init c)
              ts
              (flushed_of
                (flush_metrics num names conf options next_stamp lasting (time_stamp, t)).0)
              time))
      → let sent = (flush_metrics num names conf options next_stamp lasting (time_stamp, t)).0 in
        let metrics = flush_stats num (init c) ts (flushed_of sent) time in
        let v =
          apply_all num conf
            (packets_events num names conf packets)
            (cleared num conf (lagged num names conf options old_timestamp time_stamp (view s))) in
        let late = lagged num names conf options time_stamp next_stamp v in
        let text = body_of (
          sent_payload
            (post_stats num (init c) conn metrics (connected at writing now) state).payload) in
        AreIn (known_lines num names conf options c ts k v late) (split (codes "\n") text)
        × AreIn (summary_part num names conf options c ts k (v.timers k)) (split (codes "\n") text)
  pipeline_lem names conf options c now next old elapsed lasting time packets s t k conn host ts at
        writing over state once all h hosted text clean lines =
      let sent = (flush_metrics num names conf options next lasting (now, t)).0 in
      let v =
        apply_all num conf (packets_events num names conf packets)
          (cleared num conf (lagged num names conf options old now (view s))) in
      let late = lagged num names conf options now next v in
      let arrived =
        interval_lem num names conf options now next old elapsed lasting packets s t k once h in
      let weight = v.timer_counters k in
      let post =
        λ (ls : List Text) (inside : AreIn ls (flush_lines c num ts (flushed_of sent) time)).
          sent_lines names conf options c ts conn host at writing over time state ls
            (flushed_of sent) hosted text clean lines inside in
      (
        post (known_lines num names conf options c ts k v late)
            (known_in num names conf options c ts sent time k v late arrived),
        post (summary_part num names conf options c ts k (v.timers k)) (
            AreIn-trans (summary_part num names conf options c ts k (v.timers k))
              (timer_part num names conf options c ts k weight (v.timers k))
              (flush_lines c num ts (flushed_of sent) time)
              (summary_part_in num names conf options c ts k weight (v.timers k) all)
              (timer_in num names conf options c ts sent time k weight (v.timers k) arrived.4)),
      )
