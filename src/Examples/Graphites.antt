-- ===== src/Examples/Graphites.antt =====
-- A graphite backend, and the theorems about it.
use statsd.Base.{◌+◌, ◌≡◌, refl, true, false, [], ◌∷◌, ◌++◌, none, some, length, arith}
use statsd.Base.Int.{pos}
use statsd.Examples.Numbers.{Whole, whole_number}
use statsd.Graphite.{Flushed, format, flush_stats}
use statsd.Graphite.Lines.{flush_lines}
use statsd.Graphite.Lines.Whole.{flush_lines_lem}
use statsd.Graphite.Post.{payload, payload_length, header_of, body_of, payload_lem}
use statsd.Graphite.Post.{GraphiteStats, post_metrics}
use statsd.Graphite.Send.{
  SendConfig, init_connection, is_pickle, connected, post_stats, sent_payload, post_stats_lem,
}
use statsd.Graphite.Settings.{GraphiteConfig, init}
use statsd.Graphite.Wire.{Metric, texts, AreLines, pickle_body, read_be}
use statsd.Js.Text.{codes, contains, split}
use statsd.Set.{empty}
use statsd.Timers.Thresholds.{number, bins}

abbrev pub new_names : GraphiteConfig
new_names = record {
  global_prefix = some [];
  prefix_counter = some (codes "c");
  prefix_timer = none;
  prefix_gauge = none;
  prefix_set = none;
  global_suffix = some (codes "end");
  legacy_namespace = some false;
  prefix_stats = none;
  key_name_sanitize = none;
  flush_counts = none;
}

named :
    format
      (init new_names)
      (init new_names).counter_namespace
      (codes "a.b;host=x")
      (codes "rate" ∷ [])
    ≡ codes "c.a.b.rate.end;host=x"
unfolding init format
named = refl

abbrev flushed : Flushed Whole
flushed = record {
  counters = (codes "a", some (pos 20)) ∷ [];
  gauges = (codes "g", some (pos 7)) ∷ [];
  sets = (codes "u", empty) ∷ [];
  counter_rates = (codes "a", some (pos 2)) ∷ [];
  timer_data =
      (
        codes "t",
        (codes "mean", number (some (pos 3)))
            ∷ (
              codes "histogram",
              bins ((codes "bin_5", some (pos 1)) ∷ (codes "bin_inf", some (pos 2)) ∷ []),
            )
            ∷ [],
      )
      ∷ [];
  statsd_metrics = (codes "processing_time", some (pos 1)) ∷ [];
}

flush_lines_lem_example :
    texts whole_number
      (flush_stats whole_number (init new_names) (some (pos 100)) flushed (some (pos 1)))
    ≡ flush_lines new_names whole_number (some (pos 100)) flushed (some (pos 1))
flush_lines_lem_example =
    flush_lines_lem whole_number new_names (some (pos 100)) flushed (some (pos 1))

abbrev point : Metric Whole
point = record { key = codes "stats.a"; value = some (pos 2); ts = some (pos 100) }

abbrev pub sending : SendConfig
sending = record {
  graphite_host = some (codes "graphite");
  graphite_port = none;
  graphite_pickle_port = none;
  graphite_protocol = none;
  debug = false;
}

pub text_sent : is_pickle (init_connection sending) ≡ false
unfolding is_pickle init_connection
text_sent = refl

pub hosted : (init_connection sending).host ≡ some (codes "graphite")
unfolding init_connection
hosted = refl

abbrev pub state : GraphiteStats Whole
state = record {
  last_flush = some (pos 90);
  last_exception = some (pos 0);
  flush_time = some (pos 2);
  flush_length = some (pos 60);
}

four_clean :
    AreLines whole_number
      (post_metrics whole_number (init new_names) state (some (pos 101)) (point ∷ point ∷ []))
unfolding post_metrics contains init
four_clean = (refl, (refl, (refl, (refl, (refl, (refl, tt))))))

post_stats_lem_example :
    let c = init_connection sending in
    let g = init new_names in
    let all = post_metrics whole_number g state (some (pos 101)) (point ∷ point ∷ []) in
    let sent =
      post_stats whole_number g c
        (point ∷ point ∷ [])
        (connected (some (pos 101)) (some (pos 1)) (some (pos 102)))
        state in
    let body = body_of (sent_payload sent.payload) in
    (split (codes "\n") body ≡ texts whole_number all ++ ([] ∷ []))
    × (sent.place ≡ some (codes "graphite", c.port))
    × (sent.state.flush_length ≡ whole_number.of_nat (payload_length (sent_payload sent.payload)))
    × (sent.state.last_flush ≡ some (pos 102))
    × (sent.state.last_exception ≡ state.last_exception)
unfolding contains
post_stats_lem_example =
    post_stats_lem whole_number (init new_names) (init_connection sending) (codes "graphite")
      (point ∷ point ∷ []) (some (pos 101)) (some (pos 1)) (some (pos 102)) state hosted text_sent
      (λ x. refl) four_clean

payload_lem_example :
    let sent = payload whole_number (init new_names) true (point ∷ []) in
    (read_be 0 (header_of sent) ≡ length (body_of sent))
    × (payload_length sent ≡ 4 + read_be 0 (header_of sent))
unfolding pickle_body
payload_lem_example = payload_lem whole_number (init new_names) (point ∷ []) (omega arith)
