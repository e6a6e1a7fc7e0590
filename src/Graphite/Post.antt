-- ===== src/Graphite/Post.antt =====
-- backends/graphite.js, `graphite_post_stats`: what is sent behind the metrics of a flush, and the
-- state of the backend.
use statsd.Base.{
  ℕ, ◌+◌, ◌≡◌, ◌<◌, ◌^◌, ap, sym, Bool, true, false, List, [], ◌∷◌, ◌++◌, if◌then◌else◌, length,
}
use statsd.Graphite.Settings.{Graphite}
use statsd.Graphite.Wire.{
  Metric, to_text, pickle_body, write_uint32_be, read_be, read_be-write_uint32_be,
}
use statsd.Js.Number.{JsNumber, truthy, nought}
use statsd.Js.Text.{Text, codes, join}

-- `graphiteStats`
pub record GraphiteStats {ℓ} (N : Type ℓ) : Type ℓ where
  pub last_flush : N
  pub last_exception : N
  pub flush_time : N
  pub flush_length : N

-- What is written: text, or four bytes for a length and the text behind them.
pub data Payload : Type 0 where
  plain : Text → Payload
  framed : List ℕ → Text → Payload

-- `stats_payload.length`
abbrev pub payload_length : Payload → ℕ
payload_length (plain t) = length t
payload_length (framed header body) = length header + length body

module _ {ℓ} {N : Type ℓ} (num : JsNumber N) (g : Graphite) where
  -- `startup_time` is what `init` gets.
  unfoldable pub init_stats : N → GraphiteStats N
  init_stats startup_time = record {
    last_flush = startup_time;
    last_exception = nought num;
    flush_time = nought num;
    flush_length = nought num;
  }

  -- `x || 0`
  abbrev pub or_nought : N → N
  or_nought x = if truthy num x then x else nought num

  -- The four metrics about the backend, behind the others.
  unfoldable pub post_metrics : GraphiteStats N → N → List (Metric N) → List (Metric N)
  unfolding join
  post_metrics s ts metrics =
      let namespace = join (codes ".") (g.global_namespace ++ (g.prefix_stats ∷ [])) in
      let metric : Text → N → Metric N = λ name value. record {
        key = namespace ++ (codes ".graphiteStats." ++ (name ++ g.global_suffix));
        value = or_nought value;
        ts = ts;
      } in
      metrics
      ++ (metric (codes "last_exception") s.last_exception
          ∷ metric (codes "last_flush") s.last_flush
          ∷ metric (codes "flush_time") s.flush_time
          ∷ metric (codes "flush_length") s.flush_length
          ∷ [])

  -- `stats_payload`, by the protocol
  unfoldable pub payload : Bool → List (Metric N) → Payload
  unfolding to_text pickle_body write_uint32_be
  payload true metrics =
      framed (write_uint32_be (length (pickle_body num metrics))) (pickle_body num metrics)
  payload false metrics = plain (to_text num metrics)

  -- The connection is there: what is written, with the state that the flush began with, and the state
  -- behind it, with the time that the write took and the time of day.
  unfoldable pub on_connect :
      Bool
      → N
      → N
      → N
      → List (Metric N)
      → GraphiteStats N
      → GraphiteStats N
      → Payload × GraphiteStats N
  unfolding payload post_metrics
  on_connect is_pickle ts elapsed now metrics begun s =
      let sent = payload is_pickle (post_metrics begun ts metrics) in
      (
        sent,
        record s {
          flush_time = elapsed;
          flush_length = num.of_nat (payload_length sent);
          last_flush = now;
        },
      )

  -- No connection could be made.
  unfoldable pub on_exception : N → GraphiteStats N → GraphiteStats N
  on_exception now s = record s { last_exception = now }

abbrev pub header_of : Payload → List ℕ
header_of (plain t) = []
header_of (framed header body) = header

abbrev pub body_of : Payload → Text
body_of (plain t) = t
body_of (framed header body) = body

-- A reader of the pickle format finds the length of the body in the four bytes in front of it, if it is
-- below 2 ^ 32; the payload is as long as that and four more.
pub payload_lem {ℓ} :
    {N : Type ℓ} (num : JsNumber N) (g : Graphite) (metrics : List (Metric N))
    → length (pickle_body num metrics) < 2 ^ 32
    → let sent = payload num g true metrics in
      (read_be 0 (header_of sent) ≡ length (body_of sent))
      × (payload_length sent ≡ 4 + read_be 0 (header_of sent))
unfolding payload write_uint32_be
payload_lem num g metrics h =
    let n = length (pickle_body num metrics) in
    let read : read_be 0 (write_uint32_be n) ≡ n = read_be-write_uint32_be n h in
    (read, ap (◌+◌ 4) (sym read))
