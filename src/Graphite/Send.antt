-- ===== src/Graphite/Send.antt =====
-- backends/graphite.js: where the backend sends to, what becomes of a flush there, and its status.
use statsd.Base.{ℕ, ◌≡◌, refl, Bool, false, List, [], ◌∷◌, ◌++◌, Option, none, some, if◌then◌else◌}
use statsd.Graphite.Post.{
  GraphiteStats, Payload, plain, body_of, payload, payload_length, post_metrics, on_connect,
  on_exception,
}
use statsd.Graphite.Settings.{Graphite}
use statsd.Graphite.Wire.{Metric, to_text, texts, AreLines, split-to_text}
use statsd.Js.Number.{JsNumber}
use statsd.Js.Text.{Text, codes, contains, eqb, split}
use statsd.Loader.{given, port_or}
use statsd.Logger.{text_or}

-- The fields of the configuration that say where to send.
pub record SendConfig : Type 0 where
  pub graphite_host : Option Text
  pub graphite_port : Option ℕ
  pub graphite_pickle_port : Option ℕ
  pub graphite_protocol : Option Text
  pub debug : Bool

-- The variables that `init` makes of them.
pub record Connection : Type 0 where
  pub host : Option Text
  pub port : ℕ
  pub pickle_port : ℕ
  pub protocol : Text
  pub debug : Bool

unfoldable pub init_connection : SendConfig → Connection
unfolding port_or text_or given
init_connection config = record {
  host = given config.graphite_host;
  port = port_or config.graphite_port 2003;
  pickle_port = port_or config.graphite_pickle_port 2004;
  protocol = text_or config.graphite_protocol (codes "text");
  debug = config.debug;
}

unfoldable pub is_pickle : Connection → Bool
is_pickle c = eqb c.protocol (codes "pickle")

-- What becomes of a connection: making it throws, it fails later, or it is there, at a time `ts`, and
-- the write takes some time and is done at `now`.
pub data Attempt {ℓ} (N : Type ℓ) : Type ℓ where
  thrown : Text → N → Attempt N
  failed : Text → Attempt N
  connected : N → N → N → Attempt N

-- Where something is sent, what is, what is logged, and the state behind it.
pub record Sent {ℓ} (N : Type ℓ) : Type ℓ where
  pub place : Option (Text × ℕ)
  pub payload : Option Payload
  pub logged : List Text
  pub state : GraphiteStats N

abbrev logged_if : Bool → Text → List Text
logged_if debug e = if debug then e ∷ [] else []

-- what is sent, or an empty payload
abbrev pub sent_payload : Option Payload → Payload
sent_payload none = plain []
sent_payload (some p) = p

module _ {ℓ} {N : Type ℓ} (num : JsNumber N) (g : Graphite) where
  -- `try … catch`, where there is a host.
  unfoldable pub attempt_at :
      Connection → Text → List (Metric N) → Attempt N → GraphiteStats N → Sent N
  unfolding is_pickle on_connect on_exception
  attempt_at c host metrics (thrown e now) s = record {
    place = none;
    payload = none;
    logged = logged_if c.debug e;
    state = on_exception num g now s;
  }
  attempt_at c host metrics (failed e) s = record {
    place = some (host, if is_pickle c then c.pickle_port else c.port);
    payload = none;
    logged = logged_if c.debug e;
    state = s;
  }
  attempt_at c host metrics (connected ts elapsed now) s =
      let done = on_connect num g (is_pickle c) ts elapsed now metrics s s in
      record {
        place = some (host, if is_pickle c then c.pickle_port else c.port);
        payload = some done.0;
        logged = [];
        state = done.1;
      }

  -- `post_stats`, where no other flush ends in between.
  unfoldable pub post_stats : Connection → List (Metric N) → Attempt N → GraphiteStats N → Sent N
  unfolding attempt_at
  post_stats c metrics attempt s = elim c.host [
    | none ↦ record { place = none; payload = none; logged = []; state = s }
    | some host ↦ attempt_at c host metrics attempt s
  ]

  -- `backend_status`: what it reports, name by name.
  unfoldable pub backend_status : GraphiteStats N → List (Text × Text × N)
  backend_status s =
      (codes "graphite", codes "last_flush", s.last_flush)
      ∷ (codes "graphite", codes "last_exception", s.last_exception)
      ∷ (codes "graphite", codes "flush_time", s.flush_time)
      ∷ (codes "graphite", codes "flush_length", s.flush_length)
      ∷ []

  text_lines :
      (metrics more : List (Metric N)) (m : Metric N)
      → ((x : N) → contains b'\n' (num.to_text x) ≡ false)
      → AreLines num (metrics ++ (m ∷ more))
      → split (codes "\n") (to_text num (metrics ++ (m ∷ more)))
        ≡ texts num (metrics ++ (m ∷ more)) ++ ([] ∷ [])
  text_lines [] more m clean hs = split-to_text num m more clean hs
  text_lines (n ∷ metrics) more m clean hs = split-to_text num n (metrics ++ (m ∷ more)) clean hs

  four_lines :
      (s : GraphiteStats N) (ts : N) (metrics : List (Metric N))
      → ((x : N) → contains b'\n' (num.to_text x) ≡ false)
      → AreLines num (post_metrics num g s ts metrics)
      → split (codes "\n") (to_text num (post_metrics num g s ts metrics))
        ≡ texts num (post_metrics num g s ts metrics) ++ ([] ∷ [])
  unfolding post_metrics
  four_lines s ts metrics clean hs = text_lines metrics _ _ clean hs

  -- what a connection gets in the text format
  post_text :
      (c : Connection) (host : Text) (metrics : List (Metric N)) (ts elapsed now : N)
      (s : GraphiteStats N)
      → c.host ≡ some host
      → is_pickle c ≡ false
      → let text = plain (to_text num (post_metrics num g s ts metrics)) in
        post_stats c metrics (connected ts elapsed now) s ≡ record {
          place = some (host, c.port);
          payload = some text;
          logged = [];
          state = record s {
            flush_time = elapsed;
            flush_length = num.of_nat (payload_length text);
            last_flush = now;
          };
        }
  unfolding post_stats attempt_at on_connect payload
  post_text c host metrics ts elapsed now s h p = rw h (rw p refl)

  -- With a host and the text format, once the connection is there, the host gets a line for each metric
  -- of the flush, and for four of the backend's own, in this order, and nothing behind the last
  -- newline; the state then tells the length of what was sent, and when. No key and no number has a
  -- newline.
  pub post_stats_lem :
      (c : Connection) (host : Text) (metrics : List (Metric N)) (ts elapsed now : N)
      (s : GraphiteStats N)
      → c.host ≡ some host
      → is_pickle c ≡ false
      → ((x : N) → contains b'\n' (num.to_text x) ≡ false)
      → AreLines num (post_metrics num g s ts metrics)
      → let sent = post_stats c metrics (connected ts elapsed now) s in
        let body = body_of (sent_payload sent.payload) in
        (split (codes "\n") body ≡ texts num (post_metrics num g s ts metrics) ++ ([] ∷ []))
        × (sent.place ≡ some (host, c.port))
        × (sent.state.flush_length ≡ num.of_nat (payload_length (sent_payload sent.payload)))
        × (sent.state.last_flush ≡ now)
        × (sent.state.last_exception ≡ s.last_exception)
  post_stats_lem c host metrics ts elapsed now s h p clean hs =
      rw (post_text c host metrics ts elapsed now s h p)
        (four_lines s ts metrics clean hs, refl, refl, refl, refl)
