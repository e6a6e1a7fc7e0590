-- ===== src/Aggregate/Lifetime.antt =====
-- stats.js from packets and flushes, in any order, to its exit: what the backends get at each flush.
use statsd.Base.{ℕ, ◌≡◌, ◌≤◌, subst, List, [], ◌∷◌, ◌++◌}
use statsd.Aggregate.{View, view, apply_all, packet_events}
use statsd.Aggregate.Flushes.{cleared, lagged, flush_metrics_refines}
use statsd.Aggregate.Interval.{IsSent, sent_lem}
use statsd.Aggregate.Packets.{handle_packet_refines}
use statsd.Flush.Cycle.{Emitted, flush_metrics, flush_metrics-IsWellFormed}
use statsd.Js.Number.{JsNumber}
use statsd.Js.Text.{Text}
use statsd.Packet.{handle_packet}
use statsd.Packet.Outcomes.{Holds, Holds-then, Holds-done}
use statsd.Packet.Invariant.Handler.{handle_packet-IsWellFormed}
use statsd.Packet.Metric.{Outcome, done, ◌>>=◌}
use statsd.Stats.{Stats, Names, Config, IsWellFormed}
use statsd.Timers.{Options}

-- A packet with the time it comes at, or a flush with its time and how long its processing takes.
pub data Input {ℓ} (N : Type ℓ) : Type ℓ where
  packet : ℕ → Text → Input N
  flush : ℕ → N → Input N

module _ {ℓ} {N : Type ℓ} (num : JsNumber N) (names : Names) (conf : Config)
    (options : Options N) where
  -- What the flushes hand to the backends, and `old_timestamp` and the tables at the end.
  unfoldable pub run : List (Input N) → ℕ × Stats N → Outcome (List (Emitted N) × (ℕ × Stats N))
  unfolding handle_packet flush_metrics
  run [] d = done ([], d)
  run (packet now p ∷ inputs) (old, s) =
      handle_packet num names conf now p s >>= λ t. run inputs (old, t)
  run (flush time_stamp elapsed ∷ inputs) d =
      let flushed = flush_metrics num names conf options time_stamp elapsed d in
      run inputs flushed.1 >>= λ rest. done (flushed.0 ∷ rest.0, rest.1)

  -- The listener of `exit`: the last thing that happens is a flush.
  unfoldable pub until_exit :
      List (Input N) → ℕ → N → ℕ × Stats N → Outcome (List (Emitted N) × (ℕ × Stats N))
  unfolding run
  until_exit inputs time_stamp elapsed d = run (inputs ++ (flush time_stamp elapsed ∷ [])) d

  -- The same on views: for each flush the view before it, without its lag and with it.
  abbrev pub views : List (Input N) → ℕ → View N → List (View N × View N)
  views [] old v = []
  views (packet now p ∷ inputs) old v =
      views inputs old (apply_all num conf (packet_events num names conf p) v)
  views (flush time_stamp elapsed ∷ inputs) old v =
      let late = lagged num names conf options old time_stamp v in
      (v, late) ∷ views inputs time_stamp (cleared num conf late)

  -- For a key, each flush hands out what its view says, and there are as many flushes as views.
  pub data AllSent (k : Text) : List (View N × View N) → List (Emitted N) → Type ℓ where
    none_sent : AllSent k [] []
    more_sent :
        {v late : View N} {sent : Emitted N} {vs : List (View N × View N)}
        {sents : List (Emitted N)}
        → IsSent num names conf options k v late sent
        → AllSent k vs sents
        → AllSent k ((v, late) ∷ vs) (sent ∷ sents)

  module _ (top : ℕ) (bound : (1 ≤ conf.gauges_max_ttl) × (conf.gauges_max_ttl ≤ top)) where
    abbrev AreSent : Text → List (View N × View N) → List (Emitted N) × (ℕ × Stats N) → Type ℓ
    AreSent k vs (sents, _) = AllSent k vs sents

    run_lem :
        (k : Text) (inputs : List (Input N)) (old : ℕ) (s : Stats N)
        → IsWellFormed num top s
        → Holds (AreSent k (views inputs old (view s))) (run inputs (old, s))
    unfolding run
    run_lem k [] old s w = none_sent
    run_lem k (packet now p ∷ inputs) old s w =
        Holds-then (AreSent k (views (packet now p ∷ inputs) old (view s)))
          (handle_packet num names conf now p s) (λ t. run inputs (old, t))
          (λ t h.
            subst (λ (v : View N). Holds (AreSent k (views inputs old v)) (run inputs (old, t)))
              (handle_packet_refines num names conf now p s t h)
              (run_lem k inputs old t
                (handle_packet-IsWellFormed num conf top bound names now p s t w h)))
    run_lem k (flush time_stamp elapsed ∷ inputs) old s w =
        let flushed = flush_metrics num names conf options time_stamp elapsed (old, s) in
        let late = lagged num names conf options old time_stamp (view s) in
        let same : view flushed.1.1 ≡ cleared num conf late =
          flush_metrics_refines num names conf options time_stamp old elapsed s w.once in
        let behind =
          run_lem k inputs time_stamp flushed.1.1
            (flush_metrics-IsWellFormed num names conf options top time_stamp old elapsed s w) in
        Holds-then (AreSent k (views (flush time_stamp elapsed ∷ inputs) old (view s)))
          (run inputs flushed.1) (λ rest. done (flushed.0 ∷ rest.0, rest.1))
          (λ rest e. more_sent (sent_lem num names conf options time_stamp old elapsed s k) (
            subst (λ (v : View N). AllSent k (views inputs time_stamp v) rest.0) same
              (Holds-done (AreSent k (views inputs time_stamp (view flushed.1.1)))
                (run inputs flushed.1) rest behind e)))

    -- From any well formed tables on, through packets and flushes in any order, up to the flush at the
    -- exit: if every packet is handled, the backends get at each flush, that last one included, and for
    -- each key, what the view of the tables says by then, as the events of the packets and the clearing
    -- of the flushes before have made it. The configured time to live is positive and within a bound.
    pub lifetime_lem :
        (k : Text) (inputs : List (Input N)) (time_stamp : ℕ) (elapsed : N) (old : ℕ) (s : Stats N)
        (sents : List (Emitted N)) (end : ℕ × Stats N)
        → IsWellFormed num top s
        → until_exit inputs time_stamp elapsed (old, s) ≡ done (sents, end)
        → AllSent k (views (inputs ++ (flush time_stamp elapsed ∷ [])) old (view s)) sents
    unfolding until_exit
    lifetime_lem k inputs time_stamp elapsed old s sents end w h =
        let all = inputs ++ (flush time_stamp elapsed ∷ []) in
        Holds-done (AreSent k (views all old (view s))) (run all (old, s)) (sents, end)
          (run_lem k all old s w) h
