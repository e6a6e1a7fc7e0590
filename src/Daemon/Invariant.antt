-- ===== src/Daemon/Invariant.antt =====
-- stats.js as a whole: the tables, in the states that it comes to.
use statsd.Base.{refl, ℕ, ◌≤◌, ◌≡◌, sym, subst, Bool, Option, arith, Bool-cases, inl, inr}
use statsd.Daemon.{
  Daemon, Step, received, flushed, commanded, keys_flushed, reloaded, Reach, begun, stepped, begin,
  reload, flushed_at, command_run,
}
use statsd.Flush.Cycle.{flush_metrics-IsWellFormed}
use statsd.Flush.Settings.{settle, settle-max_ttl, resettle, resettle-max_ttl}
use statsd.Js.Number.{JsNumber}
use statsd.Js.Object.{lookup}
use statsd.Js.Text.{Text}
use statsd.KeyFlush.{flush_keys}
use statsd.KeyFlush.Top.{flush_keys-tables}
use statsd.Mgmt.Commands.{Command}
use statsd.Mgmt.Effects.{run_command-IsWellFormed}
use statsd.Packet.Invariant.Handler.{handle_packet-IsWellFormed}
use statsd.Packet.Metric.{done}
use statsd.Startup.{initial, configured, prefix_of, names_of, KeyFlush}
use statsd.Stats.{Stats, Names, Config, IsWellFormed, same-IsWellFormed}
use statsd.Timers.{Options}

module _ {ℓ} {N : Type ℓ} (num : JsNumber N) (top : ℕ) where
  initial-IsWellFormed : (startup_time : ℕ) → IsWellFormed num top (initial startup_time)
  unfolding initial lookup
  initial-IsWellFormed startup_time = record {
    paired = λ k xs h. absurd (ground arith);
    numeric = λ k xs h. absurd (ground arith);
    alive = λ k n h. absurd (ground arith);
    counted = λ k n h. absurd (ground arith);
    once = tt;
  }

  configured-IsWellFormed :
      (conf : Config) (names : Names) (s : Stats N)
      → IsWellFormed num top s
      → IsWellFormed num top (configured num conf names s)
  unfolding configured lookup
  configured-IsWellFormed conf names s w = elim (Bool-cases conf.delete_gauges) [
    | inl e ↦ simp e (same-IsWellFormed w refl refl refl refl)
    | inr e ↦ simp e (record {
      paired = w.paired;
      numeric = w.numeric;
      alive = λ k n h. absurd (ground arith);
      counted = w.counted;
      once = tt;
    })
  ]

  flush_keys-IsWellFormed :
      (key_flush : Option (KeyFlush N)) (time_string message : Text) (s t : Stats N)
      → IsWellFormed num top s
      → flush_keys num key_flush time_string s ≡ done (message, t)
      → IsWellFormed num top t
  unfolding lookup
  flush_keys-IsWellFormed key_flush time_string message s t w h =
      subst (IsWellFormed num top) (sym (flush_keys-tables num key_flush time_string message s t h))
        (record {
          paired = w.paired;
          numeric = w.numeric;
          alive = w.alive;
          counted = λ k n e. absurd (ground arith);
          once = w.once;
        })

  module _ (options : Options N) (key_flush : Option (KeyFlush N)) (allowed : Command → Bool) where
    -- What every state has: well formed tables, and a time to live for gauges.
    abbrev IsSound : Daemon N → Type ℓ
    IsSound d = IsWellFormed num top d.tables × (1 ≤ d.conf.gauges_max_ttl)

    Step-IsSound :
        {d e : Daemon N}
        → d.conf.gauges_max_ttl ≤ top
        → IsSound d
        → Step num options key_flush allowed d e
        → IsSound e
    unfolding flushed_at command_run reload
    Step-IsSound {d} m (w, p) (received {t} now packet h) = (
      handle_packet-IsWellFormed num d.conf top (p, m) (names_of d.prefix_stats) now packet d.tables
          t w h,
      p,
    )
    Step-IsSound {d} m (w, p) (flushed now elapsed) = (
      flush_metrics-IsWellFormed num (names_of d.prefix_stats) d.conf options top now
          d.old_timestamp elapsed d.tables w,
      p,
    )
    Step-IsSound {d} m (w, p) (commanded u cmd parameters _) =
        (run_command-IsWellFormed num top u cmd parameters d.health_status d.tables w, p)
    Step-IsSound {d} m (w, p) (keys_flushed {message} {t} time_string h) =
        (flush_keys-IsWellFormed key_flush time_string message d.tables t w h, p)
    Step-IsSound {d} m (w, p) (reloaded raw prefix_stats) = (
      configured-IsWellFormed (resettle d.conf raw) (names_of (prefix_of prefix_stats)) d.tables w,
      resettle-max_ttl d.conf raw,
    )

    Reach-top :
        {d : Daemon N} → Reach num options key_flush allowed top d → d.conf.gauges_max_ttl ≤ top
    unfolding begin
    Reach-top (begun raw prefix_stats startup_time m) = m
    Reach-top (stepped r step m) = m

    Reach-IsSound : {d : Daemon N} → Reach num options key_flush allowed top d → IsSound d
    unfolding begin
    Reach-IsSound (begun raw prefix_stats startup_time _) = (
      configured-IsWellFormed (settle raw) (names_of (prefix_of prefix_stats))
          (initial startup_time) (initial-IsWellFormed startup_time),
      settle-max_ttl raw,
    )
    Reach-IsSound (stepped r step _) = Step-IsSound (Reach-top r) (Reach-IsSound r) step

    -- Whatever packets, flushes, commands, flushes of the key counts and changes of the file come, and in
    -- whatever order, the tables are well formed: each timer has its counter and holds no NaN, each time
    -- to live is positive, at most the greatest one that was ever configured, and stands once, and each
    -- counted key was seen.
    pub Reach-IsWellFormed :
        {d : Daemon N} → Reach num options key_flush allowed top d → IsWellFormed num top d.tables
    Reach-IsWellFormed r = (Reach-IsSound r).0
