-- ===== src/Daemon.antt =====
-- stats.js as a whole: packets, flushes, management commands, the flush of the key counts and changes
-- of the file, in any order, from the start on.
pub mod Invariant
pub mod Counters
use statsd.Base.{ℕ, ◌≤◌, ◌≡◌, Bool, true, List, Option}
use statsd.Flush.Cycle.{flush_metrics}
use statsd.Flush.Settings.{RawConfig, settle, resettle}
use statsd.Js.Number.{JsNumber}
use statsd.Js.Text.{Text, codes}
use statsd.KeyFlush.{flush_keys}
use statsd.Mgmt.Commands.{Surroundings, Command, run_command}
use statsd.Packet.{handle_packet}
use statsd.Packet.Metric.{done}
use statsd.Startup.{initial, configured, prefix_of, names_of, KeyFlush}
use statsd.Stats.{Stats, Config}
use statsd.Timers.{Options}

-- The variables of the module that its listeners and timers share.
pub record Daemon {ℓ} (N : Type ℓ) : Type ℓ where
  pub tables : Stats N
  pub old_timestamp : ℕ
  pub health_status : Text
  pub conf : Config
  pub prefix_stats : Text

module _ {ℓ} {N : Type ℓ} (num : JsNumber N) (options : Options N) (key_flush : Option (KeyFlush N))
    (allowed : Command → Bool) where
  -- The first run of the callback. `healthStatus` is "up", whatever the file says: what is read is a
  -- field of the module that loads the file.
  unfoldable pub begin : RawConfig → Option Text → ℕ → Daemon N
  unfolding initial configured settle prefix_of names_of
  begin raw prefix_stats startup_time = record {
    tables = configured num (settle raw) (names_of (prefix_of prefix_stats)) (initial startup_time);
    old_timestamp = 0;
    health_status = codes "up";
    conf = settle raw;
    prefix_stats = prefix_of prefix_stats;
  }

  -- The callback when the file has changed.
  unfoldable pub reload : RawConfig → Option Text → Daemon N → Daemon N
  unfolding configured resettle prefix_of names_of
  reload raw prefix_stats d = record d {
    tables = configured num (resettle d.conf raw) (names_of (prefix_of prefix_stats)) d.tables;
    conf = resettle d.conf raw;
    prefix_stats = prefix_of prefix_stats;
  }

  -- `flushMetrics`
  unfoldable pub flushed_at : ℕ → N → Daemon N → Daemon N
  unfolding flush_metrics names_of
  flushed_at time_stamp elapsed d =
      let behind =
        (flush_metrics num (names_of d.prefix_stats) d.conf options time_stamp elapsed
          (d.old_timestamp, d.tables)).1 in
      record d { tables = behind.1; old_timestamp = behind.0 }

  -- A command of the management console.
  unfoldable pub command_run : Surroundings N → Command → List Text → Daemon N → Daemon N
  unfolding run_command
  command_run u cmd parameters d =
      let reply = run_command num u cmd parameters d.health_status d.tables in
      record d { tables = reply.tables; health_status = reply.health_status }

  -- One run of a listener or a timer. A packet on which the handler throws ends the program. Of the
  -- commands some are allowed. When the file changes, what `options` stands for stays the same.
  pub data Step : Daemon N → Daemon N → Type ℓ where
    received :
        {d : Daemon N} {t : Stats N} (now : ℕ) (packet : Text)
        → handle_packet num (names_of d.prefix_stats) d.conf now packet d.tables ≡ done t
        → Step d (record d { tables = t })
    flushed :
        {d : Daemon N} (time_stamp : ℕ) (elapsed : N) → Step d (flushed_at time_stamp elapsed d)
    commanded :
        {d : Daemon N} (u : Surroundings N) (cmd : Command) (parameters : List Text)
        → allowed cmd ≡ true
        → Step d (command_run u cmd parameters d)
    keys_flushed :
        {d : Daemon N} {message : Text} {t : Stats N} (time_string : Text)
        → flush_keys num key_flush time_string d.tables ≡ done (message, t)
        → Step d (record d { tables = t })
    reloaded :
        {d : Daemon N} (raw : RawConfig) (prefix_stats : Option Text)
        → Step d (reload raw prefix_stats d)

  -- The states that runs in any order come to, where no time to live that was ever configured is above
  -- `top`.
  pub data Reach (top : ℕ) : Daemon N → Type ℓ where
    begun :
        (raw : RawConfig) (prefix_stats : Option Text) (startup_time : ℕ)
        → (settle raw).gauges_max_ttl ≤ top
        → Reach top (begin raw prefix_stats startup_time)
    stepped : {d e : Daemon N} → Reach top d → Step d e → e.conf.gauges_max_ttl ≤ top → Reach top e
