-- ===== src/Daemon/Counters.antt =====
-- stats.js as a whole: the daemon's own counters, in the states that it comes to.
use statsd.Base.{
  ℕ, ◌≡◌, refl, subst, sym, Bool, true, false, List, [], ◌∷◌, Option, is_some, arith, Bool-cases,
  inl, inr,
}
use statsd.Aggregate.{
  Event, bumped, seen, counted, timed, gauged, inserted, View, view, apply, apply_all,
  packet_events,
}
use statsd.Aggregate.Packets.{handle_packet_refines}
use statsd.Daemon.{
  Daemon, Step, received, flushed, commanded, keys_flushed, reloaded, Reach, begun, stepped, begin,
  reload, flushed_at, command_run,
}
use statsd.Flush.{is_internal}
use statsd.Flush.Settings.{settle, resettle}
use statsd.Flush.Cycle.{flush_metrics_lem}
use statsd.Js.Number.{JsNumber, nought}
use statsd.Js.Object.{lookup, put}
use statsd.Js.Object.Laws.{lookup-put}
use statsd.Js.Text.{Text, eqb_refl}
use statsd.KeyFlush.Top.{flush_keys-tables}
use statsd.Mgmt.Commands.{
  Surroundings, Command, help, config, health, stats, counters, timers, gauges, delcounters,
  deltimers, delgauges, quit, unknown, run_command,
}
use statsd.Startup.{KeyFlush, configured, initial, prefix_of, names_of, names_of-internal}
use statsd.Stats.{Stats, Names, Config}
use statsd.Timers.{Options}

-- no event takes a counter away
module _ {ℓ} {N : Type ℓ} (num : JsNumber N) (conf : Config) where
  apply-counters :
      (e : Event N) (v : View N) (k : Text)
      → is_some (v.counters k) ≡ true
      → is_some ((apply num conf e v).counters k) ≡ true
  apply-counters (bumped key) v k h = ground arith
  apply-counters (seen key) v k h = elim (Bool-cases conf.count_keys) [
    | inl c ↦ simp c h
    | inr c ↦ simp c h
  ]
  apply-counters (counted key x) v k h = ground arith
  apply-counters (timed key x w) v k h = h
  apply-counters (gauged key value) v k h = h
  apply-counters (inserted key item) v k h = h

  apply_all-counters :
      (events : List (Event N)) (v : View N) (k : Text)
      → is_some (v.counters k) ≡ true
      → is_some ((apply_all num conf events v).counters k) ≡ true
  apply_all-counters [] v k h = h
  apply_all-counters (e ∷ events) v k h =
      apply_all-counters events (apply num conf e v) k (apply-counters e v k h)

-- of the commands only `delcounters` changes the counters
run_command-counters {ℓ} :
    {N : Type ℓ} (num : JsNumber N) (u : Surroundings N) (cmd : Command) (allowed : Command → Bool)
    (parameters : List Text) (h : Text) (s : Stats N)
    → allowed delcounters ≡ false
    → allowed cmd ≡ true
    → (run_command num u cmd parameters h s).tables.counters ≡ s.counters
unfolding run_command
run_command-counters num u delcounters allowed parameters h s banned allows = cc
run_command-counters num u deltimers allowed parameters h s banned allows = refl
run_command-counters num u delgauges allowed parameters h s banned allows = refl
run_command-counters num u help allowed parameters h s banned allows = refl
run_command-counters num u config allowed parameters h s banned allows = refl
run_command-counters num u health allowed parameters h s banned allows = refl
run_command-counters num u stats allowed parameters h s banned allows = refl
run_command-counters num u counters allowed parameters h s banned allows = refl
run_command-counters num u timers allowed parameters h s banned allows = refl
run_command-counters num u gauges allowed parameters h s banned allows = refl
run_command-counters num u quit allowed parameters h s banned allows = refl
run_command-counters num u unknown allowed parameters h s banned allows = refl

-- A counter is there.
abbrev IsThere {ℓ} : {N : Type ℓ} → Text → Stats N → Type 0
IsThere k s = is_some (lookup k s.counters) ≡ true

-- The three counters of the daemon are there.
abbrev pub HasOwn {ℓ} : {N : Type ℓ} → Names → Stats N → Type 0
HasOwn names s =
    IsThere names.bad_lines s × IsThere names.packets_received s × IsThere names.metrics_received s

-- what keeps a counter that no flush deletes keeps the three
kept-HasOwn {ℓ} :
    {N : Type ℓ} (prefix_stats : Text) (s t : Stats N)
    → ((k : Text) → is_internal k ≡ true → IsThere k s → IsThere k t)
    → HasOwn (names_of prefix_stats) s
    → HasOwn (names_of prefix_stats) t
kept-HasOwn prefix_stats s t f (b, p, m) =
    let (ib, ip, im) = names_of-internal prefix_stats in (f _ ib b, f _ ip p, f _ im m)

module _ {ℓ} {N : Type ℓ} (num : JsNumber N) where
  configured-HasOwn :
      (conf : Config) (names : Names) (s : Stats N) → HasOwn names (configured num conf names s)
  unfolding configured
  configured-HasOwn conf names s =
      let first = put names.bad_lines (nought num) s.counters in
      let second = put names.packets_received (nought num) first in
      (
        ground (
          arith,
          lookup-put names.bad_lines names.bad_lines (nought num) s.counters,
          lookup-put names.packets_received names.bad_lines (nought num) first,
          lookup-put names.metrics_received names.bad_lines (nought num) second,
          eqb_refl names.bad_lines,
        ),
        ground (
          arith,
          lookup-put names.packets_received names.packets_received (nought num) first,
          lookup-put names.metrics_received names.packets_received (nought num) second,
          eqb_refl names.packets_received,
        ),
        ground (
          arith,
          lookup-put names.metrics_received names.metrics_received (nought num) second,
          eqb_refl names.metrics_received,
        ),
      )

  module _ (options : Options N) (key_flush : Option (KeyFlush N)) (allowed : Command → Bool)
      (top : ℕ) where
    Step-HasOwn :
        {d e : Daemon N}
        → allowed delcounters ≡ false
        → HasOwn (names_of d.prefix_stats) d.tables
        → Step num options key_flush allowed d e
        → HasOwn (names_of e.prefix_stats) e.tables
    unfolding flushed_at command_run reload
    Step-HasOwn {d} banned h (received {t} now packet e) =
        kept-HasOwn d.prefix_stats d.tables t
          (λ k i c.
            subst (λ (v : View N). is_some (v.counters k) ≡ true)
              (sym (
                handle_packet_refines num (names_of d.prefix_stats) d.conf now packet d.tables t e))
              (apply_all-counters num d.conf
                (packet_events num (names_of d.prefix_stats) d.conf packet) (view d.tables) k c))
          h
    Step-HasOwn {d} banned h (flushed now elapsed) =
        kept-HasOwn d.prefix_stats d.tables
          (flushed_at num options key_flush allowed now elapsed d).tables
          (λ k i c.
            let kept =
              (flush_metrics_lem num (names_of d.prefix_stats) d.conf options now d.old_timestamp
                elapsed d.tables k).5 in
            rw kept (ground (arith, i, c)))
          h
    Step-HasOwn {d} banned h (commanded u cmd parameters allows) =
        kept-HasOwn d.prefix_stats d.tables
          (command_run num options key_flush allowed u cmd parameters d).tables
          (λ k i c.
            rw
              (run_command-counters num u cmd allowed parameters d.health_status d.tables banned
                allows)
              c)
          h
    Step-HasOwn {d} banned h (keys_flushed {message} {t} time_string e) =
        kept-HasOwn d.prefix_stats d.tables t
          (λ k i c. rw (flush_keys-tables num key_flush time_string message d.tables t e) c) h
    Step-HasOwn {d} banned h (reloaded raw prefix_stats) =
        configured-HasOwn (resettle d.conf raw) (names_of (prefix_of prefix_stats)) d.tables

    -- Under every prefix, and as long as the command `delcounters` is not given, the counters for bad
    -- lines, packets and metrics are there in every state that the daemon comes to, also where flushes
    -- delete counters and where the file changes.
    pub own_counters_lem :
        {d : Daemon N}
        → allowed delcounters ≡ false
        → Reach num options key_flush allowed top d
        → let names = names_of d.prefix_stats in
          (is_some (lookup names.bad_lines d.tables.counters) ≡ true)
          × (is_some (lookup names.packets_received d.tables.counters) ≡ true)
          × (is_some (lookup names.metrics_received d.tables.counters) ≡ true)
    unfolding begin
    own_counters_lem banned (begun raw prefix_stats startup_time _) =
        configured-HasOwn (settle raw) (names_of (prefix_of prefix_stats)) (initial startup_time)
    own_counters_lem banned (stepped r step _) = Step-HasOwn banned (own_counters_lem banned r) step
