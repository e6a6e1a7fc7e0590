-- ===== src/Mgmt/Effects.antt =====
-- What the management commands do to the tables.
use statsd.Base.{refl, ℕ, ◌≡◌, true, List, none, some, some_of, arith}
use statsd.Js.Number.{JsNumber}
use statsd.Js.Object.{lookup}
use statsd.Js.Object.Laws.{lookup-put}
use statsd.Js.Text.{Text, eqb_refl}
use statsd.Mgmt.{delete_stats}
use statsd.Mgmt.Deletion.{names, lookup-delete_stats}
use statsd.Packet.Metric.{increment}
use statsd.Stats.{Stats, IsWellFormed, same-IsWellFormed}
use statsd.Mgmt.Commands.{
  Surroundings, Command, help, config, health, stats, counters, timers, gauges, delcounters,
  deltimers, delgauges, quit, unknown, run_command,
}

module _ {ℓ} {N : Type ℓ} (num : JsNumber N) where
  -- Every command leaves well formed tables well formed.
  pub run_command-IsWellFormed :
      (top : ℕ) (u : Surroundings N) (c : Command) (parameters : List Text) (h : Text) (s : Stats N)
      → IsWellFormed num top s
      → IsWellFormed num top (run_command num u c parameters h s).tables
  unfolding run_command
  run_command-IsWellFormed top u delcounters parameters h s w =
      same-IsWellFormed w refl refl refl refl
  run_command-IsWellFormed top u delgauges parameters h s w =
      same-IsWellFormed w refl refl refl refl
  run_command-IsWellFormed top u deltimers parameters h s w = record {
    paired = λ k xs e. w.paired k xs (ground (arith, e, lookup-delete_stats s.timers parameters k));
    numeric =
        λ k xs e. w.numeric k xs (ground (arith, e, lookup-delete_stats s.timers parameters k));
    alive = w.alive;
    counted = w.counted;
    once = w.once;
  }
  run_command-IsWellFormed top u help parameters h s w = w
  run_command-IsWellFormed top u config parameters h s w = w
  run_command-IsWellFormed top u health parameters h s w = w
  run_command-IsWellFormed top u stats parameters h s w = w
  run_command-IsWellFormed top u counters parameters h s w = w
  run_command-IsWellFormed top u timers parameters h s w = w
  run_command-IsWellFormed top u gauges parameters h s w = w
  run_command-IsWellFormed top u quit parameters h s w = w
  run_command-IsWellFormed top u unknown parameters h s w = w

  -- If a counter of the daemon itself is deleted by a command, the next increment makes it NaN.
  pub deleted_counter :
      (u : Surroundings N) (parameters : List Text) (h : Text) (s : Stats N) (key : Text)
      → some_of (λ b. names b key) parameters ≡ true
      → lookup key
          (increment num key (run_command num u delcounters parameters h s).tables.counters)
        ≡ some num.nan
  unfolding run_command increment
  deleted_counter u parameters h s key e =
      let gone : lookup key (delete_stats s.counters parameters).0 ≡ none =
        ground (arith, e, lookup-delete_stats s.counters parameters key) in
      simp (lookup-put, gone, eqb_refl)
