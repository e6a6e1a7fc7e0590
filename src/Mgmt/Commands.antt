-- ===== src/Mgmt/Commands.antt =====
-- The management commands: lib/mgmt_server.js splits a command line, stats.js carries it out.
use statsd.Base.{ℕ, ◌≡◌, refl, ap, ◌∙◌, Bool, true, false, List, [], ◌∷◌, ◌++◌, if◌then◌else◌}
use statsd.Js.Number.{JsNumber}
use statsd.Js.Object.{Object}
use statsd.Js.Text.{Text, codes, eqb, split, join, trim, starts_with, lower_case}
use statsd.Js.Text.Split.{join-split}
use statsd.Mgmt.{delete_stats}
use statsd.Stats.{Stats}

-- `cmdline.shift()`, and what is left
abbrev shifted : List Text → Text × List Text
shifted [] = ([], [])
shifted (cmd ∷ parameters) = (cmd, parameters)

-- The command and its parameters in what has arrived.
unfoldable pub command_line : Text → Text × List Text
unfolding split trim
command_line input = shifted (split (codes " ") (trim input))

-- The words of the `switch`; any other is unknown.
pub data Command : Type 0 where
  help config health stats counters timers gauges delcounters deltimers delgauges quit unknown :
      Command

unfoldable pub command_of : Text → Command
command_of cmd =
    if eqb cmd (codes "help")
    then help
    else if eqb cmd (codes "config")
    then config
    else if eqb cmd (codes "health")
    then health
    else if eqb cmd (codes "stats")
    then stats
    else if eqb cmd (codes "counters")
    then counters
    else if eqb cmd (codes "timers")
    then timers
    else if eqb cmd (codes "gauges")
    then gauges
    else if eqb cmd (codes "delcounters")
    then delcounters
    else if eqb cmd (codes "deltimers")
    then deltimers
    else if eqb cmd (codes "delgauges")
    then delgauges
    else if eqb cmd (codes "quit")
    then quit
    else unknown

-- What the commands read of the rest: the text of the configuration, the time and that of the start in
-- seconds, `util.inspect` of tables, and what the backends report.
pub record Surroundings {ℓ} (N : Type ℓ) : Type ℓ where
  pub config_text : List Text
  pub now : ℕ
  pub startup_time : ℕ
  pub inspect_numbers : Object N → Text
  pub inspect_timers : Object (List N) → Text
  pub backend_status : List (Text × Text × N)

-- The tables, `healthStatus`, what is written, and whether the stream is ended.
pub record Reply {ℓ} (N : Type ℓ) : Type ℓ where
  pub tables : Stats N
  pub health_status : Text
  pub written : List Text
  pub ended : Bool

-- `healthStatus` after the command `health`
unfoldable pub new_health : List Text → Text → Text
unfolding lower_case
new_health [] health_status = health_status
new_health (parameter ∷ more) health_status =
    let cmdaction = lower_case parameter in
    if eqb cmdaction (codes "up")
    then codes "up"
    else if eqb cmdaction (codes "down")
    then codes "down"
    else health_status

abbrev end_text : Text
end_text = codes "END\n\n"

module _ {ℓ} {N : Type ℓ} (num : JsNumber N) where
  -- `stat_writer`: of a time it writes how long ago that is.
  unfoldable pub stat_line : ℕ → Text → Text → N → Text
  unfolding starts_with
  stat_line now group metric val =
      let delta =
        if starts_with (codes "last_") metric then num.sub (num.of_nat now) val else val in
      group ++ (codes "." ++ (metric ++ (codes ": " ++ (num.to_text delta ++ codes "\n"))))

  unfoldable pub backend_lines : ℕ → List (Text × Text × N) → List Text
  unfolding stat_line
  backend_lines now [] = []
  backend_lines now ((name, stat, val) ∷ status) =
      stat_line now name stat val ∷ backend_lines now status

  -- What the command `stats` writes.
  unfoldable pub stats_text : Surroundings N → Stats N → List Text
  unfolding stat_line backend_lines
  stats_text u s =
      (codes "uptime: "
        ++ (num.to_text (num.sub (num.of_nat u.now) (num.of_nat u.startup_time)) ++ codes "\n"))
      ∷ stat_line u.now (codes "messages") (codes "last_msg_seen") (num.of_nat s.last_msg_seen)
      ∷ stat_line u.now (codes "messages") (codes "bad_lines_seen") (num.of_nat s.bad_lines_seen)
      ∷ (backend_lines u.now u.backend_status ++ (end_text ∷ []))

  -- The callback of the management server.
  unfoldable pub run_command : Surroundings N → Command → List Text → Text → Stats N → Reply N
  unfolding new_health stats_text delete_stats
  run_command u help parameters h s = record {
    tables = s;
    health_status = h;
    written =
        codes
          "Commands: stats, counters, timers, gauges, delcounters, deltimers, delgauges, health, config, quit\n\n"
        ∷ [];
    ended = false;
  }
  run_command u config parameters h s = record {
    tables = s;
    health_status = h;
    written = u.config_text;
    ended = false;
  }
  run_command u health parameters h s =
      let status = new_health parameters h in
      record {
        tables = s;
        health_status = status;
        written = (codes "health: " ++ (status ++ codes "\n")) ∷ [];
        ended = false;
      }
  run_command u stats parameters h s = record {
    tables = s;
    health_status = h;
    written = stats_text u s;
    ended = false;
  }
  run_command u counters parameters h s = record {
    tables = s;
    health_status = h;
    written = (u.inspect_numbers s.counters ++ codes "\n") ∷ end_text ∷ [];
    ended = false;
  }
  run_command u timers parameters h s = record {
    tables = s;
    health_status = h;
    written = (u.inspect_timers s.timers ++ codes "\n") ∷ end_text ∷ [];
    ended = false;
  }
  run_command u gauges parameters h s = record {
    tables = s;
    health_status = h;
    written = (u.inspect_numbers s.gauges ++ codes "\n") ∷ end_text ∷ [];
    ended = false;
  }
  run_command u delcounters parameters h s =
      let (left, written) = delete_stats s.counters parameters in
      record {
        tables = record s { counters = left };
        health_status = h;
        written = written;
        ended = false;
      }
  run_command u deltimers parameters h s =
      let (left, written) = delete_stats s.timers parameters in
      record {
        tables = record s { timers = left };
        health_status = h;
        written = written;
        ended = false;
      }
  run_command u delgauges parameters h s =
      let (left, written) = delete_stats s.gauges parameters in
      record {
        tables = record s { gauges = left };
        health_status = h;
        written = written;
        ended = false;
      }
  run_command u quit parameters h s = record {
    tables = s;
    health_status = h;
    written = [];
    ended = true;
  }
  run_command u unknown parameters h s = record {
    tables = s;
    health_status = h;
    written = codes "ERROR\n" ∷ [];
    ended = false;
  }

-- The command and the parameters, joined by spaces, are the line without the space around it.
pub join-command_line :
    (input : Text)
    → let (cmd, parameters) = command_line input in join (codes " ") (cmd ∷ parameters) ≡ trim input
unfolding command_line
join-command_line input =
    ap (join (codes " ")) (shift_back (trim input)) ∙ join-split b' ' (trim input)
  where
    shift_back :
        (t : Text)
        → let (cmd, parameters) = shifted (split (codes " ") t) in
          cmd ∷ parameters ≡ split (codes " ") t
    shift_back t = refl
