-- ===== src/Loader.antt =====
-- What the program does around its start: stats.js, `loadBackend` and `startServer`; lib/config.js and
-- lib/process_mgmt.js; the sockets that servers/udp.js, servers/tcp.js and lib/mgmt_server.js open.
pub mod Start
use statsd.Base.{
  ℕ, Bool, true, false, not, ◌&&◌, List, [], ◌∷◌, ◌++◌, Option, none, some, ◌==◌, map,
  if◌then◌else◌, drop,
}
use statsd.Js.Text.{Text, codes, eqb, is_empty, join}
use statsd.Logger.{text_or}
use statsd.Packet.Metric.{Outcome, done, fault, type_error}

-- What loading does: a line of the log with its type, the call of a module's `init` or `start`, or the
-- end of the program with a status.
pub data Action : Type 0 where
  log : Text → Text → Action
  call : Text → Action
  exit : ℕ → Action

-- What loads a module, by its name and by whether its configuration asks for debugging: the actions,
-- and whether the program goes on.
unfoldable pub load : Text → Text → (Text → Bool) → Bool × Text → List Action × Bool
load loading failed starts (debug, name) =
    let ok = starts name in
    (
      (if debug then log (loading ++ name) (codes "DEBUG") ∷ [] else [])
          ++ (call name ∷ (if ok then [] else log (failed ++ name) (codes "ERROR") ∷ exit 1 ∷ [])),
      ok,
    )

-- `loadBackend`, where `starts` tells what the `init` of a module returns.
unfoldable pub load_backend : (Text → Bool) → Bool × Text → List Action × Bool
unfolding load
load_backend = load (codes "Loading backend: ") (codes "Failed to load backend: ")

-- `startServer`
unfoldable pub start_server : (Text → Bool) → Bool × Text → List Action × Bool
unfolding load
start_server = load (codes "Loading server: ") (codes "Failed to load server: ")

-- A loop, up to the end of the program.
unfoldable pub load_each :
    (Bool × Text → List Action × Bool) → List (Bool × Text) → List Action × Bool
load_each f [] = ([], true)
load_each f (entry ∷ entries) =
    let rest = load_each f entries in
    let first = f entry in if first.1 then (first.0 ++ rest.0, rest.1) else (first.0, false)

-- `debug` and `server` of a configuration of a server.
pub record ServerEntry : Type 0 where
  pub debug : Bool
  pub server : Option Text

-- `config.servers || [config]`, each with its module or UDP's.
unfoldable pub server_entries : Option (List ServerEntry) → ServerEntry → List (Bool × Text)
unfolding text_or
server_entries none config = (config.debug, text_or config.server (codes "./servers/udp")) ∷ []
server_entries (some servers) config =
    map (λ (s : ServerEntry). (s.debug, text_or s.server (codes "./servers/udp"))) servers

-- `config.backends`, or graphite.
unfoldable pub backend_entries : Bool → Option (List Text) → List (Bool × Text)
backend_entries debug none = (debug, codes "./backends/graphite") ∷ []
backend_entries debug (some backends) = map (λ name. (debug, name)) backends

-- The servers and then the backends. (The management server, in between, always starts.)
unfoldable pub load_all :
    (Text → Bool)
    → Option (List ServerEntry)
    → ServerEntry
    → Option (List Text)
    → List Action × Bool
unfolding load_backend start_server load_each server_entries backend_entries
load_all starts servers config backends =
    let started = load_each (start_server starts) (server_entries servers config) in
    let loaded = load_each (load_backend starts) (backend_entries config.debug backends) in
    if started.1 then (started.0 ++ loaded.0, loaded.1) else started

-- A `Configurator` with its `config`; `old_config` is a global variable, and no field is called so.
pub record Configurator (C : Type 0) : Type 0 where
  pub config : Option C
  pub old_config : Option C

-- What the listener of `configChanged` calls back with.
pub record Change (C : Type 0) : Type 0 where
  pub new_config : C
  pub before : Option C

module _ {C : Type 0} where
  -- `updateConfig`, when the file has been read; `none` where it throws, as the file could not be read.
  -- `config.oldConfig`, which the listener is given, is never there.
  unfoldable pub file_read :
      (Text → C) → Option Text → Configurator C → Option (Configurator C × Change C)
  file_read evaluate none self = none
  file_read evaluate (some data_text) self =
      let config = evaluate data_text in
      some (
        record { config = some config; old_config = self.config },
        record { new_config = config; before = none },
      )

  -- The listener of `fs.watch`: whether the file is read again, by the field `automaticConfigReload`,
  -- which counts as on unless it is false. Before the first reading it throws.
  unfoldable pub file_event : (C → Option Bool) → Text → Configurator C → Outcome Bool
  file_event reload event self =
      if eqb event (codes "change")
      then elim self.config [
        | none ↦ fault type_error
        | some config ↦ elim (reload config) [ none ↦ done true | some on ↦ done on ]
      ]
      else done false

-- `set_title`: the title, where it is set.
unfoldable pub set_title : Option Text → List Text → Option Text
unfolding join
set_title (some title) argv = if is_empty title then none else some title
set_title none argv = some (join (codes " ") (codes "statsd" ∷ drop 2 argv))

-- The listener of SIGTERM: it logs, sets a global `healthStatus` that the program does not read, and
-- exits.
unfoldable pub on_sigterm : Bool → List Action
on_sigterm debug =
    (if debug then log (codes "Starting Final Flush") [] ∷ [] else []) ++ (exit 0 ∷ [])

-- Where a server listens: a port or the path of a socket, and an address that may be missing.
pub data Place : Type 0 where
  port : ℕ → Place
  path : Text → Place

pub record Listening : Type 0 where
  pub place : Place
  pub address : Option Text

-- `port || d` of a port that may be missing
unfoldable pub port_or : Option ℕ → ℕ → ℕ
port_or none d = d
port_or (some n) d = if n == 0 then d else n

-- `address || undefined`
unfoldable pub given : Option Text → Option Text
given none = none
given (some address) = if is_empty address then none else some address

-- The fields that a server reads of the configuration.
pub record ServerConfig : Type 0 where
  pub address : Option Text
  pub address_ipv6 : Bool
  pub port : Option ℕ
  pub socket : Option Text
  pub socket_mod : Option Text
  pub mgmt_port : Option ℕ
  pub mgmt_address : Option Text

-- servers/udp.js, `start`: the kind of the socket, and where it is bound.
unfoldable pub start_udp : ServerConfig → Text × Listening
unfolding port_or given
start_udp config = (
  if config.address_ipv6 then codes "udp6" else codes "udp4",
  record { place = port (port_or config.port 8125); address = given config.address },
)

-- servers/tcp.js, `start`: `listen`
unfoldable pub start_tcp : ServerConfig → Listening
unfolding port_or given
start_tcp config = record {
  place = elim (given config.socket) [
    | none ↦ port (port_or config.port 8125)
    | some socket ↦ path socket
  ];
  address = given config.address;
}

-- The listener of `listening`: the socket and the mode that it is given.
unfoldable pub on_listening : ServerConfig → Option (Text × Text)
unfolding given
on_listening config = elim (given config.socket) [
  | none ↦ none
  | some socket ↦ elim (given config.socket_mod) [ none ↦ none | some mode ↦ some (socket, mode) ]
]

-- The listener of `exit`: the socket that is removed.
unfoldable pub on_exit : ServerConfig → Option Text
unfolding given
on_exit config = given config.socket

-- lib/mgmt_server.js, `start`: `listen`
unfoldable pub start_mgmt : ServerConfig → Listening
unfolding port_or given
start_mgmt config = record {
  place = port (port_or config.mgmt_port 8126);
  address = given config.mgmt_address;
}
