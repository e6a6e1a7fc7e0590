-- ===== src/Repeater.antt =====
-- backends/repeater.js: each packet goes on to other daemons, by UDP or over pooled TCP connections.
-- The socket and the pools are not part of the program: what is modelled is what they are asked for.
pub mod Relay
use statsd.Base.{
  ℕ, Bool, true, false, ◌&&◌, List, [], ◌∷◌, ◌++◌, Option, none, some, map, if◌then◌else◌,
}
use statsd.Js.Bytes.{encode_utf8}
use statsd.Js.Text.{Text, codes, eqb}

-- An entry of `config.repeater`; the port as it prints.
pub record Target : Type 0 where
  pub host : Text
  pub port : Text

-- The fields of the configuration that the backend reads.
pub record RepeaterConfig : Type 0 where
  pub repeater : Option (List Target)
  pub repeater_protocol : Option Text
  pub debug : Bool

-- The options that a pool is made with: its name, where its connections go, and how many there are.
pub record Pool : Type 0 where
  pub name : Text
  pub server : Target
  pub max : ℕ

-- `instance`: a socket of a kind and the targets, or the pools.
pub data Backend : Type 0 where
  udp : Bool → List Target → Backend
  tcp : List Pool → Backend

-- `config.repeater || []`
unfoldable pub targets_of : Option (List Target) → List Target
targets_of none = []
targets_of (some targets) = targets

-- The test `config.repeaterProtocol == p`.
unfoldable pub is_protocol : Option Text → Text → Bool
is_protocol none p = false
is_protocol (some q) p = eqb q p

unfoldable pub create_pool : Target → Pool
create_pool server = record {
  name = server.host ++ (codes ":" ++ server.port);
  server = server;
  max = 5;
}

-- `init`
unfoldable pub init : RepeaterConfig → Backend
unfolding targets_of is_protocol create_pool
init config =
    if is_protocol config.repeater_protocol (codes "tcp")
    then tcp (map create_pool (targets_of config.repeater))
    else udp (is_protocol config.repeater_protocol (codes "udp6")) (targets_of config.repeater)

-- What `acquire` calls back with: an error, or a client.
pub data Acquired (C : Type 0) : Type 0 where
  refused : Text → Acquired C
  client : C → Acquired C

-- What the backend does with the socket, a client, a pool or the log.
pub data Action (C : Type 0) : Type 0 where
  send : Text → Target → Action C
  write : C → List ℕ → Action C
  release : Pool → C → Action C
  log : Text → Action C
  drain : Pool → Action C
  destroy_all : Pool → Action C
  close : Action C
  called_back : Action C

module _ {C : Type 0} where
  -- `logerror`, with an error
  unfoldable pub logerror : Bool → Text → List (Action C)
  logerror debug err = if debug then log err ∷ [] else []

  -- `UDPRepeaterBackend.prototype.process`
  unfoldable pub send_all : Text → List Target → List (Action C)
  send_all packet [] = []
  send_all packet (host ∷ hosts) = send packet host ∷ send_all packet hosts

  -- The callback of `acquire`, and that of `write` behind it.
  unfoldable pub send_on : Bool → List ℕ → Pool → Acquired C → List (Action C)
  unfolding logerror
  send_on debug buf pool (refused err) = logerror debug err
  send_on debug buf pool (client c) = write c buf ∷ release pool c ∷ []

  -- `TCPRepeaterBackend.prototype.process`, where each pool gives what `acquire` tells.
  unfoldable pub write_all : Bool → (Pool → Acquired C) → Text → List Pool → List (Action C)
  unfolding send_on encode_utf8
  write_all debug acquire packet [] = []
  write_all debug acquire packet (pool ∷ pools) =
      send_on debug (encode_utf8 (packet ++ codes "\n")) pool (acquire pool)
      ++ write_all debug acquire packet pools

  -- The listener of `packet`.
  unfoldable pub process : Bool → (Pool → Acquired C) → Text → Backend → List (Action C)
  unfolding send_all write_all
  process debug acquire packet (udp udp6 hosts) = send_all packet hosts
  process debug acquire packet (tcp pools) = write_all debug acquire packet pools

  -- `drain_pool`, on the pools from `i` on: each is drained and emptied before the next.
  unfoldable pub drain_pools : List Pool → List (Action C)
  drain_pools [] = called_back ∷ []
  drain_pools (pool ∷ pools) = drain pool ∷ destroy_all pool ∷ drain_pools pools

  -- `stop`, which forgets the instance.
  unfoldable pub stop : Option Backend → List (Action C) × Option Backend
  unfolding drain_pools
  stop none = ([], none)
  stop (some (udp udp6 hosts)) = (close ∷ called_back ∷ [], none)
  stop (some (tcp pools)) = (drain_pools pools, none)

  -- What the actions write to clients, in their order, as bytes.
  abbrev pub written : List (Action C) → List (List ℕ)
  written [] = []
  written (write c bytes ∷ actions) = bytes ∷ written actions
  written (send packet target ∷ actions) = written actions
  written (release pool c ∷ actions) = written actions
  written (log text ∷ actions) = written actions
  written (drain pool ∷ actions) = written actions
  written (destroy_all pool ∷ actions) = written actions
  written (close ∷ actions) = written actions
  written (called_back ∷ actions) = written actions
