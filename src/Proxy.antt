-- ===== src/Proxy.antt =====
-- proxy.js: the proxy that spreads metrics over several daemons, and the state of its nodes.
pub mod Ring
pub mod Nodes
pub mod Routing
pub mod Workers
pub mod Health
pub mod Cluster
pub mod Service
use statsd.Base.{
  ℕ, suc, Bool, true, false, List, [], ◌∷◌, ◌++◌, Option, none, some, if◌then◌else◌, ltb,
}
use statsd.Js.Object.{Object, lookup, put}
use statsd.Js.Text.{Text, codes, includes, split, is_empty}
use Ring.{Hashring}

-- An entry of `config.nodes`; the port as it prints.
pub record Node : Type 0 where
  pub host : Text
  pub port : Text

-- `node.host + ':' + node.port`
unfoldable pub node_id : Node → Text
node_id node = node.host ++ (b':' ∷ node.port)

-- `node_status` and `ring`. (A node's name has a colon, so it is no name of `Object.prototype`.)
pub record Proxy {ℓ} (R : Type ℓ) : Type ℓ where
  pub node_status : Object ℕ
  pub ring : R

-- `node_ring`, with its weights
unfoldable pub node_ring_of : List Node → Object ℕ → Object ℕ
unfolding node_id put
node_ring_of [] node_ring = node_ring
node_ring_of (node ∷ nodes) node_ring = node_ring_of nodes (put (node_id node) 100 node_ring)

-- One more failure in a row.
unfoldable pub failures : Option ℕ → ℕ
failures none = 1
failures (some n) = suc n

-- What happens on the socket of a health check.
pub data CheckEvent : Type 0 where
  timed_out : CheckEvent
  answered : Text → CheckEvent
  failed : CheckEvent

module _ {ℓ} {R : Type ℓ} (h : Hashring R) where
  -- The variables of the proxy before the first health check.
  unfoldable pub start : List Node → Proxy R
  unfolding node_ring_of
  start nodes = record { node_status = []; ring = h.of_servers (node_ring_of nodes []) }

  -- A node that had failed comes back to the ring.
  unfoldable pub restored : Option ℕ → Text → R → R
  restored none id ring = ring
  restored (some n) id ring = if ltb 0 n then h.add ring id else ring

  unfoldable pub mark_node_as_healthy : Text → Proxy R → Proxy R
  unfolding restored lookup put
  mark_node_as_healthy id p = record {
    node_status = put id 0 p.node_status;
    ring = restored (lookup id p.node_status) id p.ring;
  }

  unfoldable pub mark_node_as_unhealthy : Text → Proxy R → Proxy R
  unfolding failures lookup put
  mark_node_as_unhealthy id p =
      let count = failures (lookup id p.node_status) in
      record {
        node_status = put id count p.node_status;
        ring = if ltb count 2 then h.remove p.ring id else p.ring;
      }

  -- what the answer decides
  unfoldable pub heard : Bool → Text → Proxy R → Proxy R
  unfolding mark_node_as_unhealthy mark_node_as_healthy
  heard true id p = mark_node_as_healthy id p
  heard false id p = mark_node_as_unhealthy id p

  -- A listener of the socket: `ended` before and after, and the proxy.
  unfoldable pub check_event : Text → CheckEvent → Bool × Proxy R → Bool × Proxy R
  unfolding mark_node_as_unhealthy heard includes
  check_event id timed_out (ended, p) = (true, mark_node_as_unhealthy id p)
  check_event id (answered answer) (true, p) = (true, p)
  check_event id (answered answer) (false, p) = (true, heard (includes (codes "up") answer) id p)
  check_event id failed (true, p) = (true, p)
  check_event id failed (false, p) = (false, mark_node_as_unhealthy id p)

  -- `healthcheck`: what its socket's events do, in their order.
  unfoldable pub healthcheck : Text → List CheckEvent → Bool × Proxy R → Bool × Proxy R
  unfolding check_event
  healthcheck id [] s = s
  healthcheck id (e ∷ events) s = healthcheck id events (check_event id e s)
