-- ===== src/Proxy/Service.antt =====
-- proxy.js as a whole, in a process that is no master: metrics, the checks of all nodes, whose sockets
-- report in any order, management commands, messages of the master, and changes of the file.
pub mod Current
pub mod Routes
use statsd.Base.{ℕ, zero, suc, ◌≡◌, Bool, true, false, List, [], ◌∷◌, ◌++◌, Option, if◌then◌else◌}
use statsd.Js.Object.{Object}
use statsd.Js.Text.{Text, codes}
use statsd.Proxy.{Node, Proxy, node_id, node_ring_of, start, CheckEvent, check_event}
use statsd.Proxy.Cluster.{is_master}
use statsd.Proxy.Ring.{Hashring}
use statsd.Proxy.Workers.{manage, managed, take_over}

-- The variables of a run of `healthcheck`.
pub record Check : Type 0 where
  pub id : Text
  pub ended : Bool

-- The state that the listeners share. The file's nodes, as the first run of the callback read them, are
-- an argument below; what `writeConfig` makes of `config` is a list of texts.
pub record Service {ℓ} (R : Type ℓ) : Type ℓ where
  pub proxy : Proxy R
  pub checks : List Check
  pub node_ring : Object ℕ
  pub config : List Text
  pub health_status : Text

-- `doHealthChecks`
unfoldable pub do_health_checks : List Node → List Check
unfolding node_id
do_health_checks [] = []
do_health_checks (node ∷ nodes) =
    record { id = node_id node; ended = false } ∷ do_health_checks nodes

module _ {ℓ} {R : Type ℓ} (h : Hashring R) where
  abbrev pub with_ended : Text → List Check → Bool × Proxy R → List Check × Proxy R
  with_ended id checks (ended, p) = (record { id = id; ended = ended } ∷ checks, p)

  -- The socket of check number `i` reports.
  unfoldable pub on_check : ℕ → CheckEvent → List Check → Proxy R → List Check × Proxy R
  unfolding check_event
  on_check i e [] p = ([], p)
  on_check zero e (c ∷ checks) p = with_ended c.id checks (check_event h c.id e (c.ended, p))
  on_check (suc i) e (c ∷ checks) p = let rest = on_check i e checks p in (c ∷ rest.0, rest.1)

  -- The first run of the callback, up to the first round of checks.
  unfoldable pub serve : List Node → List Text → Service R
  unfolding node_ring_of start do_health_checks
  serve nodes config = record {
    proxy = start h nodes;
    checks = do_health_checks nodes;
    node_ring = node_ring_of nodes [];
    config = config;
    health_status = codes "up";
  }

  -- The timer of the checks.
  unfoldable pub checks_due : List Node → Service R → Service R
  unfolding do_health_checks
  checks_due nodes s = record s { checks = s.checks ++ do_health_checks nodes }

  unfoldable pub check_reported : ℕ → CheckEvent → Service R → Service R
  unfolding on_check
  check_reported i e s =
      let after = on_check i e s.checks s.proxy in record s { checks = after.0; proxy = after.1 }

  -- The callback when the file has changed: `config` and `node_ring` are the module's; the ring that is
  -- made of it, like the list of nodes, is that run's own, and no listener that is there reads it. A
  -- process that becomes a master forks, and does not come to the nodes.
  unfoldable pub file_changed : ℕ → Bool → List Node → List Text → Service R → Service R
  unfolding is_master node_ring_of
  file_changed forks first nodes config s =
      let changed = record s { config = config } in
      if is_master forks first
      then changed
      else record changed { node_ring = node_ring_of nodes s.node_ring }

  -- One run of a listener or a timer, where the file had `nodes` and asked for `fork_count` processes
  -- when the process started. A command that throws ends the process.
  pub data Step (nodes : List Node) (fork_count : ℕ) : Service R → Service R → Type ℓ where
    due : {s : Service R} → Step nodes fork_count s (checks_due nodes s)
    reported :
        {s : Service R} (i : ℕ) (e : CheckEvent) → Step nodes fork_count s (check_reported i e s)
    commanded :
        {s : Service R} {status : Text} {told : Option Text} {written : List Text} {ended : Bool}
        (uptime cmd : Text) (parameters : List Text)
        → manage fork_count s.config uptime (h.servers s.proxy.ring) cmd parameters s.health_status
          ≡ managed status told written ended
        → Step nodes fork_count s (record s { health_status = status })
    told :
        {s : Service R} (status : Text)
        → Step nodes fork_count s (record s { health_status = take_over status s.health_status })
    changed :
        {s : Service R} (forks : ℕ) (first : Bool) (now : List Node) (config : List Text)
        → Step nodes fork_count s (file_changed forks first now config s)

  -- The states that a process comes to.
  pub data Reach (nodes : List Node) (fork_count : ℕ) : Service R → Type ℓ where
    served : (config : List Text) → Reach nodes fork_count (serve nodes config)
    stepped :
        {s t : Service R}
        → Reach nodes fork_count s
        → Step nodes fork_count s t
        → Reach nodes fork_count t
