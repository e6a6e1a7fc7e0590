-- ===== src/Proxy/Cluster.antt =====
-- proxy.js: the master of a cluster, and the processes that it forks.
pub mod Processes
use statsd.Base.{
  ℕ, zero, suc, ◌⊎◌, ◌*◌, ◌+◌, ◌-◌, ◌≤◌, ◌≡◌, refl, ap, subst, sym, ◌∙◌, Bool, true, false, ◌||◌,
  List, [], ◌∷◌, ◌++◌, ◌==◌, if◌then◌else◌, ltb, All, length, length-append, arith, Bool-cases, inl,
  inr,
}
use statsd.Js.Text.{Text, codes}
use statsd.Proxy.Workers.{Worker, broadcast, remove_worker, without, AreDistinct, remove_worker_lem}

-- `config.forkCount`
pub data ForkCount : Type 0 where
  absent auto : ForkCount
  number : ℕ → ForkCount

-- `forkCount`, with the number of processors
unfoldable pub fork_count : ForkCount → ℕ → ℕ
fork_count absent cpus = 0
fork_count auto cpus = cpus
fork_count (number n) cpus = n

-- Whether a process is the master of a cluster: then it forks, and does nothing else.
unfoldable pub is_master : ℕ → Bool → Bool
is_master forks first = if ltb 1 forks then first else false

-- The master's `workers`, how many processes it has forked that are not online yet, and how often the
-- callback has run: each run attaches one more listener of `online` and one of `exit`.
pub record Cluster : Type 0 where
  pub workers : List Worker
  pub starting : ℕ
  pub listeners : ℕ

-- The first run, with the loop that forks.
unfoldable pub launch : ℕ → Cluster
launch forks = record { workers = []; starting = forks; listeners = 1 }

-- The callback when the file has changed. Where the file asks for a cluster, the master forks again and
-- attaches listeners again; else it goes on to serve itself, and its processes stay.
unfoldable pub relaunch : ℕ → Cluster → Cluster
relaunch forks c =
    if ltb 1 forks
    then record { workers = c.workers; starting = c.starting + forks; listeners = c.listeners + 1 }
    else c

-- How many processes the callback forks then.
unfoldable pub forked_again : ℕ → ℕ
forked_again forks = if ltb 1 forks then forks else 0

-- Each listener of `online` lists the process.
unfoldable pub push_each : ℕ → Worker → List Worker → List Worker
push_each zero w workers = workers
push_each (suc n) w workers = push_each n w (workers ++ (w ∷ []))

-- A new process is online; it has the status "up".
unfoldable pub on_online : ℕ → Cluster → Cluster
unfolding push_each
on_online pid c = record c {
  workers = push_each c.listeners (record { pid = pid; health_status = codes "up" }) c.workers;
  starting = c.starting - 1;
}

-- Each listener of `exit` takes the process out.
unfoldable pub remove_each : ℕ → ℕ → List Worker → List Worker
unfolding remove_worker
remove_each zero pid workers = workers
remove_each (suc n) pid workers = remove_each n pid (remove_worker pid workers)

-- A process dies: each listener takes it out, and forks another one.
unfoldable pub on_exit : ℕ → Cluster → Cluster
unfolding remove_each
on_exit pid c = record c {
  workers = remove_each c.listeners pid c.workers;
  starting = c.starting + c.listeners;
}

-- The listener of `message`.
unfoldable pub on_message : Text → Cluster → Cluster
unfolding broadcast
on_message status c = record c { workers = broadcast status c.workers }

-- Some worker has a process id.
abbrev pub has_pid : ℕ → List Worker → Bool
has_pid pid [] = false
has_pid pid (w ∷ workers) = w.pid == pid || has_pid pid workers

-- What a cluster goes through, with the number of its processes: a forked process is online, under a
-- process id that no worker has; a worker dies, or a process that was not online yet (the loop then finds
-- no worker); a process tells the master a status; the file changes.
pub data Run (forks : ℕ) : ℕ → Cluster → Type 0 where
  launched : 2 ≤ forks → Run forks forks (launch forks)
  online :
      {n : ℕ} {c : Cluster} (pid : ℕ)
      → Run forks n c
      → 1 ≤ c.starting
      → has_pid pid c.workers ≡ false
      → Run forks n (on_online pid c)
  died :
      {n : ℕ} {c : Cluster} (pid : ℕ)
      → Run forks n c
      → has_pid pid c.workers ≡ true
      → Run forks (n - 1 + c.listeners) (on_exit pid c)
  died_early :
      {n : ℕ} {c : Cluster} (pid : ℕ)
      → Run forks n c
      → 1 ≤ c.starting
      → has_pid pid c.workers ≡ false
      → Run forks (n - 1 + c.listeners) (on_exit pid (record c { starting = c.starting - 1 }))
  told : {n : ℕ} {c : Cluster} (status : Text) → Run forks n c → Run forks n (on_message status c)
  changed :
      {n : ℕ} {c : Cluster} (now : ℕ)
      → Run forks n c
      → Run forks (n + forked_again now) (relaunch now c)
