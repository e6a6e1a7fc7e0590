-- ===== src/Proxy/Cluster/Processes.antt =====
-- proxy.js: how many processes the master of a cluster has, and under which process ids.
use statsd.Base.{ℕ, ◌*◌, ◌+◌, ◌-◌, ◌≤◌, ◌≡◌, ◌||◌, List, [], ◌∷◌, ◌++◌, ◌==◌, length, arith}
use statsd.Js.Text.{Text}
use statsd.Proxy.Workers.{Worker, AreDistinct}
use statsd.Proxy.Cluster.{Cluster, has_pid}

-- what the listeners do to the process ids
has_pid-append :
    (pid : ℕ) (workers : List Worker) (w : Worker)
    → has_pid pid (workers ++ (w ∷ [])) ≡ (has_pid pid workers || w.pid == pid)
has_pid-append pid [] w = ground arith
has_pid-append pid (v ∷ workers) w = ground (arith, has_pid-append pid workers w)

-- What a cluster is like before its file has asked for a cluster again, and after.
abbrev pub IsExact : ℕ → ℕ → Cluster → Type 0
IsExact forks n c =
    (c.listeners ≡ 1)
    × (n ≡ forks)
    × (c.starting + length c.workers ≡ forks)
    × AreDistinct c.workers

abbrev pub IsGrown : ℕ → ℕ → Cluster → Type 0
IsGrown forks n c = (2 ≤ c.listeners) × (forks + 2 * (c.listeners - 1) ≤ n)
