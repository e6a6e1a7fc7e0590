-- ===== src/Proxy/Workers.antt =====
-- proxy.js: the management commands, and the processes of a cluster.
use statsd.Base.{
  ℕ, ◌≡◌, refl, Bool, true, false, ◌||◌, List, [], ◌∷◌, ◌++◌, Option, none, some, ◌==◌,
  if◌then◌else◌, ltb, All, arith,
}
use statsd.Js.Text.{lower_case, Text, codes, eqb, is_empty}

-- What a command leaves of `healthStatus`, the status it tells the other processes, what it writes,
-- and whether it ends the stream; or that `process.send` is no function.
pub data Managed : Type 0 where
  managed : Text → Option Text → List Text → Bool → Managed
  no_channel : Managed

abbrev pub health_line : Text → Text
health_line status = codes "health: " ++ status ++ codes "\n"

-- A new status. A process has a channel to its master only if it was forked.
unfoldable pub set_health : ℕ → Text → Managed
set_health fork_count status =
    if ltb 0 fork_count
    then if ltb 1 fork_count
      then managed status (some status) (health_line status ∷ []) false
      else no_channel
    else managed status none (health_line status ∷ []) false

-- The command `health`.
unfoldable pub health_command : ℕ → List Text → Text → Managed
unfolding lower_case set_health
health_command fork_count [] health_status =
    managed health_status none (health_line health_status ∷ []) false
health_command fork_count (parameter ∷ more) health_status =
    let cmdaction = lower_case parameter in
    if eqb cmdaction (codes "up")
    then set_health fork_count (codes "up")
    else if eqb cmdaction (codes "down")
    then set_health fork_count (codes "down")
    else managed health_status none (health_line health_status ∷ []) false

-- `nodes: `, the names of the servers, and a newline
unfoldable pub node_texts : List Text → List Text
node_texts [] = codes "\n" ∷ []
node_texts (server ∷ servers) = (server ++ codes " ") ∷ node_texts servers

-- The callback of the management server, with what `writeConfig` writes, the uptime as it prints, and
-- the servers of the ring.
unfoldable pub manage : ℕ → List Text → Text → List Text → Text → List Text → Text → Managed
unfolding health_command node_texts
manage fork_count config uptime servers cmd parameters health_status =
    let same = λ (written : List Text). managed health_status none written false in
    if eqb cmd (codes "help")
    then same (codes "Commands: config, health, status, quit\n\n" ∷ [])
    else if eqb cmd (codes "config")
    then same config
    else if eqb cmd (codes "health")
    then health_command fork_count parameters health_status
    else if eqb cmd (codes "status")
    then same ((codes "uptime: " ++ uptime ++ codes "\n") ∷ codes "nodes: " ∷ node_texts servers)
    else if eqb cmd (codes "quit")
    then managed health_status none [] true
    else same (codes "ERROR\n" ∷ [])

-- A forked process, by its process id.
pub record Worker : Type 0 where
  pub pid : ℕ
  pub health_status : Text

-- The listener of `message` in a worker: a status that is not empty is taken over.
unfoldable pub take_over : Text → Text → Text
take_over status health_status = if is_empty status then health_status else status

-- `broadcastMsg`: each worker gets the message.
unfoldable pub broadcast : Text → List Worker → List Worker
unfolding take_over
broadcast status [] = []
broadcast status (w ∷ workers) =
    record { pid = w.pid; health_status = take_over status w.health_status }
    ∷ broadcast status workers

-- The loop that splices a worker out; it goes on behind the one that has moved up.
unfoldable pub remove_worker : ℕ → List Worker → List Worker
remove_worker pid [] = []
remove_worker pid (w ∷ []) = if w.pid == pid then [] else w ∷ []
remove_worker pid (w ∷ v ∷ workers) =
    let behind = remove_worker pid workers in
    let rest = remove_worker pid (v ∷ workers) in if w.pid == pid then v ∷ behind else w ∷ rest

abbrev pub without : ℕ → List Worker → List Worker
without pid [] = []
without pid (w ∷ workers) =
    let rest = without pid workers in if w.pid == pid then rest else w ∷ rest

-- No two workers have the same process id.
abbrev pub AreDistinct : List Worker → Type 0
AreDistinct [] = Unit
AreDistinct (w ∷ workers) = All (λ v. (v.pid == w.pid) ≡ false) workers × AreDistinct workers

without_none :
    (pid : ℕ) (w : Worker) (workers : List Worker)
    → (w.pid == pid) ≡ true
    → All (λ v. (v.pid == w.pid) ≡ false) workers
    → without pid workers ≡ workers
without_none pid w [] e h = refl
without_none pid w (v ∷ workers) e (n, h) = ground (arith, without_none pid w workers e h)

-- If no two workers have the same process id, the loop takes out the one that died, and no other.
pub remove_worker_lem :
    (pid : ℕ) (workers : List Worker)
    → AreDistinct workers
    → remove_worker pid workers ≡ without pid workers
unfolding remove_worker
remove_worker_lem pid [] d = refl
remove_worker_lem pid (w ∷ []) d = ground arith
remove_worker_lem pid (w ∷ v ∷ workers) ((n, h), (k, d)) = ground (
  arith,
  remove_worker_lem pid workers d,
  remove_worker_lem pid (v ∷ workers) (k, d),
  without_none pid w workers _ h,
)

-- A status of a node.
abbrev pub is_status : Text → Bool
is_status s = eqb s (codes "up") || eqb s (codes "down")
