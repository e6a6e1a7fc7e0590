-- ===== src/Proxy/Health.antt =====
-- proxy.js: the status of the processes of a cluster, by the management commands.
use statsd.Base.{
  ℕ, ◌≤◌, ◌≡◌, refl, sym, subst, true, false, ◌&&◌, List, [], ◌∷◌, Option, none, some, ◌==◌,
  if◌then◌else◌, ltb, All, arith, Bool-cases, inl, inr,
}
use statsd.Js.Text.{lower_case, Text, codes, eqb, eqb_iff, is_empty}
use statsd.Proxy.Workers.{
  Managed, managed, no_channel, set_health, health_command, manage, Worker, broadcast, is_status,
}

-- A process takes over a status.
unfoldable pub set_status : ℕ → Text → List Worker → List Worker
set_status pid status [] = []
set_status pid status (w ∷ workers) =
    let rest = set_status pid status workers in
    if w.pid == pid then record w { health_status = status } ∷ rest else w ∷ rest

-- What a process tells the master goes on to all processes.
unfoldable pub tell : Option Text → List Worker → List Worker
unfolding broadcast
tell none workers = workers
tell (some status) workers = broadcast status workers

-- What a command at a process leaves: a new status there, and what the others are told.
unfoldable pub after_command : ℕ → Managed → List Worker → Option (List Worker)
unfolding set_status tell
after_command pid no_channel workers = none
after_command pid (managed status told written ended) workers =
    some (tell told (set_status pid status workers))

-- The status that a command asks for: `health` with `up` or `down`, in letters of either case.
abbrev pub asked : Text → List Text → Text → Text
asked cmd [] before = before
asked cmd (parameter ∷ more) before =
    if eqb cmd (codes "health") && is_status (lower_case parameter)
    then lower_case parameter
    else before

abbrev pub HaveStatus : Text → List Worker → Type 0
HaveStatus status = All λ (w : Worker). w.health_status ≡ status

set_status-same :
    (pid : ℕ) (x : Text) (workers : List Worker)
    → HaveStatus x workers
    → HaveStatus x (set_status pid x workers)
unfolding set_status
set_status-same pid x [] h = tt
set_status-same pid x (w ∷ workers) (e, h) = elim (Bool-cases (w.pid == pid)) [
  | inl k ↦ rw k (refl, set_status-same pid x workers h)
  | inr k ↦ rw k (e, set_status-same pid x workers h)
]

broadcast-all :
    (x : Text) (workers : List Worker) → is_empty x ≡ false → HaveStatus x (broadcast x workers)
unfolding broadcast
broadcast-all x [] h = tt
broadcast-all x (w ∷ workers) h = (rw h refl, broadcast-all x workers h)

-- A command that leaves the status, or sets the one that is asked for and tells it.
abbrev IsAnswer : Text → Text → Managed → Type 0
IsAnswer before new no_channel = ⊥
IsAnswer before new (managed status none written ended) = (status ≡ new) × (before ≡ new)
IsAnswer before new (managed status (some told) written ended) =
    (status ≡ new) × (told ≡ new) × (is_empty new ≡ false)

IsAnswer-set_health :
    (forks : ℕ) (before new : Text)
    → 2 ≤ forks
    → is_empty new ≡ false
    → IsAnswer before new (set_health forks new)
unfolding set_health
IsAnswer-set_health forks before new many h =
    let some_forks : ltb 0 forks ≡ true = ground (arith, many) in
    let more_forks : ltb 1 forks ≡ true = ground (arith, many) in
    rw (some_forks, more_forks) (refl, refl, h)

IsAnswer-health_command :
    (forks : ℕ) (parameters : List Text) (before : Text)
    → 2 ≤ forks
    → IsAnswer before
        (asked (codes "health") parameters before)
        (health_command forks parameters before)
unfolding health_command
IsAnswer-health_command forks [] before many = (refl, refl)
IsAnswer-health_command forks (p ∷ ps) before many =
    elim (Bool-cases (eqb (lower_case p) (codes "up"))) [
      | inl e ↦
          let up : lower_case p ≡ codes "up" = (eqb_iff (lower_case p) (codes "up")).0 e in
          rw up (IsAnswer-set_health forks before (codes "up") many refl)
      | inr e ↦ rw e (elim (Bool-cases (eqb (lower_case p) (codes "down"))) [
        | inl f ↦
            let down : lower_case p ≡ codes "down" = (eqb_iff (lower_case p) (codes "down")).0 f in
            rw down (IsAnswer-set_health forks before (codes "down") many refl)
        | inr f ↦ rw f (refl, refl)
      ])
    ]

asked-other :
    (cmd : Text) (parameters : List Text) (before : Text)
    → eqb cmd (codes "health") ≡ false
    → before ≡ asked cmd parameters before
asked-other cmd [] before h = refl
asked-other cmd (p ∷ ps) before h = rw h refl

IsAnswer-manage :
    (forks : ℕ) (config servers : List Text) (uptime cmd : Text) (parameters : List Text)
    (before : Text)
    → 2 ≤ forks
    → IsAnswer before
        (asked cmd parameters before)
        (manage forks config uptime servers cmd parameters before)
unfolding manage
IsAnswer-manage forks config servers uptime cmd parameters before many =
    elim (Bool-cases (eqb cmd (codes "health"))) [
      | inl e ↦
          subst
            (λ (d : Text).
              IsAnswer before (asked d parameters before)
                (manage forks config uptime servers d parameters before))
            (sym ((eqb_iff cmd (codes "health")).0 e))
            (IsAnswer-health_command forks parameters before many)
      | inr e ↦
          let kept = asked-other cmd parameters before e in
          elim (Bool-cases (eqb cmd (codes "help"))) [
            | inl f ↦ rw f (kept, kept)
            | inr f ↦
                rw (f, e)
                  (elim (Bool-cases (eqb cmd (codes "config"))) [
                    | inl g ↦ rw g (kept, kept)
                    | inr g ↦ rw g (elim (Bool-cases (eqb cmd (codes "status"))) [
                      | inl k ↦ rw k (kept, kept)
                      | inr k ↦ rw k (elim (Bool-cases (eqb cmd (codes "quit"))) [
                        | inl l ↦ rw l (kept, kept)
                        | inr l ↦ rw l (kept, kept)
                      ])
                    ])
                  ])
          ]
    ]

IsAnswer-HaveStatus :
    (pid : ℕ) (before new : Text) (m : Managed) (workers : List Worker)
    → IsAnswer before new m
    → HaveStatus before workers
    → (after : List Worker) × (after_command pid m workers ≡ some after) × HaveStatus new after
unfolding after_command tell
IsAnswer-HaveStatus pid before new no_channel workers a h = absurd a
IsAnswer-HaveStatus pid before new (managed status none written ended) workers (e, f) h = (
  set_status pid status workers,
  refl,
  subst (λ y. HaveStatus new (set_status pid y workers)) (sym e)
      (set_status-same pid new workers (subst (λ y. HaveStatus y workers) f h)),
)
IsAnswer-HaveStatus pid before new (managed status (some told) written ended) workers (e, f, k) h =
    (
      broadcast told (set_status pid status workers),
      refl,
      subst (λ y. HaveStatus new (broadcast y (set_status pid status workers))) (sym f)
          (broadcast-all new (set_status pid status workers) k),
    )

-- In a cluster whose processes have one status, a management command of any name and with any words, at
-- any of them, leaves all of them with one status: the one that was asked for, if the command is `health`
-- with `up` or `down`, and the one from before otherwise; and the process does not throw.
pub after_command_lem :
    (fork_count pid : ℕ) (config servers : List Text) (uptime cmd : Text) (parameters : List Text)
    (before : Text) (workers : List Worker)
    → 2 ≤ fork_count
    → HaveStatus before workers
    → (after : List Worker) × (after_command pid
          (manage fork_count config uptime servers cmd parameters before)
          workers
        ≡ some after)
      × HaveStatus (asked cmd parameters before) after
after_command_lem forks pid config servers uptime cmd parameters before workers many h =
    IsAnswer-HaveStatus pid before (asked cmd parameters before)
      (manage forks config uptime servers cmd parameters before) workers
      (IsAnswer-manage forks config servers uptime cmd parameters before many) h
