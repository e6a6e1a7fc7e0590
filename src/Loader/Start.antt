-- ===== src/Loader/Start.antt =====
-- Which servers and backends are started.
use statsd.Base.{
  ◌≡◌, refl, ap, ap₂, append-nil, ◌∙◌, Bool, true, false, not, ◌&&◌, List, [], ◌∷◌, ◌++◌, Option,
  if◌then◌else◌, arith, Bool-cases, inl, inr,
}
use statsd.Js.Text.{Text, codes}
use statsd.Loader.{
  Action, log, call, exit, load, load_backend, start_server, load_each, load_all, ServerEntry,
  server_entries, backend_entries,
}

-- The modules that are called, in their order.
abbrev pub calls : List Action → List Text
calls [] = []
calls (call name ∷ actions) = name ∷ calls actions
calls (log text kind ∷ actions) = calls actions
calls (exit n ∷ actions) = calls actions

-- The names up to the first that does not start, that one too.
abbrev pub up_to_failure : (Text → Bool) → List (Bool × Text) → List Text
up_to_failure starts [] = []
up_to_failure starts ((debug, name) ∷ names) =
    if starts name then name ∷ up_to_failure starts names else name ∷ []

abbrev pub all_start : (Text → Bool) → List (Bool × Text) → Bool
all_start starts [] = true
all_start starts ((debug, name) ∷ names) = starts name && all_start starts names

-- The last action ends the program.
abbrev pub exits : List Action → Bool
exits [] = false
exits (exit n ∷ []) = true
exits (log text kind ∷ []) = false
exits (call name ∷ []) = false
exits (a ∷ b ∷ actions) = exits (b ∷ actions)

calls-append : (xs ys : List Action) → calls (xs ++ ys) ≡ calls xs ++ calls ys
calls-append [] ys = refl
calls-append (call name ∷ xs) ys = ap (◌∷◌ name) (calls-append xs ys)
calls-append (log text kind ∷ xs) ys = calls-append xs ys
calls-append (exit n ∷ xs) ys = calls-append xs ys

exits-append : (xs ys : List Action) (a : Action) → exits (xs ++ (a ∷ ys)) ≡ exits (a ∷ ys)
exits-append [] ys a = refl
exits-append (x ∷ []) ys a = refl
exits-append (x ∷ y ∷ xs) ys a = exits-append (y ∷ xs) ys a

exits_call : (name : Text) (xs : List Action) → exits (call name ∷ xs) ≡ exits xs
exits_call name [] = refl
exits_call name (x ∷ xs) = refl

module _ (loading failed : Text) (starts : Text → Bool) where
  -- What a loop over names does.
  abbrev IsLoaded : List (Bool × Text) → List Action × Bool → Type 0
  IsLoaded names (actions, on) =
      (calls actions ≡ up_to_failure starts names)
      × (on ≡ all_start starts names)
      × (exits actions ≡ not on)

  load_each_lem :
      (names : List (Bool × Text)) → IsLoaded names (load_each (load loading failed starts) names)
  unfolding load_each load
  load_each_lem [] = (refl, refl, refl)
  load_each_lem ((true, name) ∷ names) =
      let rest = load_each (load loading failed starts) names in
      let (c, o, x) = load_each_lem names in
      elim (Bool-cases (starts name)) [
        | inl e ↦ rw e (ap (◌∷◌ name) c, o, exits_call name rest.0 ∙ x)
        | inr e ↦ rw e (refl, refl, refl)
      ]
  load_each_lem ((false, name) ∷ names) =
      let rest = load_each (load loading failed starts) names in
      let (c, o, x) = load_each_lem names in
      elim (Bool-cases (starts name)) [
        | inl e ↦ rw e (ap (◌∷◌ name) c, o, exits_call name rest.0 ∙ x)
        | inr e ↦ rw e (refl, refl, refl)
      ]

up_to_failure-append :
    (starts : Text → Bool) (xs ys : List (Bool × Text))
    → up_to_failure starts (xs ++ ys) ≡ (
        if all_start starts xs
        then up_to_failure starts xs ++ up_to_failure starts ys
        else up_to_failure starts xs)
up_to_failure-append starts [] ys = refl
up_to_failure-append starts ((debug, x) ∷ xs) ys = elim (Bool-cases (starts x)) [
  | inl e ↦
      rw (e, up_to_failure-append starts xs ys)
        (elim (Bool-cases (all_start starts xs)) [ inl a ↦ rw a refl | inr a ↦ rw a refl ])
  | inr e ↦ rw e refl
]

all_start-append :
    (starts : Text → Bool) (xs ys : List (Bool × Text))
    → all_start starts (xs ++ ys) ≡ (all_start starts xs && all_start starts ys)
all_start-append starts [] ys = refl
all_start-append starts ((debug, x) ∷ xs) ys = ground (arith, all_start-append starts xs ys)

exits_both : (xs ys : List Action) → exits xs ≡ false → exits (xs ++ ys) ≡ exits ys
exits_both xs [] h = ap exits (append-nil xs) ∙ h
exits_both xs (y ∷ ys) h = exits-append xs ys y

-- The servers and then the backends are started in the order of the configuration, up to the first that
-- does not start; the program goes on if all of them start, and otherwise the last thing it does is to
-- exit.
pub load_all_lem :
    (starts : Text → Bool) (servers : Option (List ServerEntry)) (config : ServerEntry)
    (backends : Option (List Text))
    → let names = server_entries servers config ++ backend_entries config.debug backends in
      let (actions, on) = load_all starts servers config backends in
      (calls actions ≡ up_to_failure starts names)
      × (on ≡ all_start starts names)
      × (exits actions ≡ not on)
unfolding load_all load_backend start_server
load_all_lem starts servers config backends =
    let ss = server_entries servers config in
    let bs = backend_entries config.debug backends in
    let (c, o, x) =
      load_each_lem (codes "Loading server: ") (codes "Failed to load server: ") starts ss in
    let (d, p, y) =
      load_each_lem (codes "Loading backend: ") (codes "Failed to load backend: ") starts bs in
    let started = load_each (start_server starts) ss in
    let loaded = load_each (load_backend starts) bs in
    elim (Bool-cases (all_start starts ss)) [
      | inl e ↦
          rw (o, up_to_failure-append, all_start-append, e)
            (
              calls-append started.0 loaded.0 ∙ ap₂ ◌++◌ c d,
              p,
              exits_both started.0 loaded.0 (rw (o, e) at x) ∙ y,
            )
      | inr e ↦ rw (o, up_to_failure-append, all_start-append, e) (c, o ∙ e, x)
    ]
