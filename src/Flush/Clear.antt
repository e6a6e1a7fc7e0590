-- ===== src/Flush/Clear.antt =====
-- stats.js, `clear_metrics`: the tables after a flush.
pub mod Invariant
use statsd.Base.{
  ℕ, ◌-◌, ◌≤◌, ◌≡◌, refl, Bool, true, false, ◌||◌, ◌&&◌, not, List, [], ◌∷◌, Option, none, some,
  if◌then◌else◌, ltb, arith, Bool-cases, inl, inr, is_some, All, ◌+◌, ◌∙◌,
}
use statsd.Flush.{
  is_internal, clear_counters, clear_timers, clear_sets, age_gauges, clear_gauges, clear_metrics,
}
use statsd.Js.Number.{JsNumber, nought}
use statsd.Js.Object.{Object, keys, lookup, put, remove, IsObject, has}
use statsd.Js.Object.Laws.{lookup-put, lookup-remove, lookup-map_values, member-keys}
use statsd.Js.Text.{Text, eqb_iff, member}
use statsd.Set.{Set, empty}
use statsd.Stats.{Stats, Config, IsWellFormed}

module _ {ℓ} {N : Type ℓ} (num : JsNumber N) where
  lookup-clear_counters :
      (d : Bool) (m : Object N) (k : Text)
      → lookup k (clear_counters num d m)
        ≡ (if is_some (lookup k m) && (not d || is_internal k) then some (nought num) else none)
  unfolding clear_counters lookup
  lookup-clear_counters d [] k = refl
  lookup-clear_counters d ((j, x) ∷ m) k = ground (arith, eqb_iff j k, lookup-clear_counters d m k)

-- what `age_gauges` makes of a time to live
abbrev pub aged : Option ℕ → Option ℕ
aged none = none
aged (some n) = if ltb (n - 1) 1 then none else some (n - 1)

abbrev pub expired : Option ℕ → Bool
expired none = false
expired (some n) = ltb (n - 1) 1

module _ {ℓ} {V : Type ℓ} where
  lookup-age_ttl :
      (m : Object ℕ) (g : Object V) (k : Text)
      → IsObject m
      → lookup k (age_gauges m g).0 ≡ aged (lookup k m)
  unfolding age_gauges lookup
  lookup-age_ttl [] g k h = refl
  lookup-age_ttl ((j, n) ∷ m) g k (h, hs) =
      ground (arith, eqb_iff j k, lookup-age_ttl m (if ltb (n - 1) 1 then remove j g else g) k hs)

  lookup-age_gauges :
      (m : Object ℕ) (g : Object V) (k : Text)
      → IsObject m
      → lookup k (age_gauges m g).1 ≡ (if expired (lookup k m) then none else lookup k g)
  unfolding age_gauges lookup
  lookup-age_gauges [] g k h = refl
  lookup-age_gauges ((j, n) ∷ m) g k (h, hs) = ground (
    arith,
    eqb_iff j k,
    lookup-remove j k g,
    lookup-age_gauges m (if ltb (n - 1) 1 then remove j g else g) k hs,
  )

  age_ttl-IsObject : (m : Object ℕ) (g : Object V) → IsObject m → IsObject (age_gauges m g).0
  unfolding age_gauges
  age_ttl-IsObject [] g h = tt
  age_ttl-IsObject ((j, n) ∷ m) g (h, hs) = elim (Bool-cases (ltb (n - 1) 1)) [
    | inl e ↦ rw e (age_ttl-IsObject m (remove j g) hs)
    | inr e ↦ rw e (ground (arith, lookup-age_ttl m g j hs), age_ttl-IsObject m g hs)
  ]

module _ {ℓ} {N : Type ℓ} (num : JsNumber N) where
  lookup-clear_timers :
      (d : Bool) (ks : List Text) (s : Stats N) (k : Text)
      → (lookup k (clear_timers num d ks s).timers
          ≡ (if member k ks then (if d then none else some []) else lookup k s.timers))
        × (lookup k (clear_timers num d ks s).timer_counters ≡ (
            if member k ks
            then (if d then none else some (nought num))
            else lookup k s.timer_counters))
  unfolding clear_timers
  lookup-clear_timers d [] s k = (refl, refl)
  lookup-clear_timers true (j ∷ ks) s k = ground (
    arith,
    eqb_iff j k,
    lookup-remove j k s.timers,
    lookup-remove j k s.timer_counters,
    lookup-clear_timers true ks
        (record s { timers = remove j s.timers; timer_counters = remove j s.timer_counters }) k,
  )
  lookup-clear_timers false (j ∷ ks) s k = ground (
    arith,
    eqb_iff j k,
    lookup-put j k [] s.timers,
    lookup-put j k (nought num) s.timer_counters,
    lookup-clear_timers false ks
        (record s {
          timers = put j [] s.timers;
          timer_counters = put j (nought num) s.timer_counters;
        })
        k,
  )

  -- The other tables are not touched by the loop over the timers.
  abbrev SameOthers : Stats N → Stats N → Type ℓ
  SameOthers s t =
      (t.counters ≡ s.counters)
      × (t.sets ≡ s.sets)
      × (t.gauges ≡ s.gauges)
      × (t.gauges_ttl ≡ s.gauges_ttl)
      × (t.key_counter ≡ s.key_counter)

  clear_timers-SameOthers :
      (d : Bool) (ks : List Text) (s : Stats N) → SameOthers s (clear_timers num d ks s)
  unfolding clear_timers
  clear_timers-SameOthers d [] s = (refl, refl, refl, refl, refl)
  clear_timers-SameOthers true (j ∷ ks) s = clear_timers-SameOthers true ks _
  clear_timers-SameOthers false (j ∷ ks) s = clear_timers-SameOthers false ks _

-- Clearing the gauges leaves the other tables alone.
clear_gauges-tables {ℓ} :
    {N : Type ℓ} (conf : Config) (u : Stats N)
    → ((clear_gauges conf u).counters ≡ u.counters)
      × ((clear_gauges conf u).timers ≡ u.timers)
      × ((clear_gauges conf u).timer_counters ≡ u.timer_counters)
      × ((clear_gauges conf u).sets ≡ u.sets)
      × ((clear_gauges conf u).key_counter ≡ u.key_counter)
unfolding clear_gauges
clear_gauges-tables conf u = elim (Bool-cases conf.delete_gauges) [
  | inl e ↦ simp e (refl, refl, refl, refl, refl)
  | inr e ↦ simp e (refl, refl, refl, refl, refl)
]

lookup-clear_sets :
    (d : Bool) (m : Object Set) (k : Text)
    → lookup k (clear_sets d m) ≡ (if is_some (lookup k m) && not d then some empty else none)
unfolding clear_sets lookup
lookup-clear_sets true m k = ground arith
lookup-clear_sets false m k =
    ground (arith, lookup-map_values (λ (key : Text) (set : Set). empty) k m)

module _ {ℓ} {N : Type ℓ} (num : JsNumber N) (conf : Config) (s : Stats N) (k : Text) where
  -- After a flush: a counter is zero, and gone if counters are deleted and it is not one of the daemon's
  -- own; a timer has no values and its counter is zero, or both are gone; a set is empty or gone. What
  -- was not in a table is not there afterwards, but a timer's counter without a timer stays.
  pub clear_metrics_tables :
      let t = clear_metrics num conf s in
      (lookup k t.counters ≡ (
        if is_some (lookup k s.counters) && (not conf.delete_counters || is_internal k)
        then some (nought num)
        else none))
      × (lookup k t.timers ≡ (
          if is_some (lookup k s.timers)
          then (if conf.delete_timers then none else some [])
          else none))
      × (lookup k t.timer_counters ≡ (
          if is_some (lookup k s.timers)
          then (if conf.delete_timers then none else some (nought num))
          else lookup k s.timer_counters))
      × (lookup k t.sets
          ≡ (if is_some (lookup k s.sets) && not conf.delete_sets then some empty else none))
  unfolding clear_metrics has
  clear_metrics_tables =
      let t = record s { counters = clear_counters num conf.delete_counters s.counters } in
      let u = clear_timers num conf.delete_timers (keys s.timers) t in
      let v = record u { sets = clear_sets conf.delete_sets u.sets } in
      let (e0, e1, e2, e3, _) = clear_gauges-tables conf v in
      let (o0, o1, _, _, _) = clear_timers-SameOthers num conf.delete_timers (keys s.timers) t in
      let (l0, l1) = lookup-clear_timers num conf.delete_timers (keys s.timers) t k in
      (
        rw (e0, o0) (lookup-clear_counters num conf.delete_counters s.counters k),
        rw (e1, l0, member-keys k s.timers) (ground arith),
        rw (e2, l1, member-keys k s.timers) refl,
        rw (e3, o1) (lookup-clear_sets conf.delete_sets s.sets k),
      )

  -- The gauges, where they are deleted: a time to live falls by one at each flush, and at the flush where
  -- it was 1 the gauge goes with it; a gauge without one stays. Otherwise nothing changes.
  pub clear_metrics_gauges :
      IsObject s.gauges_ttl
      → let t = clear_metrics num conf s in
        (lookup k t.gauges_ttl
          ≡ (if conf.delete_gauges then aged (lookup k s.gauges_ttl) else lookup k s.gauges_ttl))
        × (lookup k t.gauges ≡ (
            if conf.delete_gauges && expired (lookup k s.gauges_ttl)
            then none
            else lookup k s.gauges))
  unfolding clear_metrics clear_gauges
  clear_metrics_gauges h =
      let t = record s { counters = clear_counters num conf.delete_counters s.counters } in
      let (_, _, o2, o3, _) = clear_timers-SameOthers num conf.delete_timers (keys s.timers) t in
      elim (Bool-cases conf.delete_gauges) [
        | inl e ↦
            simp (e, o2, o3)
              (
                lookup-age_ttl s.gauges_ttl s.gauges k h,
                lookup-age_gauges s.gauges_ttl s.gauges k h,
              )
        | inr e ↦ simp (e, o2, o3) (refl, refl)
      ]

-- A flush keeps the times to live in order, and the counted keys.
pub clear_metrics-once {ℓ} :
    {N : Type ℓ} (num : JsNumber N) (conf : Config) (s : Stats N)
    → IsObject s.gauges_ttl
    → IsObject (clear_metrics num conf s).gauges_ttl
unfolding clear_metrics clear_gauges
clear_metrics-once num conf s h =
    let t = record s { counters = clear_counters num conf.delete_counters s.counters } in
    let (_, _, o2, o3, _) = clear_timers-SameOthers num conf.delete_timers (keys s.timers) t in
    elim (Bool-cases conf.delete_gauges) [
      | inl e ↦ simp (e, o2, o3) (age_ttl-IsObject s.gauges_ttl s.gauges h)
      | inr e ↦ simp (e, o2, o3) h
    ]

pub clear_metrics-key_counter {ℓ} :
    {N : Type ℓ} (num : JsNumber N) (conf : Config) (s : Stats N)
    → (clear_metrics num conf s).key_counter ≡ s.key_counter
unfolding clear_metrics
clear_metrics-key_counter num conf s =
    let t = record s { counters = clear_counters num conf.delete_counters s.counters } in
    let u = clear_timers num conf.delete_timers (keys s.timers) t in
    let (_, _, _, _, o4) = clear_timers-SameOthers num conf.delete_timers (keys s.timers) t in
    (clear_gauges-tables conf (record u { sets = clear_sets conf.delete_sets u.sets })).4 ∙ o4
