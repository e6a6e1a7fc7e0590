-- ===== src/Aggregate/Tables.antt =====
-- What a change at one key of a table does to the view, and the branches of `handlePacket` that make it.
use mathlib.Core.Path.{fun_ext}
use statsd.Base.{
  ◌≡◌, refl, sym, ap, ap₂, ◌∙◌, Bool, true, false, ◌&&◌, ◌||◌, List, [], ◌∷◌, ◌++◌, Option, none,
  some, if◌then◌else◌, arith,
}
use statsd.Aggregate.{
  Event, bumped, counted, timed, inserted, view, members, update, update_own, apply, items_of,
  values_of, one_more, base_of, weight_of,
}
use statsd.Js.Number.{JsNumber}
use statsd.Js.Object.{Object, Access, own, inherited, missing, access, lookup, put, assign}
use statsd.Js.Object.Laws.{lookup-put, lookup-assign}
use statsd.Js.Text.{Text, eqb}
use statsd.Packet.Outcomes.{Holds}
use statsd.Packet.Metric.{timer_at, set_at, counter_at, increment}
use statsd.Set.{Set, has, insert, empty}
use statsd.Set.Laws.{is_storable, has-insert, has-empty}
use statsd.Stats.{Stats, Config}

pub view-put {ℓ} :
    {V : Type ℓ} (key : Text) (v : V) (m : Object V)
    → ◌≡◌ {A = Text → Option V}
        (λ k. lookup k (put key v m))
        (update key (some v) (λ k. lookup k m))
view-put key v m = fun_ext (λ k. lookup-put key k v m)

pub view-assign {ℓ} :
    {V : Type ℓ} (key : Text) (v : V) (m : Object V)
    → ◌≡◌ {A = Text → Option V}
        (λ k. lookup k (assign key v m))
        (update_own key (some v) (λ k. lookup k m))
view-assign key v m = fun_ext (λ k. lookup-assign key k v m)

-- what a read that is not inherited says of the entry
pub own_lookup {ℓ} :
    {V : Type ℓ} (key : Text) (m : Object V) (x : V) → access key m ≡ own x → lookup key m ≡ some x
unfolding access
own_lookup key m x h = ground arith

pub missing_lookup {ℓ} :
    {V : Type ℓ} (key : Text) (m : Object V) → access key m ≡ missing → lookup key m ≡ none
unfolding access
missing_lookup key m h = ground arith

pub inherited_lookup {ℓ} :
    {V : Type ℓ} (key : Text) (m : Object V) → access key m ≡ inherited → lookup key m ≡ none
unfolding access
inherited_lookup key m h = ground arith

module _ {ℓ} {N : Type ℓ} (num : JsNumber N) (conf : Config) where
  -- The state has the view that an event makes of another's.
  abbrev pub After : Event N → Stats N → Stats N → Type ℓ
  After e s t = view t ≡ apply num conf e (view s)

  -- a change at one key of one table
  counters-After :
      (key : Text) (x : N) (s : Stats N)
      → view (record s { counters = put key x s.counters })
        ≡ record (view s) { counters = update key (some x) (view s).counters }
  counters-After key x s = ap (λ f. record (view s) { counters = f }) (view-put key x s.counters)

  timers-After :
      (key : Text) (xs : List N) (w : N) (s : Stats N)
      → view
          (record s { timers = put key xs s.timers; timer_counters = put key w s.timer_counters })
        ≡ record (view s) {
          timers = update key (some xs) (view s).timers;
          timer_counters = update key (some w) (view s).timer_counters;
        }
  timers-After key xs w s =
      ap₂ (λ f g. record (view s) { timers = f; timer_counters = g }) (view-put key xs s.timers)
        (view-put key w s.timer_counters)

  pub timer_at-After :
      (a : Access (List N)) (key : Text) (x w : N) (s : Stats N)
      → access key s.timers ≡ a
      → Holds (After (timed key x w) s) (timer_at num a key x w s)
  unfolding timer_at
  timer_at-After (own xs) key x w s e =
      timers-After key (xs ++ x ∷ []) _ s
      ∙ ap₂
          (λ t c. record (view s) {
            timers = update key (some (values_of t ++ x ∷ [])) (view s).timers;
            timer_counters = update key (some (num.add c w)) (view s).timer_counters;
          })
          (sym (own_lookup key s.timers xs e))
          (weight (lookup key s.timer_counters)
            ∙ ap (λ t. weight_of num t (lookup key s.timer_counters))
                (sym (own_lookup key s.timers xs e)))
    where
      weight :
          (o : Option N)
          → elim o as (λ _. N) [ none ↦ num.nan | some y ↦ y ] ≡ weight_of num (some xs) o
      weight none = refl
      weight (some y) = refl
  timer_at-After inherited key x w s e = tt
  timer_at-After missing key x w s e =
      timers-After key (x ∷ []) _ s
      ∙ ap
          (λ t. record (view s) {
            timers = update key (some (values_of t ++ x ∷ [])) (view s).timers;
            timer_counters =
                update key (some (num.add (weight_of num t (lookup key s.timer_counters)) w))
                  (view s).timer_counters;
          })
          (sym (missing_lookup key s.timers e))

  pub counter_at-After :
      (a : Access N) (key : Text) (x : N) (s : Stats N)
      → access key s.counters ≡ a
      → Holds (After (counted key x) s) (counter_at num a key x s)
  unfolding counter_at
  counter_at-After (own y) key x s e =
      counters-After key _ s
      ∙ ap
          (λ o. record (view s) {
            counters = update key (some (num.add (base_of num o) x)) (view s).counters;
          })
          (sym (own_lookup key s.counters y e))
  counter_at-After inherited key x s e = tt
  counter_at-After missing key x s e =
      counters-After key _ s
      ∙ ap
          (λ o. record (view s) {
            counters = update key (some (num.add (base_of num o) x)) (view s).counters;
          })
          (sym (missing_lookup key s.counters e))

  pub increment-After :
      (key : Text) (s : Stats N)
      → After (bumped key) s (record s { counters = increment num key s.counters })
  unfolding increment
  increment-After key s =
      counters-After key _ s
      ∙ ap (λ o. record (view s) { counters = update key (some o) (view s).counters })
          (more (lookup key s.counters))
    where
      more :
          (o : Option N)
          → elim o as (λ _. N) [ none ↦ num.nan | some x ↦ num.add x (num.of_nat 1) ]
            ≡ one_more num o
      more none = refl
      more (some x) = refl

  sets-After :
      (key : Text) (set : Set) (s : Stats N)
      → view (record s { sets = put key set s.sets })
        ≡ record (view s) { sets = update key (some (λ w. has w set)) (view s).sets }
  sets-After key set s =
      ap (λ f. record (view s) { sets = f })
        (fun_ext λ k. ap members (lookup-put key k set s.sets) ∙ push (eqb key k) k)
    where
      push :
          (b : Bool) (k : Text)
          → members (if b then some set else lookup k s.sets)
            ≡ (if b then some (λ w. has w set) else members (lookup k s.sets))
      push true k = refl
      push false k = refl

  pub set_at-After :
      (a : Access Set) (key item : Text) (s : Stats N)
      → access key s.sets ≡ a
      → Holds (After (inserted key item) s) (set_at num a key item s)
  unfolding set_at
  set_at-After (own set) key item s e =
      sets-After key (insert item set) s
      ∙ ap (λ f. record (view s) { sets = update key (some f) (view s).sets })
          (fun_ext λ w. has-insert item w set)
      ∙ ap
          (λ o. record (view s) {
            sets =
                update key (some (λ w. (is_storable item && eqb item w) || items_of (members o) w))
                  (view s).sets;
          })
          (sym (own_lookup key s.sets set e))
  set_at-After inherited key item s e = tt
  set_at-After missing key item s e =
      sets-After key (insert item empty) s
      ∙ ap (λ f. record (view s) { sets = update key (some f) (view s).sets })
          (fun_ext λ w.
            has-insert item w empty ∙ ap (λ b. (is_storable item && eqb item w) || b) (has-empty w))
      ∙ ap
          (λ o. record (view s) {
            sets =
                update key (some (λ w. (is_storable item && eqb item w) || items_of (members o) w))
                  (view s).sets;
          })
          (sym (missing_lookup key s.sets e))
