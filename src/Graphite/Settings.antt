-- ===== src/Graphite/Settings.antt =====
-- backends/graphite.js, `graphite_init`: the names of the configuration and the namespaces.
use statsd.Base.{
  ◌≡◌, refl, Bool, true, false, List, [], ◌∷◌, ◌++◌, Option, none, some, if◌then◌else◌, All,
  All-append, Bool-cases, inl, inr,
}
use statsd.Js.Text.{Text, codes, is_empty}

-- What of the configuration is read; `none` is `undefined`.
pub record GraphiteConfig : Type 0 where
  pub global_prefix : Option Text
  pub prefix_counter : Option Text
  pub prefix_timer : Option Text
  pub prefix_gauge : Option Text
  pub prefix_set : Option Text
  pub global_suffix : Option Text
  pub legacy_namespace : Option Bool
  pub prefix_stats : Option Text
  pub key_name_sanitize : Option Bool
  pub flush_counts : Option Bool

-- The variables of the backend.
pub record Graphite : Type 0 where
  pub legacy_namespace : Bool
  pub global_namespace : List Text
  pub counter_namespace : List Text
  pub timer_namespace : List Text
  pub gauges_namespace : List Text
  pub sets_namespace : List Text
  pub global_suffix : Text
  pub prefix_stats : Text
  pub global_key_sanitize : Bool
  pub flush_counts : Bool

abbrev pub or_default {ℓ} : {A : Type ℓ} → Option A → A → A
or_default none d = d
or_default (some x) d = x

-- `if (prefix !== "") namespace.push(prefix)`
abbrev pub pushed : Text → List Text
pushed prefix = if is_empty prefix then [] else prefix ∷ []

-- `'.' + globalSuffix`, if there is one
unfoldable pub suffix_of : Option Text → Text
suffix_of none = []
suffix_of (some s) = b'.' ∷ s

-- A namespace below the global one, without the legacy names.
unfoldable pub namespace_of : Option Text → Option Text → Text → List Text
namespace_of global_prefix prefix d =
    pushed (or_default global_prefix (codes "stats")) ++ pushed (or_default prefix d)

-- The settings that `graphite_init` makes.
unfoldable pub init : GraphiteConfig → Graphite
unfolding suffix_of namespace_of
init c =
    let legacy = or_default c.legacy_namespace true in
    record {
      legacy_namespace = legacy;
      global_namespace =
          if legacy
          then codes "stats" ∷ []
          else pushed (or_default c.global_prefix (codes "stats"));
      counter_namespace =
          if legacy
          then codes "stats" ∷ []
          else namespace_of c.global_prefix c.prefix_counter (codes "counters");
      timer_namespace =
          if legacy
          then codes "stats" ∷ codes "timers" ∷ []
          else namespace_of c.global_prefix c.prefix_timer (codes "timers");
      gauges_namespace =
          if legacy
          then codes "stats" ∷ codes "gauges" ∷ []
          else namespace_of c.global_prefix c.prefix_gauge (codes "gauges");
      sets_namespace =
          if legacy
          then codes "stats" ∷ codes "sets" ∷ []
          else namespace_of c.global_prefix c.prefix_set (codes "sets");
      global_suffix = suffix_of c.global_suffix;
      prefix_stats = or_default c.prefix_stats (codes "statsd");
      global_key_sanitize = or_default c.key_name_sanitize true;
      flush_counts = or_default c.flush_counts true;
    }

abbrev pub AreFilled : List Text → Type 0
AreFilled = All λ t. is_empty t ≡ false

pushed-AreFilled : (prefix : Text) → AreFilled (pushed prefix)
pushed-AreFilled [] = tt
pushed-AreFilled (c ∷ s) = (refl, tt)

namespace-AreFilled : (g p : Option Text) (d : Text) → AreFilled (namespace_of g p d)
unfolding namespace_of
namespace-AreFilled g p d =
    All-append (λ t. is_empty t ≡ false) (pushed (or_default g (codes "stats")))
      (pushed (or_default p d)) (pushed-AreFilled (or_default g (codes "stats")))
      (pushed-AreFilled (or_default p d))

-- With the legacy names or without, no component of a namespace is empty, so that no name begins with
-- a dot or has two in a row by its namespace.
pub init-AreFilled :
    (c : GraphiteConfig)
    → let g = init c in
      AreFilled g.global_namespace
      × AreFilled g.counter_namespace
      × AreFilled g.timer_namespace
      × AreFilled g.gauges_namespace
      × AreFilled g.sets_namespace
unfolding init
init-AreFilled c = elim (Bool-cases (or_default c.legacy_namespace true)) [
  | inl e ↦
      rw e ((refl, tt), (refl, tt), (refl, (refl, tt)), (refl, (refl, tt)), (refl, (refl, tt)))
  | inr e ↦ rw e (
    pushed-AreFilled (or_default c.global_prefix (codes "stats")),
    namespace-AreFilled c.global_prefix c.prefix_counter (codes "counters"),
    namespace-AreFilled c.global_prefix c.prefix_timer (codes "timers"),
    namespace-AreFilled c.global_prefix c.prefix_gauge (codes "gauges"),
    namespace-AreFilled c.global_prefix c.prefix_set (codes "sets"),
  )
]
