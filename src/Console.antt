-- ===== src/Console.antt =====
-- backends/console.js: a flush is printed, with the members of each set.
use mathlib.Core.Option
use statsd.Base.{
  ℕ, ◌≡◌, refl, ap, ◌∙◌, Bool, false, List, [], ◌∷◌, ◌++◌, Option, none, some, if◌then◌else◌,
}
use statsd.Flush.Cycle.{Emitted}
use statsd.Js.Object.{Object, lookup, map_values}
use statsd.Js.Object.Laws.{lookup-map_values, member-keys}
use statsd.Js.Text.{Text, codes, is_empty, member}
use statsd.Set.{Set, has, values}
use statsd.Timers.Thresholds.{Datum}

-- `out`
pub record Out {ℓ} (N : Type ℓ) : Type ℓ where
  pub counters : Object N
  pub timers : Object (List N)
  pub gauges : Object N
  pub timer_data : Object (Object (Datum N))
  pub counter_rates : Object N
  pub sets : Object (List Text)
  pub pct_threshold : List N

-- The fields of the backend.
pub record Console : Type 0 where
  pub last_flush : ℕ
  pub last_exception : ℕ
  pub prettyprint : Bool

-- The constructor.
unfoldable pub init : ℕ → Option Bool → Console
init startup_time none = record {
  last_flush = startup_time;
  last_exception = startup_time;
  prettyprint = false;
}
init startup_time (some prettyprint) = record {
  last_flush = startup_time;
  last_exception = startup_time;
  prettyprint = prettyprint;
}

-- The loop that makes `sets` of the sets.
unfoldable pub set_values : Object Set → Object (List Text)
unfolding map_values values
set_values sets = map_values (λ key set. values set) sets

module _ {ℓ} {N : Type ℓ} where
  -- What a flush prints of the metrics.
  unfoldable pub out_of : List N → Emitted N → Out N
  unfolding set_values
  out_of pct_threshold metrics = record {
    counters = metrics.counters;
    timers = metrics.timers;
    gauges = metrics.gauges;
    timer_data = metrics.timer_data;
    counter_rates = metrics.counter_rates;
    sets = set_values metrics.sets;
    pct_threshold = pct_threshold;
  }

  -- `flush`: the lines on the standard output, where `date` and the two `inspect` print a time and an
  -- object.
  unfoldable pub flush :
      (ℕ → Text) → (Out N → Text) → (Out N → Text) → Console → ℕ → List N → Emitted N → List Text
  unfolding out_of
  flush date inspect_pretty inspect_plain console timestamp pct_threshold metrics =
      (codes "Flushing stats at  " ++ date timestamp)
      ∷ (if console.prettyprint
          then inspect_pretty (out_of pct_threshold metrics)
          else inspect_plain (out_of pct_threshold metrics))
      ∷ []

  -- What is printed under the name of a set has a text that is not empty if and only if the set has it.
  lookup-set_values :
      (pct_threshold : List N) (metrics : Emitted N) (k w : Text)
      → is_empty w ≡ false
      → Option.map (member w) (lookup k (out_of pct_threshold metrics).sets)
        ≡ Option.map (has w) (lookup k metrics.sets)
  unfolding out_of set_values values has
  lookup-set_values pct_threshold metrics k w h =
      ap (Option.map (member w)) (lookup-map_values (λ key set. values set) k metrics.sets)
      ∙ printed (lookup k metrics.sets)
    where
      printed :
          (found : Option Set)
          → Option.map (member w) (elim found as (λ _. Option (List Text)) [
            | none ↦ none
            | some set ↦ some (values set)
          ])
            ≡ Option.map (has w) found
      printed none = refl
      printed (some set) = rw h (ap some (member-keys w set.store))

-- `status`: what it reports, name by name.
unfoldable pub status : Console → List (Text × Text × ℕ)
status console =
    (codes "console", codes "lastFlush", console.last_flush)
    ∷ (codes "console", codes "lastException", console.last_exception)
    ∷ []
