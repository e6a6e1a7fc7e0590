-- ===== src/Graphite/Lines.antt =====
-- backends/graphite.js: the lines of a flush as they are written, under the names that the configuration
-- asks for.
pub mod Sent
pub mod Whole
use statsd.Graphite.{Flushed}
use statsd.Base.{
  ℕ, ◌+◌, length, ◌≡◌, Bool, true, List, [], ◌∷◌, ◌++◌, Option, none, some, if◌then◌else◌, ◌==◌,
}
use statsd.Graphite.Settings.{GraphiteConfig, or_default}
use statsd.Js.Number.{JsNumber}
use statsd.Js.Object.{Object, lookup}
use statsd.Js.Text.{Text, codes, is_empty}
use statsd.Packet.Key.{sanitize_text}
use statsd.Set.{Set, size}
use statsd.Timers.Thresholds.{Datum, number, undefined, bins}

-- A key up to its tags, and the tags with the semicolon in front.
abbrev pub bare : Text → Text
bare [] = []
bare (c ∷ key) = if c == b';' then [] else c ∷ bare key

abbrev pub tags : Text → Text
tags [] = []
tags (c ∷ key) = if c == b';' then c ∷ key else tags key

-- A prefix with a dot behind it, or nothing if it is empty.
abbrev pub dotted : Text → Text
dotted prefix = if is_empty prefix then [] else prefix ++ codes "."

module _ (c : GraphiteConfig) where
  abbrev pub is_legacy : Bool
  is_legacy = or_default c.legacy_namespace true

  abbrev pub suffix : Text
  suffix = elim c.global_suffix [ none ↦ [] | some s ↦ codes "." ++ s ]

  -- A name: what stands before the key, the key, and what stands behind it; then the suffix, and the
  -- tags of the key.
  abbrev pub name : Text → Text → Text → Text
  name before key behind =
      before
      ++ ((if or_default c.key_name_sanitize true then bare key else sanitize_text (bare key))
          ++ (behind ++ (suffix ++ tags key)))

  -- What stands before a key that is not under the old names.
  abbrev pub top : Text
  top = dotted (or_default c.global_prefix (codes "stats"))

  abbrev pub rate_name : Text → Text
  rate_name key =
      if is_legacy
      then name (codes "stats.") key []
      else name (top ++ dotted (or_default c.prefix_counter (codes "counters"))) key (codes ".rate")

  abbrev pub count_name : Text → Text
  count_name key =
      if is_legacy
      then name (codes "stats_counts.") key []
      else name (top ++ dotted (or_default c.prefix_counter (codes "counters"))) key
          (codes ".count")

  -- A statistic of a timer, or a bin of its histogram.
  abbrev pub timer_name : Text → Text → Text
  timer_name key behind =
      if is_legacy
      then name (codes "stats.timers.") key behind
      else name (top ++ dotted (or_default c.prefix_timer (codes "timers"))) key behind

  abbrev pub gauge_name : Text → Text
  gauge_name key =
      if is_legacy
      then name (codes "stats.gauges.") key []
      else name (top ++ dotted (or_default c.prefix_gauge (codes "gauges"))) key []

  abbrev pub set_name : Text → Text
  set_name key =
      if is_legacy
      then name (codes "stats.sets.") key (codes ".count")
      else name (top ++ dotted (or_default c.prefix_set (codes "sets"))) key (codes ".count")

  module _ {ℓ} {N : Type ℓ} (num : JsNumber N) (ts : N) where
    -- A line: the name, the value and the time.
    abbrev pub line : Text → N → Text
    line n x = n ++ (codes " " ++ (num.to_text x ++ (codes " " ++ num.to_text ts)))

    -- The lines of a counter: its rate, and its value where counts are asked for.
    abbrev pub counter_lines : Text → N → N → List Text
    counter_lines key value rate =
        line (rate_name key) rate
        ∷ (if or_default c.flush_counts true then line (count_name key) value ∷ [] else [])

    abbrev pub bin_lines : Text → Text → Object N → List Text
    bin_lines key stat [] = []
    bin_lines key stat ((bin, x) ∷ m) =
        line (timer_name key (codes "." ++ (stat ++ (codes "." ++ bin)))) x ∷ bin_lines key stat m

    -- The lines of a timer's statistics: one for each number, and one for each bin.
    abbrev pub datum_lines : Text → Text → Datum N → List Text
    datum_lines key stat (number x) = line (timer_name key (codes "." ++ stat)) x ∷ []
    datum_lines key stat undefined = []
    datum_lines key stat (bins m) = bin_lines key stat m

    abbrev pub timer_lines : Text → Object (Datum N) → List Text
    timer_lines key [] = []
    timer_lines key ((stat, d) ∷ m) = datum_lines key stat d ++ timer_lines key m

    abbrev pub gauge_line : Text → N → Text
    gauge_line key x = line (gauge_name key) x

    abbrev pub set_line : Text → Set → Text
    set_line key set = line (set_name key) (num.of_nat (size set))

    abbrev pub rate_at : Option N → N
    rate_at none = num.nan
    rate_at (some rate) = rate

    -- The lines of all entries of a table, in its order.
    abbrev pub each {κ} : {V : Type κ} → (Text → V → List Text) → Object V → List Text
    each lines [] = []
    each lines ((key, v) ∷ m) = lines key v ++ each lines m

    abbrev pub prefix : Text
    prefix = or_default c.prefix_stats (codes "statsd")

    -- The lines about the daemon itself: how many keys there are, how long the calculation took, and the
    -- entries of a table.
    abbrev pub own_lines : ℕ → N → Object N → List Text
    own_lines count time own =
        if is_legacy
        then line (prefix ++ (codes ".numStats" ++ suffix)) (num.of_nat count)
          ∷ line (codes "stats." ++ (prefix ++ (codes ".graphiteStats.calculationtime" ++ suffix)))
              time
          ∷ each
              (λ key x. line (codes "stats." ++ (prefix ++ (codes "." ++ (key ++ suffix)))) x ∷ [])
              own
        else line (name top prefix (codes ".numStats")) (num.of_nat count)
          ∷ line (name top prefix (codes ".graphiteStats.calculationtime")) time
          ∷ each (λ key x. line (name top prefix (codes "." ++ key)) x ∷ []) own

    -- All lines of a flush.
    abbrev pub flush_lines : Flushed N → N → List Text
    flush_lines f time =
        each (λ key value. counter_lines key value (rate_at (lookup key f.counter_rates)))
          f.counters
        ++ (each timer_lines f.timer_data
            ++ (each (λ key x. gauge_line key x ∷ []) f.gauges
                ++ (each (λ key set. set_line key set ∷ []) f.sets
                    ++ own_lines
                        (length f.counters + length f.timer_data + length f.gauges + length f.sets)
                        time f.statsd_metrics)))
