-- ===== src/Packet/Metric.antt =====
-- stats.js, the body of `handlePacket`'s inner loop: one metric of a line.
use statsd.Base.{
  ℕ, zero, suc, ◌+◌, Bool, not, ◌&&◌, ◌||◌, List, [], ◌∷◌, ◌++◌, none, some, ◌==◌, if◌then◌else◌,
}
use statsd.Js.Text.{Text, codes, eqb, is_empty, is_digit, trim}
use statsd.Js.Number.{JsNumber, nought, one, truthy}
use statsd.Js.Object.{Object, Access, own, inherited, missing, access, lookup, put, assign}
use statsd.Helpers.{is_valid_packet, begins_with}
use statsd.Set.{Set, empty, insert}
use statsd.Stats.{Stats, Names, Config}

-- Why the handler stops: it threw a `TypeError`, or it would use a property of `Object.prototype`
-- as a number, which makes a string of it.
pub data Fault : Type 0 where
  type_error inherited_value : Fault

pub data Outcome {ℓ} (A : Type ℓ) : Type ℓ where
  done : A → Outcome A
  fault : Fault → Outcome A

infixl 5 ◌>>=◌
abbrev pub ◌>>=◌ {ℓ κ} : {A : Type ℓ} {B : Type κ} → Outcome A → (A → Outcome B) → Outcome B
done a >>= f = f a
fault e >>= f = fault e

-- What `/^@([\d\.]+)/` captures behind the `@`: digits and dots.
unfoldable pub rate_chars : Text → Text
unfolding is_digit
rate_chars [] = []
rate_chars (c ∷ s) = let rest = rate_chars s in if is_digit c || c == b'.' then c ∷ rest else []

-- `fields[0].match(/^[-+]/)`
unfoldable pub is_signed : Text → Bool
is_signed value = begins_with b'-' value || begins_with b'+' value

-- `fields[i]`, where it is there
abbrev pub field : List Text → ℕ → Text
field [] i = []
field (f ∷ fs) zero = f
field (f ∷ fs) (suc i) = field fs i

module _ {ℓ} {N : Type ℓ} (num : JsNumber N) where
  -- `Number(text || n)`
  unfoldable pub number_or : ℕ → Text → N
  number_or n text = if is_empty text then num.of_nat n else num.to_number text

  -- `Number(rate.match(/^@([\d\.]+)/)[1])`: without a match `null[1]` throws.
  unfoldable pub match_rate : Text → Outcome N
  unfolding rate_chars
  match_rate [] = fault type_error
  match_rate (c ∷ s) =
      if c == b'@' && not (is_empty (rate_chars s))
      then done (num.to_number (rate_chars s))
      else fault type_error

  -- `sampleRate`: 1 where the third field is missing or empty
  unfoldable pub sample_rate : List Text → Outcome N
  unfolding match_rate
  sample_rate (value ∷ kind ∷ rate ∷ more) =
      if is_empty rate then done (one num) else match_rate rate
  sample_rate fields = done (one num)

  -- `obj[k]++` on a table of numbers: `undefined` becomes NaN
  unfoldable pub increment : Text → Object N → Object N
  unfolding lookup
  increment k m = put k (elim (lookup k m) [ none ↦ num.nan | some x ↦ num.add x (one num) ]) m

  -- `timers[key].push(…)` and the counter of the timer, by what `timers[key]` was. The first value
  -- makes the two entries of the key.
  unfoldable pub timer_at : Access (List N) → Text → N → N → Stats N → Outcome (Stats N)
  unfolding lookup
  timer_at (own xs) key x weight s = done (record s {
    timers = put key (xs ++ x ∷ []) s.timers;
    timer_counters =
        put key
          (num.add (elim (lookup key s.timer_counters) [ none ↦ num.nan | some y ↦ y ]) weight)
          s.timer_counters;
  })
  timer_at inherited key x weight s = fault type_error
  timer_at missing key x weight s = done (record s {
    timers = put key (x ∷ []) s.timers;
    timer_counters = put key (num.add (nought num) weight) s.timer_counters;
  })

  -- The branch of `ms`.
  unfoldable pub add_timer : Text → Text → N → Stats N → Outcome (Stats N)
  unfolding timer_at number_or
  add_timer key value rate s =
      timer_at (access key s.timers) key (number_or 0 value) (num.div (one num) rate) s

  unfoldable pub set_gauge : Text → N → Stats N → Stats N
  unfolding assign
  set_gauge key x s = record s { gauges = assign key x s.gauges }

  -- `gauges[key] && fields[0].match(/^[-+]/)` and the two assignments, by what `gauges[key]` was
  unfoldable pub gauge_at : Access N → Text → Text → Stats N → Outcome (Stats N)
  unfolding number_or is_signed set_gauge
  gauge_at (own x) key value s =
      if truthy num x && is_signed value
      then done (set_gauge key (num.add x (number_or 0 value)) s)
      else done (set_gauge key (number_or 0 value) s)
  gauge_at inherited key value s =
      if is_signed value then fault inherited_value else done (set_gauge key (number_or 0 value) s)
  gauge_at missing key value s = done (set_gauge key (number_or 0 value) s)

  -- The time to live starts anew, if gauges are deleted.
  unfoldable pub renew_gauge : Config → Text → Stats N → Stats N
  unfolding assign
  renew_gauge conf key s =
      if conf.delete_gauges
      then record s { gauges_ttl = assign key conf.gauges_max_ttl s.gauges_ttl }
      else s

  -- The branch of `g`.
  unfoldable pub add_gauge : Config → Text → Text → Stats N → Outcome (Stats N)
  unfolding gauge_at renew_gauge
  add_gauge conf key value s = gauge_at (access key s.gauges) key value (renew_gauge conf key s)

  -- `sets[key].insert(…)`, by what `sets[key]` was
  unfoldable pub set_at : Access Set → Text → Text → Stats N → Outcome (Stats N)
  unfolding insert
  set_at (own set) key item s = done (record s { sets = put key (insert item set) s.sets })
  set_at inherited key item s = fault type_error
  set_at missing key item s = done (record s { sets = put key (insert item empty) s.sets })

  -- The branch of `s`.
  unfoldable pub add_to_set : Text → Text → Stats N → Outcome (Stats N)
  unfolding set_at
  add_to_set key value s =
      set_at (access key s.sets) key (if is_empty value then codes "0" else value) s

  -- `counters[key] += amount`, by what `counters[key]` was; zero and NaN count as zero
  unfoldable pub counter_at : Access N → Text → N → Stats N → Outcome (Stats N)
  counter_at (own x) key amount s = done (record s {
    counters = put key (num.add (if truthy num x then x else nought num) amount) s.counters;
  })
  counter_at inherited key amount s = fault inherited_value
  counter_at missing key amount s =
      done (record s { counters = put key (num.add (nought num) amount) s.counters })

  -- The last branch: any other type counts.
  unfoldable pub add_counter : Text → Text → N → Stats N → Outcome (Stats N)
  unfolding counter_at number_or
  add_counter key value rate s =
      counter_at (access key s.counters) key (num.mul (number_or 1 value) (num.div (one num) rate))
        s

  -- The four branches, by the trimmed type.
  unfoldable pub add_metric : Config → Text → Text → Text → N → Stats N → Outcome (Stats N)
  add_metric conf key kind value rate s =
      if eqb kind (codes "ms")
      then add_timer key value rate s
      else if eqb kind (codes "g")
      then add_gauge conf key value s
      else if eqb kind (codes "s")
      then add_to_set key value s
      else add_counter key value rate s

  -- A bad line is only counted.
  unfoldable pub count_bad_line : Names → Stats N → Stats N
  unfolding increment
  count_bad_line names s = record s {
    counters = increment names.bad_lines s.counters;
    bad_lines_seen = s.bad_lines_seen + 1;
  }

  -- A valid metric: its sample rate, then its table.
  unfoldable pub handle_valid : Config → Text → List Text → Stats N → Outcome (Stats N)
  unfolding sample_rate trim
  handle_valid conf key fields s = do
    rate ← sample_rate fields
    add_metric conf key (trim (field fields 1)) (field fields 0) rate s

  -- One round of the loop over `bits`.
  unfoldable pub handle_fields : Names → Config → Text → List Text → Stats N → Outcome (Stats N)
  unfolding is_valid_packet
  handle_fields names conf key fields s =
      if is_valid_packet num fields
      then handle_valid conf key fields s
      else done (count_bad_line names s)
