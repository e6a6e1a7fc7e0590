-- ===== src/KeyFlush.antt =====
-- stats.js, the listener of `keyFlushInt`: the keys seen, by how often, the most frequent ones first.
pub mod Top
use statsd.Base.{
  ℕ, suc, ◌+◌, Bool, true, false, List, [], ◌∷◌, ◌++◌, Option, none, some, if◌then◌else◌, ltb,
  length,
}
use statsd.Js.Number.{JsNumber}
use statsd.Js.Text.{Text, codes, is_empty}
use statsd.Packet.Metric.{Outcome, done, fault, type_error, ◌>>=◌}
use statsd.Startup.{KeyFlush, key_flush_percent}
use statsd.Stats.{Stats}

-- `sortedKeys.sort(function (a, b) { return b[1] - a[1]; })`, stable: `x` stays in front of `y` unless
-- `y` was seen more often.
unfoldable pub insert : Text × ℕ → List (Text × ℕ) → List (Text × ℕ)
insert x [] = x ∷ []
insert x (y ∷ ys) = let rest = insert x ys in if ltb x.1 y.1 then y ∷ rest else x ∷ y ∷ ys

unfoldable pub sort_keys : List (Text × ℕ) → List (Text × ℕ)
unfolding insert
sort_keys [] = []
sort_keys (x ∷ xs) = insert x (sort_keys xs)

-- The table without its keys.
unfoldable pub without_keys {ℓ} : {N : Type ℓ} → Stats N → Stats N
without_keys s = record s { key_counter = [] }

-- `keyFlushLog`, where it is not empty; otherwise the message goes to the standard output.
unfoldable pub log_file {ℓ} : {N : Type ℓ} → Option (KeyFlush N) → Option Text
log_file none = none
log_file (some key_flush) = elim key_flush.log [
  | none ↦ none
  | some path ↦ if is_empty path then none else some path
]

module _ {ℓ} {N : Type ℓ} (num : JsNumber N) where
  -- One line of the message.
  unfoldable pub key_line : Text → Text × ℕ → Text
  key_line time_string (key, count) =
      time_string
      ++ (codes " count="
          ++ (num.to_text (num.of_nat count) ++ (codes " key=" ++ (key ++ codes "\n"))))

  -- The loop from `i` on, up to `e`: behind the last key `sortedKeys[i][1]` throws.
  unfoldable pub log_from : N → Text → ℕ → List (Text × ℕ) → Outcome Text
  unfolding key_line
  log_from e time_string i [] = if num.lt (num.of_nat i) e then fault type_error else done []
  log_from e time_string i (entry ∷ entries) =
      let rest = log_from e time_string (suc i) entries in
      if num.lt (num.of_nat i) e
      then (rest >>= λ message. done (key_line time_string entry ++ message))
      else done []

  -- `sortedKeys.length * (keyFlushPercent / 100)`
  unfoldable pub shown : Option (KeyFlush N) → ℕ → N
  unfolding key_flush_percent
  shown key_flush count =
      num.mul (num.of_nat count) (num.div (key_flush_percent num key_flush) (num.of_nat 100))

  -- The listener, at the time that `timeString` tells: the message, and the tables behind it.
  unfoldable pub flush_keys : Option (KeyFlush N) → Text → Stats N → Outcome (Text × Stats N)
  unfolding sort_keys log_from shown without_keys
  flush_keys key_flush time_string s =
      log_from (shown key_flush (length s.key_counter)) time_string 0 (sort_keys s.key_counter)
      >>= λ message. done (message, without_keys s)
