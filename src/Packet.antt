-- ===== src/Packet.antt =====
-- stats.js, `handlePacket`: a packet is cut into lines, a line into a key and metrics, and each
-- metric is checked and added to its table.
pub mod Key
pub mod Metric
pub mod Outcomes
pub mod BadLines
pub mod Faults
pub mod Frame
pub mod Invariant
pub mod Sanitize
use statsd.Base.{
  ℕ, zero, suc, ◌+◌, Bool, true, false, not, ◌&&◌, ◌||◌, List, [], ◌∷◌, ◌++◌, Option, none, some,
  ◌==◌, if◌then◌else◌, length, map,
}
use statsd.Js.Number.{JsNumber}
use statsd.Js.Object.{Object, Access, own, inherited, missing, access, put, lookup}
use statsd.Js.Text.{Text, codes, contains, split, is_empty}
use statsd.Stats.{Stats, Names, Config}
use Key.{sanitize_key_name, tags_of, add_tags}
use Metric.{Outcome, done, fault, Fault, inherited_value, ◌>>=◌, handle_fields, increment}

abbrev newline : ℕ
newline = b'\n'

-- The lines of a packet.
unfoldable pub lines_of : Text → List Text
unfolding contains split
lines_of packet = if contains newline packet then split (newline ∷ []) packet else packet ∷ []

-- A line cut at `|#`, its first part cut at `:`.
unfoldable pub key_and_bits : Text → List Text
unfolding split
key_and_bits line = elim (split (codes "|#") line) [
  | [] ↦ []
  | first ∷ more ↦ split (codes ":") first
]

-- `key`: what stands before the first `:`, its tags, sanitized.
unfoldable pub key_of : Bool → Text → Text
unfolding sanitize_key_name tags_of add_tags key_and_bits split
key_of key_name_sanitize line = sanitize_key_name key_name_sanitize (
    add_tags (elim (key_and_bits line) [ [] ↦ [] | key ∷ bits ↦ key ])
      (tags_of (split (codes "|#") line)))

-- `bits`: the metrics, or "1" where there are none.
unfoldable pub bits_of : Text → List Text
unfolding key_and_bits
bits_of line = elim (key_and_bits line) [
  | [] ↦ codes "1" ∷ []
  | key ∷ bits ↦ elim bits [ [] ↦ codes "1" ∷ [] | bit ∷ more ↦ bit ∷ more ]
]

module _ {ℓ} {N : Type ℓ} where
  -- `keyCounter[key] += 1`, by what `keyCounter[key]` was
  unfoldable pub count_at : Access ℕ → Text → Stats N → Outcome (Stats N)
  count_at (own n) key s = done (record s { key_counter = put key (n + 1) s.key_counter })
  count_at inherited key s = fault inherited_value
  count_at missing key s = done (record s { key_counter = put key 1 s.key_counter })

  -- Keys are counted if `keyFlushInterval > 0`.
  unfoldable pub count_key : Config → Text → Stats N → Outcome (Stats N)
  unfolding count_at
  count_key conf key s =
      if conf.count_keys then count_at (access key s.key_counter) key s else done s

module _ {ℓ} {N : Type ℓ} (num : JsNumber N) (names : Names) (conf : Config) where
  -- The loop over `bits`.
  unfoldable pub handle_bits : Text → List Text → Stats N → Outcome (Stats N)
  unfolding split
  handle_bits key [] s = done s
  handle_bits key (bit ∷ bits) s =
      handle_fields num names conf key (split (codes "|") bit) s >>= handle_bits key bits

  -- One line; an empty one is skipped.
  unfoldable pub handle_line : Text → Stats N → Outcome (Stats N)
  unfolding key_of bits_of count_key handle_bits increment
  handle_line line s =
      if is_empty line
      then done s
      else (count_key conf (key_of conf.key_name_sanitize line)
            (record s { counters = increment num names.metrics_received s.counters })
          >>= handle_bits (key_of conf.key_name_sanitize line) (bits_of line))

  unfoldable pub handle_lines : List Text → Stats N → Outcome (Stats N)
  unfolding handle_line
  handle_lines [] s = done s
  handle_lines (line ∷ lines) s = handle_line line s >>= handle_lines lines

  -- The whole handler, at the time `now` in seconds.
  unfoldable pub handle_packet : ℕ → Text → Stats N → Outcome (Stats N)
  unfolding handle_lines lines_of increment
  handle_packet now packet s =
      handle_lines (lines_of packet)
        (record s { counters = increment num names.packets_received s.counters })
      >>= λ t. done (record t { last_msg_seen = now })
