-- ===== src/Packet/Faults/Safe.antt =====
-- stats.js, `handlePacket`: the packets on which the handler does not throw.
use statsd.Base.{
  ℕ, ◌≡◌, refl, Bool, true, false, not, ◌&&◌, ◌||◌, List, [], ◌∷◌, arith, Bool-cases, inl, inr,
}
use statsd.Helpers.{is_valid_packet}
use statsd.Js.Number.{JsNumber}
use statsd.Js.Object.{Access, own, inherited, missing, is_inherited}
use statsd.Js.Text.{Text, codes, is_empty, split}
use statsd.Packet.{
  count_key, count_at, handle_bits, handle_line, handle_lines, handle_packet, lines_of, bits_of,
  key_of,
}
use statsd.Packet.Outcomes.{is_done, done_of_fault, is_done-bind}
use statsd.Packet.Metric.{handle_valid, handle_fields, increment}
use statsd.Stats.{Stats, Names, Config}
use statsd.Packet.Faults.{is_plain, access-plain, rate_read, fault_of-handle_valid}

module _ {ℓ} {N : Type ℓ} (num : JsNumber N) where
  -- Every metric that passes the check has a sample rate that is read.
  abbrev pub rates_read : List Text → Bool
  rates_read [] = true
  rates_read (bit ∷ bits) =
      (not (is_valid_packet num (split (codes "|") bit)) || rate_read (split (codes "|") bit))
      && rates_read bits

  -- Every line that is not empty has a key that `Object.prototype` does not have, and the rates of its
  -- valid metrics are read.
  abbrev pub are_safe : Config → List Text → Bool
  are_safe conf [] = true
  are_safe conf (line ∷ lines) =
      (is_empty line
        || (not (is_inherited (key_of conf.key_name_sanitize line)) && rates_read (bits_of line)))
      && are_safe conf lines

module _ {ℓ} {N : Type ℓ} (num : JsNumber N) (names : Names) (conf : Config) where
  fields_done :
      (key : Text) (fields : List Text) (s : Stats N)
      → is_inherited key ≡ false
      → (not (is_valid_packet num fields) || rate_read fields) ≡ true
      → is_done (handle_fields num names conf key fields s) ≡ true
  unfolding handle_fields
  fields_done key fields s h r = elim (Bool-cases (is_valid_packet num fields)) [
    | inl v ↦
        let known = fault_of-handle_valid num conf key fields s v h in
        rw v (done_of_fault (handle_valid num conf key fields s) (ground arith))
    | inr v ↦ rw v refl
  ]

  bits_done :
      (key : Text) (bits : List Text) (s : Stats N)
      → is_inherited key ≡ false
      → rates_read num bits ≡ true
      → is_done (handle_bits num names conf key bits s) ≡ true
  unfolding handle_bits
  bits_done key [] s h r = refl
  bits_done key (bit ∷ bits) s h r =
      is_done-bind (handle_fields num names conf key (split (codes "|") bit) s)
        (handle_bits num names conf key bits)
        (fields_done key (split (codes "|") bit) s h (ground arith))
        λ t. bits_done key bits t h (ground arith)

  count_at_done :
      (a : Access ℕ) (key : Text) (s : Stats N)
      → is_plain a ≡ true
      → is_done (count_at a key s) ≡ true
  unfolding count_at
  count_at_done (own n) key s h = refl
  count_at_done inherited key s h = cc
  count_at_done missing key s h = refl

  count_key_done :
      (key : Text) (s : Stats N) → is_inherited key ≡ false → is_done (count_key conf key s) ≡ true
  unfolding count_key
  count_key_done key s h = elim (Bool-cases conf.count_keys) [
    | inl e ↦ simp e (count_at_done _ key s (access-plain key s.key_counter h))
    | inr e ↦ simp e refl
  ]

  line_done :
      (line : Text) (s : Stats N)
      → (is_empty line
          || (not (is_inherited (key_of conf.key_name_sanitize line))
              && rates_read num (bits_of line)))
        ≡ true
      → is_done (handle_line num names conf line s) ≡ true
  unfolding handle_line
  line_done line s safe = elim (Bool-cases (is_empty line)) [
    | inl e ↦ rw e refl
    | inr e ↦ rw e (
        is_done-bind (count_key conf (key_of conf.key_name_sanitize line) _) _
          (count_key_done _ _ (ground arith))
          λ t. bits_done _ (bits_of line) t (ground arith) (ground arith))
  ]

  lines_done :
      (lines : List Text) (s : Stats N)
      → are_safe num conf lines ≡ true
      → is_done (handle_lines num names conf lines s) ≡ true
  unfolding handle_lines
  lines_done [] s h = refl
  lines_done (line ∷ lines) s h =
      is_done-bind (handle_line num names conf line s) (handle_lines num names conf lines)
        (line_done line s (ground arith)) λ t. lines_done lines t (ground arith)

  -- The handler returns on every packet whose lines are safe: their keys are no properties of
  -- `Object.prototype`, and the rates of their valid metrics begin with a digit or a dot behind the `@`.
  pub handle_packet_total :
      (now : ℕ) (packet : Text) (s : Stats N)
      → are_safe num conf (lines_of packet) ≡ true
      → is_done (handle_packet num names conf now packet s) ≡ true
  unfolding handle_packet
  handle_packet_total now packet s h =
      let begun = record s { counters = increment num names.packets_received s.counters } in
      is_done-bind (handle_lines num names conf (lines_of packet) begun) _
        (lines_done (lines_of packet) begun h) λ t. refl
