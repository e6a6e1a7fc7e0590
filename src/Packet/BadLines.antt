-- ===== src/Packet/BadLines.antt =====
-- stats.js, `handlePacket`: the count of bad lines.
use native.Mathlib.Nat.{add_assoc}
use statsd.Base.{
  ℕ, ◌+◌, ◌≡◌, refl, subst, List, [], ◌∷◌, arith, if◌then◌else◌, Bool-cases, inl, inr,
}
use statsd.Helpers.{is_valid_packet}
use statsd.Js.Number.{JsNumber}
use statsd.Js.Object.{Access, own, inherited, missing}
use statsd.Js.Text.{Text, codes, is_empty, split}
use statsd.Packet.{
  count_key, count_at, handle_bits, handle_line, handle_lines, handle_packet, lines_of, bits_of,
  key_of,
}
use statsd.Packet.Frame.{handle_valid_lem, OnlyKey}
use statsd.Packet.Outcomes.{Holds, Holds-map}
use statsd.Packet.Metric.{
  Outcome, done, fault, ◌>>=◌, count_bad_line, handle_valid, handle_fields, increment,
}
use statsd.Stats.{Stats, Names, Config}

module _ {ℓ} {N : Type ℓ} (num : JsNumber N) where
  -- How many of the metrics are not valid.
  abbrev pub bad_bits : List Text → ℕ
  bad_bits [] = 0
  bad_bits (bit ∷ bits) =
      (if is_valid_packet num (split (codes "|") bit) then 0 else 1) + bad_bits bits

  -- How many metrics of all the lines are not valid; an empty line has none.
  abbrev pub bad_in_lines : List Text → ℕ
  bad_in_lines [] = 0
  bad_in_lines (line ∷ lines) =
      (if is_empty line then 0 else bad_bits (bits_of line)) + bad_in_lines lines

-- The state counts `n` bad lines.
abbrev Counts {ℓ} : {N : Type ℓ} → ℕ → Stats N → Type 0
Counts n s = s.bad_lines_seen ≡ n

-- A result that adds to the count, and then one that adds more.
Counts-bind {ℓ} :
    {N : Type ℓ} (m : Outcome (Stats N)) (f : Stats N → Outcome (Stats N)) (b n : ℕ)
    → Holds (Counts b) m
    → ((t : Stats N) → Holds (Counts (t.bad_lines_seen + n)) (f t))
    → Holds (Counts (b + n)) (m >>= f)
Counts-bind (done t) f b n h k = subst (λ c. Holds (Counts (c + n)) (f t)) h (k t)
Counts-bind (fault e) f b n h k = tt

Counts-eq {ℓ} :
    {N : Type ℓ} (m : Outcome (Stats N)) {a b : ℕ} → a ≡ b → Holds (Counts a) m → Holds (Counts b) m
Counts-eq m e h = subst (λ c. Holds (Counts c) m) e h

module _ {ℓ} {N : Type ℓ} (num : JsNumber N) (names : Names) (conf : Config) where
  fields_bad :
      (key : Text) (fields : List Text) (s : Stats N)
      → Holds
          (Counts (s.bad_lines_seen + (if is_valid_packet num fields then 0 else 1)))
          (handle_fields num names conf key fields s)
  unfolding handle_fields count_bad_line
  fields_bad key fields s = elim (Bool-cases (is_valid_packet num fields)) [
    | inl e ↦ rw e (
        Holds-map (OnlyKey key s) (Counts (s.bad_lines_seen + 0))
          (handle_valid num conf key fields s) (λ t o. omega (arith, o.bad_lines_seen))
          (handle_valid_lem num key s conf fields))
    | inr e ↦ rw e refl
  ]

  bits_bad :
      (key : Text) (bits : List Text) (s : Stats N)
      → Holds
          (Counts (s.bad_lines_seen + bad_bits num bits))
          (handle_bits num names conf key bits s)
  unfolding handle_bits
  bits_bad key [] s = omega arith
  bits_bad key (bit ∷ bits) s =
      let fields = split (codes "|") bit in
      let bad : ℕ = if is_valid_packet num fields then 0 else 1 in
      let first = handle_fields num names conf key fields s in
      let rest = handle_bits num names conf key bits in
      Counts-eq (first >>= rest) (add_assoc s.bad_lines_seen bad (bad_bits num bits)) (
        Counts-bind first rest (s.bad_lines_seen + bad) (bad_bits num bits)
          (fields_bad key fields s) (bits_bad key bits))

  count_at_bad :
      (a : Access ℕ) (key : Text) (s : Stats N) → Holds (Counts s.bad_lines_seen) (count_at a key s)
  unfolding count_at
  count_at_bad (own n) key s = refl
  count_at_bad inherited key s = tt
  count_at_bad missing key s = refl

  count_key_bad :
      (key : Text) (s : Stats N) → Holds (Counts s.bad_lines_seen) (count_key conf key s)
  unfolding count_key
  count_key_bad key s = elim (Bool-cases conf.count_keys) [
    | inl e ↦ simp e (count_at_bad _ key s)
    | inr e ↦ simp e refl
  ]

  line_bad :
      (line : Text) (s : Stats N)
      → Holds
          (Counts (s.bad_lines_seen + (if is_empty line then 0 else bad_bits num (bits_of line))))
          (handle_line num names conf line s)
  unfolding handle_line
  line_bad line s = elim (Bool-cases (is_empty line)) [
    | inl e ↦ rw e (omega arith)
    | inr e ↦
        let key = key_of conf.key_name_sanitize line in
        let begun = record s { counters = increment num names.metrics_received s.counters } in
        rw e (
          Counts-bind (count_key conf key begun) (handle_bits num names conf key (bits_of line))
            s.bad_lines_seen (bad_bits num (bits_of line)) (count_key_bad key begun)
            (bits_bad key (bits_of line)))
  ]

  lines_bad :
      (lines : List Text) (s : Stats N)
      → Holds
          (Counts (s.bad_lines_seen + bad_in_lines num lines))
          (handle_lines num names conf lines s)
  unfolding handle_lines
  lines_bad [] s = omega arith
  lines_bad (line ∷ lines) s =
      let bad : ℕ = if is_empty line then 0 else bad_bits num (bits_of line) in
      let first = handle_line num names conf line s in
      let rest = handle_lines num names conf lines in
      Counts-eq (first >>= rest) (add_assoc s.bad_lines_seen bad (bad_in_lines num lines)) (
        Counts-bind first rest (s.bad_lines_seen + bad) (bad_in_lines num lines) (line_bad line s)
          (lines_bad lines))

  -- If the handler returns, `stats.messages.bad_lines_seen` has grown by the number of metrics in the
  -- packet's lines that are not valid, and `last_msg_seen` is the time of the packet.
  pub handle_packet-bad_lines :
      (now : ℕ) (packet : Text) (s t : Stats N)
      → handle_packet num names conf now packet s ≡ done t
      → (t.bad_lines_seen ≡ s.bad_lines_seen + bad_in_lines num (lines_of packet))
        × (t.last_msg_seen ≡ now)
  unfolding handle_packet
  handle_packet-bad_lines now packet s t h =
      let begun = record s { counters = increment num names.packets_received s.counters } in
      finish (handle_lines num names conf (lines_of packet) begun)
        (lines_bad (lines_of packet) begun) h
    where
      finish :
          (m : Outcome (Stats N))
          → Holds (Counts (s.bad_lines_seen + bad_in_lines num (lines_of packet))) m
          → (m >>= λ u. done (record u { last_msg_seen = now })) ≡ done t
          → (t.bad_lines_seen ≡ s.bad_lines_seen + bad_in_lines num (lines_of packet))
            × (t.last_msg_seen ≡ now)
      finish (done u) c e = ground arith
      finish (fault f) c e = cc
