-- ===== src/Packet/Invariant/Handler.antt =====
-- The loops of `handlePacket` in stats.js: the invariant of the tables.
use statsd.Base.{refl, ℕ, ◌+◌, ◌≤◌, ◌≡◌, List, [], ◌∷◌, arith, Bool-cases, inl, inr}
use statsd.Js.Number.{JsNumber}
use statsd.Js.Object.{Access, own, inherited, missing, put}
use statsd.Js.Object.Laws.{lookup-put}
use statsd.Js.Text.{Text, is_empty}
use statsd.Packet.{
  count_key, count_at, handle_bits, handle_line, handle_lines, handle_packet, lines_of,
}
use statsd.Packet.Outcomes.{Holds, Holds-bind, Holds-done}
use statsd.Packet.Invariant.{WellFormed, handle_fields_lem}
use statsd.Packet.Metric.{done, increment}
use statsd.Stats.{Stats, Names, Config, IsWellFormed, same-IsWellFormed}

module _ {ℓ} {N : Type ℓ} (num : JsNumber N) (conf : Config) (top : ℕ)
    (ttl : (1 ≤ conf.gauges_max_ttl) × (conf.gauges_max_ttl ≤ top)) where
  -- A change of `counters` alone.
  counters_lem :
      (s : Stats N) (k : Text)
      → WellFormed num conf top s
      → WellFormed num conf top (record s { counters = increment num k s.counters })
  counters_lem s k w = same-IsWellFormed w refl refl refl refl

  key_counter_lem :
      (key : Text) (n : ℕ) (s : Stats N)
      → 1 ≤ n
      → WellFormed num conf top s
      → WellFormed num conf top (record s { key_counter = put key n s.key_counter })
  key_counter_lem key n s h w = record {
    paired = w.paired;
    numeric = w.numeric;
    alive = w.alive;
    counted = λ k m p. ground (arith, lookup-put key k n s.key_counter, w.counted k m);
    once = w.once;
  }

  count_at_lem :
      (a : Access ℕ) (key : Text) (s : Stats N)
      → WellFormed num conf top s
      → Holds (WellFormed num conf top) (count_at a key s)
  unfolding count_at
  count_at_lem (own n) key s w = key_counter_lem key (n + 1) s (omega arith) w
  count_at_lem inherited key s w = tt
  count_at_lem missing key s w = key_counter_lem key 1 s (omega arith) w

  count_key_lem :
      (key : Text) (s : Stats N)
      → WellFormed num conf top s
      → Holds (WellFormed num conf top) (count_key conf key s)
  unfolding count_key
  count_key_lem key s w = elim (Bool-cases conf.count_keys) [
    | inl e ↦ simp e (count_at_lem _ key s w)
    | inr e ↦ simp e w
  ]

  handle_bits_lem :
      (names : Names) (key : Text) (bits : List Text) (s : Stats N)
      → WellFormed num conf top s
      → Holds (WellFormed num conf top) (handle_bits num names conf key bits s)
  unfolding handle_bits
  handle_bits_lem names key [] s w = w
  handle_bits_lem names key (bit ∷ bits) s w =
      Holds-bind _ _ _ (handle_fields_lem num conf top ttl names key _ s w)
        λ t. handle_bits_lem names key bits t

  handle_line_lem :
      (names : Names) (line : Text) (s : Stats N)
      → WellFormed num conf top s
      → Holds (WellFormed num conf top) (handle_line num names conf line s)
  unfolding handle_line
  handle_line_lem names line s w = elim (Bool-cases (is_empty line)) [
    | inl e ↦ rw e w
    | inr e ↦
        rw e (
          Holds-bind _ _ _ (count_key_lem _ _ (counters_lem s _ w))
            λ t. handle_bits_lem names _ _ t)
  ]

  handle_lines_lem :
      (names : Names) (lines : List Text) (s : Stats N)
      → WellFormed num conf top s
      → Holds (WellFormed num conf top) (handle_lines num names conf lines s)
  unfolding handle_lines
  handle_lines_lem names [] s w = w
  handle_lines_lem names (line ∷ lines) s w =
      Holds-bind _ _ _ (handle_line_lem names line s w) λ t. handle_lines_lem names lines t

  stamp_lem :
      (now : ℕ) (t : Stats N)
      → WellFormed num conf top t
      → WellFormed num conf top (record t { last_msg_seen = now })
  stamp_lem now t v = same-IsWellFormed v refl refl refl refl

  packet_lem :
      (names : Names) (now : ℕ) (packet : Text) (s : Stats N)
      → WellFormed num conf top s
      → Holds (WellFormed num conf top) (handle_packet num names conf now packet s)
  unfolding handle_packet
  packet_lem names now packet s w =
      let begun = record s { counters = increment num names.packets_received s.counters } in
      Holds-bind (IsWellFormed num top) (handle_lines num names conf (lines_of packet) begun)
        (λ t. done (record t { last_msg_seen = now }))
        (handle_lines_lem names (lines_of packet) begun (counters_lem s names.packets_received w))
        (stamp_lem now)

  -- Whatever a packet holds, the state that its handler returns is well formed if the state before
  -- was: timers have counters and hold no NaN, times to live are positive, at most a bound and stand
  -- once, counted keys were seen. The configured time to live must be positive and within the bound.
  pub handle_packet-IsWellFormed :
      (names : Names) (now : ℕ) (packet : Text) (s t : Stats N)
      → IsWellFormed num top s
      → handle_packet num names conf now packet s ≡ done t
      → IsWellFormed num top t
  handle_packet-IsWellFormed names now packet s t w =
      Holds-done (IsWellFormed num top) (handle_packet num names conf now packet s) t
        (packet_lem names now packet s w)
