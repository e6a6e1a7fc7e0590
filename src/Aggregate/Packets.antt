-- ===== src/Aggregate/Packets.antt =====
-- A whole packet, and several, against the view of the tables.
use statsd.Base.{ℕ, ◌≡◌, refl, sym, ap, ◌∙◌, List, [], ◌∷◌, ◌++◌, Bool-cases, inl, inr}
use statsd.Aggregate.{
  Event, bumped, seen, View, view, apply, apply_all, metric_event, bit_events, line_events,
  lines_events, packet_events,
}
use statsd.Aggregate.Refines.{handle_fields-After, count_key-After}
use statsd.Aggregate.Tables.{increment-After}
use statsd.Js.Number.{JsNumber}
use statsd.Js.Text.{Text, codes, is_empty, split}
use statsd.Packet.{
  count_key, handle_bits, handle_line, handle_lines, handle_packet, lines_of, bits_of, key_of,
}
use statsd.Packet.Outcomes.{Holds, Holds-map, Holds-done}
use statsd.Packet.Metric.{Outcome, done, fault, ◌>>=◌, handle_fields, increment}
use statsd.Stats.{Stats, Names, Config}

module _ {ℓ} {N : Type ℓ} (num : JsNumber N) (names : Names) (conf : Config) where
  -- The state has the view that events make of another's.
  abbrev AfterAll : List (Event N) → Stats N → Stats N → Type ℓ
  AfterAll events s t = view t ≡ apply_all num conf events (view s)

  apply_all-append :
      (es fs : List (Event N)) (v : View N)
      → apply_all num conf (es ++ fs) v ≡ apply_all num conf fs (apply_all num conf es v)
  apply_all-append [] fs v = refl
  apply_all-append (e ∷ es) fs v = apply_all-append es fs (apply num conf e v)

  AfterAll-bind :
      (es fs : List (Event N)) (s : Stats N) (m : Outcome (Stats N))
      (f : Stats N → Outcome (Stats N))
      → Holds (AfterAll es s) m
      → ((t : Stats N) → Holds (AfterAll fs t) (f t))
      → Holds (AfterAll (es ++ fs) s) (m >>= f)
  AfterAll-bind es fs s (done t) f h k =
      Holds-map (AfterAll fs t) (AfterAll (es ++ fs) s) (f t)
        (λ u e. e ∙ ap (apply_all num conf fs) h ∙ sym (apply_all-append es fs (view s))) (k t)
  AfterAll-bind es fs s (fault e) f h k = tt

  bits_After :
      (key : Text) (bits : List Text) (s : Stats N)
      → Holds (AfterAll (bit_events num names key bits) s) (handle_bits num names conf key bits s)
  unfolding handle_bits
  bits_After key [] s = refl
  bits_After key (bit ∷ bits) s =
      let fields = split (codes "|") bit in
      AfterAll-bind (metric_event num names key fields ∷ []) (bit_events num names key bits) s
        (handle_fields num names conf key fields s) (handle_bits num names conf key bits)
        (handle_fields-After num conf names key fields s) (bits_After key bits)

  line_After :
      (line : Text) (s : Stats N)
      → Holds (AfterAll (line_events num names conf line) s) (handle_line num names conf line s)
  unfolding handle_line
  line_After line s = elim (Bool-cases (is_empty line)) [
    | inl e ↦ rw e refl
    | inr e ↦
        let key = key_of conf.key_name_sanitize line in
        let begun = record s { counters = increment num names.metrics_received s.counters } in
        rw e (
          Holds-map _
            (AfterAll
              (bumped names.metrics_received ∷ seen key ∷ bit_events num names key (bits_of line))
              s)
            (count_key conf key begun >>= handle_bits num names conf key (bits_of line))
            (λ t h.
              h
              ∙ ap (apply_all num conf (seen key ∷ bit_events num names key (bits_of line)))
                  (increment-After num conf names.metrics_received s))
            (AfterAll-bind (seen key ∷ []) (bit_events num names key (bits_of line)) begun
              (count_key conf key begun) (handle_bits num names conf key (bits_of line))
              (count_key-After num conf key begun) (bits_After key (bits_of line))))
  ]

  lines_After :
      (lines : List Text) (s : Stats N)
      → Holds (AfterAll (lines_events num names conf lines) s) (handle_lines num names conf lines s)
  unfolding handle_lines
  lines_After [] s = refl
  lines_After (line ∷ lines) s =
      AfterAll-bind (line_events num names conf line) (lines_events num names conf lines) s
        (handle_line num names conf line s) (handle_lines num names conf lines) (line_After line s)
        (lines_After lines)

  received_After :
      (now : ℕ) (packet : Text) (s : Stats N)
      → Holds
          (AfterAll (packet_events num names conf packet) s)
          (handle_packet num names conf now packet s)
  unfolding handle_packet
  received_After now packet s =
      let begun = record s { counters = increment num names.packets_received s.counters } in
      let events = lines_events num names conf (lines_of packet) in
      Holds-map (AfterAll (events ++ []) begun) (AfterAll (packet_events num names conf packet) s)
        (handle_packet num names conf now packet s)
        (λ t h.
          h
          ∙ apply_all-append events [] (view begun)
          ∙ ap (apply_all num conf events) (increment-After num conf names.packets_received s))
        (AfterAll-bind events [] begun (handle_lines num names conf (lines_of packet) begun)
          (λ t. done (record t { last_msg_seen = now })) (lines_After (lines_of packet) begun)
          (λ t. refl))

  -- When `handlePacket` returns, the view of the tables is the one that the packet's events make of
  -- the view before it.
  pub handle_packet_refines :
      (now : ℕ) (packet : Text) (s t : Stats N)
      → handle_packet num names conf now packet s ≡ done t
      → view t ≡ apply_all num conf (packet_events num names conf packet) (view s)
  handle_packet_refines now packet s t h =
      Holds-done (AfterAll (packet_events num names conf packet) s)
        (handle_packet num names conf now packet s) t (received_After now packet s) h

  -- Packets one after the other, each with the time it came at.
  abbrev pub handle_packets : List (ℕ × Text) → Stats N → Outcome (Stats N)
  handle_packets [] s = done s
  handle_packets ((now, packet) ∷ packets) s =
      handle_packet num names conf now packet s >>= handle_packets packets

  abbrev pub packets_events : List (ℕ × Text) → List (Event N)
  packets_events [] = []
  packets_events ((now, packet) ∷ packets) =
      packet_events num names conf packet ++ packets_events packets

  handle_packets-AfterAll :
      (packets : List (ℕ × Text)) (s : Stats N)
      → Holds (AfterAll (packets_events packets) s) (handle_packets packets s)
  handle_packets-AfterAll [] s = refl
  handle_packets-AfterAll ((now, packet) ∷ packets) s =
      AfterAll-bind (packet_events num names conf packet) (packets_events packets) s
        (handle_packet num names conf now packet s) (handle_packets packets)
        (received_After now packet s) (handle_packets-AfterAll packets)

  pub handle_packets-view :
      (packets : List (ℕ × Text)) (s t : Stats N)
      → handle_packets packets s ≡ done t
      → view t ≡ apply_all num conf (packets_events packets) (view s)
  handle_packets-view packets s t h =
      Holds-done (AfterAll (packets_events packets) s) (handle_packets packets s) t
        (handle_packets-AfterAll packets s) h
