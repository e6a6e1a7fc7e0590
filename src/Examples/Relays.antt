-- ===== src/Examples/Relays.antt =====
-- A repeater in front of a TCP server, and the theorem about it.
use mathlib.Core.List.{flatten}
use statsd.Js.Bytes.{IsAscii, encode_utf8}
use statsd.Base.{ℕ, All, arith, ◌≡◌, refl, true, false, List, [], ◌∷◌, some, map}
use statsd.Examples.Numbers.{Whole, whole_number}
use statsd.Js.Text.{Text, codes}
use statsd.Packet.{handle_lines, lines_of}
use statsd.Repeater.{
  Target, RepeaterConfig, Pool, Acquired, client, tcp, init, create_pool, process, write_all,
  send_on,
}
use statsd.Repeater.Relay.{text_lines, relayed, relay_lem}
use statsd.Startup.{names_of}
use statsd.Stats.{Stats, Config}
use statsd.Tcp.{receive_bytes}

abbrev other : Target
other = record { host = codes "b"; port = codes "8125" }

abbrev relaying : RepeaterConfig
relaying = record {
  repeater = some (other ∷ []);
  repeater_protocol = some (codes "tcp");
  debug = false;
}

relaying_lem : init relaying ≡ tcp (create_pool other ∷ [])
unfolding init
relaying_lem = refl

abbrev conf : Config
conf = record {
  delete_counters = false;
  delete_timers = false;
  delete_sets = false;
  delete_gauges = false;
  gauges_max_ttl = 1;
  key_name_sanitize = true;
  count_keys = false;
}

-- the one client of the pool
abbrev connection : Text
connection = codes "connection"

abbrev acquire : Pool → Acquired Text
acquire pool = client connection

-- a packet from UDP, and one that ends its line, as TCP's do
abbrev packets : List Text
packets = codes "a:1|c" ∷ codes "b:2|c\n" ∷ []

-- the connection cuts the second line in two
abbrev chunks : List (List ℕ)
chunks = codes "a:1|c\nb:2" ∷ codes "|c\n\n" ∷ []

spelled : flatten chunks ≡ flatten (relayed false acquire (create_pool other) connection packets)
unfolding flatten process write_all send_on encode_utf8
spelled = refl

packets-IsAscii : All IsAscii packets
packets-IsAscii = omega arith

relay_lem_example :
    let (delivered, buffer) = receive_bytes chunks [] in
    (flatten (map text_lines delivered) ≡ flatten (map text_lines packets))
    × (buffer ≡ [])
    × ((s : Stats Whole)
        → handle_lines whole_number (names_of []) conf (flatten (map lines_of delivered)) s
          ≡ handle_lines whole_number (names_of []) conf (flatten (map lines_of packets)) s)
relay_lem_example =
    relay_lem false acquire (create_pool other) connection whole_number (names_of []) conf packets
      chunks refl packets-IsAscii spelled
