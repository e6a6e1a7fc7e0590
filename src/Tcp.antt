-- ===== src/Tcp.antt =====
-- servers/tcp.js: what arrives on a connection is cut behind its last newline; the rest waits.
pub mod Stream
use statsd.Base.{
  ℕ, suc, Bool, true, false, List, [], ◌∷◌, ◌++◌, Option, none, some, ◌==◌, if◌then◌else◌, take,
  map, drop, length,
}
use statsd.Js.Bytes.{decode_ascii}
use statsd.Js.Text.{Text}

abbrev pub newline : ℕ
newline = b'\n'

-- `s.lastIndexOf(c)`; `none` for -1
unfoldable pub last_index_of : ℕ → Text → Option ℕ
last_index_of c [] = none
last_index_of c (x ∷ s) = elim (last_index_of c s) [
  | none ↦ if x == c then some 0 else none
  | some i ↦ some (suc i)
]

-- Where a packet comes from, and its length.
pub record Rinfo {ℓ} (A : Type ℓ) : Type ℓ where
  pub address : A
  pub port : ℕ
  pub family : A
  pub size : ℕ

-- The remote end of a stream; `family` is missing where `address()` gives nothing.
pub record Remote {ℓ} (A : Type ℓ) : Type ℓ where
  pub remote_address : A
  pub remote_port : ℕ
  pub family : Option A

unfoldable pub rinfo {ℓ} : {A : Type ℓ} → A → Remote A → Text → Rinfo A
rinfo ipv4 stream packet = record {
  address = stream.remote_address;
  port = stream.remote_port;
  family = elim stream.family [ none ↦ ipv4 | some f ↦ f ];
  size = length packet;
}

-- The listener of `data`: the new buffer, and the packet for the callback.
unfoldable pub on_data : Text → Text → Text × Option Text
unfolding last_index_of
on_data chunk before =
    let buffer = before ++ chunk in
    elim (last_index_of newline buffer) [
      | none ↦ (buffer, none)
      | some offset ↦ (drop (suc offset) buffer, some (take (suc offset) buffer))
    ]

-- What the callback has got, with one more packet in front.
abbrev pub emit : Option Text → List Text → List Text
emit none packets = packets
emit (some p) packets = p ∷ packets

-- The packets of a connection on which the chunks arrive, and the buffer at its end.
unfoldable pub receive : List Text → Text → List Text × Text
unfolding on_data
receive [] buffer = ([], buffer)
receive (chunk ∷ chunks) buffer =
    let step = on_data chunk buffer in
    let rest = receive chunks step.0 in (emit step.1 rest.0, rest.1)

-- The chunks as bytes: the stream's encoding is ASCII.
unfoldable pub receive_bytes : List (List ℕ) → Text → List Text × Text
unfolding decode_ascii receive
receive_bytes chunks buffer = receive (map decode_ascii chunks) buffer
