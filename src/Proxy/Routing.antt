-- ===== src/Proxy/Routing.antt =====
-- proxy.js: the packets that come in, and the datagrams that go to the nodes.
use statsd.Base.{
  ◌≡◌, ◌≢◌, refl, ap, ◌∙◌, true, false, List, [], ◌∷◌, ◌++◌, Option, none, some, if◌then◌else◌, All,
  get_elem?, arith, Bool-cases, inl, inr, map,
}
use statsd.Js.Text.{Text, codes, contains, split, member}
use statsd.Js.Text.Split.{split_one, split_at, split_clean}
use statsd.Proxy.{Node, node_id}
use statsd.Proxy.Ring.{Hashring, IsRing}

abbrev pub first_of : List Text → Text
first_of [] = []
first_of (t ∷ ts) = t

-- the key that a message is hashed by, and the message
pub record Message : Type 0 where
  pub key : Text
  pub body : Text

-- `packet.emit('send', …)` for one metric, unless it is empty
unfoldable pub message : Text → List Message
unfolding split
message [] = []
message (c ∷ s) = record { key = first_of (split (codes ":") (c ∷ s)); body = c ∷ s } ∷ []

unfoldable pub messages : List Text → List Message
unfolding message
messages [] = []
messages (t ∷ ts) = message t ++ messages ts

-- The listener of the server: what it sends of a packet.
unfoldable pub messages_of : Text → List Message
unfolding messages message contains split
messages_of packet =
    if contains b'\n' packet then messages (split (codes "\n") packet) else message packet

-- What `client.send` gets.
pub record Datagram : Type 0 where
  pub host : Option Text
  pub port : Option Text
  pub body : Text

-- `host_config[0]`, `host_config[1]` and the body
abbrev pub datagram_of : List Text → Text → Datagram
datagram_of host_config body = record {
  host = get_elem? host_config 0;
  port = get_elem? host_config 1;
  body = body;
}

-- a message for a server of the ring
unfoldable pub datagram : Text → Text → Datagram
unfolding split
datagram statsd_host body = datagram_of (split (codes ":") statsd_host) body

abbrev pub sent : Option Text → Text → List Datagram
sent none body = []
sent (some statsd_host) body = datagram statsd_host body ∷ []

module _ {ℓ} {R : Type ℓ} (h : Hashring R) where
  -- The listener of `send`, for one message after the other; with no node a message is dropped.
  unfoldable pub send : R → List Message → List Datagram
  unfolding datagram
  send ring [] = []
  send ring (m ∷ ms) = sent (h.get ring m.key) m.body ++ send ring ms

  -- `All` of the datagrams come from servers of the ring.
  abbrev pub IsFromRing : R → Datagram → Type 0
  IsFromRing ring d = (n : Text) × (member n (h.servers ring) ≡ true) × (d ≡ datagram n d.body)

  send_sent :
      (r : IsRing h) (ring : R) (key body : Text) (ds : List Datagram)
      → All (IsFromRing ring) ds
      → All (IsFromRing ring) (sent (h.get ring key) body ++ ds)
  unfolding datagram
  send_sent r ring key body ds hs = go (h.get ring key) refl
    where
      go :
          (found : Option Text)
          → h.get ring key ≡ found
          → All (IsFromRing ring) (sent found body ++ ds)
      go none e = hs
      go (some n) e = ((n, r.get_member ring key n e, refl), hs)

  -- Every datagram goes to a server that is in the ring.
  pub send_lem :
      (r : IsRing h) (ring : R) (ms : List Message) → All (IsFromRing ring) (send ring ms)
  unfolding send datagram
  send_lem r ring [] = tt
  send_lem r ring (m ∷ ms) = send_sent r ring m.key m.body (send ring ms) (send_lem r ring ms)

abbrev pub bodies : List Message → List Text
bodies [] = []
bodies (m ∷ ms) = m.body ∷ bodies ms

abbrev pub keys_of : List Message → List Text
keys_of [] = []
keys_of (m ∷ ms) = m.key ∷ keys_of ms

-- the texts that are not empty
abbrev pub non_empty : List Text → List Text
non_empty [] = []
non_empty ([] ∷ ts) = non_empty ts
non_empty ((c ∷ s) ∷ ts) = (c ∷ s) ∷ non_empty ts

messages_lem :
    (ts : List Text)
    → (bodies (messages ts) ≡ non_empty ts)
      × (keys_of (messages ts) ≡ map (λ t. first_of (split (codes ":") t)) (non_empty ts))
unfolding messages message
messages_lem [] = (refl, refl)
messages_lem ([] ∷ ts) = messages_lem ts
messages_lem ((c ∷ s) ∷ ts) =
    let (b, k) = messages_lem ts in
    (ap (◌∷◌ (c ∷ s)) b, ap (◌∷◌ (first_of (split (codes ":") (c ∷ s)))) k)

message-messages : (s : Text) → message s ≡ messages (s ∷ [])
unfolding messages message
message-messages [] = refl
message-messages (c ∷ s) = refl

-- With a newline or without one, the messages of a packet are its lines that are not empty, in their
-- order, each with what stands before its first colon for a key.
messages_of_lem :
    (packet : Text)
    → let lines = non_empty (split (codes "\n") packet) in
      (bodies (messages_of packet) ≡ lines)
      × (keys_of (messages_of packet) ≡ map (λ t. first_of (split (codes ":") t)) lines)
unfolding messages_of
messages_of_lem packet = elim (Bool-cases (contains b'\n' packet)) [
  | inl e ↦ rw e (messages_lem (split (codes "\n") packet))
  | inr e ↦
      let one : split (codes "\n") packet ≡ packet ∷ [] = split_one b'\n' packet e in
      rw (e, one, message-messages packet) (messages_lem (packet ∷ []))
]

-- The name of a node is read back to its host and its port, if neither has a colon.
datagram-node_id :
    (node : Node) (body : Text)
    → contains b':' node.host ≡ false
    → contains b':' node.port ≡ false
    → datagram (node_id node) body
      ≡ record { host = some node.host; port = some node.port; body = body }
unfolding datagram node_id
datagram-node_id node body h p =
    let parts : split (codes ":") (node.host ++ (b':' ∷ node.port)) ≡ node.host ∷ node.port ∷ [] =
      split_at b':' node.host node.port h ∙ ap (◌∷◌ node.host) (split_one b':' node.port p) in
    ap (λ host_config. datagram_of host_config body) parts

-- The name of a node with a colon in its host, such as an IPv6 address, is read back to another host.
pub datagram_colon :
    (node : Node) (body : Text)
    → contains b':' node.host ≡ true
    → (datagram (node_id node) body).host ≢ some node.host
unfolding datagram node_id split
datagram_colon node body h e =
    let clean = (split_clean b':' (node_id node)).0 in ground (arith, clean)
