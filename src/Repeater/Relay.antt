-- ===== src/Repeater/Relay.antt =====
-- backends/repeater.js with another daemon's servers/tcp.js and stats.js behind it.
use mathlib.Core.List.{flatten}
use statsd.Base.{
  ℕ, ◌≡◌, refl, sym, ap, ap₂, ◌∙◌, Bool, true, false, List, [], ◌∷◌, ◌++◌, map, if◌then◌else◌, All,
  append_assoc, append-nil, arith, Bool-cases, inl, inr,
}
use statsd.Js.Number.{JsNumber}
use statsd.Js.Bytes.{
  IsAscii, encode_utf8, decode_ascii, decode_ascii-encode_utf8, flatten-decode_ascii,
}
use statsd.Js.Text.{Text, codes, contains, is_empty, split}
use statsd.Js.Text.Split.{split_one, split-append}
use statsd.Packet.{lines_of, handle_line, handle_lines}
use statsd.Packet.Metric.{Outcome, done, fault, ◌>>=◌}
use statsd.Repeater.{Pool, Acquired, client, process, tcp, written, write_all, send_on}
use statsd.Stats.{Stats, Names, Config}
use statsd.Tcp.{newline, receive, receive_bytes}
use statsd.Tcp.Stream.{ends_line, receive_stream}

-- The lines that the handler does not skip.
abbrev pub filled : List Text → List Text
filled [] = []
filled (line ∷ lines) = if is_empty line then filled lines else line ∷ filled lines

filled-append : (xs ys : List Text) → filled (xs ++ ys) ≡ filled xs ++ filled ys
filled-append [] ys = refl
filled-append (x ∷ xs) ys = elim (Bool-cases (is_empty x)) [
  | inl e ↦ rw e (filled-append xs ys)
  | inr e ↦ rw e (ap (◌∷◌ x) (filled-append xs ys))
]

-- with a newline or without, a packet is split at its newlines
lines_of-split : (p : Text) → lines_of p ≡ split (codes "\n") p
unfolding lines_of
lines_of-split p = elim (Bool-cases (contains newline p)) [
  | inl e ↦ rw e refl
  | inr e ↦ rw e (sym (split_one newline p e))
]

-- The lines of a text that are handled.
abbrev pub text_lines : Text → List Text
text_lines s = filled (lines_of s)

text_lines-append : (a b : Text) → text_lines (a ++ (newline ∷ b)) ≡ text_lines a ++ text_lines b
text_lines-append a b =
    ap filled (lines_of-split (a ++ (newline ∷ b)) ∙ split-append newline a b)
    ∙ filled-append (split (codes "\n") a) (split (codes "\n") b)
    ∙ ap₂ (λ x y. filled x ++ filled y) (sym (lines_of-split a)) (sym (lines_of-split b))

-- a text that ends a line, and the text before its end
last_line : (q : Text) → ends_line q ≡ true → (a : Text) × (q ≡ a ++ (newline ∷ []))
last_line [] h = cc
last_line (c ∷ []) h = ([], ap (λ d. d ∷ []) (ground arith))
last_line (c ∷ d ∷ q) h = let (a, e) = last_line (d ∷ q) h in (c ∷ a, ap (◌∷◌ c) e)

text_lines_end : (a : Text) → text_lines (a ++ (newline ∷ [])) ≡ text_lines a
unfolding lines_of
text_lines_end a = text_lines-append a [] ∙ append-nil (text_lines a)

ended-append :
    (q b : Text) → ends_line q ≡ true → text_lines (q ++ b) ≡ text_lines q ++ text_lines b
ended-append q b h =
    let (a, e) = last_line q h in
    ap (λ t. text_lines (t ++ b)) e
    ∙ ap text_lines (append_assoc a (newline ∷ []) b)
    ∙ text_lines-append a b
    ∙ ap (λ ls. ls ++ text_lines b) (sym (ap text_lines e ∙ text_lines_end a))

flatten_ended :
    (qs : List Text)
    → All (λ q. ends_line q ≡ true) qs
    → text_lines (flatten qs) ≡ flatten (map text_lines qs)
unfolding flatten lines_of
flatten_ended [] h = refl
flatten_ended (q ∷ qs) (e, h) =
    ended-append q (flatten qs) e ∙ ap (◌++◌ (text_lines q)) (flatten_ended qs h)

filled-flatten : (ps : List Text) → filled (flatten (map lines_of ps)) ≡ flatten (map text_lines ps)
unfolding flatten lines_of
filled-flatten [] = refl
filled-flatten (p ∷ ps) =
    filled-append (lines_of p) (flatten (map lines_of ps))
    ∙ ap (◌++◌ (text_lines p)) (filled-flatten ps)

-- A packet with the newline that the backend adds.
abbrev repeated : Text → Text
repeated packet = packet ++ codes "\n"

repeated-ends : (p : Text) → ends_line (repeated p) ≡ true
repeated-ends [] = refl
repeated-ends (c ∷ []) = refl
repeated-ends (c ∷ d ∷ p) = repeated-ends (d ∷ p)

repeated-All : (ps : List Text) → All (λ q. ends_line q ≡ true) (map repeated ps)
repeated-All [] = tt
repeated-All (p ∷ ps) = (repeated-ends p, repeated-All ps)

text_lines-repeated :
    (ps : List Text) → flatten (map text_lines (map repeated ps)) ≡ flatten (map text_lines ps)
unfolding flatten
text_lines-repeated [] = refl
text_lines-repeated (p ∷ ps) = ap₂ ◌++◌ (text_lines_end p) (text_lines-repeated ps)

-- what ends a line is no text without a newline
ends_line-contains : (s : Text) → contains newline s ≡ false → ends_line s ≡ false
unfolding contains
ends_line-contains [] h = refl
ends_line-contains (c ∷ []) h = ground arith
ends_line-contains (c ∷ d ∷ s) h = ground (arith, ends_line-contains (d ∷ s))

ends_line-append : (a : Text) (c : ℕ) (s : Text) → ends_line (a ++ (c ∷ s)) ≡ ends_line (c ∷ s)
ends_line-append [] c s = refl
ends_line-append (x ∷ []) c s = refl
ends_line-append (x ∷ y ∷ a) c s = ends_line-append (y ∷ a) c s

ends_line-flatten :
    (q : Text) (qs : List Text)
    → All (λ q. ends_line q ≡ true) (q ∷ qs)
    → ends_line (flatten (q ∷ qs)) ≡ true
unfolding flatten
ends_line-flatten q [] (e, h) = rw (append-nil q) e
ends_line-flatten q ([] ∷ qs) (e, (h, hs)) = cc
ends_line-flatten q ((c ∷ r) ∷ qs) (e, h) =
    ends_line-append q c (r ++ flatten qs) ∙ ends_line-flatten (c ∷ r) qs h

-- nothing is left of texts that end lines
no_rest :
    (qs : List Text) (before rest : Text)
    → All (λ q. ends_line q ≡ true) qs
    → before ++ rest ≡ flatten qs
    → contains newline rest ≡ false
    → rest ≡ []
unfolding flatten
no_rest qs before [] ends e h = refl
no_rest [] [] (c ∷ rest) ends e h = cc
no_rest [] (x ∷ before) (c ∷ rest) ends e h = cc
no_rest (q ∷ qs) before (c ∷ rest) ends e h = cc (
  ends_line-flatten q qs ends,
  ap ends_line e,
  ends_line-append before c rest,
  ends_line-contains (c ∷ rest) h,
)

-- two functions that agree, behind the same outcome
bind_both {ℓ} :
    {A : Type ℓ} {f g : A → Outcome A} (m : Outcome A)
    → ((a : A) → f a ≡ g a)
    → (m >>= f) ≡ (m >>= g)
bind_both (done a) h = h a
bind_both (fault e) h = refl

module _ {ℓ} {N : Type ℓ} (num : JsNumber N) (names : Names) (conf : Config) where
  -- empty lines do nothing
  handle_lines-filled :
      (lines : List Text) (s : Stats N)
      → handle_lines num names conf lines s ≡ handle_lines num names conf (filled lines) s
  unfolding handle_lines
  handle_lines-filled [] s = refl
  handle_lines-filled ([] ∷ lines) s = handle_lines-filled lines s
  handle_lines-filled ((c ∷ line) ∷ lines) s =
      bind_both (handle_line num names conf (c ∷ line) s) (handle_lines-filled lines)

repeated-IsAscii : (p : Text) → IsAscii p → IsAscii (repeated p)
repeated-IsAscii [] h = (omega arith, tt)
repeated-IsAscii (c ∷ p) (k, h) = (k, repeated-IsAscii p h)

-- what a backend writes for a packet
abbrev repeated_bytes : Text → List ℕ
repeated_bytes packet = encode_utf8 (repeated packet)

decoded-repeated :
    (packets : List Text)
    → All IsAscii packets
    → map decode_ascii (map repeated_bytes packets) ≡ map repeated packets
decoded-repeated [] h = refl
decoded-repeated (p ∷ packets) (k, h) =
    ap₂ ◌∷◌ (decode_ascii-encode_utf8 (repeated p) (repeated-IsAscii p k))
      (decoded-repeated packets h)

module _ {C : Type 0} (debug : Bool) (acquire : Pool → Acquired C) (pool : Pool) (c : C) where
  -- The bytes that a backend with one pool writes for packets.
  abbrev pub relayed : List Text → List (List ℕ)
  relayed [] = []
  relayed (packet ∷ packets) =
      written (process debug acquire packet (tcp (pool ∷ []))) ++ relayed packets

  relayed_lem :
      (packets : List Text) → acquire pool ≡ client c → relayed packets ≡ map repeated_bytes packets
  unfolding process write_all send_on
  relayed_lem [] h = refl
  relayed_lem (packet ∷ packets) h = rw h (ap (◌∷◌ (repeated_bytes packet)) (relayed_lem packets h))

  -- Where the pool gives a client and the packets are ASCII, the TCP server at its other end, however the
  -- connection cuts the bytes that are written into chunks, delivers the lines of the packets, empty ones
  -- apart, in their order, and keeps nothing back; handling them does to tables what handling the
  -- packets' lines does.
  pub relay_lem {ℓ} :
      {N : Type ℓ} (num : JsNumber N) (names : Names) (conf : Config) (packets : List Text)
      (chunks : List (List ℕ))
      → acquire pool ≡ client c
      → All IsAscii packets
      → flatten chunks ≡ flatten (relayed packets)
      → let (delivered, buffer) = receive_bytes chunks [] in
        (flatten (map text_lines delivered) ≡ flatten (map text_lines packets))
        × (buffer ≡ [])
        × ((s : Stats N)
            → handle_lines num names conf (flatten (map lines_of delivered)) s
              ≡ handle_lines num names conf (flatten (map lines_of packets)) s)
  unfolding receive_bytes
  relay_lem num names conf packets chunks h ascii spelled =
      let texts = map decode_ascii chunks in
      let (delivered, buffer) = receive texts [] in
      let (all, ends, clean) = receive_stream texts in
      let stream : flatten texts ≡ flatten (map repeated packets) =
        flatten-decode_ascii chunks
        ∙ ap decode_ascii (spelled ∙ ap flatten (relayed_lem packets h))
        ∙ sym (flatten-decode_ascii (map repeated_bytes packets))
        ∙ ap flatten (decoded-repeated packets ascii) in
      let empty : buffer ≡ [] =
        no_rest (map repeated packets) (flatten delivered) buffer (repeated-All packets)
          (all ∙ stream) clean in
      let same : flatten (map text_lines delivered) ≡ flatten (map text_lines packets) =
        sym (flatten_ended delivered ends)
        ∙ ap text_lines (
            sym (append-nil (flatten delivered))
            ∙ ap (◌++◌ (flatten delivered)) (sym empty)
            ∙ all
            ∙ stream)
        ∙ flatten_ended (map repeated packets) (repeated-All packets)
        ∙ text_lines-repeated packets in
      (
        same,
        empty,
        λ s.
            handle_lines-filled num names conf (flatten (map lines_of delivered)) s
            ∙ ap (λ ls. handle_lines num names conf ls s)
                (filled-flatten delivered ∙ same ∙ sym (filled-flatten packets))
            ∙ sym (handle_lines-filled num names conf (flatten (map lines_of packets)) s),
      )
