-- ===== src/Js/Bytes.antt =====
-- Texts as bytes: `new Buffer(text)` writes UTF-8, and a stream with the encoding `ascii` reads the low
-- seven bits of each byte.
use mathlib.Core.List.{flatten}
use statsd.Base.{
  ℕ, ◌+◌, ◌-◌, ◌*◌, ◌/◌, ◌%◌, ◌<◌, ◌≡◌, refl, ap, ap₂, sym, ◌∙◌, Bool, ◌&&◌, List, [], ◌∷◌, ◌++◌,
  map, if◌then◌else◌, ltb, leb, All, arith,
}
use statsd.Js.Text.{Text}

abbrev is_high : ℕ → Bool
is_high c = leb 0xd800 c && ltb c 0xdc00

abbrev is_low : ℕ → Bool
is_low c = leb 0xdc00 c && ltb c 0xe000

abbrev three_bytes : ℕ → List ℕ
three_bytes c = (0xe0 + c / 4096) ∷ (0x80 + c / 64 % 64) ∷ (0x80 + c % 64) ∷ []

abbrev four_bytes : ℕ → List ℕ
four_bytes c =
    (0xf0 + c / 262144) ∷ (0x80 + c / 4096 % 64) ∷ (0x80 + c / 64 % 64) ∷ (0x80 + c % 64) ∷ []

-- one code unit that is no half of a pair; a half alone becomes the replacement character
abbrev unit_bytes : ℕ → List ℕ
unit_bytes c =
    if ltb c 0x80
    then c ∷ []
    else if ltb c 0x800
    then (0xc0 + c / 64) ∷ (0x80 + c % 64) ∷ []
    else if is_high c
    then three_bytes 0xfffd
    else if is_low c
    then three_bytes 0xfffd
    else three_bytes c

-- `new Buffer(text)`
unfoldable pub encode_utf8 : Text → List ℕ
encode_utf8 [] = []
encode_utf8 (c ∷ []) = unit_bytes c
encode_utf8 (c ∷ d ∷ s) =
    let behind = encode_utf8 s in
    let rest = encode_utf8 (d ∷ s) in
    if is_high c && is_low d
    then four_bytes (0x10000 + (c - 0xd800) * 1024 + (d - 0xdc00)) ++ behind
    else unit_bytes c ++ rest

-- `setEncoding('ascii')`
unfoldable pub decode_ascii : List ℕ → Text
decode_ascii [] = []
decode_ascii (b ∷ bytes) = b % 128 ∷ decode_ascii bytes

-- Every character is ASCII.
abbrev pub IsAscii : Text → Type 0
IsAscii = All λ c. c < 128

encode_ascii : (s : Text) → IsAscii s → encode_utf8 s ≡ s
unfolding encode_utf8
encode_ascii [] h = refl
encode_ascii (c ∷ []) h = ground (arith, h.0)
encode_ascii (c ∷ d ∷ s) (p, h) = ground (arith, p, encode_ascii (d ∷ s) h)

decode_same : (s : Text) → IsAscii s → decode_ascii s ≡ s
unfolding decode_ascii
decode_same [] h = refl
decode_same (c ∷ s) (p, h) = ap₂ ◌∷◌ (omega (arith, p)) (decode_same s h)

-- ASCII text comes through as it is.
pub decode_ascii-encode_utf8 : (s : Text) → IsAscii s → decode_ascii (encode_utf8 s) ≡ s
decode_ascii-encode_utf8 s h = ap decode_ascii (encode_ascii s h) ∙ decode_same s h

decode_ascii-append : (a b : List ℕ) → decode_ascii (a ++ b) ≡ decode_ascii a ++ decode_ascii b
unfolding decode_ascii
decode_ascii-append [] b = refl
decode_ascii-append (c ∷ a) b = ap (◌∷◌ (c % 128)) (decode_ascii-append a b)

-- Chunks are decoded one by one, or all in one.
pub flatten-decode_ascii :
    (chunks : List (List ℕ)) → flatten (map decode_ascii chunks) ≡ decode_ascii (flatten chunks)
unfolding flatten decode_ascii
flatten-decode_ascii [] = refl
flatten-decode_ascii (a ∷ chunks) =
    ap (◌++◌ (decode_ascii a)) (flatten-decode_ascii chunks)
    ∙ sym (decode_ascii-append a (flatten chunks))

-- `Ê` comes out as `C` and a newline.
cut_in_two : decode_ascii (encode_utf8 (0xca ∷ [])) ≡ b'C' ∷ b'\n' ∷ []
unfolding decode_ascii encode_utf8
cut_in_two = refl
