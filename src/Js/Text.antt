-- ===== src/Js/Text.antt =====
-- JavaScript strings as lists of UTF-16 code units, with the string methods that the program calls.
pub mod Split
use Prim.Native.Char.{code}
use Prim.Native.String.{String}
use statsd.Base.{
  ℕ, zero, suc, ◌+◌, ◌-◌, ◌≡◌, refl, ◌↔◌, Bool, true, false, ◌&&◌, ◌||◌, List, [], ◌∷◌, ◌++◌, arith,
  leb, ◌==◌, if◌then◌else◌, length,
}

abbrev pub Text : Type 0
Text = List ℕ

-- The code units of a literal, where every character is below 2 ^ 16.
abbrev pub codes : String → Text
codes String.[] = []
codes (String.◌∷◌ c s) = code c ∷ codes s

-- `a === b`
abbrev pub eqb : Text → Text → Bool
eqb [] [] = true
eqb [] (y ∷ ys) = false
eqb (x ∷ xs) [] = false
eqb (x ∷ xs) (y ∷ ys) = x == y && eqb xs ys

pub eqb_iff : (a b : Text) → (eqb a b ≡ true) ↔ (a ≡ b)
eqb_iff [] [] = ground arith
eqb_iff [] (y ∷ ys) = ground arith
eqb_iff (x ∷ xs) [] = ground arith
eqb_iff (x ∷ xs) (y ∷ ys) = ground (arith, eqb_iff xs ys)

pub eqb_refl : (a : Text) → eqb a a ≡ true
eqb_refl a = (eqb_iff a a).1 refl

-- Whether a text is in a list.
abbrev pub member : Text → List Text → Bool
member key [] = false
member key (k ∷ ks) = eqb k key || member key ks

abbrev pub is_empty : Text → Bool
is_empty [] = true
is_empty (c ∷ s) = false

-- `s.indexOf(c) > -1` for one character
unfoldable pub contains : ℕ → Text → Bool
contains c [] = false
contains c (d ∷ s) = d == c || contains c s

-- `s.substring(0, p.length) == p`
unfoldable pub starts_with : Text → Text → Bool
starts_with [] s = true
starts_with (c ∷ p) [] = false
starts_with (c ∷ p) (d ∷ s) = d == c && starts_with p s

-- `s.indexOf(p) > -1`
unfoldable pub includes : Text → Text → Bool
unfolding starts_with
includes p [] = is_empty p
includes p (c ∷ s) = starts_with p (c ∷ s) || includes p s

-- the part read so far gets one more character, or a separator stood here and a new part begins
abbrev pub add_char : Bool → ℕ → Text × List Text → Text × List Text
add_char true c (part, parts) = ([], part ∷ parts)
add_char false c (part, parts) = (c ∷ part, parts)

-- The first part and the others; `skip` characters are what is left of a separator.
pub split_from : Text → Text → ℕ → Text × List Text
unfolding starts_with
split_from sep [] skip = ([], [])
split_from sep (c ∷ s) (suc skip) = split_from sep s skip
split_from sep (c ∷ s) zero =
    let here = starts_with sep (c ∷ s) in
    add_char here c (split_from sep s (if here then length sep - 1 else 0))

-- `s.split(sep)` for a separator that is not empty
unfoldable pub split : Text → Text → List Text
unfolding split_from
split sep s = let (part, parts) = split_from sep s 0 in part ∷ parts

-- `parts.join(sep)`
unfoldable pub join : Text → List Text → Text
join sep [] = []
join sep (p ∷ []) = p
join sep (p ∷ q ∷ ps) = p ++ (sep ++ join sep (q ∷ ps))

-- what `\s` matches and `trim` removes
unfoldable pub is_space : ℕ → Bool
is_space c =
    (leb 9 c && leb c 13)
    || c == 32
    || c == 160
    || c == 0x1680
    || (leb 0x2000 c && leb c 0x200a)
    || c == 0x2028
    || c == 0x2029
    || c == 0x202f
    || c == 0x205f
    || c == 0x3000
    || c == 0xfeff

unfoldable pub is_digit : ℕ → Bool
is_digit c = leb b'0' c && leb c b'9'

unfoldable pub trim_start : Text → Text
unfolding is_space
trim_start [] = []
trim_start (c ∷ s) = let rest = trim_start s in if is_space c then rest else c ∷ s

-- a space is dropped only where nothing is left behind it
unfoldable pub trim_end : Text → Text
unfolding is_space
trim_end [] = []
trim_end (c ∷ s) = let rest = trim_end s in if is_empty rest && is_space c then [] else c ∷ rest

unfoldable pub trim : Text → Text
unfolding trim_start trim_end
trim s = trim_end (trim_start s)

-- `s.replace(c, t)` with a string for a pattern: the first occurrence only
unfoldable pub replace_first : ℕ → Text → Text → Text
replace_first c t [] = []
replace_first c t (x ∷ s) = let rest = replace_first c t s in if x == c then t ++ s else x ∷ rest

-- `toLowerCase()` of the letters A to Z. (No other character becomes one of
-- the letters that the program compares with, those of `up` and `down`.)
unfoldable pub lower_case : Text → Text
lower_case [] = []
lower_case (c ∷ s) = (if leb b'A' c && leb c b'Z' then c + 32 else c) ∷ lower_case s
