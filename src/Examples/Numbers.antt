-- ===== src/Examples/Numbers.antt =====
-- Numbers that meet the laws of the interface: the integers and NaN.
use statsd.Base.{
  ℕ, ◌+◌, ◌-◌, ◌*◌, ◌/◌, ◌≡◌, refl, Bool, true, false, not, ◌&&◌, [], ◌∷◌, Option, none, some, ◌==◌,
  if◌then◌else◌, leb, arith, is_some, Bool-cases, ◌⊎◌, inl, inr,
}
use statsd.Base.Int.{ℤ, pos, pos_part, neg_part, sub_ℕ, ◌+ℤ◌, ◌-ℤ◌, ◌*ℤ◌, ◌/ℤ◌, ltb_ℤ, leb_ℤ}
use statsd.Js.Number.{JsNumber, IsOrdered, HasNan}
use statsd.Js.Text.{Text}

abbrev pub Whole : Type 0
Whole = Option ℤ

abbrev pub on_both : (ℤ → ℤ → ℤ) → Whole → Whole → Whole
on_both f (some a) (some b) = some (f a b)
on_both f (some a) none = none
on_both f none y = none

abbrev pub test_both : (ℤ → ℤ → Bool) → Whole → Whole → Bool
test_both f (some a) (some b) = f a b
test_both f (some a) none = false
test_both f none y = false

abbrev digits_from : ℕ → Text → Option ℕ
digits_from n [] = some n
digits_from n (c ∷ s) =
    let rest = digits_from (n * 10 + (c - b'0')) s in
    if leb b'0' c && leb c b'9' then rest else none

abbrev signed : Option ℕ → Bool → Whole
signed none minus = none
signed (some n) true = some (sub_ℕ 0 n)
signed (some n) false = some (pos n)

abbrev read_whole : Text → Whole
read_whole [] = some (pos 0)
read_whole (c ∷ []) = signed (digits_from 0 (c ∷ [])) false
read_whole (c ∷ d ∷ s) =
    if c == b'-'
    then signed (digits_from 0 (d ∷ s)) true
    else if c == b'+'
    then signed (digits_from 0 (d ∷ s)) false
    else signed (digits_from 0 (c ∷ d ∷ s)) false

abbrev magnitude : Whole → ℕ
magnitude none = 0
magnitude (some z) = pos_part z + neg_part z

abbrev pub whole_number : JsNumber Whole
whole_number = record {
  nan = none;
  of_nat = λ n. some (pos n);
  add = on_both ◌+ℤ◌;
  sub = on_both ◌-ℤ◌;
  mul = on_both ◌*ℤ◌;
  div = on_both ◌/ℤ◌;
  lt = test_both ltb_ℤ;
  le = test_both leb_ℤ;
  is_nan = λ x. not (is_some x);
  to_number = read_whole;
  to_text = λ x. [];
  round = magnitude;
  abs = λ x. some (pos (magnitude x));
  sqrt = λ x. x;
}

abbrev le : Whole → Whole → Bool
le = test_both leb_ℤ

le_number : (x y : Whole) → le x y ≡ true → (not (is_some x) ≡ false) × (not (is_some y) ≡ false)
le_number x y h = ground arith

le_trans : (x y z : Whole) → le x y ≡ true → le y z ≡ true → le x z ≡ true
le_trans x y z h k = ground arith

lt-eq-not-le :
    (x y : Whole)
    → not (is_some x) ≡ false
    → not (is_some y) ≡ false
    → test_both ltb_ℤ x y ≡ not (le y x)
lt-eq-not-le x y h k = ground arith

le_total :
    (x y : Whole)
    → not (is_some x) ≡ false
    → not (is_some y) ≡ false
    → (le x y ≡ true) ⊎ (le y x ≡ true)
le_total (some x) (some y) h k = elim (Bool-cases (leb_ℤ x y)) [
  | inl e ↦ inl e
  | inr e ↦ inr (ground arith)
]
le_total none y h k = cc
le_total (some x) none h k = cc

sub_sign :
    (x y : Whole)
    → not (is_some x) ≡ false
    → not (is_some y) ≡ false
    → test_both ltb_ℤ (on_both ◌-ℤ◌ x y) (some (pos 0)) ≡ test_both ltb_ℤ x y
sub_sign x y h k = ground arith

sub_positive :
    (x y : Whole)
    → not (is_some x) ≡ false
    → not (is_some y) ≡ false
    → test_both ltb_ℤ (some (pos 0)) (on_both ◌-ℤ◌ x y) ≡ test_both ltb_ℤ y x
sub_positive x y h k = ground arith

pub whole-IsOrdered : IsOrdered whole_number
whole-IsOrdered = record {
  of_nat_lem = λ n. refl;
  le_number = le_number;
  le_trans = le_trans;
  lt-eq-not-le = lt-eq-not-le;
  le_total = le_total;
  sub_sign = sub_sign;
  sub_positive = sub_positive;
}

sub_nan : (x y : Whole) → not (is_some y) ≡ true → not (is_some (on_both ◌-ℤ◌ x y)) ≡ true
sub_nan x y h = ground arith

div_nan : (x y : Whole) → not (is_some x) ≡ true → not (is_some (on_both ◌/ℤ◌ x y)) ≡ true
div_nan x y h = ground arith

pub whole-HasNan : HasNan whole_number
whole-HasNan = record { nan_lem = refl; sub_nan = sub_nan; div_nan = div_nan }

-- `a` by `b` in hundredths
abbrev pub by_hundred : (ℤ → ℤ → ℤ) → ℤ → ℤ → ℤ
by_hundred f a b = f (a *ℤ pos 100) b

-- Numbers in hundredths, for fractions; what is left of a product or a quotient is dropped.
abbrev pub hundredth_number : JsNumber Whole
hundredth_number = record whole_number {
  of_nat = λ n. some (pos (n * 100));
  mul = on_both (λ a b. ◌/ℤ◌ (a *ℤ b) (pos 100));
  div = on_both (by_hundred ◌/ℤ◌);
  round = λ x. (magnitude x + 50) / 100;
}
