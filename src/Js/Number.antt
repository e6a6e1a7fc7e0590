-- ===== src/Js/Number.antt =====
-- JavaScript's numbers, IEEE 754 doubles, as an interface: the operations that the program uses, and
-- the laws of the standard that its proofs use.
use statsd.Base.{ℕ, ◌≡◌, ◌⊎◌, Bool, true, false, not, ◌||◌}
use statsd.Js.Text.{Text}

pub record JsNumber {ℓ} (N : Type ℓ) : Type ℓ where
  pub nan : N
  pub of_nat : ℕ → N
  pub add : N → N → N
  pub sub : N → N → N
  pub mul : N → N → N
  pub div : N → N → N
  pub lt : N → N → Bool
  pub le : N → N → Bool
  pub is_nan : N → Bool
  -- `Number(s)` of a string
  pub to_number : Text → N
  -- `'' + x`
  pub to_text : N → Text
  -- `Math.round`, `Math.abs` and `Math.sqrt`; a rounded number is used as an index
  pub round : N → ℕ
  pub abs : N → N
  pub sqrt : N → N

module _ {ℓ} {N : Type ℓ} (num : JsNumber N) where
  abbrev pub nought : N
  nought = num.of_nat 0

  abbrev pub one : N
  one = num.of_nat 1

  -- a number as a condition: neither zero nor NaN
  abbrev pub truthy : N → Bool
  truthy x = num.lt nought x || num.lt x nought

  -- what the program takes for a number
  abbrev pub is_number : N → Bool
  is_number x = not (num.is_nan x)

-- NaN is in no order; the others are in a total one, and a difference has the sign of the comparison.
pub record IsOrdered {ℓ} {N : Type ℓ} (num : JsNumber N) : Type ℓ where
  pub of_nat_lem : (n : ℕ) → num.is_nan (num.of_nat n) ≡ false
  pub le_number : (x y : N) → num.le x y ≡ true → (num.is_nan x ≡ false) × (num.is_nan y ≡ false)
  pub le_trans : (x y z : N) → num.le x y ≡ true → num.le y z ≡ true → num.le x z ≡ true
  pub lt-eq-not-le :
      (x y : N) → num.is_nan x ≡ false → num.is_nan y ≡ false → num.lt x y ≡ not (num.le y x)
  pub le_total :
      (x y : N)
      → num.is_nan x ≡ false
      → num.is_nan y ≡ false
      → (num.le x y ≡ true) ⊎ (num.le y x ≡ true)
  pub sub_sign :
      (x y : N)
      → num.is_nan x ≡ false
      → num.is_nan y ≡ false
      → num.lt (num.sub x y) (num.of_nat 0) ≡ num.lt x y
  pub sub_positive :
      (x y : N)
      → num.is_nan x ≡ false
      → num.is_nan y ≡ false
      → num.lt (num.of_nat 0) (num.sub x y) ≡ num.lt y x

-- What a computation with NaN gives.
pub record HasNan {ℓ} {N : Type ℓ} (num : JsNumber N) : Type ℓ where
  pub nan_lem : num.is_nan num.nan ≡ true
  pub sub_nan : (x y : N) → num.is_nan y ≡ true → num.is_nan (num.sub x y) ≡ true
  pub div_nan : (x y : N) → num.is_nan x ≡ true → num.is_nan (num.div x y) ≡ true
