-- ===== src/Js/Object.antt =====
-- Plain objects as association lists in the order in which `for … in` meets the keys: array indices
-- in ascending order, then the other keys in the order of their insertion.
pub mod Laws
use statsd.Base.{
  ℕ, zero, suc, ◌+◌, ◌-◌, ◌*◌, ◌^◌, ◌≡◌, refl, ap, Bool, true, false, ◌&&◌, ◌||◌, not, List, [],
  ◌∷◌, map, Option, none, some, arith, ltb, ◌==◌, if◌then◌else◌, is_some, Bool-cases, inl, inr, ◌⊎◌,
  some_of,
}
use statsd.Js.Text.{Text, codes, eqb, eqb_iff, eqb_refl, is_digit}

module _ {ℓ} where
  abbrev pub Object : Type ℓ → Type ℓ
  Object V = List (Text × V)

-- the number that digits spell behind `n`; `none` where a character is no digit
digits_value : ℕ → Text → Option ℕ
unfolding is_digit
digits_value n [] = some n
digits_value n (c ∷ s) =
    let rest = digits_value (n * 10 + (c - b'0')) s in if is_digit c then rest else none

below_max_index : Option ℕ → Option ℕ
below_max_index none = none
below_max_index (some n) = if ltb n (2 ^ 32 - 1) then some n else none

-- An array index: decimal digits with no leading zero, below 2 ^ 32 - 1.
array_index : Text → Option ℕ
unfolding digits_value below_max_index
array_index [] = none
array_index (c ∷ []) = digits_value 0 (c ∷ [])
array_index (c ∷ d ∷ s) = if c == b'0' then none else below_max_index (digits_value 0 (c ∷ d ∷ s))

-- whether `for … in` meets a key with the first index before one with the second
index_before : Option ℕ → Option ℕ → Bool
index_before none j = false
index_before (some i) none = true
index_before (some i) (some j) = ltb i j

module _ {ℓ} {V : Type ℓ} where
  -- an own property's value
  unfoldable pub lookup : Text → Object V → Option V
  lookup k [] = none
  lookup k ((j, v) ∷ m) = if eqb j k then some v else lookup k m

  -- `o.hasOwnProperty(k)`
  unfoldable pub has : Text → Object V → Bool
  unfolding lookup
  has k m = is_some (lookup k m)

  replace : Text → V → Object V → Object V
  replace k v [] = []
  replace k v ((j, w) ∷ m) = if eqb j k then (j, v) ∷ m else (j, w) ∷ replace k v m

  place : Text → V → Object V → Object V
  unfolding array_index index_before
  place k v [] = (k, v) ∷ []
  place k v ((j, w) ∷ m) =
      if index_before (array_index k) (array_index j)
      then (k, v) ∷ (j, w) ∷ m
      else (j, w) ∷ place k v m

  -- `o[k] = v`
  unfoldable pub put : Text → V → Object V → Object V
  unfolding has replace place
  put k v m = if has k m then replace k v m else place k v m

  -- `delete o[k]`
  unfoldable pub remove : Text → Object V → Object V
  remove k [] = []
  remove k ((j, w) ∷ m) = let rest = remove k m in if eqb j k then rest else (j, w) ∷ rest

  -- `Object.keys(o)`
  unfoldable pub keys : Object V → List Text
  keys [] = []
  keys ((j, w) ∷ m) = j ∷ keys m

-- No key stands twice.
abbrev pub IsObject {ℓ} : {V : Type ℓ} → Object V → Type ℓ
IsObject [] = Unit
IsObject ((k, v) ∷ m) = (lookup k m ≡ none) × IsObject m

-- a loop `for (k in o) o[k] = f(k, o[k])`
unfoldable pub map_values {ℓ κ} : {V : Type ℓ} {W : Type κ} → (Text → V → W) → Object V → Object W
map_values f [] = []
map_values f ((j, v) ∷ m) = (j, f j v) ∷ map_values f m

-- The properties that every plain object inherits from `Object.prototype`.
abbrev inherited_names : List Text
inherited_names =
    codes "constructor"
    ∷ codes "__defineGetter__"
    ∷ codes "__defineSetter__"
    ∷ codes "hasOwnProperty"
    ∷ codes "__lookupGetter__"
    ∷ codes "__lookupSetter__"
    ∷ codes "isPrototypeOf"
    ∷ codes "propertyIsEnumerable"
    ∷ codes "toString"
    ∷ codes "valueOf"
    ∷ codes "__proto__"
    ∷ codes "toLocaleString"
    ∷ []

unfoldable pub is_inherited : Text → Bool
is_inherited k = some_of (eqb k) inherited_names

-- What reading `o[k]` finds: an own property, one of `Object.prototype`, or `undefined`.
pub data Access {ℓ} (V : Type ℓ) : Type ℓ where
  own : V → Access V
  inherited : Access V
  missing : Access V

module _ {ℓ} {V : Type ℓ} where
  -- `o[k]` where it is read
  unfoldable pub access : Text → Object V → Access V
  unfolding lookup is_inherited
  access k m = elim (lookup k m) [
    | none ↦ if is_inherited k then inherited else missing
    | some v ↦ own v
  ]

  -- `k in o`
  unfoldable pub has_property : Text → Object V → Bool
  unfolding has is_inherited
  has_property k m = has k m || is_inherited k

abbrev pub proto : Text
proto = codes "__proto__"

-- `o[k] = v` where `v` is no object: the setter of `__proto__` ignores it.
unfoldable pub assign {ℓ} : {V : Type ℓ} → Text → V → Object V → Object V
assign k v m = if eqb k proto then m else put k v m
