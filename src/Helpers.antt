-- ===== src/Helpers.antt =====
-- lib/helpers.js: which packet fields are valid, and the listing of the configuration.
use statsd.Base.{
  ℕ, Bool, true, false, not, ◌&&◌, List, [], ◌∷◌, ◌++◌, ◌==◌, if◌then◌else◌, ltb, length,
}
use statsd.Js.Text.{Text, codes, eqb, is_empty}
use statsd.Js.Number.{JsNumber}

-- The first character is `c`.
abbrev pub begins_with : ℕ → Text → Bool
begins_with c [] = false
begins_with c (d ∷ s) = d == c

abbrev pub tail_of : Text → Text
tail_of [] = []
tail_of (c ∷ s) = s

module _ {ℓ} {N : Type ℓ} (num : JsNumber N) where
  -- `isNumber`
  unfoldable pub is_numeric : Text → Bool
  is_numeric str = not (is_empty str) && not (num.is_nan (num.to_number str))

  unfoldable pub is_valid_sample_rate : Text → Bool
  unfolding is_numeric
  is_valid_sample_rate str =
      if ltb 1 (length str) && begins_with b'@' str
      then is_numeric (tail_of str) && not (begins_with b'-' (tail_of str))
      else false

  -- The `switch` on the second field, over the first.
  unfoldable pub is_valid_value : Text → Text → Bool
  unfolding is_numeric
  is_valid_value kind value =
      if eqb kind (codes "s")
      then true
      else if eqb kind (codes "g")
      then is_numeric value
      else if eqb kind (codes "ms")
      then is_numeric value && num.le (num.of_nat 0) (num.to_number value)
      else is_numeric value

  unfoldable pub is_valid_packet : List Text → Bool
  unfolding is_valid_sample_rate is_valid_value
  is_valid_packet [] = false
  is_valid_packet (value ∷ []) = false
  is_valid_packet (value ∷ kind ∷ []) = is_valid_value kind value
  is_valid_packet (value ∷ kind ∷ rate ∷ more) =
      if is_valid_sample_rate rate then is_valid_value kind value else false

-- A property of the configuration: one that is no object, as it prints, or the properties of an object,
-- each with whether it is an own one.
pub data Setting : Type 0 where
  plain : Text → Setting
  nested : List (Bool × Text × Text) → Setting

-- The inner loop of `writeConfig`.
unfoldable pub write_nested : Text → List (Bool × Text × Text) → List Text
write_nested prop [] = []
write_nested prop ((is_own, subprop, value) ∷ subconfig) =
    let rest = write_nested prop subconfig in
    if is_own
    then (prop ++ (codes " > " ++ (subprop ++ (codes ": " ++ (value ++ codes "\n"))))) ∷ rest
    else rest

unfoldable pub write_setting : Text → Setting → List Text
unfolding write_nested
write_setting prop (plain value) = (prop ++ (codes ": " ++ (value ++ codes "\n"))) ∷ []
write_setting prop (nested subconfig) = write_nested prop subconfig

-- The outer loop; inherited properties are skipped.
unfoldable pub write_settings : List (Bool × Text × Setting) → List Text
unfolding write_setting
write_settings [] = []
write_settings ((is_own, prop, setting) ∷ config) =
    let rest = write_settings config in if is_own then write_setting prop setting ++ rest else rest

-- `writeConfig`: what it writes to the stream.
unfoldable pub write_config : List (Bool × Text × Setting) → List Text
unfolding write_settings
write_config config = codes "\n" ∷ write_settings config
