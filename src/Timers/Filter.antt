-- ===== src/Timers/Filter.antt =====
-- lib/process_metrics.js: `filter_timer_metrics`, which keeps the statistics that are asked for.
use statsd.Base.{
  ℕ, ◌≤◌, ◌≢◌, ◌++◌, All, ◌≡◌, Bool, true, false, ◌&&◌, List, [], ◌∷◌, Option, none, some, ◌==◌,
  if◌then◌else◌,
}
use statsd.Js.Object.{Object}
use statsd.Js.Text.{Text, codes, is_digit, member}

abbrev pub all_digits : Text → Bool
all_digits [] = true
all_digits (c ∷ s) = is_digit c && all_digits s

-- `\d+`, to the end
unfoldable pub is_number_text : Text → Bool
unfolding is_digit
is_number_text [] = false
is_number_text (c ∷ s) = all_digits (c ∷ s)

abbrev pub without_top : Text → Text
without_top (a ∷ b ∷ c ∷ s) = if a == b't' && b == b'o' && c == b'p' then s else a ∷ b ∷ c ∷ s
without_top s = s

-- What `_(top)?\d+$` matches behind the underscore.
unfoldable pub is_percent_tail : Text → Bool
unfolding is_number_text
is_percent_tail s = is_number_text (without_top s)

-- `key.replace(/_(top)?\d+$/, "_percent")`
unfoldable pub cleaned_key : Text → Text
unfolding is_percent_tail
cleaned_key [] = []
cleaned_key (c ∷ s) =
    let rest = cleaned_key s in
    if c == b'_' && is_percent_tail s then codes "_percent" else c ∷ rest

-- Digits, at least one.
abbrev pub AreDigits : Text → Type 0
AreDigits = All λ c. (b'0' ≤ c) × (c ≤ b'9')

-- The name that a statistic is asked for by: a percentile's is the same for every percentile, one of
-- the upper values or (`top`) of the lower ones, and any other is its own.
pub data IsNamed (key name : Text) : Type 0 where
  percentile :
      (p : Text) (d : ℕ) (ds : Text)
      → AreDigits (d ∷ ds)
      → key ≡ p ++ (b'_' ∷ d ∷ ds)
      → name ≡ p ++ codes "_percent"
      → IsNamed key name
  top_percentile :
      (p : Text) (d : ℕ) (ds : Text)
      → AreDigits (d ∷ ds)
      → key ≡ p ++ (b'_' ∷ b't' ∷ b'o' ∷ b'p' ∷ d ∷ ds)
      → name ≡ p ++ codes "_percent"
      → IsNamed key name
  other :
      ((p : Text) (d : ℕ) (ds : Text)
        → AreDigits (d ∷ ds)
        → (key ≢ p ++ (b'_' ∷ d ∷ ds)) × (key ≢ p ++ (b'_' ∷ b't' ∷ b'o' ∷ b'p' ∷ d ∷ ds)))
      → name ≡ key
      → IsNamed key name

-- With no list of names, or an empty one, every statistic is kept.
abbrev pub is_wanted : Option (List Text) → Text → Bool
is_wanted none name = true
is_wanted (some []) name = true
is_wanted (some (k ∷ ks)) name = member name (k ∷ ks)

abbrev tail_of : Text → Text
tail_of [] = []
tail_of (c ∷ s) = s

module _ {ℓ} {V : Type ℓ} where
  -- `filter` and `reduce`: the entries with a cleaned key that is in the list
  unfoldable pub keep_entries : List Text → Object V → Object V
  unfolding cleaned_key
  keep_entries wanted [] = []
  keep_entries wanted ((key, v) ∷ m) =
      let rest = keep_entries wanted m in
      if member (cleaned_key key) wanted then (key, v) ∷ rest else rest

  -- `calculatedTimerMetrics` is `none` where it is no array.
  unfoldable pub filter_timer_metrics : Object V → Option (List Text) → Object V
  unfolding keep_entries
  filter_timer_metrics m none = m
  filter_timer_metrics m (some []) = m
  filter_timer_metrics m (some (k ∷ ks)) = keep_entries (k ∷ ks) m
