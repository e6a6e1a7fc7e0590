-- ===== src/Set.antt =====
-- lib/set.js: a set of strings, kept as the keys of an object.
pub mod Laws
use statsd.Base.{ℕ, Bool, true, false, List, [], ◌∷◌, length, if◌then◌else◌}
use statsd.Js.Text.{Text, is_empty}
use statsd.Js.Object.{Object, has as has_own, keys, assign}

pub record Set : Type 0 where
  pub store : Object Bool

-- `new set.Set()`, and what `clear` leaves
abbrev pub empty : Set
empty = record { store = [] }

unfoldable pub has : Text → Set → Bool
unfolding has_own
has value s = if is_empty value then false else has_own value s.store

unfoldable pub insert : Text → Set → Set
unfolding assign
insert value s = if is_empty value then s else record { store = assign value true s.store }

unfoldable pub clear : Set → Set
clear s = record { store = [] }

unfoldable pub values : Set → List Text
unfolding keys
values s = keys s.store

unfoldable pub size : Set → ℕ
unfolding keys
size s = length (keys s.store)
