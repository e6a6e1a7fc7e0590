-- ===== src/Set/Laws.antt =====
-- What lib/set.js promises: membership after an insertion, and the number of distinct values.
use mathlib.Core.Path.{fun_ext}
use statsd.Base.{
  ℕ, suc, ◌+◌, ◌≡◌, ap, Bool, true, false, not, ◌&&◌, ◌||◌, List, [], ◌∷◌, arith, if◌then◌else◌,
  some_of,
}
use statsd.Js.Text.{Text, eqb, eqb_iff, is_empty}
use statsd.Js.Object.{has as has_own, lookup, proto}
use statsd.Js.Object.Laws.{lookup-assign, length-assign}
use statsd.Set.{Set, empty, has, insert, size}

-- The values that the object can hold: not the empty string, and not the key with a setter.
abbrev pub is_storable : Text → Bool
is_storable v = not (is_empty v) && not (eqb v proto)

pub has-insert :
    (v w : Text) (s : Set) → has w (insert v s) ≡ ((is_storable v && eqb v w) || has w s)
unfolding has insert has_own
has-insert v w s = ground (arith, lookup-assign v w true s.store, eqb_iff v w)

pub has-empty : (w : Text) → has w empty ≡ false
unfolding has has_own lookup
has-empty w = ground arith

pub size-insert :
    (v : Text) (s : Set)
    → size (insert v s) ≡ (if is_storable v && not (has v s) then suc (size s) else size s)
unfolding size insert has
size-insert v s = ground (arith, length-assign v true s.store)

-- `insert` for each value in turn
abbrev pub insert_all : List Text → Set → Set
insert_all [] s = s
insert_all (v ∷ vs) s = insert_all vs (insert v s)

-- How many storable values of the list are neither in `seen` nor repeated.
abbrev pub distinct : List Text → (Text → Bool) → ℕ
distinct [] seen = 0
distinct (v ∷ vs) seen =
    (if is_storable v && not (seen v) then 1 else 0)
    + distinct vs (λ w. (is_storable v && eqb v w) || seen w)

-- One more insertion adds one if the value is new, and the test of what was seen moves with it.
distinct_ext :
    (vs : List Text) (f g : Text → Bool) → ((w : Text) → f w ≡ g w) → distinct vs f ≡ distinct vs g
distinct_ext vs f g h = ap (distinct vs) (fun_ext h)

-- Inserting a list of values adds to the size the number of its storable values that were not in the
-- set and are counted once: the empty string and `__proto__` are not storable.
pub size-insert_all :
    (vs : List Text) (s : Set) → size (insert_all vs s) ≡ size s + distinct vs (λ w. has w s)
size-insert_all [] s = omega arith
size-insert_all (v ∷ vs) s = ground (
  arith,
  size-insert_all vs (insert v s),
  size-insert v s,
  distinct_ext vs (λ w. has w (insert v s)) (λ w. (is_storable v && eqb v w) || has w s)
      (λ w. has-insert v w s),
)

-- After inserting a list of values, a value is in the set if it is storable and in the list, or was in
-- the set before.
has-insert_all :
    (w : Text) (vs : List Text) (s : Set)
    → has w (insert_all vs s) ≡ ((is_storable w && some_of (eqb w) vs) || has w s)
has-insert_all w [] s = ground arith
has-insert_all w (v ∷ vs) s =
    ground (arith, has-insert_all w vs (insert v s), has-insert v w s, eqb_iff v w, eqb_iff w v)
