-- ===== src/Js/Object/Laws.antt =====
-- How reading an object follows its writes, and how many keys it has.
use statsd.Base.{
  suc, ◌≡◌, refl, true, false, ◌&&◌, ◌||◌, not, [], ◌∷◌, none, some, arith, if◌then◌else◌,
  Bool-cases, inl, inr, ◌⊎◌, length,
}
use statsd.Js.Text.{Text, eqb, eqb_iff, member}
use statsd.Js.Object.{
  Object, lookup, has, replace, place, put, array_index, index_before, remove, keys, map_values,
  proto, assign, own, access, IsObject,
}

module _ {ℓ} {V : Type ℓ} where
  lookup-replace :
      (k j : Text) (v : V) (m : Object V)
      → has k m ≡ true
      → lookup j (replace k v m) ≡ (if eqb k j then some v else lookup j m)
  unfolding has lookup replace
  lookup-replace k j v [] h = ground arith
  lookup-replace k j v ((i, w) ∷ m) h =
      ground (arith, eqb_iff k j, eqb_iff i k, eqb_iff i j, lookup-replace k j v m)

  lookup-place :
      (k j : Text) (v : V) (m : Object V)
      → has k m ≡ false
      → lookup j (place k v m) ≡ (if eqb k j then some v else lookup j m)
  unfolding has lookup place
  lookup-place k j v [] h = refl
  lookup-place k j v ((i, w) ∷ m) h =
      ground (arith, eqb_iff k j, eqb_iff i k, eqb_iff i j, lookup-place k j v m)

  pub lookup-put :
      (k j : Text) (v : V) (m : Object V)
      → lookup j (put k v m) ≡ (if eqb k j then some v else lookup j m)
  unfolding put
  lookup-put k j v m = elim (Bool-cases (has k m)) [
    | inl old ↦ rw (old) (lookup-replace k j v m old)
    | inr new ↦ rw (new) (lookup-place k j v m new)
  ]

  pub lookup-remove :
      (k j : Text) (m : Object V) → lookup j (remove k m) ≡ (if eqb k j then none else lookup j m)
  unfolding lookup remove
  lookup-remove k j [] = ground arith
  lookup-remove k j ((i, w) ∷ m) =
      ground (arith, eqb_iff k j, eqb_iff i k, eqb_iff i j, lookup-remove k j m)

  pub has-put : (k j : Text) (v : V) (m : Object V) → has j (put k v m) ≡ (eqb k j || has j m)
  unfolding has
  has-put k j v m = ground (arith, lookup-put k j v m)

  length-replace :
      (k : Text) (v : V) (m : Object V) → length (keys (replace k v m)) ≡ length (keys m)
  unfolding keys replace
  length-replace k v [] = refl
  length-replace k v ((j, w) ∷ m) = ground (arith, length-replace k v m)

  length-place :
      (k : Text) (v : V) (m : Object V) → length (keys (place k v m)) ≡ suc (length (keys m))
  unfolding keys place
  length-place k v [] = refl
  length-place k v ((j, w) ∷ m) = ground (arith, length-place k v m)

  pub length-put :
      (k : Text) (v : V) (m : Object V)
      → length (keys (put k v m)) ≡ (if has k m then length (keys m) else suc (length (keys m)))
  unfolding put
  length-put k v m = ground (arith, length-replace k v m, length-place k v m)

pub lookup-map_values {ℓ} :
    {V W : Type ℓ} (f : Text → V → W) (k : Text) (m : Object V)
    → lookup k (map_values f m) ≡ elim (lookup k m) [ none ↦ none | some v ↦ some (f k v) ]
unfolding lookup map_values
lookup-map_values f k [] = refl
lookup-map_values f k ((j, v) ∷ m) = ground (arith, eqb_iff j k, lookup-map_values f k m)

pub lookup-assign {ℓ} :
    {V : Type ℓ} (k j : Text) (v : V) (m : Object V)
    → lookup j (assign k v m) ≡ (if not (eqb k proto) && eqb k j then some v else lookup j m)
unfolding assign
lookup-assign k j v m = ground (arith, lookup-put k j v m)

pub length-assign {ℓ} :
    {V : Type ℓ} (k : Text) (v : V) (m : Object V)
    → length (keys (assign k v m))
      ≡ (if not (eqb k proto) && not (has k m) then suc (length (keys m)) else length (keys m))
unfolding assign
length-assign k v m = ground (arith, length-put k v m)

module _ {ℓ} {V : Type ℓ} where
  -- what a read finds behind a write: the value written, or what was there
  pub put_inv :
      (k j : Text) (v w : V) (m : Object V)
      → lookup j (put k v m) ≡ some w
      → (w ≡ v) ⊎ (lookup j m ≡ some w)
  put_inv k j v w m h = elim (Bool-cases (eqb k j)) [
    | inl e ↦ inl (ground (arith, lookup-put k j v m))
    | inr e ↦ inr (ground (arith, lookup-put k j v m))
  ]

  pub access_own : (k : Text) (v : V) (m : Object V) → access k m ≡ own v → lookup k m ≡ some v
  unfolding access
  access_own k v m h = ground arith

  replace-IsObject :
      (k : Text) (v : V) (m : Object V) → IsObject m → has k m ≡ true → IsObject (replace k v m)
  unfolding replace has lookup
  replace-IsObject k v [] h e = tt
  replace-IsObject k v ((j, w) ∷ m) (h, hs) e = elim (Bool-cases (eqb j k)) [
    | inl p ↦ rw p (h, hs)
    | inr p ↦ rw p (
      ground (arith, lookup-replace k j v m, eqb_iff k j, eqb_iff j k),
      replace-IsObject k v m hs (ground arith),
    )
  ]

  place-IsObject :
      (k : Text) (v : V) (m : Object V) → IsObject m → has k m ≡ false → IsObject (place k v m)
  unfolding place has lookup
  place-IsObject k v [] h e = (refl, tt)
  place-IsObject k v ((j, w) ∷ m) (h, hs) e =
      elim (Bool-cases (index_before (array_index k) (array_index j))) [
        | inl p ↦ rw p (ground arith, (h, hs))
        | inr p ↦ rw p (
          ground (arith, lookup-place k j v m, eqb_iff k j, eqb_iff j k),
          place-IsObject k v m hs (ground arith),
        )
      ]

  pub put-IsObject : (k : Text) (v : V) (m : Object V) → IsObject m → IsObject (put k v m)
  unfolding put
  put-IsObject k v m h = elim (Bool-cases (has k m)) [
    | inl old ↦ rw old (replace-IsObject k v m h old)
    | inr new ↦ rw new (place-IsObject k v m h new)
  ]

  pub assign-IsObject : (k : Text) (v : V) (m : Object V) → IsObject m → IsObject (assign k v m)
  unfolding assign
  assign-IsObject k v m h = elim (Bool-cases (eqb k proto)) [
    | inl e ↦ rw e h
    | inr e ↦ rw e (put-IsObject k v m h)
  ]

  pub member-keys : (key : Text) (m : Object V) → member key (keys m) ≡ has key m
  unfolding keys has lookup
  member-keys key [] = refl
  member-keys key ((j, v) ∷ m) = ground (arith, member-keys key m)
