-- ===== src/Timers/Sort.antt =====
-- `timers[key].sort(function (a, b) { return a - b; })`: a stable sort by the sign of a difference.
use mathlib.Core.List.{Perm}
use mathlib.Core.List.Perm
use statsd.Base.{◌≡◌, true, false, List, [], ◌∷◌, if◌then◌else◌, All, arith, Bool-cases, inl, inr}
use statsd.Js.Number.{JsNumber, IsOrdered, nought}

module _ {ℓ} {N : Type ℓ} (num : JsNumber N) where
  -- `x` stays in front of `y` unless their difference is positive.
  unfoldable pub insert : N → List N → List N
  insert x [] = x ∷ []
  insert x (y ∷ ys) = if num.lt (nought num) (num.sub x y) then y ∷ insert x ys else x ∷ y ∷ ys

  unfoldable pub sort : List N → List N
  unfolding insert
  sort [] = []
  sort (x ∷ xs) = insert x (sort xs)

  -- No value is above one that stands behind it.
  abbrev pub IsSorted : List N → Type 0
  IsSorted [] = Unit
  IsSorted (x ∷ xs) = All (λ y. num.le x y ≡ true) xs × IsSorted xs

  abbrev pub AreNumbers : List N → Type 0
  AreNumbers = All λ x. num.is_nan x ≡ false

  insert-perm : (x : N) (xs : List N) → Perm (insert x xs) (x ∷ xs)
  unfolding insert
  insert-perm x [] = Perm.rfl
  insert-perm x (y ∷ ys) = elim (Bool-cases (num.lt (nought num) (num.sub x y))) [
    | inl e ↦ rw e (Perm.trans (Perm.cons y (insert-perm x ys)) (Perm.swap x y ys))
    | inr e ↦ rw e Perm.rfl
  ]

  pub sort-perm : (xs : List N) → Perm (sort xs) xs
  unfolding sort
  sort-perm [] = Perm.rfl
  sort-perm (x ∷ xs) = Perm.trans (insert-perm x (sort xs)) (Perm.cons x (sort-perm xs))

  -- a predicate that holds of the parts holds of the result
  pub insert-All {κ} : (P : N → Type κ) (x : N) (xs : List N) → P x → All P xs → All P (insert x xs)
  unfolding insert
  insert-All P x [] p h = (p, tt)
  insert-All P x (y ∷ ys) p (q, h) = elim (Bool-cases (num.lt (nought num) (num.sub x y))) [
    | inl e ↦ rw e (q, insert-All P x ys p h)
    | inr e ↦ rw e (p, (q, h))
  ]

  pub sort-All {κ} : (P : N → Type κ) (xs : List N) → All P xs → All P (sort xs)
  unfolding sort
  sort-All P [] h = tt
  sort-All P (x ∷ xs) (p, h) = insert-All P x (sort xs) p (sort-All P xs h)

  module _ (o : IsOrdered num) where
    le-All :
        (x y : N) (xs : List N)
        → num.le x y ≡ true
        → All (λ z. num.le y z ≡ true) xs
        → All (λ z. num.le x z ≡ true) xs
    le-All x y [] p h = tt
    le-All x y (z ∷ zs) p (q, h) = (o.le_trans x y z p q, le-All x y zs p h)

    -- what the comparator's sign says
    after_lem :
        (x y : N)
        → num.is_nan x ≡ false
        → num.is_nan y ≡ false
        → num.lt (nought num) (num.sub x y) ≡ true
        → num.le y x ≡ true
    after_lem x y n m e =
        ground (arith, o.sub_positive x y n m, o.lt-eq-not-le y x m n, o.le_total y x m n)

    before_lem :
        (x y : N)
        → num.is_nan x ≡ false
        → num.is_nan y ≡ false
        → num.lt (nought num) (num.sub x y) ≡ false
        → num.le x y ≡ true
    before_lem x y n m e = ground (arith, o.sub_positive x y n m, o.lt-eq-not-le y x m n)

    insert-IsSorted :
        (x : N) (xs : List N)
        → num.is_nan x ≡ false
        → AreNumbers xs
        → IsSorted xs
        → IsSorted (insert x xs)
    unfolding insert
    insert-IsSorted x [] n ns s = (tt, tt)
    insert-IsSorted x (y ∷ ys) n (m, ns) (b, s) =
        elim (Bool-cases (num.lt (nought num) (num.sub x y))) [
          | inl e ↦ rw e (
            insert-All (λ z. num.le y z ≡ true) x ys (after_lem x y n m e) b,
            insert-IsSorted x ys n ns s,
          )
          | inr e ↦ rw e ((before_lem x y n m e, le-All x y ys (before_lem x y n m e) b), (b, s))
        ]

    sort-IsSorted : (xs : List N) → AreNumbers xs → IsSorted (sort xs)
    unfolding sort
    sort-IsSorted [] h = tt
    sort-IsSorted (x ∷ xs) (n, ns) =
        insert-IsSorted x (sort xs) n (sort-All (λ y. num.is_nan y ≡ false) xs ns)
          (sort-IsSorted xs ns)

    -- Values that are numbers come back in ascending order, each as often as it was there.
    pub sort_lem : (xs : List N) → AreNumbers xs → IsSorted (sort xs) × Perm (sort xs) xs
    sort_lem xs h = (sort-IsSorted xs h, sort-perm xs)
