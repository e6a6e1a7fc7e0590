-- ===== src/Timers/Histogram/Frequencies.antt =====
-- What the frequencies of a histogram count.
use statsd.Base.{
  ℕ, ◌+◌, ◌≡◌, refl, ap, ap₂, ◌∙◌, Bool, true, false, List, [], ◌∷◌, if◌then◌else◌, All, arith,
  Bool-cases, inl, inr, map,
}
use statsd.Js.Number.{JsNumber, IsOrdered}
use statsd.Timers.Histogram.{Limit, upper, inf, is_below, take_below, frequencies}
use statsd.Timers.Sort.{IsSorted, AreNumbers, insert, sort, sort_lem, sort-All}

module _ {ℓ} {N : Type ℓ} (num : JsNumber N) where
  -- How many of the values are below a limit.
  abbrev pub count_below : Limit N → List N → ℕ
  count_below b [] = 0
  count_below b (x ∷ xs) = (if is_below num b x then 1 else 0) + count_below b xs

  -- a limit that is a number, or infinite
  abbrev pub IsLimit : Limit N → Type 0
  IsLimit inf = Unit
  IsLimit (upper b) = num.is_nan b ≡ false

  abbrev pub limit_le : Limit N → Limit N → Bool
  limit_le b inf = true
  limit_le (upper b) (upper c) = num.le b c
  limit_le inf (upper c) = false

  -- The limits are numbers, and none is above one that stands behind it.
  abbrev pub AreAscending : List (Limit N) → Type 0
  AreAscending [] = Unit
  AreAscending (b ∷ bs) = IsLimit b × All (λ c. limit_le b c ≡ true) bs × AreAscending bs

-- The sums of the first number, of the first two, and so on, from a sum so far.
abbrev pub running : ℕ → List ℕ → List ℕ
running n [] = []
running n (f ∷ fs) = (n + f) ∷ running (n + f) fs

module _ {ℓ} {N : Type ℓ} (num : JsNumber N) (o : IsOrdered num) where
  below_mono :
      (b c : Limit N) (x : N)
      → IsLimit num b
      → IsLimit num c
      → num.is_nan x ≡ false
      → limit_le num b c ≡ true
      → is_below num b x ≡ true
      → is_below num c x ≡ true
  unfolding is_below
  below_mono b inf x lb lc n h p = refl
  below_mono inf (upper c) x lb lc n h p = cc
  below_mono (upper b) (upper c) x lb lc n h p = ground (
    arith,
    o.lt-eq-not-le x b n lb,
    o.lt-eq-not-le x c n lc,
    o.le_trans b c x,
    o.le_total b x lb n,
  )

  -- what is not below a limit keeps what stands behind it from being below
  below_down :
      (b : Limit N) (x y : N)
      → IsLimit num b
      → num.is_nan x ≡ false
      → num.is_nan y ≡ false
      → num.le x y ≡ true
      → is_below num b x ≡ false
      → is_below num b y ≡ false
  unfolding is_below
  below_down inf x y lb n m h p = cc
  below_down (upper b) x y lb n m h p =
      ground (arith, o.lt-eq-not-le x b n lb, o.lt-eq-not-le y b m lb, o.le_trans b x y)

  none_below :
      (b : Limit N) (x : N) (xs : List N)
      → IsLimit num b
      → num.is_nan x ≡ false
      → AreNumbers num xs
      → All (λ y. num.le x y ≡ true) xs
      → is_below num b x ≡ false
      → count_below num b xs ≡ 0
  none_below b x [] lb n ns h p = refl
  none_below b x (y ∷ ys) lb n (m, ns) (q, h) p =
      ground (arith, below_down b x y lb n m q p, none_below b x ys lb n ns h p)

  take_below_count :
      (b : Limit N) (xs : List N)
      → IsLimit num b
      → AreNumbers num xs
      → IsSorted num xs
      → (take_below num b xs).0 ≡ count_below num b xs
  unfolding take_below
  take_below_count b [] lb ns s = refl
  take_below_count b (x ∷ xs) lb (n, ns) (h, s) =
      ground (arith, take_below_count b xs lb ns s, none_below b x xs lb n ns h)

  take_below_rest :
      (b c : Limit N) (xs : List N)
      → IsLimit num b
      → IsLimit num c
      → AreNumbers num xs
      → limit_le num b c ≡ true
      → (take_below num b xs).0 + count_below num c (take_below num b xs).1 ≡ count_below num c xs
  unfolding take_below
  take_below_rest b c [] lb lc ns h = refl
  take_below_rest b c (x ∷ xs) lb lc (n, ns) h =
      ground (arith, below_mono b c x lb lc n h, take_below_rest b c xs lb lc ns h)

  rest_numbers :
      (b : Limit N) (xs : List N)
      → AreNumbers num xs
      → IsSorted num xs
      → AreNumbers num (take_below num b xs).1 × IsSorted num (take_below num b xs).1
  unfolding take_below
  rest_numbers b [] ns s = (tt, tt)
  rest_numbers b (x ∷ xs) (n, ns) (h, s) = elim (Bool-cases (is_below num b x)) [
    | inl e ↦ rw e (rest_numbers b xs ns s)
    | inr e ↦ rw e ((n, ns), (h, s))
  ]

  rest_map :
      (n : ℕ) (b : Limit N) (bs : List (Limit N)) (xs : List N)
      → IsLimit num b
      → All (λ c. limit_le num b c ≡ true) bs
      → AreAscending num bs
      → AreNumbers num xs
      → map (λ c. n + (take_below num b xs).0 + count_below num c (take_below num b xs).1) bs
        ≡ map (λ c. n + count_below num c xs) bs
  rest_map n b [] xs lb h a ns = refl
  rest_map n b (c ∷ cs) xs lb (q, h) (lc, _, a) ns =
      let head : n + (take_below num b xs).0 + count_below num c (take_below num b xs).1
          ≡ n + count_below num c xs =
        omega (arith, take_below_rest b c xs lb lc ns q) in
      ap₂ ◌∷◌ head (rest_map n b cs xs lb h a ns)

  running-frequencies :
      (n : ℕ) (limits : List (Limit N)) (xs : List N)
      → AreAscending num limits
      → AreNumbers num xs
      → IsSorted num xs
      → running n (frequencies num limits xs) ≡ map (λ b. n + count_below num b xs) limits
  unfolding frequencies
  running-frequencies n [] xs a ns s = refl
  running-frequencies n (b ∷ bs) xs (lb, h, a) ns s =
      let (ms, t) = rest_numbers b xs ns s in
      let f = (take_below num b xs).0 in
      ap₂ ◌∷◌ (ap (◌+◌ n) (take_below_count b xs lb ns s)) (
        running-frequencies (n + f) bs (take_below num b xs).1 a ms t
        ∙ rest_map n b bs xs lb h a ns)

  count_below-insert :
      (b : Limit N) (x : N) (xs : List N)
      → count_below num b (insert num x xs) ≡ count_below num b (x ∷ xs)
  unfolding insert
  count_below-insert b x [] = refl
  count_below-insert b x (y ∷ ys) = ground (arith, count_below-insert b x ys)

  count_below-sort :
      (b : Limit N) (xs : List N) → count_below num b (sort num xs) ≡ count_below num b xs
  unfolding sort
  count_below-sort b [] = refl
  count_below-sort b (x ∷ xs) =
      count_below-insert b x (sort num xs)
      ∙ ap (λ n. (if is_below num b x then 1 else 0) + n) (count_below-sort b xs)

  map_sorted :
      (limits : List (Limit N)) (values : List N)
      → map (λ b. 0 + count_below num b (sort num values)) limits
        ≡ map (λ b. count_below num b values) limits
  map_sorted [] values = refl
  map_sorted (b ∷ bs) values =
      let head : 0 + count_below num b (sort num values) ≡ count_below num b values =
        omega (arith, count_below-sort b values) in
      ap₂ ◌∷◌ head (map_sorted bs values)

  -- Where the limits of the bins ascend, the frequency of a bin and of those before it add up to the
  -- number of the timer's values below the bin's limit; so each bin counts the values below its limit
  -- and not below the one before.
  pub frequencies_lem :
      (limits : List (Limit N)) (values : List N)
      → AreAscending num limits
      → AreNumbers num values
      → running 0 (frequencies num limits (sort num values))
        ≡ map (λ b. count_below num b values) limits
  frequencies_lem limits values a ns =
      let (s, _) = sort_lem num o values ns in
      let ms = sort-All num (λ x. num.is_nan x ≡ false) values ns in
      running-frequencies 0 limits (sort num values) a ms s ∙ map_sorted limits values
