-- ===== src/Timers/Percentiles.antt =====
-- What the loop over the percentiles records of the values of a timer.
use statsd.Base.{
  ℕ, suc, ◌-◌, ◌≤◌, ◌<◌, ◌≡◌, refl, ap, ◌∙◌, Bool, true, false, List, ◌∷◌, ◌++◌, Option, some, ◌==◌,
  ltb, length, length-append, get_elem?, take, arith, Bool-cases, inl, inr,
}
use statsd.Js.Number.{JsNumber, HasNan, nought}
use statsd.Js.Object.{Object, lookup, put}
use statsd.Js.Object.Laws.{lookup-put}
use statsd.Js.Text.{Text, codes, eqb, eqb_iff, eqb_refl}
use statsd.Timers.Thresholds.{
  Datum, number, datum, Running, cumulative, in_threshold, from_end, top_sum, cut, clean_pct,
  record_pct, threshold,
}
use statsd.Timers.Sums.{total, square, cumulative_at, from_end_at, top_sum_lem, top_sum_all}

-- a name with a longer word in front is another one
longer : (p q name : Text) → length p < length q → eqb (q ++ name) (p ++ name) ≡ false
longer p q name h = elim (Bool-cases (eqb (q ++ name) (p ++ name))) [
  | inl e ↦
      let same : q ++ name ≡ p ++ name = (eqb_iff (q ++ name) (p ++ name)).0 e in
      ground (arith, ap length same, length-append q name, length-append p name)
  | inr e ↦ e
]

-- `upper_` or `lower_`
abbrev pub bound_word : Bool → Text
bound_word true = codes "upper_"
bound_word false = codes "lower_"

-- five entries with different keys, put one after the other
five_entries {ℓ} :
    {V : Type ℓ} (a b c d e : Text) (u v w x y : V) (m : Object V)
    → eqb b a ≡ false
    → eqb c a ≡ false
    → eqb d a ≡ false
    → eqb e a ≡ false
    → eqb c b ≡ false
    → eqb d b ≡ false
    → eqb e b ≡ false
    → eqb d c ≡ false
    → eqb e c ≡ false
    → eqb e d ≡ false
    → let m' = put e y (put d x (put c w (put b v (put a u m)))) in
      (lookup a m' ≡ some u)
      × (lookup b m' ≡ some v)
      × (lookup c m' ≡ some w)
      × (lookup d m' ≡ some x)
      × (lookup e m' ≡ some y)
five_entries a b c d e u v w x y m ba ca da ea cb db eb dc ec ed = (
  simp (lookup-put, eqb_refl, ba, ca, da, ea),
  simp (lookup-put, eqb_refl, cb, db, eb),
  simp (lookup-put, eqb_refl, dc, ec),
  simp (lookup-put, eqb_refl, ed),
  simp (lookup-put, eqb_refl),
)

-- the five entries of a percentile, with its name behind the words
word_entries {ℓ} :
    {V : Type ℓ} (word name : Text) (u v w x y : V) (m : Object V)
    → eqb (word ++ name) (codes "count_" ++ name) ≡ false
    → eqb (word ++ name) (codes "mean_" ++ name) ≡ false
    → eqb (codes "sum_" ++ name) (word ++ name) ≡ false
    → eqb (codes "sum_squares_" ++ name) (word ++ name) ≡ false
    → let m' = put (codes "sum_squares_" ++ name) y (
        put (codes "sum_" ++ name) x (
          put
            (word ++ name)
            w
            (put (codes "mean_" ++ name) v (put (codes "count_" ++ name) u m)))) in
      (lookup (codes "count_" ++ name) m' ≡ some u)
      × (lookup (codes "mean_" ++ name) m' ≡ some v)
      × (lookup (word ++ name) m' ≡ some w)
      × (lookup (codes "sum_" ++ name) m' ≡ some x)
      × (lookup (codes "sum_squares_" ++ name) m' ≡ some y)
word_entries word name u v w x y m a b c d =
    five_entries (codes "count_" ++ name) (codes "mean_" ++ name) (word ++ name)
      (codes "sum_" ++ name) (codes "sum_squares_" ++ name) u v w x y m refl a refl refl b refl refl
      c d (longer (codes "sum_") (codes "sum_squares_") name (omega arith))

module _ {ℓ} {N : Type ℓ} (num : JsNumber N) where
  abbrev pub entry : Text → N → Running N → Option (Datum N)
  entry word pct r = lookup (word ++ clean_pct num pct) r.timer_data

  -- The entries of a percentile, with the word for its bound, the number of its values, their sum, the
  -- sum of their squares, and the bound.
  abbrev pub IsRecorded : Text → N → ℕ → N → N → Option N → Running N → Type ℓ
  IsRecorded word pct n sum squares bound r =
      (entry (codes "count_") pct r ≡ some (number (num.of_nat n)))
      × (entry (codes "mean_") pct r ≡ some (number (num.div sum (num.of_nat n))))
      × (entry word pct r ≡ some (datum bound))
      × (entry (codes "sum_") pct r ≡ some (number sum))
      × (entry (codes "sum_squares_") pct r ≡ some (number squares))

  -- an entry is there and is NaN
  abbrev pub HasNanEntry : Text → N → Running N → Type ℓ
  HasNanEntry word pct r = (x : N) × (entry word pct r ≡ some (number x)) × (num.is_nan x ≡ true)

  record_pct-entries :
      (pct : N) (n : ℕ) (r : Running N) (up : Bool)
      → num.lt (nought num) pct ≡ up
      → let r' = record_pct num pct n r in
        (entry (codes "count_") pct r' ≡ some (number (num.of_nat n)))
        × (entry (codes "mean_") pct r' ≡ some (number r.mean))
        × (entry (bound_word up) pct r' ≡ some (datum r.threshold_boundary))
        × (entry (codes "sum_") pct r' ≡ some (datum r.sum))
        × (entry (codes "sum_squares_") pct r' ≡ some (datum r.sum_squares))
  unfolding record_pct
  record_pct-entries pct n r true e = rw e (
      word_entries (codes "upper_") (clean_pct num pct) (number (num.of_nat n)) (number r.mean)
        (datum r.threshold_boundary) (datum r.sum) (datum r.sum_squares) r.timer_data refl refl refl
        refl)
  record_pct-entries pct n r false e = rw e (
      word_entries (codes "lower_") (clean_pct num pct) (number (num.of_nat n)) (number r.mean)
        (datum r.threshold_boundary) (datum r.sum) (datum r.sum_squares) r.timer_data refl refl refl
        refl)

  threshold-entries :
      (values : List N) (pct : N) (r : Running N) (k : ℕ)
      → 1 < length values
      → in_threshold num pct (length values) ≡ suc k
      → threshold num values pct r ≡ record_pct num pct (suc k) (cut num pct (suc k) values r)
  unfolding threshold
  threshold-entries values pct r k h e =
      let many : ltb 1 (length values) ≡ true = ground arith in
      let some_in : (suc k == 0) ≡ false = ground arith in rw (many, e, some_in) refl

  -- the variables of a positive percentile
  cut_bottom :
      (values : List N) (pct : N) (k : ℕ) (r : Running N) (sum squares : N)
      → num.lt (nought num) pct ≡ true
      → get_elem? (cumulative num (λ x. x) values) k ≡ some sum
      → get_elem? (cumulative num (square num) values) k ≡ some squares
      → cut num pct (suc k) values r ≡ record r {
        threshold_boundary = get_elem? values k;
        sum = some sum;
        sum_squares = some squares;
        mean = num.div sum (num.of_nat (suc k));
      }
  unfolding cut
  cut_bottom values pct k r sum squares up s q =
      let back : suc k - 1 ≡ k = omega arith in rw (up, back, s, q) refl

  cut_top :
      (values : List N) (pct : N) (n : ℕ) (r : Running N)
      → num.lt (nought num) pct ≡ false
      → let sum = top_sum num (cumulative num (λ x. x) values) n in
        cut num pct n values r ≡ record r {
          threshold_boundary = from_end values n;
          sum = some sum;
          sum_squares = some (top_sum num (cumulative num (square num) values) n);
          mean = num.div sum (num.of_nat n);
        }
  unfolding cut
  cut_top values pct n r down = rw (down) refl

  -- A positive percentile with `suc k` of the values in the threshold, out of more than one: its count
  -- is their number, its sum and sum of squares are those of the first `suc k` values, its mean is
  -- their sum by their number, and its upper value is the last of them.
  pub bottom_percentile :
      (least : N) (others : List N) (pct : N) (k : ℕ) (r : Running N)
      → 0 < length others
      → num.lt (nought num) pct ≡ true
      → in_threshold num pct (suc (length others)) ≡ suc k
      → k ≤ length others
      → let first = take k others in
        IsRecorded
          (codes "upper_")
          pct
          (suc k)
          (total num (λ x. x) least first)
          (total num (square num) least first)
          (get_elem? (least ∷ others) k)
          (threshold num (least ∷ others) pct r)
  bottom_percentile least others pct k r some_left up inside enough =
      let values = least ∷ others in
      let step = threshold-entries values pct r k (omega arith) inside in
      let parts =
        cut_bottom values pct k r (total num (λ x. x) least (take k others))
          (total num (square num) least (take k others)) up
          (cumulative_at num (λ x. x) least others k enough)
          (cumulative_at num (square num) least others k enough) in
      rw (step, parts) (record_pct-entries pct (suc k) _ true up)

  -- A percentile that is not positive, with `suc k` of the values in the threshold and some value
  -- outside: its count is their number, its sum and sum of squares are those of all values less those
  -- of the values outside, its mean is that sum by the number, and its lower value is the first of the
  -- last `suc k` values.
  pub top_percentile :
      (least : N) (others : List N) (pct : N) (k : ℕ) (r : Running N)
      → num.lt (nought num) pct ≡ false
      → in_threshold num pct (suc (length others)) ≡ suc k
      → k < length others
      → let outside = take (length others - suc k) others in
        let part = λ (f : N → N). num.sub (total num f least others) (total num f least outside) in
        IsRecorded
          (codes "lower_")
          pct
          (suc k)
          (part (λ x. x))
          (part (square num))
          (get_elem? (least ∷ others) (length others - k))
          (threshold num (least ∷ others) pct r)
  top_percentile least others pct k r down inside enough =
      let values = least ∷ others in
      let step = threshold-entries values pct r k (omega arith) inside in
      let parts = cut_top values pct (suc k) r down in
      let index : length values - suc k ≡ length others - k = omega arith in
      let first = from_end_at values (suc k) (omega arith) ∙ ap (get_elem? values) index in
      rw
        (
          step,
          parts,
          first,
          top_sum_lem num (λ x. x) least others k enough,
          top_sum_lem num (square num) least others k enough,
        )
        (record_pct-entries pct (suc k) _ false down)

  -- A percentile that is not positive, with all of more than one value in the threshold: NaN is its sum,
  -- its sum of squares and its mean, whatever the values are.
  pub whole_percentile :
      (least : N) (others : List N) (pct : N) (r : Running N)
      → HasNan num
      → 0 < length others
      → num.lt (nought num) pct ≡ false
      → in_threshold num pct (suc (length others)) ≡ suc (length others)
      → let r' = threshold num (least ∷ others) pct r in
        HasNanEntry (codes "sum_") pct r'
        × HasNanEntry (codes "sum_squares_") pct r'
        × HasNanEntry (codes "mean_") pct r'
  whole_percentile least others pct r h some_left down inside =
      let n = suc (length others) in
      let values = least ∷ others in
      let step = threshold-entries values pct r (length others) (omega arith) inside in
      let parts = cut_top values pct n r down in
      let nan_sum = top_sum_all num (λ x. x) least others h in
      let nan_squares = top_sum_all num (square num) least others h in
      rw (step, parts)
        (let (_, mean, _, sum, squares) = record_pct-entries pct n _ false down in
          ((_, sum, nan_sum), (_, squares, nan_squares), (_, mean, h.div_nan _ _ nan_sum)))
