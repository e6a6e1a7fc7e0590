-- ===== src/Timers/Summary.antt =====
-- The statistics of a whole timer: what `add_summary` records, whatever the percentiles and the
-- histogram are.
use mathlib.Core.List.{Memᴰ}
use statsd.Base.{
  ◌≡◌, refl, subst, ◌∙◌, true, false, List, [], ◌∷◌, Option, some, All, length, Bool-cases, inl,
  inr,
}
use statsd.Js.Number.{JsNumber, IsOrdered}
use statsd.Js.Object.{Object, lookup, put}
use statsd.Js.Object.Laws.{lookup-put}
use statsd.Js.Text.{Text, codes, eqb}
use statsd.Timers.{last_of, add_summary, per_second, timer_stats, before_thresholds, median}
use statsd.Timers.Histogram.{Limit, add_histogram, bins_of}
use statsd.Timers.Sort.{IsSorted, AreNumbers, insert, sort, sort_lem, sort-All}
use statsd.Timers.Sums.{total, total_from, square}
use statsd.Timers.Thresholds.{Datum, number, datum, cumulative, sums_from, thresholds}

module _ {ℓ} {N : Type ℓ} (num : JsNumber N) where
  insert-All-back {κ} :
      (P : N → Type κ) (x : N) (xs : List N) → All P (insert num x xs) → P x × All P xs
  unfolding insert
  insert-All-back P x [] (p, _) = (p, tt)
  insert-All-back P x (y ∷ ys) h = elim (Bool-cases (num.lt (num.of_nat 0) (num.sub x y))) [
    | inl e ↦ let (q, rest) = rw e at h in let (p, qs) = insert-All-back P x ys rest in (p, (q, qs))
    | inr e ↦ rw e at h
  ]

  -- what holds of the sorted values holds of the values
  sort-All-back {κ} : (P : N → Type κ) (xs : List N) → All P (sort num xs) → All P xs
  unfolding sort
  sort-All-back P [] h = tt
  sort-All-back P (x ∷ xs) h =
      let (p, hs) = insert-All-back P x (sort num xs) h in (p, sort-All-back P xs hs)

All-Mem {ℓ} : {A : Type ℓ} (xs : List A) → All (λ x. Memᴰ x xs) xs
All-Mem xs = widen xs (λ x m. m)
  where
    widen :
        {B : Type ℓ} {ys : List B} (xs : List B)
        → ((x : B) → Memᴰ x xs → Memᴰ x ys)
        → All (λ x. Memᴰ x ys) xs
    widen [] f = tt
    widen (x ∷ xs) f = (f x (Memᴰ.head refl), widen xs (λ y m. f y (Memᴰ.tail m)))

-- a predicate on every element holds of the last
last-All {ℓ κ} :
    {A : Type ℓ} (P : A → Type κ) (x : A) (xs : List A) → P x → All P xs → P (last_of x xs)
last-All P x [] p h = p
last-All P x (y ∷ ys) p (q, h) = last-All P y ys q h

-- the entries of the summary and one more, put one after the other
nine_entries {ℓ} :
    {V : Type ℓ} (a b c d e f g h i : V) (m : Object V)
    → let m' = put (codes "median") a (
        put (codes "mean") b (
          put (codes "sum_squares") c (
            put (codes "sum") d (
              put (codes "count_ps") e (
                put
                  (codes "count")
                  f
                  (put (codes "lower") g (put (codes "upper") h (put (codes "std") i m)))))))) in
      (lookup (codes "median") m' ≡ some a)
      × (lookup (codes "mean") m' ≡ some b)
      × (lookup (codes "sum_squares") m' ≡ some c)
      × (lookup (codes "sum") m' ≡ some d)
      × (lookup (codes "count_ps") m' ≡ some e)
      × (lookup (codes "count") m' ≡ some f)
      × (lookup (codes "lower") m' ≡ some g)
      × (lookup (codes "upper") m' ≡ some h)
      × (lookup (codes "std") m' ≡ some i)
nine_entries a b c d e f g h i m = (
  simp lookup-put,
  simp lookup-put,
  simp lookup-put,
  simp lookup-put,
  simp lookup-put,
  simp lookup-put,
  simp lookup-put,
  simp lookup-put,
  simp lookup-put,
)

module _ {ℓ} {N : Type ℓ} (num : JsNumber N) where
  last-sums_from :
      (f : N → N) (sum : N) (xs : List N)
      → last_of sum (sums_from num f sum xs) ≡ total_from num f sum xs
  unfolding sums_from
  last-sums_from f sum [] = refl
  last-sums_from f sum (x ∷ xs) = last-sums_from f (num.add (f x) sum) xs

  last-cumulative :
      (f : N → N) (x : N) (xs : List N)
      → last_of num.nan (cumulative num f (x ∷ xs)) ≡ total num f x xs
  unfolding cumulative
  last-cumulative f x xs = last-sums_from f (f x) xs

  -- The entries of the summary.
  abbrev pub IsSummary : N → Option N → N → List N → Object (Datum N) → Type ℓ
  IsSummary flush_interval counter least others m =
      let count = num.of_nat (length (least ∷ others)) in
      let sum = total num (λ x. x) least others in
      (lookup (codes "lower") m ≡ some (number least))
      × (lookup (codes "upper") m ≡ some (number (last_of least others)))
      × (lookup (codes "count") m ≡ some (datum counter))
      × (lookup (codes "count_ps") m ≡ some (number (per_second num flush_interval counter)))
      × (lookup (codes "sum") m ≡ some (number sum))
      × (lookup (codes "sum_squares") m ≡ some (number (total num (square num) least others)))
      × (lookup (codes "mean") m ≡ some (number (num.div sum count)))
      × (lookup (codes "median") m ≡ some (number (median num (least ∷ others))))

  add_summary-IsSummary :
      (flush_interval : N) (counter : Option N) (least : N) (others : List N) (m : Object (Datum N))
      → IsSummary flush_interval counter least others
          (add_summary num flush_interval counter least others m)
  unfolding add_summary
  add_summary-IsSummary flush_interval counter least others m =
      let sum = last-cumulative (λ x. x) least others in
      let squares = last-cumulative (square num) least others in
      rw (sum, squares)
        (let (median, mean, squares, sum, count_ps, count, lower, upper, _) =
            nine_entries _ _ _ _ _ _ _ _ _ m in
          (lower, upper, count, count_ps, sum, squares, mean, median))

  histogram_other :
      (limits : List (Limit N)) (values : List N) (m : Object (Datum N)) (k : Text)
      → eqb (codes "histogram") k ≡ false
      → lookup k (add_histogram num limits values m) ≡ lookup k m
  unfolding add_histogram
  histogram_other [] values m k h = refl
  histogram_other (b ∷ limits) values m k h = simp (lookup-put, h)

  add_histogram-IsSummary :
      (flush_interval : N) (counter : Option N) (least : N) (others : List N)
      (limits : List (Limit N)) (values : List N) (m : Object (Datum N))
      → IsSummary flush_interval counter least others m
      → IsSummary flush_interval counter least others (add_histogram num limits values m)
  add_histogram-IsSummary flush_interval counter least others limits values m h =
      let kept = λ (k : Text). histogram_other limits values m k in
      (
        kept (codes "lower") refl ∙ h.0,
        kept (codes "upper") refl ∙ h.1,
        kept (codes "count") refl ∙ h.2,
        kept (codes "count_ps") refl ∙ h.3,
        kept (codes "sum") refl ∙ h.4,
        kept (codes "sum_squares") refl ∙ h.5,
        kept (codes "mean") refl ∙ h.6,
        kept (codes "median") refl ∙ h.7,
      )

  pub timer_stats-IsSummary :
      (pcts : List N) (histogram : List (Text × List (Limit N))) (flush_interval : N) (key : Text)
      (counter : Option N) (least : N) (others : List N)
      → IsSummary flush_interval counter least others
          (timer_stats num pcts histogram flush_interval key counter (least ∷ others))
  unfolding timer_stats
  timer_stats-IsSummary pcts histogram flush_interval key counter least others =
      let values = least ∷ others in
      let r = thresholds num values pcts (before_thresholds num least others) in
      add_histogram-IsSummary flush_interval counter least others (bins_of histogram key) values _
        (add_summary-IsSummary flush_interval counter least others r.timer_data)

  insert-cons : (x : N) (xs : List N) → (y : N) × (ys : List N) × (insert num x xs ≡ y ∷ ys)
  unfolding insert
  insert-cons x [] = (x, [], refl)
  insert-cons x (y ∷ ys) = elim (Bool-cases (num.lt (num.of_nat 0) (num.sub x y))) [
    | inl e ↦ (y, insert num x ys, rw e refl)
    | inr e ↦ (x, y ∷ ys, rw e refl)
  ]

  module _ (o : IsOrdered num) where
    le_refl : (x : N) → num.is_nan x ≡ false → num.le x x ≡ true
    le_refl x n = elim (o.le_total x x n n) [ inl e ↦ e | inr e ↦ e ]

    last_greatest :
        (x : N) (xs : List N)
        → AreNumbers num (x ∷ xs)
        → IsSorted num (x ∷ xs)
        → All (λ y. num.le y (last_of x xs) ≡ true) (x ∷ xs)
    last_greatest x [] (n, _) s = (le_refl x n, tt)
    last_greatest x (y ∷ ys) (n, ns) ((p, h), s) =
        let greatest = last_greatest y ys ns s in
        (o.le_trans x y (last_of y ys) p greatest.0, greatest)

    -- The statistics of a timer with values that are numbers. The lower value and the upper one are
    -- values of the timer, and every value is between them; the count is the entry of
    -- `timer_counters`, and the count per second is that by the seconds of a flush; the sum and the sum
    -- of squares are those of all values, in ascending order; the mean is the sum by the number of
    -- values; and the median is that of the values in ascending order.
    pub timer_stats_lem :
        (pcts : List N) (histogram : List (Text × List (Limit N))) (flush_interval : N) (key : Text)
        (counter : Option N) (v : N) (vs : List N)
        → AreNumbers num (v ∷ vs)
        → (least : N) × (others : List N) × (sort num (v ∷ vs) ≡ least ∷ others)
          × IsSummary flush_interval counter least others
              (timer_stats num pcts histogram flush_interval key counter (sort num (v ∷ vs)))
          × Memᴰ least (v ∷ vs)
          × Memᴰ (last_of least others) (v ∷ vs)
          × All (λ x. num.le least x ≡ true) (v ∷ vs)
          × All (λ x. num.le x (last_of least others) ≡ true) (v ∷ vs)
    unfolding sort
    timer_stats_lem pcts histogram flush_interval key counter v vs ns =
        let (least, others, e) = insert-cons v (sort num vs) in
        let stats = timer_stats-IsSummary pcts histogram flush_interval key counter least others in
        let s : IsSorted num (least ∷ others) =
          subst (IsSorted num) e (sort_lem num o (v ∷ vs) ns).0 in
        let ms : AreNumbers num (least ∷ others) =
          subst (AreNumbers num) e (sort-All num (λ x. num.is_nan x ≡ false) (v ∷ vs) ns) in
        let inside : All (λ x. Memᴰ x (v ∷ vs)) (least ∷ others) =
          subst (All λ x. Memᴰ x (v ∷ vs)) e
            (sort-All num (λ x. Memᴰ x (v ∷ vs)) (v ∷ vs) (All-Mem (v ∷ vs))) in
        let last = last_of least others in
        (
          least,
          others,
          e,
          rw (e) stats,
          inside.0,
          last-All (λ x. Memᴰ x (v ∷ vs)) least others inside.0 inside.1,
          sort-All-back num (λ x. num.le least x ≡ true) (v ∷ vs) (rw e (le_refl least ms.0, s.0)),
          sort-All-back num (λ x. num.le x last ≡ true) (v ∷ vs)
              (rw e (last_greatest least others ms s)),
        )
