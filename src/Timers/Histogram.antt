-- ===== src/Timers/Histogram.antt =====
-- lib/process_metrics.js: the histogram of a timer.
pub mod Frequencies
use statsd.Base.{
  ℕ, suc, ◌+◌, ◌-◌, ◌≡◌, refl, Bool, true, false, ◌||◌, List, [], ◌∷◌, ◌++◌, if◌then◌else◌, All,
  arith, Bool-cases, inl, inr,
}
use statsd.Js.Number.{JsNumber, IsOrdered}
use statsd.Js.Object.{Object, put}
use statsd.Js.Text.{Text, codes, includes, replace_first}
use statsd.Timers.Sort.{IsSorted}
use statsd.Timers.Thresholds.{Datum, bins}

-- The upper limit of a bin: a number or `'inf'`.
pub data Limit {ℓ} (N : Type ℓ) : Type ℓ where
  upper : N → Limit N
  inf : Limit N

-- The bins of the first entry whose text is in the key.
unfoldable pub bins_of {ℓ} : {N : Type ℓ} → List (Text × List (Limit N)) → Text → List (Limit N)
unfolding includes
bins_of [] key = []
bins_of ((metric, limits) ∷ conf) key =
    let rest = bins_of conf key in if includes metric key then limits else rest

module _ {ℓ} {N : Type ℓ} (num : JsNumber N) where
  -- `bins[bin_i] == 'inf' || values[i] < bins[bin_i]`
  unfoldable pub is_below : Limit N → N → Bool
  is_below inf x = true
  is_below (upper b) x = num.lt x b

  -- The inner loop: how many values in a row are below the limit, and the values behind them.
  unfoldable pub take_below : Limit N → List N → ℕ × List N
  unfolding is_below
  take_below b [] = (0, [])
  take_below b (x ∷ xs) =
      let rest = take_below b xs in if is_below b x then (suc rest.0, rest.1) else (0, x ∷ xs)

  -- The outer loop: the frequency of each bin.
  unfoldable pub frequencies : List (Limit N) → List N → List ℕ
  unfolding take_below
  frequencies [] values = []
  frequencies (b ∷ limits) values =
      let step = take_below b values in step.0 ∷ frequencies limits step.1

  -- `'bin_' + bins[bin_i].toString().replace('.', '_')`
  unfoldable pub bin_name : Limit N → Text
  unfolding replace_first
  bin_name inf = codes "bin_inf"
  bin_name (upper b) = codes "bin_" ++ replace_first b'.' (codes "_") (num.to_text b)

  unfoldable pub put_bins : List (Limit N) → List ℕ → Object N → Object N
  unfolding bin_name put
  put_bins (b ∷ limits) (freq ∷ freqs) m =
      put_bins limits freqs (put (bin_name b) (num.of_nat freq) m)
  put_bins limits freqs m = m

  -- The entry `histogram`, if there are bins.
  unfoldable pub add_histogram : List (Limit N) → List N → Object (Datum N) → Object (Datum N)
  unfolding put_bins frequencies put
  add_histogram [] values timer_data = timer_data
  add_histogram (b ∷ limits) values timer_data =
      put (codes "histogram") (bins (put_bins (b ∷ limits) (frequencies (b ∷ limits) values) []))
        timer_data
