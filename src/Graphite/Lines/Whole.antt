-- ===== src/Graphite/Lines/Whole.antt =====
-- backends/graphite.js: the whole text of a flush.
use statsd.Base.{
  ℕ, ◌≡◌, refl, sym, ap, ap₂, ◌∙◌, true, false, List, [], ◌∷◌, ◌++◌, Option, none, some,
  append_assoc, append-nil, arith, Bool-cases, inl, inr,
}
use statsd.Graphite.{
  Flushed, rate_of, all_counters, all_timers, all_gauges, all_sets, num_stats, own_metrics,
  count_metrics, flush_stats, counter_metrics, timer_metrics, format,
}
use statsd.Graphite.Lines.{
  name, suffix, is_legacy, top, prefix, line, counter_lines, timer_lines, gauge_line, set_line,
  rate_at, each, own_lines, flush_lines,
}
use statsd.Graphite.Lines.Sent.{
  dots_behind, dots_before, dots-pushed, name-init, suffix-init, texts-append, counter-lines,
  timer-lines, gauge-line, set-line,
}
use statsd.Graphite.Settings.{GraphiteConfig, init, pushed, or_default}
use statsd.Graphite.Wire.{metric_text, texts}
use statsd.Js.Number.{JsNumber}
use statsd.Js.Object.{Object, access, lookup}
use statsd.Js.Text.{Text, codes}
use statsd.Set.{Set}
use statsd.Timers.Thresholds.{Datum}

module _ {ℓ} {N : Type ℓ} (num : JsNumber N) (c : GraphiteConfig) (ts : N) where
  -- a rate as the loop reads it
  rate-at :
      (key : Text) (m : Object N)
      → rate_of num (init c) ts (access key m) ≡ rate_at c num ts (lookup key m)
  unfolding access
  rate-at key m = go (lookup key m) refl
    where
      go :
          (found : Option N)
          → lookup key m ≡ found
          → rate_of num (init c) ts (access key m) ≡ rate_at c num ts found
      go none e = ground (arith, e)
      go (some x) e = ground (arith, e)

  counters-lines :
      (rates m : Object N)
      → texts num (all_counters num (init c) ts rates m)
        ≡ each c num ts
            (λ key value. counter_lines c num ts key value (rate_at c num ts (lookup key rates)))
            m
  unfolding all_counters
  counters-lines rates [] = refl
  counters-lines rates ((key, value) ∷ m) =
      let rate = rate_of num (init c) ts (access key rates) in
      texts-append c num ts (counter_metrics num (init c) ts key value rate)
        (all_counters num (init c) ts rates m)
      ∙ ap₂ ◌++◌
          (counter-lines c num ts key value rate
            ∙ ap (counter_lines c num ts key value) (rate-at key rates))
          (counters-lines rates m)

  timers-lines :
      (m : Object (Object (Datum N)))
      → texts num (all_timers num (init c) ts m) ≡ each c num ts (timer_lines c num ts) m
  unfolding all_timers
  timers-lines [] = refl
  timers-lines ((key, t) ∷ m) =
      texts-append c num ts (timer_metrics num (init c) ts key t) (all_timers num (init c) ts m)
      ∙ ap₂ ◌++◌ (timer-lines c num ts key t) (timers-lines m)

  gauges-lines :
      (m : Object N)
      → texts num (all_gauges num (init c) ts m)
        ≡ each c num ts (λ key x. gauge_line c num ts key x ∷ []) m
  unfolding all_gauges
  gauges-lines [] = refl
  gauges-lines ((key, x) ∷ m) = ap₂ ◌∷◌ (gauge-line c num ts key x) (gauges-lines m)

  sets-lines :
      (m : Object Set)
      → texts num (all_sets num (init c) ts m)
        ≡ each c num ts (λ key set. set_line c num ts key set ∷ []) m
  unfolding all_sets
  sets-lines [] = refl
  sets-lines ((key, set) ∷ m) = ap₂ ◌∷◌ (set-line c num ts key set) (sets-lines m)

  global-dots : dots_behind (pushed (or_default c.global_prefix (codes "stats"))) ≡ top c
  global-dots =
      ap dots_behind (sym (append-nil (pushed (or_default c.global_prefix (codes "stats")))))
      ∙ dots-pushed (or_default c.global_prefix (codes "stats")) []
      ∙ append-nil (top c)

  -- a name behind the prefix of the daemon
  old-name :
      (behind : Text)
      → (prefix c num ts ++ behind) ++ (init c).global_suffix
        ≡ prefix c num ts ++ (behind ++ suffix c)
  old-name behind =
      append_assoc (prefix c num ts) behind (init c).global_suffix
      ∙ ap (λ s. prefix c num ts ++ (behind ++ s)) (suffix-init c)

  new-name :
      (more : List Text) (behind : Text)
      → dots_before more ≡ behind
      → format (init c) (pushed (or_default c.global_prefix (codes "stats"))) (prefix c num ts) more
        ≡ name c (top c) (prefix c num ts) behind
  new-name more behind m =
      name-init c (pushed (or_default c.global_prefix (codes "stats"))) more (prefix c num ts)
        (top c) behind global-dots m

  old-entries :
      (m : Object N)
      → is_legacy c ≡ true
      → texts num (own_metrics num (init c) ts m)
        ≡ each c num ts
            (λ key x.
              line c num ts
                (codes "stats." ++ (prefix c num ts ++ (codes "." ++ (key ++ suffix c))))
                x
              ∷ [])
            m
  unfolding own_metrics metric_text init
  old-entries [] e = refl
  old-entries ((key, x) ∷ m) e = rw e (
      ap₂ (λ n ls. line c num ts (codes "stats." ++ n) x ∷ ls) (old-name (b'.' ∷ key))
        (old-entries m e))

  new-entries :
      (m : Object N)
      → is_legacy c ≡ false
      → texts num (own_metrics num (init c) ts m)
        ≡ each c num ts
            (λ key x. line c num ts (name c (top c) (prefix c num ts) (codes "." ++ key)) x ∷ [])
            m
  unfolding own_metrics metric_text init format
  new-entries [] e = refl
  new-entries ((key, x) ∷ m) e = rw e (
      ap₂ (λ n ls. line c num ts n x ∷ ls)
        (new-name (key ∷ []) (b'.' ∷ key) (ap (◌∷◌ b'.') (append-nil key))) (new-entries m e))

  old-counts :
      (count : ℕ) (time : N)
      → is_legacy c ≡ true
      → texts num (count_metrics num (init c) ts count time)
        ≡ line c num ts (prefix c num ts ++ (codes ".numStats" ++ suffix c)) (num.of_nat count)
          ∷ line c num ts
              (codes "stats."
                ++ (prefix c num ts ++ (codes ".graphiteStats.calculationtime" ++ suffix c)))
              time
          ∷ []
  unfolding count_metrics metric_text init
  old-counts count time e = rw e (
      ap₂
        (λ n k. line c num ts n (num.of_nat count) ∷ line c num ts (codes "stats." ++ k) time ∷ [])
        (old-name (codes ".numStats")) (old-name (codes ".graphiteStats.calculationtime")))

  new-counts :
      (count : ℕ) (time : N)
      → is_legacy c ≡ false
      → texts num (count_metrics num (init c) ts count time)
        ≡ line c num ts (name c (top c) (prefix c num ts) (codes ".numStats")) (num.of_nat count)
          ∷ line c num ts
              (name c (top c) (prefix c num ts) (codes ".graphiteStats.calculationtime"))
              time
          ∷ []
  unfolding count_metrics metric_text init format
  new-counts count time e = rw e (
      ap₂ (λ n k. line c num ts n (num.of_nat count) ∷ line c num ts k time ∷ [])
        (new-name (codes "numStats" ∷ []) (codes ".numStats") refl)
        (new-name (codes "graphiteStats" ∷ codes "calculationtime" ∷ [])
          (codes ".graphiteStats.calculationtime") refl))

  own-lines :
      (count : ℕ) (time : N) (m : Object N)
      → texts num (count_metrics num (init c) ts count time ++ own_metrics num (init c) ts m)
        ≡ own_lines c num ts count time m
  own-lines count time m =
      texts-append c num ts (count_metrics num (init c) ts count time)
        (own_metrics num (init c) ts m)
      ∙ elim (Bool-cases (is_legacy c)) [
        | inl e ↦ ap₂ ◌++◌ (old-counts count time e) (old-entries m e) ∙ rw e refl
        | inr e ↦ ap₂ ◌++◌ (new-counts count time e) (new-entries m e) ∙ rw e refl
      ]

  -- The lines of a flush, each with a name, a value and a time: for each counter its rate, and its value
  -- where counts are asked for; for each timer each of its statistics and bins; for each gauge its value;
  -- for each set its size; and those about the daemon. With the old names or the new ones, each stands
  -- under the prefix of its kind, with the suffix and the tags of its key behind.
  pub flush_lines_lem :
      (f : Flushed N) (time : N)
      → texts num (flush_stats num (init c) ts f time) ≡ flush_lines c num ts f time
  unfolding flush_stats num_stats
  flush_lines_lem f time =
      let cs = all_counters num (init c) ts f.counter_rates f.counters in
      let ms = all_timers num (init c) ts f.timer_data in
      let gs = all_gauges num (init c) ts f.gauges in
      let ss = all_sets num (init c) ts f.sets in
      let os =
        count_metrics num (init c) ts (num_stats num (init c) ts f) time
        ++ own_metrics num (init c) ts f.statsd_metrics in
      texts-append c num ts cs (ms ++ (gs ++ (ss ++ os)))
      ∙ ap₂ ◌++◌ (counters-lines f.counter_rates f.counters) (
          texts-append c num ts ms (gs ++ (ss ++ os))
          ∙ ap₂ ◌++◌ (timers-lines f.timer_data) (
              texts-append c num ts gs (ss ++ os)
              ∙ ap₂ ◌++◌ (gauges-lines f.gauges) (
                  texts-append c num ts ss os
                  ∙ ap₂ ◌++◌ (sets-lines f.sets)
                      (own-lines (num_stats num (init c) ts f) time f.statsd_metrics))))
