-- ===== src/Graphite/Lines/Sent.antt =====
-- backends/graphite.js: the metrics of a flush as lines.
use statsd.Base.{
  ◌≡◌, refl, sym, ap, ap₂, ◌∙◌, Bool, true, false, List, [], ◌∷◌, ◌++◌, Option, none, some,
  if◌then◌else◌, append_assoc, append-nil, arith, Bool-cases, inl, inr, ◌==◌,
}
use statsd.Graphite.{
  counter_metrics, sub_metrics, datum_metrics, timer_metrics, format, format_parts, sk, tags_of,
}
use statsd.Graphite.Flush.{of_gauge, of_set}
use statsd.Graphite.Lines.{
  bare, tags, dotted, name, suffix, is_legacy, top, line, counter_lines, bin_lines, datum_lines,
  timer_lines, gauge_line, set_line, timer_name,
}
use statsd.Graphite.Settings.{
  GraphiteConfig, Graphite, init, pushed, or_default, suffix_of, namespace_of,
}
use statsd.Graphite.Wire.{Metric, metric_text, texts}
use statsd.Js.Number.{JsNumber}
use statsd.Js.Object.{Object}
use statsd.Js.Text.{Text, codes, contains, split, join}
use statsd.Js.Text.Split.{split_one, split_at, join-split}
use statsd.Set.{Set, size}
use statsd.Timers.Thresholds.{Datum, number, undefined, bins}

-- Components of a name, each with a dot behind it, or in front.
abbrev pub dots_behind : List Text → Text
dots_behind [] = []
dots_behind (p ∷ ps) = p ++ (b'.' ∷ dots_behind ps)

abbrev pub dots_before : List Text → Text
dots_before [] = []
dots_before (p ∷ ps) = b'.' ∷ (p ++ dots_before ps)

join-more : (x : Text) (more : List Text) → join (codes ".") (x ∷ more) ≡ x ++ dots_before more
unfolding join
join-more x [] = sym (append-nil x)
join-more x (m ∷ more) = ap (λ t. x ++ (b'.' ∷ t)) (join-more m more)

join-dots :
    (ns : List Text) (x : Text) (more : List Text)
    → join (codes ".") (ns ++ (x ∷ more)) ≡ dots_behind ns ++ (x ++ dots_before more)
unfolding join
join-dots [] x more = join-more x more
join-dots (n ∷ []) x more =
    ap (λ t. n ++ (b'.' ∷ t)) (join-more x more)
    ∙ sym (append_assoc n (b'.' ∷ []) (x ++ dots_before more))
join-dots (n ∷ m ∷ ns) x more =
    ap (λ t. n ++ (b'.' ∷ t)) (join-dots (m ∷ ns) x more)
    ∙ sym (append_assoc n (b'.' ∷ dots_behind (m ∷ ns)) (x ++ dots_before more))

-- a key is cut at its first semicolon
no_tags : (key : Text) → contains b';' key ≡ false → (bare key ≡ key) × (tags key ≡ [])
unfolding contains
no_tags [] h = (refl, refl)
no_tags (c ∷ key) h = ground (arith, no_tags key)

bare-clean : (key : Text) → contains b';' (bare key) ≡ false
unfolding contains
bare-clean [] = refl
bare-clean (c ∷ key) = ground (arith, bare-clean key)

cut :
    (key : Text)
    → contains b';' key ≡ true
    → (t : Text) × (tags key ≡ b';' ∷ t) × (key ≡ bare key ++ (b';' ∷ t))
unfolding contains
cut [] h = cc
cut (c ∷ key) h = elim (Bool-cases (c == b';')) [
  | inl e ↦ (key, ground (arith, e), ground (arith, e))
  | inr e ↦
      let (t, p, q) = cut key (ground arith) in (t, ground (arith, e, p), ground (arith, e, q))
]

module _ (g : Graphite) (ns more : List Text) where
  -- the name from its parts, and from its pieces
  parts-name :
      (x : Text) (ts : List Text)
      → format_parts g ns more (x ∷ ts)
        ≡ dots_behind ns ++ (sk g x ++ (dots_before more ++ (g.global_suffix ++ tags_of ts)))
  parts-name x ts =
      let r = g.global_suffix ++ tags_of ts in
      ap (λ t. t ++ r) (join-dots ns (sk g x) more)
      ∙ append_assoc (dots_behind ns) (sk g x ++ dots_before more) r
      ∙ ap (◌++◌ (dots_behind ns)) (append_assoc (sk g x) (dots_before more) r)

  -- what `format` makes of a key
  format-name :
      (key : Text)
      → format g ns key more
        ≡ dots_behind ns ++ (sk g (bare key) ++ (dots_before more ++ (g.global_suffix ++ tags key)))
  unfolding format tags_of split
  format-name key = elim (Bool-cases (contains b';' key)) [
    | inl e ↦
        let (t, p, q) = cut key e in
        ap (λ k. format_parts g ns more (split (codes ";") k)) q
        ∙ ap (format_parts g ns more) (split_at b';' (bare key) t (bare-clean key))
        ∙ parts-name (bare key) (split (codes ";") t)
        ∙ ap
            (λ u.
              dots_behind ns ++ (sk g (bare key) ++ (dots_before more ++ (g.global_suffix ++ u))))
            (ap (◌∷◌ b';') (join-split b';' t) ∙ sym p)
    | inr e ↦
        let (p, q) = no_tags key e in
        ap (format_parts g ns more) (split_one b';' key e)
        ∙ parts-name key []
        ∙ ap₂ (λ k u. dots_behind ns ++ (sk g k ++ (dots_before more ++ (g.global_suffix ++ u))))
            (sym p) (sym q)
  ]

pub dots-pushed :
    (a : Text) (ns : List Text) → dots_behind (pushed a ++ ns) ≡ dotted a ++ dots_behind ns
dots-pushed [] ns = refl
dots-pushed (x ∷ a) ns = ap (◌∷◌ x) (sym (append_assoc a (b'.' ∷ []) (dots_behind ns)))

module _ (c : GraphiteConfig) where
  pub suffix-init : (init c).global_suffix ≡ suffix c
  unfolding init suffix_of
  suffix-init = go c.global_suffix
    where
      go : (s : Option Text) → suffix_of s ≡ elim s [ none ↦ [] | some s ↦ codes "." ++ s ]
      go none = refl
      go (some s) = refl

  -- under a namespace
  pub name-init :
      (ns more : List Text) (key before behind : Text)
      → dots_behind ns ≡ before
      → dots_before more ≡ behind
      → format (init c) ns key more ≡ name c before key behind
  unfolding sk init
  name-init ns more key before behind n m =
      format-name (init c) ns more key
      ∙ ap₂ (λ b s. b ++ (sk (init c) (bare key) ++ (dots_before more ++ (s ++ tags key)))) n
          suffix-init
      ∙ ap (λ b. before ++ (sk (init c) (bare key) ++ (b ++ (suffix c ++ tags key)))) m

  namespace-dots :
      (prefix : Option Text) (d : Text)
      → dots_behind (namespace_of c.global_prefix prefix d) ≡ top c ++ dotted (or_default prefix d)
  unfolding namespace_of
  namespace-dots prefix d =
      dots-pushed (or_default c.global_prefix (codes "stats")) (pushed (or_default prefix d))
      ∙ ap (◌++◌ (top c)) (
          ap dots_behind (sym (append-nil (pushed (or_default prefix d))))
          ∙ dots-pushed (or_default prefix d) []
          ∙ append-nil (dotted (or_default prefix d)))

  module _ {ℓ} {N : Type ℓ} (num : JsNumber N) (ts : N) where
    two_lines :
        (b : Bool) (m n m' n' : Text) (rate value : N)
        → m ≡ m'
        → n ≡ n'
        → texts num (
            record { key = m; value = rate; ts = ts }
            ∷ (if b then record { key = n; value = value; ts = ts } ∷ [] else []))
          ≡ line c num ts m' rate ∷ (if b then line c num ts n' value ∷ [] else [])
    unfolding metric_text
    two_lines true m n m' n' rate value e f =
        ap₂ (λ k l. line c num ts k rate ∷ line c num ts l value ∷ []) e f
    two_lines false m n m' n' rate value e f = ap (λ k. line c num ts k rate ∷ []) e

    -- a counter's metrics as lines
    pub counter-lines :
        (key : Text) (value rate : N)
        → texts num (counter_metrics num (init c) ts key value rate)
          ≡ counter_lines c num ts key value rate
    unfolding counter_metrics init
    counter-lines key value rate =
        let counts = or_default c.flush_counts true in
        elim (Bool-cases (is_legacy c)) [
          | inl e ↦ rw e (
              two_lines counts _ _ _ _ rate value
                (name-init (codes "stats" ∷ []) [] key (codes "stats.") [] refl refl)
                (name-init (codes "stats_counts" ∷ []) [] key (codes "stats_counts.") [] refl refl))
          | inr e ↦
              let ns = namespace_of c.global_prefix c.prefix_counter (codes "counters") in
              let before = namespace-dots c.prefix_counter (codes "counters") in
              rw e (
                two_lines counts _ _ _ _ rate value
                  (name-init ns (codes "rate" ∷ []) key _ (codes ".rate") before refl)
                  (name-init ns (codes "count" ∷ []) key _ (codes ".count") before refl))
        ]

    -- the name of a statistic of a timer
    timer-name :
        (key behind : Text) (more : List Text)
        → dots_before more ≡ behind
        → format (init c) (init c).timer_namespace key more ≡ timer_name c key behind
    unfolding init format
    timer-name key behind more m = elim (Bool-cases (is_legacy c)) [
      | inl e ↦ rw e (
          name-init (codes "stats" ∷ codes "timers" ∷ []) more key (codes "stats.timers.") behind
            refl m)
      | inr e ↦ rw e (
          name-init (namespace_of c.global_prefix c.prefix_timer (codes "timers")) more key _ behind
            (namespace-dots c.prefix_timer (codes "timers")) m)
    ]

    bin-lines :
        (key stat : Text) (m : Object N)
        → texts num (sub_metrics num (init c) ts key stat m) ≡ bin_lines c num ts key stat m
    unfolding sub_metrics metric_text
    bin-lines key stat [] = refl
    bin-lines key stat ((bin, x) ∷ m) =
        ap₂ (λ n ls. line c num ts n x ∷ ls)
          (timer-name key _ (stat ∷ bin ∷ [])
            (ap (λ b. b'.' ∷ (stat ++ (b'.' ∷ b))) (append-nil bin)))
          (bin-lines key stat m)

    pub texts-append :
        (xs ys : List (Metric N)) → texts num (xs ++ ys) ≡ texts num xs ++ texts num ys
    texts-append [] ys = refl
    texts-append (x ∷ xs) ys = ap (◌∷◌ (metric_text num x)) (texts-append xs ys)

    datum-lines :
        (key stat : Text) (d : Datum N)
        → texts num (datum_metrics num (init c) ts key stat d) ≡ datum_lines c num ts key stat d
    unfolding datum_metrics metric_text
    datum-lines key stat (number x) =
        ap (λ n. line c num ts n x ∷ [])
          (timer-name key _ (stat ∷ []) (ap (◌∷◌ b'.') (append-nil stat)))
    datum-lines key stat undefined = refl
    datum-lines key stat (bins m) = bin-lines key stat m

    pub timer-lines :
        (key : Text) (m : Object (Datum N))
        → texts num (timer_metrics num (init c) ts key m) ≡ timer_lines c num ts key m
    unfolding timer_metrics
    timer-lines key [] = refl
    timer-lines key ((stat, d) ∷ m) =
        texts-append (datum_metrics num (init c) ts key stat d)
          (timer_metrics num (init c) ts key m)
        ∙ ap₂ ◌++◌ (datum-lines key stat d) (timer-lines key m)

    pub gauge-line :
        (key : Text) (x : N)
        → metric_text num (of_gauge num (init c) ts (key, x)) ≡ gauge_line c num ts key x
    unfolding metric_text init format
    gauge-line key x = elim (Bool-cases (is_legacy c)) [
      | inl e ↦ rw e (
          ap (λ n. line c num ts n x)
            (name-init (codes "stats" ∷ codes "gauges" ∷ []) [] key (codes "stats.gauges.") [] refl
              refl))
      | inr e ↦ rw e (
          ap (λ n. line c num ts n x)
            (name-init (namespace_of c.global_prefix c.prefix_gauge (codes "gauges")) [] key _ []
              (namespace-dots c.prefix_gauge (codes "gauges")) refl))
    ]

    pub set-line :
        (key : Text) (set : Set)
        → metric_text num (of_set num (init c) ts (key, set)) ≡ set_line c num ts key set
    unfolding metric_text init format
    set-line key set = elim (Bool-cases (is_legacy c)) [
      | inl e ↦ rw e (
          ap (λ n. line c num ts n (num.of_nat (size set)))
            (name-init (codes "stats" ∷ codes "sets" ∷ []) (codes "count" ∷ []) key
              (codes "stats.sets.") (codes ".count") refl refl))
      | inr e ↦ rw e (
          ap (λ n. line c num ts n (num.of_nat (size set)))
            (name-init (namespace_of c.global_prefix c.prefix_set (codes "sets"))
              (codes "count" ∷ []) key _ (codes ".count")
              (namespace-dots c.prefix_set (codes "sets")) refl))
    ]
