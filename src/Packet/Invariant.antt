-- ===== src/Packet/Invariant.antt =====
-- One metric of `handlePacket` in stats.js: the invariant of the tables.
pub mod Handler
use statsd.Base.{
  ℕ, ◌+◌, ◌≤◌, ◌≡◌, refl, ap, sym, subst, Bool, true, false, not, ◌&&◌, ◌||◌, List, [], ◌∷◌, ◌++◌,
  Option, none, some, arith, if◌then◌else◌, is_some, ltb, All, All-append, Bool-cases, inl, inr,
}
use statsd.Helpers.{is_numeric, is_valid_value, is_valid_packet}
use statsd.Js.Number.{JsNumber, nought, one, truthy}
use statsd.Js.Object.{Object, Access, own, inherited, missing, access, lookup, has, put, assign}
use statsd.Js.Object.Laws.{put_inv, access_own, lookup-put, has-put, lookup-assign, assign-IsObject}
use statsd.Js.Text.{Text, codes, eqb, eqb_iff, is_empty, trim, trim_start, trim_end, is_space}
use statsd.Packet.Outcomes.{Holds, Holds-after}
use statsd.Packet.Metric.{
  Outcome, done, fault, Fault, ◌>>=◌, number_or, is_signed, timer_at, gauge_at, set_at, counter_at,
  renew_gauge, add_timer, set_gauge, add_gauge, add_to_set, add_counter, add_metric, count_bad_line,
  handle_valid, handle_fields, field, sample_rate,
}
use statsd.Set.{Set}
use statsd.Stats.{Stats, Names, Config, IsWellFormed, same-IsWellFormed}

-- the type `s` is its own trimming
trim_s : trim (codes "s") ≡ codes "s"
unfolding trim is_space
trim_s = refl

module _ {ℓ} {N : Type ℓ} (num : JsNumber N) where
  numeric_lem :
      (value : Text) (n : ℕ)
      → is_numeric num value ≡ true
      → num.is_nan (number_or num n value) ≡ false
  unfolding is_numeric number_or
  numeric_lem value n h = ground arith

  -- a value that passes the check and goes to the timers is a number
  valid_timer :
      (kind value : Text)
      → is_valid_value num kind value ≡ true
      → eqb (trim kind) (codes "ms") ≡ true
      → is_numeric num value ≡ true
  unfolding is_valid_value
  valid_timer kind value h e = elim (Bool-cases (eqb kind (codes "s"))) [
    | inl k ↦
        let trimmed = ap trim ((eqb_iff kind (codes "s")).0 k) in
        cc (trim_s, trimmed, (eqb_iff (trim kind) (codes "ms")).0 e)
    | inr k ↦ ground arith
  ]

  valid_value :
      (fields : List Text)
      → is_valid_packet num fields ≡ true
      → is_valid_value num (field fields 1) (field fields 0) ≡ true
  unfolding is_valid_packet
  valid_value [] h = cc
  valid_value (v ∷ []) h = cc
  valid_value (v ∷ k ∷ []) h = h
  valid_value (v ∷ k ∷ r ∷ more) h = ground arith

module _ {ℓ} {N : Type ℓ} (num : JsNumber N) (conf : Config) (top : ℕ) where
  abbrev pub WellFormed : Stats N → Type ℓ
  WellFormed = IsWellFormed num top

  set_gauge_lem :
      (key : Text) (x : N) (s : Stats N) → WellFormed s → WellFormed (set_gauge num key x s)
  unfolding set_gauge
  set_gauge_lem key x s w = same-IsWellFormed w refl refl refl refl

  gauge_at_lem :
      (a : Access N) (key value : Text) (s : Stats N)
      → WellFormed s
      → Holds WellFormed (gauge_at num a key value s)
  unfolding gauge_at
  gauge_at_lem (own x) key value s w = elim (Bool-cases (truthy num x && is_signed value)) [
    | inl e ↦ rw e (set_gauge_lem key _ s w)
    | inr e ↦ rw e (set_gauge_lem key _ s w)
  ]
  gauge_at_lem inherited key value s w = elim (Bool-cases (is_signed value)) [
    | inl e ↦ rw e tt
    | inr e ↦ rw e (set_gauge_lem key _ s w)
  ]
  gauge_at_lem missing key value s w = set_gauge_lem key _ s w

  renew_gauge_lem :
      (key : Text) (s : Stats N)
      → (1 ≤ conf.gauges_max_ttl) × (conf.gauges_max_ttl ≤ top)
      → WellFormed s
      → WellFormed (renew_gauge num conf key s)
  unfolding renew_gauge
  renew_gauge_lem key s h w = elim (Bool-cases conf.delete_gauges) [
    | inl e ↦ simp e (record {
      paired = w.paired;
      numeric = w.numeric;
      alive = λ k n p.
          ground
            (arith, h.0, h.1, lookup-assign key k conf.gauges_max_ttl s.gauges_ttl, w.alive k n);
      counted = w.counted;
      once = assign-IsObject key conf.gauges_max_ttl s.gauges_ttl w.once;
    })
    | inr e ↦ simp e w
  ]

  set_at_lem :
      (a : Access Set) (key item : Text) (s : Stats N)
      → WellFormed s
      → Holds WellFormed (set_at num a key item s)
  unfolding set_at
  set_at_lem (own set) key item s w = same-IsWellFormed w refl refl refl refl
  set_at_lem inherited key item s w = tt
  set_at_lem missing key item s w = same-IsWellFormed w refl refl refl refl

  counter_at_lem :
      (a : Access N) (key : Text) (amount : N) (s : Stats N)
      → WellFormed s
      → Holds WellFormed (counter_at num a key amount s)
  unfolding counter_at
  counter_at_lem (own x) key amount s w = same-IsWellFormed w refl refl refl refl
  counter_at_lem inherited key amount s w = tt
  counter_at_lem missing key amount s w = same-IsWellFormed w refl refl refl refl

  -- new entries of the two tables of timers
  timers_lem :
      (key : Text) (xs : List N) (y : N) (s : Stats N)
      → All (λ x. num.is_nan x ≡ false) xs
      → WellFormed s
      → WellFormed
          (record s { timers = put key xs s.timers; timer_counters = put key y s.timer_counters })
  timers_lem key xs y s v w = record {
    paired = λ k zs p.
        ground
          (arith, lookup-put key k xs s.timers, has-put key k y s.timer_counters, w.paired k zs);
    numeric = λ k zs p. elim (put_inv key k xs zs s.timers p) [
      | inl e ↦ subst (All (λ x. num.is_nan x ≡ false)) (sym e) v
      | inr e ↦ w.numeric k zs e
    ];
    alive = w.alive;
    counted = w.counted;
    once = w.once;
  }

  timer_at_lem :
      (a : Access (List N)) (key : Text) (x weight : N) (s : Stats N)
      → access key s.timers ≡ a
      → num.is_nan x ≡ false
      → WellFormed s
      → Holds WellFormed (timer_at num a key x weight s)
  unfolding timer_at
  timer_at_lem (own xs) key x weight s e v w =
      timers_lem key _ _ s
        (All-append _ xs (x ∷ []) (w.numeric key xs (access_own key xs s.timers e)) (v, tt)) w
  timer_at_lem inherited key x weight s e v w = tt
  timer_at_lem missing key x weight s e v w = timers_lem key _ _ s (v, tt) w

  module _ (ttl : (1 ≤ conf.gauges_max_ttl) × (conf.gauges_max_ttl ≤ top)) where
    add_metric_lem :
        (kind value : Text) (key : Text) (rate : N) (s : Stats N)
        → is_valid_value num kind value ≡ true
        → WellFormed s
        → Holds WellFormed (add_metric num conf key (trim kind) value rate s)
    unfolding add_metric add_timer add_gauge add_to_set add_counter
    add_metric_lem kind value key rate s v w = elim (Bool-cases (eqb (trim kind) (codes "ms"))) [
      | inl e ↦ rw e (
          timer_at_lem (access key s.timers) key _ _ s refl
            (numeric_lem num value 0 (valid_timer num kind value v e)) w)
      | inr e ↦ rw e (elim (Bool-cases (eqb (trim kind) (codes "g"))) [
        | inl g ↦ rw g (gauge_at_lem _ key value _ (renew_gauge_lem key s ttl w))
        | inr g ↦ rw g (elim (Bool-cases (eqb (trim kind) (codes "s"))) [
          | inl t ↦ rw t (set_at_lem _ key _ s w)
          | inr t ↦ rw t (counter_at_lem _ key _ s w)
        ])
      ])
    ]

    handle_valid_lem :
        (key : Text) (fields : List Text) (s : Stats N)
        → is_valid_packet num fields ≡ true
        → WellFormed s
        → Holds WellFormed (handle_valid num conf key fields s)
    unfolding handle_valid
    handle_valid_lem key fields s v w =
        Holds-after WellFormed (sample_rate num fields) _
          λ rate. add_metric_lem _ _ key rate s (valid_value num fields v) w

    pub handle_fields_lem :
        (names : Names) (key : Text) (fields : List Text) (s : Stats N)
        → WellFormed s
        → Holds WellFormed (handle_fields num names conf key fields s)
    unfolding handle_fields count_bad_line
    handle_fields_lem names key fields s w = elim (Bool-cases (is_valid_packet num fields)) [
      | inl e ↦ rw e (handle_valid_lem key fields s e w)
      | inr e ↦ rw e (same-IsWellFormed w refl refl refl refl)
    ]
