-- ===== src/Aggregate/Refines.antt =====
-- The metrics and lines of `handlePacket` in stats.js against the view of the tables.
use statsd.Base.{
  ℕ, ◌+◌, ◌≡◌, refl, sym, ap, ◌∙◌, true, ◌&&◌, List, some, if◌then◌else◌, Bool-cases, inl, inr,
}
use statsd.Aggregate.{
  seen, gauged, View, view, update, update_own, rate_of, event_of, metric_event, new_gauge,
  times_seen,
}
use statsd.Aggregate.Tables.{
  view-put, view-assign, own_lookup, missing_lookup, inherited_lookup, After, increment-After,
  timer_at-After, counter_at-After, set_at-After,
}
use statsd.Helpers.{is_valid_packet}
use statsd.Js.Number.{JsNumber, truthy}
use statsd.Js.Object.{Access, own, inherited, missing, access, lookup}
use statsd.Js.Text.{Text, codes, eqb, is_empty, trim}
use statsd.Packet.{count_key, count_at}
use statsd.Packet.Outcomes.{Holds, Holds-map}
use statsd.Packet.Metric.{
  Outcome, done, fault, ◌>>=◌, number_or, is_signed, gauge_at, renew_gauge, set_gauge, add_timer,
  add_gauge, add_to_set, add_counter, add_metric, count_bad_line, handle_valid, handle_fields,
  sample_rate, field,
}
use statsd.Stats.{Stats, Names, Config}

module _ {ℓ} {N : Type ℓ} (num : JsNumber N) (conf : Config) where
  gauge_at-set :
      (a : Access N) (key value : Text) (s : Stats N)
      → access key s.gauges ≡ a
      → Holds
          (λ t. t ≡ set_gauge num key (new_gauge num (lookup key s.gauges) value) s)
          (gauge_at num a key value s)
  unfolding gauge_at
  gauge_at-set (own x) key value s e = elim (Bool-cases (truthy num x && is_signed value)) [
    | inl c ↦ rw (own_lookup key s.gauges x e, c) refl
    | inr c ↦ rw (own_lookup key s.gauges x e, c) refl
  ]
  gauge_at-set inherited key value s e = elim (Bool-cases (is_signed value)) [
    | inl c ↦ rw c tt
    | inr c ↦ rw (inherited_lookup key s.gauges e, c) refl
  ]
  gauge_at-set missing key value s e = rw (missing_lookup key s.gauges e) refl

  renew_gauge-view :
      (key : Text) (s : Stats N)
      → view (renew_gauge num conf key s) ≡ record (view s) {
        gauges_ttl =
            if conf.delete_gauges
            then update_own key (some conf.gauges_max_ttl) (view s).gauges_ttl
            else (view s).gauges_ttl;
      }
  unfolding renew_gauge
  renew_gauge-view key s = elim (Bool-cases conf.delete_gauges) [
    | inl c ↦ simp c (
        ap (λ f. record (view s) { gauges_ttl = f })
          (view-assign key conf.gauges_max_ttl s.gauges_ttl))
    | inr c ↦ simp c refl
  ]

  renew_gauge-gauges : (key : Text) (s : Stats N) → (renew_gauge num conf key s).gauges ≡ s.gauges
  unfolding renew_gauge
  renew_gauge-gauges key s = elim (Bool-cases conf.delete_gauges) [
    | inl c ↦ simp c refl
    | inr c ↦ simp c refl
  ]

  add_gauge-After :
      (key value : Text) (s : Stats N)
      → Holds (After num conf (gauged key value) s) (add_gauge num conf key value s)
  unfolding add_gauge set_gauge
  add_gauge-After key value s =
      let t = renew_gauge num conf key s in
      Holds-map _ (After num conf (gauged key value) s)
        (gauge_at num (access key s.gauges) key value t)
        (λ u e.
          ap view e
          ∙ ap (λ f. record (view t) { gauges = f })
              (view-assign key (new_gauge num (lookup key t.gauges) value) t.gauges)
          ∙ ap
              (λ g. record (view t) {
                gauges =
                    update_own key (some (new_gauge num (lookup key g) value)) (λ k. lookup k g);
              })
              (renew_gauge-gauges key s)
          ∙ ap
              (λ (v : View N). record v {
                gauges =
                    update_own key (some (new_gauge num (lookup key s.gauges) value))
                      (view s).gauges;
              })
              (renew_gauge-view key s))
        (gauge_at-set (access key s.gauges) key value t
          (ap (access key) (renew_gauge-gauges key s)))

  add_metric-After :
      (key kind value : Text) (rate : N) (s : Stats N)
      → Holds
          (After num conf (event_of num key kind value rate) s)
          (add_metric num conf key kind value rate s)
  unfolding add_metric add_timer add_to_set add_counter
  add_metric-After key kind value rate s = elim (Bool-cases (eqb kind (codes "ms"))) [
    | inl e ↦ rw e (
        timer_at-After num conf (access key s.timers) key (number_or num 0 value)
          (num.div (num.of_nat 1) rate) s refl)
    | inr e ↦ rw e (elim (Bool-cases (eqb kind (codes "g"))) [
      | inl g ↦ rw g (add_gauge-After key value s)
      | inr g ↦ rw g (elim (Bool-cases (eqb kind (codes "s"))) [
        | inl t ↦ rw t (
            set_at-After num conf (access key s.sets) key
              (if is_empty value then codes "0" else value) s refl)
        | inr t ↦ rw t (
            counter_at-After num conf (access key s.counters) key
              (num.mul (number_or num 1 value) (num.div (num.of_nat 1) rate)) s refl)
      ])
    ])
  ]

  sampled :
      (m : Outcome N) (key kind value : Text) (s : Stats N)
      → Holds
          (After num conf (event_of num key kind value (rate_of num m)) s)
          (m >>= λ rate. add_metric num conf key kind value rate s)
  sampled (done r) key kind value s = add_metric-After key kind value r s
  sampled (fault f) key kind value s = tt

  -- A metric does to the tables what its event does to the view.
  pub handle_fields-After :
      (names : Names) (key : Text) (fields : List Text) (s : Stats N)
      → Holds
          (After num conf (metric_event num names key fields) s)
          (handle_fields num names conf key fields s)
  unfolding handle_fields handle_valid count_bad_line
  handle_fields-After names key fields s = elim (Bool-cases (is_valid_packet num fields)) [
    | inl e ↦ rw e (sampled (sample_rate num fields) key (trim (field fields 1)) (field fields 0) s)
    | inr e ↦ rw e (increment-After num conf names.bad_lines s)
  ]

  count_at-After :
      (a : Access ℕ) (key : Text) (s : Stats N)
      → conf.count_keys ≡ true
      → access key s.key_counter ≡ a
      → Holds (After num conf (seen key) s) (count_at a key s)
  unfolding count_at
  count_at-After (own n) key s c e = rw c (
      ap (λ f. record (view s) { key_counter = f }) (view-put key (n + 1) s.key_counter)
      ∙ ap
          (λ o. record (view s) {
            key_counter = update key (some (times_seen o + 1)) (view s).key_counter;
          })
          (sym (own_lookup key s.key_counter n e)))
  count_at-After inherited key s c e = tt
  count_at-After missing key s c e = rw c (
      ap (λ f. record (view s) { key_counter = f }) (view-put key 1 s.key_counter)
      ∙ ap
          (λ o. record (view s) {
            key_counter = update key (some (times_seen o + 1)) (view s).key_counter;
          })
          (sym (missing_lookup key s.key_counter e)))

  pub count_key-After :
      (key : Text) (s : Stats N) → Holds (After num conf (seen key) s) (count_key conf key s)
  unfolding count_key
  count_key-After key s = elim (Bool-cases conf.count_keys) [
    | inl c ↦ simp c (count_at-After (access key s.key_counter) key s c refl)
    | inr c ↦ simp c refl
  ]
