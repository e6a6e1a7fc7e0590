-- ===== src/Packet/Faults.antt =====
-- stats.js, `handlePacket`: the metrics on which the handler throws.
pub mod Safe
use statsd.Base.{
  ℕ, ◌≡◌, refl, Bool, true, false, not, ◌&&◌, ◌||◌, List, [], ◌∷◌, arith, if◌then◌else◌, Bool-cases,
  inl, inr, ◌==◌, none, some,
}
use statsd.Helpers.{is_valid_packet, is_valid_sample_rate}
use statsd.Js.Number.{JsNumber, truthy}
use statsd.Js.Object.{Object, Access, own, inherited, missing, access, is_inherited}
use statsd.Js.Text.{Text, codes, is_empty, split, eqb, trim, is_digit}
use statsd.Packet.{
  count_key, count_at, handle_bits, handle_line, handle_lines, handle_packet, lines_of, bits_of,
  key_of,
}
use statsd.Packet.Outcomes.{is_done, fault_of, fault_of_done, done_of_fault, is_done-bind}
use statsd.Packet.Metric.{
  fault, type_error, timer_at, gauge_at, set_at, counter_at, renew_gauge, add_timer, add_gauge,
  add_to_set, add_counter, add_metric, is_signed, handle_valid, handle_fields, sample_rate,
  match_rate, rate_chars, field, increment,
}
use statsd.Set.{Set}
use statsd.Stats.{Stats, Names, Config}

abbrev pub is_plain {ℓ} : {V : Type ℓ} → Access V → Bool
is_plain inherited = false
is_plain (own v) = true
is_plain missing = true

pub access-plain {ℓ} :
    {V : Type ℓ} (k : Text) (m : Object V) → is_inherited k ≡ false → is_plain (access k m) ≡ true
unfolding access
access-plain k m h = ground arith

-- The third field is missing, or what stands behind its first character begins with a digit or a dot.
abbrev pub rate_read : List Text → Bool
rate_read (value ∷ kind ∷ (c ∷ d ∷ s) ∷ more) = is_digit d || d == b'.'
rate_read (value ∷ kind ∷ rate ∷ more) = false
rate_read fields = true

module _ {ℓ} {N : Type ℓ} (num : JsNumber N) where
  timer_at_done :
      (a : Access (List N)) (key : Text) (x w : N) (s : Stats N)
      → is_plain a ≡ true
      → is_done (timer_at num a key x w s) ≡ true
  unfolding timer_at
  timer_at_done (own xs) key x w s h = refl
  timer_at_done inherited key x w s h = cc
  timer_at_done missing key x w s h = refl

  gauge_at_done :
      (a : Access N) (key value : Text) (s : Stats N)
      → is_plain a ≡ true
      → is_done (gauge_at num a key value s) ≡ true
  unfolding gauge_at
  gauge_at_done (own x) key value s h = elim (Bool-cases (truthy num x && is_signed value)) [
    | inl e ↦ rw e refl
    | inr e ↦ rw e refl
  ]
  gauge_at_done inherited key value s h = cc
  gauge_at_done missing key value s h = refl

  set_at_done :
      (a : Access Set) (key item : Text) (s : Stats N)
      → is_plain a ≡ true
      → is_done (set_at num a key item s) ≡ true
  unfolding set_at
  set_at_done (own set) key item s h = refl
  set_at_done inherited key item s h = cc
  set_at_done missing key item s h = refl

  counter_at_done :
      (a : Access N) (key : Text) (y : N) (s : Stats N)
      → is_plain a ≡ true
      → is_done (counter_at num a key y s) ≡ true
  unfolding counter_at
  counter_at_done (own x) key y s h = refl
  counter_at_done inherited key y s h = cc
  counter_at_done missing key y s h = refl

  add_metric_done :
      (conf : Config) (key kind value : Text) (rate : N) (s : Stats N)
      → is_inherited key ≡ false
      → is_done (add_metric num conf key kind value rate s) ≡ true
  unfolding add_metric add_timer add_gauge add_to_set add_counter
  add_metric_done conf key kind value rate s h = elim (Bool-cases (eqb kind (codes "ms"))) [
    | inl e ↦ rw e (timer_at_done _ key _ _ s (access-plain key s.timers h))
    | inr e ↦ rw e (elim (Bool-cases (eqb kind (codes "g"))) [
      | inl g ↦
          rw g
            (gauge_at_done _ key value (renew_gauge num conf key s) (access-plain key s.gauges h))
      | inr g ↦ rw g (elim (Bool-cases (eqb kind (codes "s"))) [
        | inl t ↦ rw t (set_at_done _ key _ s (access-plain key s.sets h))
        | inr t ↦ rw t (counter_at_done _ key _ s (access-plain key s.counters h))
      ])
    ])
  ]

  -- A sample rate that passed the check is read, or the match fails.
  sample_rate_lem :
      (fields : List Text)
      → is_valid_packet num fields ≡ true
      → (rate_read fields ≡ true → is_done (sample_rate num fields) ≡ true)
        × (rate_read fields ≡ false → sample_rate num fields ≡ fault type_error)
  unfolding is_valid_packet is_valid_sample_rate sample_rate match_rate rate_chars
  sample_rate_lem [] v = (λ h. refl, λ h. cc)
  sample_rate_lem (value ∷ []) v = (λ h. refl, λ h. cc)
  sample_rate_lem (value ∷ kind ∷ []) v = (λ h. refl, λ h. cc)
  sample_rate_lem (value ∷ kind ∷ [] ∷ more) v = (λ h. cc, λ h. ground arith)
  sample_rate_lem (value ∷ kind ∷ (c ∷ []) ∷ more) v = (λ h. cc, λ h. ground arith)
  sample_rate_lem (value ∷ kind ∷ (c ∷ d ∷ s) ∷ more) v = (λ h. ground arith, λ h. ground arith)

  -- A valid metric of a key that `Object.prototype` does not have is handled if its sample rate is
  -- missing or begins with a digit or a dot behind its first character; with any other rate that the
  -- check lets through, `null[1]` throws a `TypeError`.
  pub fault_of-handle_valid :
      (conf : Config) (key : Text) (fields : List Text) (s : Stats N)
      → is_valid_packet num fields ≡ true
      → is_inherited key ≡ false
      → fault_of (handle_valid num conf key fields s)
        ≡ (if rate_read fields then none else some type_error)
  unfolding handle_valid
  fault_of-handle_valid conf key fields s v h = elim (Bool-cases (rate_read fields)) [
    | inl r ↦ rw r (
        fault_of_done _ (
          is_done-bind (sample_rate num fields) _ ((sample_rate_lem fields v).0 r)
            λ rate. add_metric_done conf key (trim (field fields 1)) (field fields 0) rate s h))
    | inr r ↦ rw (r, (sample_rate_lem fields v).1 r) refl
  ]
