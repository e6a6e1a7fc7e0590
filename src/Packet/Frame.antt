-- ===== src/Packet/Frame.antt =====
-- stats.js, `handlePacket`: the entries that a valid metric changes.
use statsd.Base.{ℕ, ◌≡◌, refl, false, List, arith, Bool-cases, inl, inr, ◌&&◌}
use statsd.Js.Number.{JsNumber, truthy}
use statsd.Js.Object.{Object, Access, own, inherited, missing, lookup, put, assign}
use statsd.Js.Object.Laws.{lookup-put, lookup-assign}
use statsd.Js.Text.{Text, codes, eqb, trim}
use statsd.Packet.Outcomes.{Holds, Holds-after, Holds-done}
use statsd.Packet.Metric.{
  done, timer_at, gauge_at, set_at, counter_at, renew_gauge, set_gauge, add_timer, add_gauge,
  add_to_set, add_counter, add_metric, handle_valid, sample_rate, is_signed, field,
}
use statsd.Set.{Set}
use statsd.Stats.{Stats, Config}

-- Every entry but that of `key` is the same in two tables.
abbrev pub SameBut {ℓ} : {V : Type ℓ} → Text → Object V → Object V → Type ℓ
SameBut key m n = (j : Text) → eqb key j ≡ false → lookup j n ≡ lookup j m

same {ℓ} : {V : Type ℓ} (key : Text) (m : Object V) → SameBut key m m
same key m j h = refl

SameBut-put {ℓ} : {V : Type ℓ} (key : Text) (v : V) (m : Object V) → SameBut key m (put key v m)
SameBut-put key v m j h = rw (lookup-put, h)

SameBut-assign {ℓ} :
    {V : Type ℓ} (key : Text) (v : V) (m : Object V) → SameBut key m (assign key v m)
SameBut-assign key v m j h = ground (arith, lookup-assign key j v m)

-- `t` is `s` but for the entries of `key` in the tables of metrics.
pub record OnlyKey {ℓ} {N : Type ℓ} (key : Text) (s t : Stats N) : Type ℓ where
  pub counters : SameBut key s.counters t.counters
  pub timers : SameBut key s.timers t.timers
  pub timer_counters : SameBut key s.timer_counters t.timer_counters
  pub gauges : SameBut key s.gauges t.gauges
  pub gauges_ttl : SameBut key s.gauges_ttl t.gauges_ttl
  pub sets : SameBut key s.sets t.sets
  pub key_counter : t.key_counter ≡ s.key_counter
  pub last_msg_seen : t.last_msg_seen ≡ s.last_msg_seen
  pub bad_lines_seen : t.bad_lines_seen ≡ s.bad_lines_seen

module _ {ℓ} {N : Type ℓ} (num : JsNumber N) (key : Text) (s : Stats N) where
  -- New tables that agree with the old ones but at `key`.
  only_key :
      {c : Object N} {ts : Object (List N)} {tc g : Object N} {gt : Object ℕ} {st : Object Set}
      → SameBut key s.counters c
      → SameBut key s.timers ts
      → SameBut key s.timer_counters tc
      → SameBut key s.gauges g
      → SameBut key s.gauges_ttl gt
      → SameBut key s.sets st
      → OnlyKey key s (record s {
        counters = c;
        timers = ts;
        timer_counters = tc;
        gauges = g;
        gauges_ttl = gt;
        sets = st;
      })
  only_key h1 h2 h3 h4 h5 h6 = record {
    counters = h1;
    timers = h2;
    timer_counters = h3;
    gauges = h4;
    gauges_ttl = h5;
    sets = h6;
    key_counter = refl;
    last_msg_seen = refl;
    bad_lines_seen = refl;
  }

  timer_at-OnlyKey :
      (a : Access (List N)) (x w : N) → Holds (OnlyKey key s) (timer_at num a key x w s)
  unfolding timer_at
  timer_at-OnlyKey (own xs) x w =
      only_key (same key _) (SameBut-put key _ _) (SameBut-put key _ _) (same key _) (same key _)
        (same key _)
  timer_at-OnlyKey inherited x w = tt
  timer_at-OnlyKey missing x w =
      only_key (same key _) (SameBut-put key _ _) (SameBut-put key _ _) (same key _) (same key _)
        (same key _)

  set_at-OnlyKey : (a : Access Set) (item : Text) → Holds (OnlyKey key s) (set_at num a key item s)
  unfolding set_at
  set_at-OnlyKey (own set) item =
      only_key (same key _) (same key _) (same key _) (same key _) (same key _)
        (SameBut-put key _ _)
  set_at-OnlyKey inherited item = tt
  set_at-OnlyKey missing item =
      only_key (same key _) (same key _) (same key _) (same key _) (same key _)
        (SameBut-put key _ _)

  counter_at-OnlyKey : (a : Access N) (y : N) → Holds (OnlyKey key s) (counter_at num a key y s)
  unfolding counter_at
  counter_at-OnlyKey (own x) y =
      only_key (SameBut-put key _ _) (same key _) (same key _) (same key _) (same key _)
        (same key _)
  counter_at-OnlyKey inherited y = tt
  counter_at-OnlyKey missing y =
      only_key (SameBut-put key _ _) (same key _) (same key _) (same key _) (same key _)
        (same key _)

  -- A gauge is set in a state whose times to live have changed at `key`.
  gauge-OnlyKey :
      (gt : Object ℕ) (x : N)
      → SameBut key s.gauges_ttl gt
      → OnlyKey key s (set_gauge num key x (record s { gauges_ttl = gt }))
  unfolding set_gauge
  gauge-OnlyKey gt x h =
      only_key (same key _) (same key _) (same key _) (SameBut-assign key x _) h (same key _)

  gauge_at-OnlyKey :
      (gt : Object ℕ) (a : Access N) (value : Text)
      → SameBut key s.gauges_ttl gt
      → Holds (OnlyKey key s) (gauge_at num a key value (record s { gauges_ttl = gt }))
  unfolding gauge_at
  gauge_at-OnlyKey gt (own x) value h = elim (Bool-cases (truthy num x && is_signed value)) [
    | inl e ↦ rw e (gauge-OnlyKey gt _ h)
    | inr e ↦ rw e (gauge-OnlyKey gt _ h)
  ]
  gauge_at-OnlyKey gt inherited value h = elim (Bool-cases (is_signed value)) [
    | inl e ↦ rw e tt
    | inr e ↦ rw e (gauge-OnlyKey gt _ h)
  ]
  gauge_at-OnlyKey gt missing value h = gauge-OnlyKey gt _ h

  add_gauge-OnlyKey :
      (conf : Config) (value : Text) → Holds (OnlyKey key s) (add_gauge num conf key value s)
  unfolding add_gauge renew_gauge
  add_gauge-OnlyKey conf value = elim (Bool-cases conf.delete_gauges) [
    | inl e ↦
        simp e (gauge_at-OnlyKey _ _ value (SameBut-assign key conf.gauges_max_ttl s.gauges_ttl))
    | inr e ↦ simp e (gauge_at-OnlyKey s.gauges_ttl _ value (same key s.gauges_ttl))
  ]

  pub add_metric-OnlyKey :
      (conf : Config) (kind value : Text) (rate : N)
      → Holds (OnlyKey key s) (add_metric num conf key kind value rate s)
  unfolding add_metric add_timer add_to_set add_counter
  add_metric-OnlyKey conf kind value rate = elim (Bool-cases (eqb kind (codes "ms"))) [
    | inl e ↦ rw e (timer_at-OnlyKey _ _ _)
    | inr e ↦ rw e (elim (Bool-cases (eqb kind (codes "g"))) [
      | inl g ↦ rw g (add_gauge-OnlyKey conf value)
      | inr g ↦ rw g (elim (Bool-cases (eqb kind (codes "s"))) [
        | inl t ↦ rw t (set_at-OnlyKey _ _)
        | inr t ↦ rw t (counter_at-OnlyKey _ _)
      ])
    ])
  ]

  pub handle_valid_lem :
      (conf : Config) (fields : List Text)
      → Holds (OnlyKey key s) (handle_valid num conf key fields s)
  unfolding handle_valid
  handle_valid_lem conf fields =
      Holds-after (OnlyKey key s) (sample_rate num fields) _
        λ rate. add_metric-OnlyKey conf (trim (field fields 1)) (field fields 0) rate

  -- A metric of a key that is handled leaves every other key's entries in all six tables as they were,
  -- and does not touch the counts of keys, the time of the last message or the count of bad lines.
  pub handle_valid-OnlyKey :
      (conf : Config) (fields : List Text) (t : Stats N)
      → handle_valid num conf key fields s ≡ done t
      → OnlyKey key s t
  handle_valid-OnlyKey conf fields t =
      Holds-done (OnlyKey key s) (handle_valid num conf key fields s) t
        (handle_valid_lem conf fields)
