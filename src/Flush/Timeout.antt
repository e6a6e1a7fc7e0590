-- ===== src/Flush/Timeout.antt =====
-- stats.js, `getFlushTimeout`: the time to the next flush.
use native.Mathlib.Nat.{mod-lt, div-add-mod'}
use statsd.Base.{
  ℕ, ◌+◌, ◌-◌, ◌*◌, ◌/◌, ◌%◌, ◌≡◌, ◌<◌, ◌≤◌, if◌then◌else◌, leb, arith, Bool-cases, inl, inr,
}

-- `Math.round(a / b)`, half upwards
unfoldable pub round_quotient : ℕ → ℕ → ℕ
round_quotient a b = (2 * a + b) / (2 * b)

-- `-Math.round(-a / b)`, half downwards
unfoldable pub round_quotient_down : ℕ → ℕ → ℕ
round_quotient_down a b = (2 * a + b - 1) / (2 * b)

-- The milliseconds until the next flush, from the interval, the start and the time, all in
-- milliseconds. (The start is rounded to a second, so it may lie behind the time.)
unfoldable pub get_flush_timeout : ℕ → ℕ → ℕ → ℕ
unfolding round_quotient round_quotient_down
get_flush_timeout interval start now =
    if leb start now
    then start + (round_quotient (now - start) interval + 1) * interval - now
    else (start - now) + interval - round_quotient_down (start - now) interval * interval

-- a quotient by twice a number, in multiples of the number
double_quotient :
    (a b : ℕ) → 0 < b → (2 * (a / (2 * b) * b) ≤ a) × (a < 2 * (a / (2 * b) * b) + 2 * b)
double_quotient a b h =
    let q = a / (2 * b) in
    let whole : q * (2 * b) + a % (2 * b) ≡ a = div-add-mod' a (2 * b) in
    let rest : a % (2 * b) < 2 * b = mod-lt a (omega arith) in
    let twice : q * (2 * b) ≡ 2 * (q * b) = omega arith in
    (omega (arith, whole, rest, twice), omega (arith, whole, rest, twice))

-- The next flush is between one half and three halves of an interval away, and it is at a whole number of
-- intervals from the start.
pub get_flush_timeout_lem :
    (interval start now : ℕ)
    → 0 < interval
    → let t = get_flush_timeout interval start now in
      (interval ≤ 2 * t)
      × (2 * t ≤ 3 * interval)
      × ((n : ℕ) × (m : ℕ) × (now + t + m * interval ≡ start + n * interval))
unfolding get_flush_timeout round_quotient round_quotient_down
get_flush_timeout_lem interval start now h = elim (Bool-cases (leb start now)) [
  | inl e ↦ rw e (
      let past : start ≤ now = ground (arith, e) in
      let q = (2 * (now - start) + interval) / (2 * interval) in
      let (low, high) = double_quotient (2 * (now - start) + interval) interval h in
      let next : (q + 1) * interval ≡ q * interval + interval = omega arith in
      (
        omega (arith, past, low, high, next),
        omega (arith, past, low, high, next),
        (q + 1, 0, omega (arith, past, low, high, next)),
      ))
  | inr e ↦ rw e (
      let early : now < start = ground (arith, e) in
      let b = (2 * (start - now) + interval - 1) / (2 * interval) in
      let (low, high) = double_quotient (2 * (start - now) + interval - 1) interval h in
      (
        omega (arith, early, low, high),
        omega (arith, early, low, high),
        (1, b, omega (arith, early, low, high)),
      ))
]
