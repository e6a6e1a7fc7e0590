-- ===== src/Flush/Schedule.antt =====
-- stats.js, the timer of the flushes, which each flush sets again when it is done.
use statsd.Base.{ℕ, zero, suc, ◌+◌, ◌*◌, ◌≡◌, ◌<◌, ◌≤◌, refl, ap, ◌∙◌, List, [], ◌∷◌, All, arith}
use statsd.Flush.Timeout.{get_flush_timeout, get_flush_timeout_lem}

-- A flush: by how many milliseconds the timer is late, and how many the flush takes, up to the
-- setting of the next timer.
pub record FlushRun : Type 0 where
  pub late : ℕ
  pub took : ℕ

-- The times of the flushes, in milliseconds, when the first timer is set at the time `set`.
unfoldable pub flush_times : ℕ → ℕ → ℕ → List FlushRun → List ℕ
unfolding get_flush_timeout
flush_times interval start set [] = []
flush_times interval start set (run ∷ runs) =
    let now = set + get_flush_timeout interval start set + run.late in
    now ∷ flush_times interval start (now + run.took) runs

-- Times that are an interval apart from each other, and the lateness of each flush.
abbrev pub slots : ℕ → ℕ → List FlushRun → List ℕ
slots interval due [] = []
slots interval due (run ∷ runs) = (due + run.late) ∷ slots interval (due + interval) runs

abbrev pub IsQuick : ℕ → FlushRun → Type 0
IsQuick interval run = 2 * (run.late + run.took) < interval

-- A time that is `x` behind a whole number of intervals from the start, forwards or backwards.
abbrev pub IsBehind : ℕ → ℕ → ℕ → ℕ → Type 0
IsBehind interval start time x =
    (n : ℕ) × (m : ℕ) × (time + m * interval ≡ start + n * interval + x)

one_interval :
    (interval y a b : ℕ)
    → interval ≤ 2 * y
    → y < 2 * interval
    → y + a * interval ≡ b * interval
    → y ≡ interval
one_interval interval y zero zero low high e = omega (arith, low, high, e)
one_interval interval y zero (suc zero) low high e = omega (arith, e)
one_interval interval y zero (suc (suc b)) low high e =
    let more : suc (suc b) * interval ≡ 2 * interval + b * interval = omega arith in
    omega (arith, high, e, more)
one_interval interval y (suc a) zero low high e = omega (arith, low, high, e)
one_interval interval y (suc a) (suc b) low high e =
    let before : suc a * interval ≡ interval + a * interval = omega arith in
    let behind : suc b * interval ≡ interval + b * interval = omega arith in
    one_interval interval y a b low high (omega (arith, e, before, behind))

next_due :
    (interval start set x : ℕ)
    → 0 < interval
    → 2 * x < interval
    → IsBehind interval start set x
    → x + get_flush_timeout interval start set ≡ interval
next_due interval start set x pos half (n, m, e) =
    let (low, high, (n', m', f)) = get_flush_timeout_lem interval start set pos in
    let before : (n + m') * interval ≡ n * interval + m' * interval = omega arith in
    let behind : (n' + m) * interval ≡ n' * interval + m * interval = omega arith in
    one_interval interval (x + get_flush_timeout interval start set) (n + m') (n' + m)
      (omega (arith, low)) (omega (arith, high, half)) (omega (arith, e, f, before, behind))

flush_times-slots :
    (interval start set : ℕ) (runs : List FlushRun)
    → 0 < interval
    → All (IsQuick interval) runs
    → flush_times interval start set runs
      ≡ slots interval (set + get_flush_timeout interval start set) runs
unfolding flush_times
flush_times-slots interval start set [] pos quick = refl
flush_times-slots interval start set (run ∷ runs) pos (q, quick) =
    let t = get_flush_timeout interval start set in
    let (low, high, (n, m, e)) = get_flush_timeout_lem interval start set pos in
    let set' = set + t + run.late + run.took in
    let behind : IsBehind interval start set' (run.late + run.took) = (n, m, omega (arith, e)) in
    let due = next_due interval start set' (run.late + run.took) pos q behind in
    let next : set' + get_flush_timeout interval start set' ≡ set + t + interval =
      omega (arith, due) in
    ap (◌∷◌ (set + t + run.late))
      (flush_times-slots interval start set' runs pos quick ∙ ap (λ d. slots interval d runs) next)

-- Delays do not add up, and no flush is left out: if no flush is late and takes, together, half an
-- interval or more, the flushes are an interval apart from each other, each with its own lateness only.
-- The first one is at least half an interval and at most three halves away from the time at which its
-- timer is set, and a whole number of intervals from the start.
pub schedule_lem :
    (interval start set : ℕ) (runs : List FlushRun)
    → 0 < interval
    → All (IsQuick interval) runs
    → let t = get_flush_timeout interval start set in
      (flush_times interval start set runs ≡ slots interval (set + t) runs)
      × (interval ≤ 2 * t)
      × (2 * t ≤ 3 * interval)
      × IsBehind interval start (set + t) 0
schedule_lem interval start set runs pos quick =
    let (low, high, (n, m, e)) = get_flush_timeout_lem interval start set pos in
    (flush_times-slots interval start set runs pos quick, low, high, (n, m, omega (arith, e)))
