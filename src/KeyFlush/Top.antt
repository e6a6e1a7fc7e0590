-- ===== src/KeyFlush/Top.antt =====
-- Which keys the flush of the key counts shows.
use mathlib.Core.List.{Perm}
use mathlib.Core.List.Perm
use statsd.Base.{
  ℕ, suc, ◌+◌, ◌≤◌, ◌<◌, ◌≡◌, refl, Bool, true, false, List, [], ◌∷◌, ◌++◌, Option, ltb, length,
  take, ◌==◌, subst, All, arith, Bool-cases, inl, inr,
}
use statsd.Js.Number.{JsNumber}
use statsd.Js.Text.{Text}
use statsd.KeyFlush.{insert, sort_keys, without_keys, key_line, log_from, shown, flush_keys}
use statsd.Packet.Outcomes.{Holds-done, Holds-after}
use statsd.Packet.Metric.{done, fault, type_error}
use statsd.Startup.{KeyFlush}
use statsd.Stats.{Stats}

-- No key was seen less often than one that stands behind it.
abbrev pub IsDescending : List (Text × ℕ) → Type 0
IsDescending [] = Unit
IsDescending (x ∷ xs) = All (λ (y : Text × ℕ). y.1 ≤ x.1) xs × IsDescending xs

insert-perm : (x : Text × ℕ) (xs : List (Text × ℕ)) → Perm (insert x xs) (x ∷ xs)
unfolding insert
insert-perm x [] = Perm.rfl
insert-perm x (y ∷ ys) = elim (Bool-cases (ltb x.1 y.1)) [
  | inl e ↦ rw e (Perm.trans (Perm.cons y (insert-perm x ys)) (Perm.swap x y ys))
  | inr e ↦ rw e Perm.rfl
]

sort_keys-perm : (xs : List (Text × ℕ)) → Perm (sort_keys xs) xs
unfolding sort_keys
sort_keys-perm [] = Perm.rfl
sort_keys-perm (x ∷ xs) =
    Perm.trans (insert-perm x (sort_keys xs)) (Perm.cons x (sort_keys-perm xs))

insert-AtMost :
    (n : ℕ) (x : Text × ℕ) (xs : List (Text × ℕ))
    → x.1 ≤ n
    → All (λ (y : Text × ℕ). y.1 ≤ n) xs
    → All (λ (y : Text × ℕ). y.1 ≤ n) (insert x xs)
unfolding insert
insert-AtMost n x [] p h = (p, tt)
insert-AtMost n x (y ∷ ys) p (q, h) = elim (Bool-cases (ltb x.1 y.1)) [
  | inl e ↦ rw e (q, insert-AtMost n x ys p h)
  | inr e ↦ rw e (p, (q, h))
]

AtMost-le :
    (m n : ℕ) (xs : List (Text × ℕ))
    → m ≤ n
    → All (λ (y : Text × ℕ). y.1 ≤ m) xs
    → All (λ (y : Text × ℕ). y.1 ≤ n) xs
AtMost-le m n [] p h = tt
AtMost-le m n (x ∷ xs) p (q, h) = (omega (arith, p, q), AtMost-le m n xs p h)

insert-IsDescending :
    (x : Text × ℕ) (xs : List (Text × ℕ)) → IsDescending xs → IsDescending (insert x xs)
unfolding insert
insert-IsDescending x [] h = (tt, tt)
insert-IsDescending x (y ∷ ys) (b, h) = elim (Bool-cases (ltb x.1 y.1)) [
  | inl e ↦ rw e (insert-AtMost y.1 x ys (ground arith) b, insert-IsDescending x ys h)
  | inr e ↦ let p : y.1 ≤ x.1 = ground arith in rw e ((p, AtMost-le y.1 x.1 ys p b), (b, h))
]

-- The keys come back, each with its count, and the more frequent ones first.
sort_keys_lem : (xs : List (Text × ℕ)) → IsDescending (sort_keys xs) × Perm (sort_keys xs) xs
unfolding sort_keys
sort_keys_lem [] = (tt, Perm.rfl)
sort_keys_lem (x ∷ xs) =
    (insert-IsDescending x (sort_keys xs) (sort_keys_lem xs).0, sort_keys-perm (x ∷ xs))

length-insert : (x : Text × ℕ) (xs : List (Text × ℕ)) → length (insert x xs) ≡ suc (length xs)
unfolding insert
length-insert x [] = refl
length-insert x (y ∷ ys) = ground (arith, length-insert x ys)

length-sort_keys : (xs : List (Text × ℕ)) → length (sort_keys xs) ≡ length xs
unfolding sort_keys
length-sort_keys [] = refl
length-sort_keys (x ∷ xs) = omega (arith, length-insert x (sort_keys xs), length-sort_keys xs)

module _ {ℓ} {N : Type ℓ} (num : JsNumber N) where
  -- The message that shows some keys.
  abbrev pub message_of : Text → List (Text × ℕ) → Text
  message_of time_string [] = []
  message_of time_string (entry ∷ entries) =
      key_line num time_string entry ++ message_of time_string entries

  -- The loop shows keys as long as `i` is below `e`.
  abbrev pub IsShown : N → ℕ → ℕ → Type 0
  IsShown e i n =
      ((j : ℕ) → i ≤ j → j < i + n → num.lt (num.of_nat j) e ≡ true)
      × (num.lt (num.of_nat (i + n)) e ≡ false)

  -- the test at an index that is written in another way
  test_at :
      (e : N) (i j : ℕ) (b : Bool)
      → i ≡ j
      → num.lt (num.of_nat i) e ≡ b
      → num.lt (num.of_nat j) e ≡ b
  test_at e i j b p h = subst (λ k. num.lt (num.of_nat k) e ≡ b) p h

  runs_from :
      (e : N) (i n : ℕ) → num.lt (num.of_nat i) e ≡ true → IsShown e (suc i) n → IsShown e i (suc n)
  runs_from e i n b (runs, stops) = (
    λ j p q. elim (Bool-cases (i == j)) [
      | inl same ↦ test_at e i j true (ground arith) b
      | inr other ↦ runs j (ground arith) (omega (arith, q))
    ],
    test_at e (suc i + n) (i + suc n) false (omega arith) stops,
  )

  log_from_lem :
      (e : N) (time_string : Text) (i : ℕ) (entries : List (Text × ℕ))
      → num.lt (num.of_nat (i + length entries)) e ≡ false
      → (n : ℕ) × (n ≤ length entries)
        × IsShown e i n
        × (log_from num e time_string i entries ≡ done (message_of time_string (take n entries)))
  unfolding log_from
  log_from_lem e time_string i [] h =
      let stop = test_at e (i + 0) i false (omega arith) h in
      (0, omega arith, (λ j p q. absurd (omega (arith, p, q)), h), rw stop refl)
  log_from_lem e time_string i (entry ∷ entries) h = elim (Bool-cases (num.lt (num.of_nat i) e)) [
    | inl b ↦
        let (n, below, more, ih) =
          log_from_lem e time_string (suc i) entries
            (test_at e (i + suc (length entries)) (suc i + length entries) false (omega arith) h) in
        (suc n, omega (arith, below), runs_from e i n b more, rw (b, ih) refl)
    | inr b ↦ (
      0,
      omega arith,
      (λ j p q. absurd (omega (arith, p, q)), test_at e i (i + 0) false (omega arith) b),
      rw b refl,
    )
  ]

  log_from-fault :
      (e : N) (time_string : Text) (i : ℕ) (entries : List (Text × ℕ))
      → ((j : ℕ) → i ≤ j → j ≤ i + length entries → num.lt (num.of_nat j) e ≡ true)
      → log_from num e time_string i entries ≡ fault type_error
  unfolding log_from
  log_from-fault e time_string i [] h = rw (h i (omega arith) (omega arith)) refl
  log_from-fault e time_string i (entry ∷ entries) h =
      rw
        (
          h i (omega arith) (omega arith),
          log_from-fault e time_string (suc i) entries
              (λ j p q. h j (omega (arith, p)) (omega (arith, q))),
        )
        refl

  -- If the number of keys is not below what is to be shown, the listener returns: the message shows the
  -- first keys of a list in which each key stands with its count, the more frequent ones first; it
  -- shows them as long as their index is below the share of all keys that is asked for. No key is
  -- counted afterwards.
  pub flush_keys_lem :
      (key_flush : Option (KeyFlush N)) (time_string : Text) (s : Stats N)
      → let e = shown num key_flush (length s.key_counter) in
        num.lt (num.of_nat (length s.key_counter)) e ≡ false
        → (sorted : List (Text × ℕ)) × (n : ℕ) × IsDescending sorted
          × Perm sorted s.key_counter
          × IsShown e 0 n
          × (flush_keys num key_flush time_string s
              ≡ done (message_of time_string (take n sorted), record s { key_counter = [] }))
  unfolding flush_keys without_keys
  flush_keys_lem key_flush time_string s h =
      let sorted = sort_keys s.key_counter in
      let e = shown num key_flush (length s.key_counter) in
      let (n, _, runs, out) = log_from_lem e time_string 0 sorted (
        test_at e (length s.key_counter) (0 + length sorted) false
          (omega (arith, length-sort_keys s.key_counter)) h) in
      (
        sorted,
        n,
        (sort_keys_lem s.key_counter).0,
        (sort_keys_lem s.key_counter).1,
        runs,
        rw out refl,
      )

  -- If every index up to the number of keys is below what is to be shown, as it is where more than all
  -- keys are asked for, the listener throws.
  pub flush_keys-fault :
      (key_flush : Option (KeyFlush N)) (time_string : Text) (s : Stats N)
      → let e = shown num key_flush (length s.key_counter) in
        ((j : ℕ) → j ≤ length s.key_counter → num.lt (num.of_nat j) e ≡ true)
        → flush_keys num key_flush time_string s ≡ fault type_error
  unfolding flush_keys
  flush_keys-fault key_flush time_string s h =
      let sorted = sort_keys s.key_counter in
      let e = shown num key_flush (length s.key_counter) in
      rw
        (log_from-fault e time_string 0 sorted
          (λ j p q. h j (omega (arith, q, length-sort_keys s.key_counter))))
        refl

  -- Nothing but the counts changes.
  pub flush_keys-tables :
      (key_flush : Option (KeyFlush N)) (time_string message : Text) (s t : Stats N)
      → flush_keys num key_flush time_string s ≡ done (message, t)
      → t ≡ record s { key_counter = [] }
  unfolding flush_keys without_keys
  flush_keys-tables key_flush time_string message s t h =
      Holds-done (λ (p : Text × Stats N). p.1 ≡ record s { key_counter = [] })
        (flush_keys num key_flush time_string s) (message, t)
        (Holds-after (λ (p : Text × Stats N). p.1 ≡ record s { key_counter = [] })
          (log_from num (shown num key_flush (length s.key_counter)) time_string 0
            (sort_keys s.key_counter))
          (λ text. done (text, without_keys s)) (λ text. refl))
        h
