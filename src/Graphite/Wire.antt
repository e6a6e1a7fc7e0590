-- ===== src/Graphite/Wire.antt =====
-- backends/graphite.js: a measurement, and the two formats in which measurements are sent.
use statsd.Base.{
  ℕ, ◌+◌, ◌*◌, ◌/◌, ◌%◌, ◌^◌, ◌<◌, ◌≡◌, refl, ap, ◌∙◌, false, ◌||◌, List, [], ◌∷◌, ◌++◌, All,
  append_assoc, arith,
}
use statsd.Js.Number.{JsNumber}
use statsd.Js.Text.{Text, codes, contains, split, join}
use statsd.Js.Text.Split.{split_one, split_at}

pub record Metric {ℓ} (N : Type ℓ) : Type ℓ where
  pub key : Text
  pub value : N
  pub ts : N

module _ {ℓ} {N : Type ℓ} (num : JsNumber N) where
  -- `Metric.toText`
  unfoldable pub metric_text : Metric N → Text
  metric_text m = m.key ++ (codes " " ++ (num.to_text m.value ++ (codes " " ++ num.to_text m.ts)))

  -- `Metric.toPickle`
  unfoldable pub metric_pickle : Metric N → Text
  metric_pickle m =
      codes "(S'"
      ++ m.key
      ++ codes "'\n(L"
      ++ num.to_text m.ts
      ++ codes "L\nS'"
      ++ num.to_text m.value
      ++ codes "'\ntta"

  abbrev pub texts : List (Metric N) → List Text
  texts [] = []
  texts (m ∷ ms) = metric_text m ∷ texts ms

  -- `Stats.toText`
  unfoldable pub to_text : List (Metric N) → Text
  unfolding metric_text join
  to_text metrics = join (codes "\n") (texts metrics) ++ codes "\n"

  unfoldable pub pickles : List (Metric N) → Text
  unfolding metric_pickle
  pickles [] = []
  pickles (m ∷ ms) = metric_pickle m ++ pickles ms

  -- the text behind the length
  unfoldable pub pickle_body : List (Metric N) → Text
  unfolding pickles
  pickle_body metrics = codes "(l" ++ pickles metrics ++ codes "."

-- `writeUInt32BE(n, 0)`: four bytes, the highest first
unfoldable pub write_uint32_be : ℕ → List ℕ
write_uint32_be n = (n / 2 ^ 24) % 256 ∷ (n / 2 ^ 16) % 256 ∷ (n / 2 ^ 8) % 256 ∷ n % 256 ∷ []

-- what a reader makes of the bytes
abbrev pub read_be : ℕ → List ℕ → ℕ
read_be n [] = n
read_be n (b ∷ bs) = read_be (n * 256 + b) bs

-- A length below 2 ^ 32 is read back from its four bytes.
pub read_be-write_uint32_be : (n : ℕ) → n < 2 ^ 32 → read_be 0 (write_uint32_be n) ≡ n
unfolding write_uint32_be
read_be-write_uint32_be n h = omega arith

contains-append : (c : ℕ) (a b : Text) → contains c (a ++ b) ≡ (contains c a || contains c b)
unfolding contains
contains-append c [] b = refl
contains-append c (d ∷ a) b = ground (arith, contains-append c a b)

-- the parts of joined parts without the separator
split-join :
    (c : ℕ) (p : Text) (ps : List Text) (rest : Text)
    → contains c p ≡ false
    → All (λ q. contains c q ≡ false) ps
    → split (c ∷ []) (join (c ∷ []) (p ∷ ps) ++ (c ∷ rest)) ≡ (p ∷ ps) ++ split (c ∷ []) rest
unfolding join
split-join c p [] rest h hs = split_at c p rest h
split-join c p (q ∷ qs) rest h (k, hs) =
    ap (split (c ∷ [])) (append_assoc p (c ∷ join (c ∷ []) (q ∷ qs)) (c ∷ rest))
    ∙ split_at c p (join (c ∷ []) (q ∷ qs) ++ (c ∷ rest)) h
    ∙ ap (◌∷◌ p) (split-join c q qs rest k hs)

module _ {ℓ} {N : Type ℓ} (num : JsNumber N) where
  -- No key has a newline.
  abbrev pub AreLines : List (Metric N) → Type 0
  AreLines = All λ m. contains b'\n' m.key ≡ false

  metric_text-line :
      (m : Metric N)
      → ((x : N) → contains b'\n' (num.to_text x) ≡ false)
      → contains b'\n' m.key ≡ false
      → contains b'\n' (metric_text num m) ≡ false
  unfolding metric_text contains
  metric_text-line m clean h =
      let ts = codes " " ++ num.to_text m.ts in
      let value = contains-append b'\n' (num.to_text m.value) ts in
      contains-append b'\n' m.key (codes " " ++ (num.to_text m.value ++ ts))
      ∙ ground (arith, value, clean m.value, clean m.ts)

  texts-lines :
      (ms : List (Metric N))
      → ((x : N) → contains b'\n' (num.to_text x) ≡ false)
      → AreLines ms
      → All (λ t. contains b'\n' t ≡ false) (texts num ms)
  texts-lines [] clean hs = tt
  texts-lines (m ∷ ms) clean (h, hs) = (metric_text-line m clean h, texts-lines ms clean hs)

  -- If no key and no number has a newline, the text format has one line for each of the metrics, in
  -- their order, with its key, its value and its time, and nothing behind the last newline.
  pub split-to_text :
      (m : Metric N) (ms : List (Metric N))
      → ((x : N) → contains b'\n' (num.to_text x) ≡ false)
      → AreLines (m ∷ ms)
      → split (codes "\n") (to_text num (m ∷ ms)) ≡ texts num (m ∷ ms) ++ ([] ∷ [])
  unfolding to_text contains
  split-to_text m ms clean hs =
      let (h, rest) = texts-lines (m ∷ ms) clean hs in
      split-join b'\n' (metric_text num m) (texts num ms) [] h rest
      ∙ ap (◌++◌ (texts num (m ∷ ms))) (split_one b'\n' [] refl)
