-- ===== src/Js/Text/Split.antt =====
-- What splitting at one character gives.
use statsd.Base.{
  ℕ, ◌≡◌, refl, ap, ◌∙◌, true, false, List, [], ◌∷◌, ◌++◌, ◌==◌, All, arith, Bool-cases, inl, inr,
}
use statsd.Js.Text.{Text, contains, starts_with, split_from, split, join}

module _ (c : ℕ) where
  abbrev sep : Text
  sep = c ∷ []

  abbrev parts : Text → Text × List Text
  parts s = split_from sep s 0

  part_here : (d : ℕ) (s : Text) → (d == c) ≡ true → parts (d ∷ s) ≡ ([], (parts s).0 ∷ (parts s).1)
  unfolding split_from starts_with
  part_here d s e = ground arith

  part_on : (d : ℕ) (s : Text) → (d == c) ≡ false → parts (d ∷ s) ≡ (d ∷ (parts s).0, (parts s).1)
  unfolding split_from starts_with
  part_on d s e = ground arith

  parts_one : (s : Text) → contains c s ≡ false → parts s ≡ (s, [])
  unfolding contains split_from
  parts_one [] h = refl
  parts_one (d ∷ s) h =
      part_on d s (ground arith) ∙ ap (λ p. (d ∷ p.0, p.1)) (parts_one s (ground arith))

  -- a text without the character is one part
  pub split_one : (s : Text) → contains c s ≡ false → split sep s ≡ s ∷ []
  unfolding split
  split_one s h = ap (λ p. p.0 ∷ p.1) (parts_one s h)

  parts_at :
      (a s : Text) → contains c a ≡ false → parts (a ++ (c ∷ s)) ≡ (a, (parts s).0 ∷ (parts s).1)
  unfolding contains
  parts_at [] s h = part_here c s (ground arith)
  parts_at (d ∷ a) s h =
      part_on d (a ++ (c ∷ s)) (ground arith)
      ∙ ap (λ p. (d ∷ p.0, p.1)) (parts_at a s (ground arith))

  -- the first part ends at the first separator
  pub split_at : (a s : Text) → contains c a ≡ false → split sep (a ++ (c ∷ s)) ≡ a ∷ split sep s
  unfolding split
  split_at a s h = ap (λ p. p.0 ∷ p.1) (parts_at a s h)

  parts-append :
      (a s : Text)
      → parts (a ++ (c ∷ s)) ≡ ((parts a).0, (parts a).1 ++ ((parts s).0 ∷ (parts s).1))
  unfolding split_from
  parts-append [] s = part_here c s (ground arith)
  parts-append (d ∷ a) s = elim (Bool-cases (d == c)) [
    | inl e ↦ rw (part_here d (a ++ (c ∷ s)) e, part_here d a e, parts-append a s) refl
    | inr e ↦ rw (part_on d (a ++ (c ∷ s)) e, part_on d a e, parts-append a s) refl
  ]

  -- at a separator the parts of a text are those before it and those behind it
  pub split-append : (a s : Text) → split sep (a ++ (c ∷ s)) ≡ split sep a ++ split sep s
  unfolding split
  split-append a s = ap (λ p. p.0 ∷ p.1) (parts-append a s)

  parts_clean :
      (s : Text) → (contains c (parts s).0 ≡ false) × All (λ p. contains c p ≡ false) (parts s).1
  unfolding contains split_from
  parts_clean [] = (refl, tt)
  parts_clean (d ∷ s) = elim (Bool-cases (d == c)) [
    | inl e ↦ rw (part_here d s e) (refl, parts_clean s)
    | inr e ↦ rw (part_on d s e, e) (parts_clean s)
  ]

  -- no part has the character
  pub split_clean : (s : Text) → All (λ p. contains c p ≡ false) (split sep s)
  unfolding split
  split_clean s = parts_clean s

  join-cons : (d : ℕ) (p : Text) (ps : List Text) → join sep ((d ∷ p) ∷ ps) ≡ d ∷ join sep (p ∷ ps)
  unfolding join
  join-cons d p [] = refl
  join-cons d p (q ∷ ps) = refl

  -- Joined at the separator, the parts of a text are the text again.
  pub join-split : (s : Text) → join sep (split sep s) ≡ s
  unfolding split join split_from
  join-split s = back s
    where
      back : (s : Text) → join sep ((parts s).0 ∷ (parts s).1) ≡ s
      back [] = refl
      back (d ∷ s) = elim (Bool-cases (d == c)) [
        | inl e ↦
            let same : d ≡ c = ground arith in rw (part_here d s e, same) (ap (◌∷◌ c) (back s))
        | inr e ↦ rw (part_on d s e) (join-cons d (parts s).0 (parts s).1 ∙ ap (◌∷◌ d) (back s))
      ]
