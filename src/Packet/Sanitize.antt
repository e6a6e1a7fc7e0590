-- ===== src/Packet/Sanitize.antt =====
-- What `sanitizeKeyName` leaves of a key.
use statsd.Base.{
  ℕ, ◌≡◌, refl, Bool, true, false, [], ◌∷◌, ◌++◌, ◌==◌, if◌then◌else◌, arith, All, Bool-cases, inl,
  inr,
}
use statsd.Js.Text.{Text, is_space, is_digit}
use statsd.Packet.Key.{
  spaces_to_underscore, slashes_to_dash, is_key_char, keep_key_chars, sanitize_text,
  sanitize_key_name,
}

abbrev pub IsKeyChar : ℕ → Type 0
IsKeyChar c = is_key_char c ≡ true

keep_key_chars-All : (s : Text) → All IsKeyChar (keep_key_chars s)
unfolding keep_key_chars
keep_key_chars-All [] = tt
keep_key_chars-All (c ∷ s) = ground (arith, keep_key_chars-All s)

key_char_lem : (c : ℕ) → is_key_char c ≡ true → (is_space c ≡ false) × ((c == b'/') ≡ false)
unfolding is_key_char is_space is_digit
key_char_lem c h = ground arith

spaces_clean : (b : Bool) (s : Text) → All IsKeyChar s → spaces_to_underscore b s ≡ s
unfolding spaces_to_underscore
spaces_clean b [] h = refl
spaces_clean b (c ∷ s) h = ground (arith, key_char_lem c, spaces_clean false s)

slashes_clean : (s : Text) → All IsKeyChar s → slashes_to_dash s ≡ s
unfolding slashes_to_dash
slashes_clean [] h = refl
slashes_clean (c ∷ s) h = ground (arith, key_char_lem c, slashes_clean s)

keep_clean : (s : Text) → All IsKeyChar s → keep_key_chars s ≡ s
unfolding keep_key_chars
keep_clean [] h = refl
keep_clean (c ∷ s) h = ground (arith, keep_clean s)

pub sanitize_text_clean : (s : Text) → All IsKeyChar s → sanitize_text s ≡ s
unfolding sanitize_text
sanitize_text_clean s h = rw (spaces_clean false s h, slashes_clean s h) (keep_clean s h)

pub sanitize_text-All : (s : Text) → All IsKeyChar (sanitize_text s)
unfolding sanitize_text
sanitize_text-All s = keep_key_chars-All (slashes_to_dash (spaces_to_underscore false s))

-- What becomes of one character: a run of spaces is one `_`, a `/` is a `-`, and what no key may
-- hold is dropped.
abbrev pub piece : Bool → ℕ → Text
piece after c =
    if is_space c
    then (if after then [] else b'_' ∷ [])
    else if c == b'/'
    then b'-' ∷ []
    else if is_key_char c
    then c ∷ []
    else []

abbrev pub one_pass : Bool → Text → Text
one_pass after [] = []
one_pass after (c ∷ s) = piece after c ++ one_pass (is_space c) s

substitutes : (is_key_char b'_' ≡ true) × (is_key_char b'-' ≡ true)
unfolding is_key_char is_digit
substitutes = (refl, refl)

-- the last two replacements at one character
kept : ℕ → Text
unfolding is_key_char
kept c = if c == b'/' then b'-' ∷ [] else if is_key_char c then c ∷ [] else []

keep_slashes_cons :
    (c : ℕ) (s : Text)
    → keep_key_chars (slashes_to_dash (c ∷ s)) ≡ kept c ++ keep_key_chars (slashes_to_dash s)
unfolding keep_key_chars slashes_to_dash kept
keep_slashes_cons c s = unfold is_key_char in ground (arith, substitutes)

kept_underscore : kept b'_' ≡ b'_' ∷ []
unfolding kept is_digit
kept_underscore = refl

passes-eq-one_pass :
    (after : Bool) (s : Text)
    → keep_key_chars (slashes_to_dash (spaces_to_underscore after s)) ≡ one_pass after s
unfolding spaces_to_underscore
passes-eq-one_pass after [] = unfold keep_key_chars slashes_to_dash in refl
passes-eq-one_pass true (c ∷ s) = elim (Bool-cases (is_space c)) [
  | inl space ↦ rw space (passes-eq-one_pass true s)
  | inr other ↦ rw (other, keep_slashes_cons, passes-eq-one_pass false s) (unfold kept in refl)
]
passes-eq-one_pass false (c ∷ s) = elim (Bool-cases (is_space c)) [
  | inl space ↦ rw (space, keep_slashes_cons, kept_underscore, passes-eq-one_pass true s)
  | inr other ↦ rw (other, keep_slashes_cons, passes-eq-one_pass false s) (unfold kept in refl)
]

-- With sanitizing on, the three replacements are one pass over the characters; the result holds key
-- characters only, and sanitizing it again changes nothing. With sanitizing off the key is as it was.
pub sanitize_key_name_lem :
    (key : Text)
    → (sanitize_key_name true key ≡ one_pass false key)
      × All IsKeyChar (sanitize_key_name true key)
      × (sanitize_key_name true (sanitize_key_name true key) ≡ sanitize_key_name true key)
      × (sanitize_key_name false key ≡ key)
unfolding sanitize_key_name sanitize_text
sanitize_key_name_lem key = (
  passes-eq-one_pass false key,
  sanitize_text-All key,
  sanitize_text_clean _ (sanitize_text-All key),
  refl,
)
