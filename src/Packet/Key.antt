-- ===== src/Packet/Key.antt =====
-- stats.js: `sanitizeKeyName`, and the key of a line with its tags.
use statsd.Base.{ℕ, Bool, false, ◌&&◌, ◌||◌, List, [], ◌∷◌, ◌++◌, ◌==◌, leb, if◌then◌else◌, map}
use statsd.Js.Text.{Text, codes, is_space, is_digit, is_empty, join, split, replace_first}

-- `.replace(/\s+/g, '_')`; the flag says that the character before was a space
unfoldable pub spaces_to_underscore : Bool → Text → Text
unfolding is_space
spaces_to_underscore after [] = []
spaces_to_underscore after (c ∷ s) =
    let rest = spaces_to_underscore (is_space c) s in
    if is_space c then (if after then rest else b'_' ∷ rest) else c ∷ rest

-- `.replace(/\//g, '-')`
unfoldable pub slashes_to_dash : Text → Text
slashes_to_dash [] = []
slashes_to_dash (c ∷ s) = (if c == b'/' then b'-' else c) ∷ slashes_to_dash s

-- `[a-zA-Z_\-0-9\.;=]`
unfoldable pub is_key_char : ℕ → Bool
unfolding is_digit
is_key_char c =
    (leb b'a' c && leb c b'z')
    || (leb b'A' c && leb c b'Z')
    || c == b'_'
    || c == b'-'
    || is_digit c
    || c == b'.'
    || c == b';'
    || c == b'='

-- `.replace(/[^a-zA-Z_\-0-9\.;=]/g, '')`
unfoldable pub keep_key_chars : Text → Text
unfolding is_key_char
keep_key_chars [] = []
keep_key_chars (c ∷ s) = let rest = keep_key_chars s in if is_key_char c then c ∷ rest else rest

unfoldable pub sanitize_text : Text → Text
unfolding spaces_to_underscore slashes_to_dash keep_key_chars
sanitize_text key = keep_key_chars (slashes_to_dash (spaces_to_underscore false key))

-- `sanitizeKeyName`, with `keyNameSanitize`
unfoldable pub sanitize_key_name : Bool → Text → Text
unfolding sanitize_text
sanitize_key_name key_name_sanitize key = if key_name_sanitize then sanitize_text key else key

-- `tag.replace(';', '_').replace(':', '=')`
unfoldable pub clean_tag : Text → Text
unfolding replace_first
clean_tag tag = replace_first b':' (codes "=") (replace_first b';' (codes "_") tag)

-- The tags of a line that `|#` cut into `bits`.
unfoldable pub tags_of : List Text → List Text
unfolding split
tags_of [] = []
tags_of (first ∷ []) = []
tags_of (first ∷ second ∷ more) = if is_empty second then [] else split (codes ",") second

-- The key with its tags behind it.
unfoldable pub add_tags : Text → List Text → Text
unfolding clean_tag join
add_tags key [] = key
add_tags key (t ∷ ts) = key ++ (b';' ∷ join (codes ";") (map clean_tag (t ∷ ts)))
