-- ===== src/Regex.antt =====
-- The regular expressions of the program, over code points, with `re.fullmatch` by derivatives.
pub mod Language
use ai_protocol.Base.{
  leb, ◌==◌, if◌then◌else◌, ℕ, zero, suc, Bool, true, false, ◌&&◌, ◌||◌, List, [], ◌∷◌,
}
use ai_protocol.Base.Text.{is_digit}

pub data Regex : Type 0 where
  void : Regex
  epsilon : Regex
  chars : (ℕ → Bool) → Regex
  seq alt : Regex → Regex → Regex
  star : Regex → Regex

abbrev pub plus : Regex → Regex
plus r = seq r (star r)

-- One character.
abbrev pub char : ℕ → Regex
char c = chars (λ x. x == c)

-- Whether the empty text matches.
unfoldable pub nullable : Regex → Bool
nullable void = false
nullable epsilon = true
nullable (chars p) = false
nullable (seq r s) = nullable r && nullable s
nullable (alt r s) = nullable r || nullable s
nullable (star r) = true

-- What must follow the character `c`.
unfoldable pub derive : ℕ → Regex → Regex
derive c void = void
derive c epsilon = void
derive c (chars p) = if p c then epsilon else void
derive c (seq r s) =
    let first = seq (derive c r) s in
    let second = derive c s in if nullable r then alt first second else first
derive c (alt r s) = alt (derive c r) (derive c s)
derive c (star r) = seq (derive c r) (star r)

unfoldable pub fullmatch : Regex → List ℕ → Bool
unfolding nullable derive
fullmatch r [] = nullable r
fullmatch r (c ∷ w) = fullmatch (derive c r) w

abbrev pub is_lower : ℕ → Bool
is_lower c = leb b'a' c && leb c b'z'

abbrev pub is_upper : ℕ → Bool
is_upper c = leb b'A' c && leb c b'Z'

abbrev pub is_alnum : ℕ → Bool
is_alnum c = is_upper c || is_lower c || is_digit c

-- `[A-Za-z0-9_-]`
abbrev pub is_segment : ℕ → Bool
is_segment c = is_alnum c || c == b'_' || c == b'-'

-- `[A-Za-z0-9_-]+(?:/[A-Za-z0-9_-]+)*`
abbrev pub operation_pattern : Regex
operation_pattern = seq (plus (chars is_segment)) (star (seq (char b'/') (plus (chars is_segment))))

-- `/[A-Za-z0-9_-]+(?:/[A-Za-z0-9_-]+)*`
abbrev pub path_pattern : Regex
path_pattern = seq (char b'/') operation_pattern

-- `[A-Za-z0-9._~+/=-]`
abbrev pub is_token_char : ℕ → Bool
is_token_char c =
    is_alnum c
    || c == b'.'
    || c == b'_'
    || c == b'~'
    || c == b'+'
    || c == b'/'
    || c == b'='
    || c == b'-'

-- `[A-Za-z0-9._~+/=-]+`
abbrev pub token_pattern : Regex
token_pattern = plus (chars is_token_char)

-- `{0,n}` of one character
abbrev pub up_to : ℕ → Regex → Regex
up_to zero r = epsilon
up_to (suc n) r = alt epsilon (seq r (up_to n r))

-- `[a-z][a-z0-9_]{0,63}`
abbrev pub code_pattern : Regex
code_pattern = seq (chars is_lower) (up_to 63 (chars (λ c. is_lower c || is_digit c || c == b'_')))
