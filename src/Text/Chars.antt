-- ===== src/Text/Chars.antt =====
-- Texts, literals, and the character classes of `str.strip`, `str.upper`, `str.lower` and `\w`.
use Prim.Native.Char.{code}
use Prim.Native.String.{String}
use gpn.Prelude.{
  ℕ, ◌+◌, ◌-◌, Bool, ◌&&◌, ◌||◌, List, [], ◌∷◌, ◌++◌, ltb, leb, Option, none, ◌==◌, if◌then◌else◌,
}

abbrev pub Text : Type 0
Text = List ℕ

-- The code points of a literal. `String` has its own `[]` and `∷`.
abbrev pub codes : String → Text
codes String.[] = []
codes (String.◌∷◌ c s) = code c ∷ codes s

-- The rows of the character database above ASCII: `str.upper`, `str.lower`, `\w` and
-- `str.isdigit` of one character, and the value of a decimal digit.
pub record Unicode : Type 0 where
  pub wide_upper : ℕ → Text
  pub wide_lower : ℕ → Text
  pub wide_word : ℕ → Bool
  pub wide_digit : ℕ → Bool
  pub wide_decimal : ℕ → Option ℕ

abbrev pub is_within : ℕ → ℕ → ℕ → Bool
is_within lo hi c = leb lo c && leb c hi

-- `str.isspace`, which `strip()` and `split()` go by
unfoldable pub is_space : ℕ → Bool
is_space c =
    is_within 9 13 c
    || is_within 28 32 c
    || c == 133
    || c == 160
    || c == 5760
    || is_within 8192 8202 c
    || is_within 8232 8233 c
    || c == 8239
    || c == 8287
    || c == 12288

-- `[A-Za-z0-9]`
unfoldable pub is_alnum : ℕ → Bool
is_alnum c = is_within b'a' b'z' c || is_within b'A' b'Z' c || is_within b'0' b'9' c

module _ ⦃u : Unicode⦄ where
  unfoldable pub upper_char : ℕ → Text
  upper_char c =
      if ltb c 128 then (if is_within b'a' b'z' c then c - 32 else c) ∷ [] else u.wide_upper c

  unfoldable pub lower_char : ℕ → Text
  lower_char c =
      if ltb c 128 then (if is_within b'A' b'Z' c then c + 32 else c) ∷ [] else u.wide_lower c

  -- `\w`
  unfoldable pub is_word : ℕ → Bool
  unfolding is_alnum
  is_word c = if ltb c 128 then is_alnum c || c == b'_' else u.wide_word c

  unfoldable pub is_digit : ℕ → Bool
  is_digit c = if ltb c 128 then is_within b'0' b'9' c else u.wide_digit c

  unfoldable pub upper : Text → Text
  unfolding upper_char
  upper [] = []
  upper (c ∷ s) = upper_char c ++ upper s

  unfoldable pub lower : Text → Text
  unfolding lower_char
  lower [] = []
  lower (c ∷ s) = lower_char c ++ lower s

-- A database with nothing above ASCII, for tests.
abbrev pub ascii : Unicode
ascii = record {
  wide_upper = λ c. c ∷ [];
  wide_lower = λ c. c ∷ [];
  wide_word = λ c. is_within 0x4e00 0x9fff c;
  wide_digit = λ c. leb c 0;
  wide_decimal = λ c. none;
}
