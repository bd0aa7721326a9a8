-- ===== src/Regex.antt =====
-- The regular expressions of the program (Python's `re`), as a syntax with a matcher that runs by
-- derivatives. `Regex/Language` says what a text of an expression is.
pub mod Language
pub mod Class
use gpn.Prelude.{
  ℕ, zero, suc, Bool, true, false, ◌&&◌, ◌||◌, List, [], ◌∷◌, ◌==◌, if◌then◌else◌, Option, none,
  some, is_empty,
}
use gpn.Text.{Text}

pub data Regex : Type 0 where
  nothing eps : Regex
  chars : (ℕ → Bool) → Regex
  alt seq : Regex → Regex → Regex
  star : Regex → Regex

-- `r?`, `r+`, and a literal text
abbrev pub opt : Regex → Regex
opt r = alt r eps

abbrev pub plus : Regex → Regex
plus r = seq r (star r)

abbrev pub char : ℕ → Regex
char x = chars (λ c. c == x)

abbrev pub lit : Text → Regex
lit [] = eps
lit (c ∷ s) = seq (char c) (lit s)

-- `r{lo,lo+more}`
abbrev pub up_to : ℕ → Regex → Regex
up_to zero r = eps
up_to (suc n) r = opt (seq r (up_to n r))

-- `r$` at the end of an expression also stands before a last newline.
abbrev pub at_end : Regex → Regex
at_end r = seq r (opt (char b'\n'))

unfoldable pub nullable : Regex → Bool
nullable nothing = false
nullable eps = true
nullable (chars p) = false
nullable (alt a b) = nullable a || nullable b
nullable (seq a b) = nullable a && nullable b
nullable (star a) = true

-- `alt` and `seq`, with what matches nothing left out, so that derivatives stay small
unfoldable pub alt' : Regex → Regex → Regex
alt' nothing b = b
alt' a nothing = a
alt' a b = alt a b

unfoldable pub seq' : Regex → Regex → Regex
seq' nothing b = nothing
seq' eps b = b
seq' a b = seq a b

-- What may follow the character `c`.
unfoldable pub deriv : ℕ → Regex → Regex
unfolding alt' seq' nullable
deriv c nothing = nothing
deriv c eps = nothing
deriv c (chars p) = if p c then eps else nothing
deriv c (alt a b) = alt' (deriv c a) (deriv c b)
deriv c (seq a b) =
    let here = seq' (deriv c a) b in
    let skip = deriv c b in if nullable a then alt' here skip else here
deriv c (star a) = seq' (deriv c a) (star a)

-- `re.fullmatch`
unfoldable pub full_match : Regex → Text → Bool
unfolding deriv
full_match r [] = nullable r
full_match r (c ∷ s) = full_match (deriv c r) s

-- `re.match` with no `$`: a prefix of the text is of the expression.
unfoldable pub prefix_match : Regex → Text → Bool
unfolding deriv
prefix_match r [] = nullable r
prefix_match r (c ∷ s) = nullable r || prefix_match (deriv c r) s
