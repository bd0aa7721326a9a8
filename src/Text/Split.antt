-- ===== src/Text/Split.antt =====
-- `split`, `partition` and `splitlines`.
pub mod Pieces
use gpn.Prelude.{
  ℕ, suc, ◌+◌, Bool, true, false, ◌&&◌, ◌||◌, List, [], ◌∷◌, ◌++◌, Option, none, some, ◌≡◌, ◌≢◌,
  refl, ap, arith, ◌==◌, if◌then◌else◌, All, Bool-cases, inl, inr, length, is_empty,
}
use gpn.Text.Chars.{Text, is_space, is_within}

-- `c` in front of the first piece
unfoldable pub push : ℕ → List Text → List Text
push c [] = (c ∷ []) ∷ []
push c (f ∷ fs) = (c ∷ f) ∷ fs

-- `s.split(sep)`, with one character for a separator
unfoldable pub split_on : ℕ → Text → List Text
unfolding push
split_on sep [] = [] ∷ []
split_on sep (c ∷ s) = let rest = split_on sep s in if c == sep then [] ∷ rest else push c rest

-- `s.split(sep, 1)`: what stands before the first separator, and what behind it
unfoldable pub cut : ℕ → Text → Text × Option Text
cut sep [] = ([], none)
cut sep (c ∷ s) = let (a, b) = cut sep s in if c == sep then ([], some s) else (c ∷ a, b)

-- `s.split(sep)[0]`
unfoldable pub before : ℕ → Text → Text
unfolding cut
before sep s = (cut sep s).0

-- `sep.join(parts)`
unfoldable pub join : Text → List Text → Text
join sep [] = []
join sep (x ∷ []) = x
join sep (x ∷ y ∷ r) = x ++ (sep ++ join sep (y ∷ r))

-- The pieces between the characters of a class, with no empty piece; the flag says that a piece
-- is open.
unfoldable pub words_from : (ℕ → Bool) → Bool → Text → List Text
unfolding push
words_from p inside [] = if inside then [] ∷ [] else []
words_from p inside (c ∷ s) =
    let rest = words_from p true s in
    let skipped = words_from p false s in
    if p c then (if inside then [] ∷ skipped else skipped) else push c rest

unfoldable pub words_by : (ℕ → Bool) → Text → List Text
unfolding words_from
words_by p = words_from p false

-- `s.split()`
unfoldable pub words : Text → List Text
unfolding words_by is_space
words = words_by is_space

-- the line boundaries of `str.splitlines`; "\r\n" is one
unfoldable pub is_line_end : ℕ → Bool
is_line_end c = is_within 10 13 c || is_within 28 30 c || c == 133 || is_within 8232 8233 c

-- The flag says that a line is open, so that no empty line follows the last boundary.
unfoldable pub lines_from : (ℕ → Bool) → Bool → Text → List Text
unfolding push
lines_from end inside [] = if inside then [] ∷ [] else []
lines_from end inside (c ∷ []) = if end c then [] ∷ [] else (c ∷ []) ∷ []
lines_from end inside (c ∷ d ∷ s) =
    let after_pair = lines_from end false s in
    let fresh = lines_from end false (d ∷ s) in
    let rest = lines_from end true (d ∷ s) in
    if c == 13 && d == 10 && end c
    then [] ∷ after_pair
    else if end c
    then [] ∷ fresh
    else push c rest

unfoldable pub splitlines : Text → List Text
unfolding lines_from is_line_end
splitlines = lines_from is_line_end false

-- The lines of a file opened in text mode, without their ends: "\n", "\r" and "\r\n".
unfoldable pub file_lines : Text → List Text
unfolding lines_from
file_lines = lines_from (λ c. c == 10 || c == 13) false
