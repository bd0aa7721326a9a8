-- ===== src/Text/Search.antt =====
-- `startswith`, `endswith`, `in`, `count` and `removeprefix`-like slices.
pub mod Counts
use gpn.Prelude.{
  ℕ, ◌+◌, Bool, true, false, ◌&&◌, ◌||◌, List, [], ◌∷◌, ◌++◌, ◌≡◌, refl, arith, ◌==◌, if◌then◌else◌,
  reverse,
}
use gpn.Text.Chars.{Text}

unfoldable pub starts_with : Text → Text → Bool
starts_with [] s = true
starts_with (p ∷ ps) [] = false
starts_with (p ∷ ps) (c ∷ s) = p == c && starts_with ps s

-- `s.startswith(("a", "b"))`
unfoldable pub starts_with_any : List Text → Text → Bool
unfolding starts_with
starts_with_any [] s = false
starts_with_any (p ∷ ps) s = starts_with p s || starts_with_any ps s

unfoldable pub ends_with : Text → Text → Bool
unfolding starts_with
ends_with p s = starts_with (reverse p) (reverse s)

-- `p in s`
unfoldable pub contains : Text → Text → Bool
unfolding starts_with
contains p [] = starts_with p []
contains p (c ∷ s) = starts_with p (c ∷ s) || contains p s

unfoldable pub has : ℕ → Text → Bool
has x [] = false
has x (c ∷ s) = c == x || has x s

-- `s.count(c)`
unfoldable pub count : ℕ → Text → ℕ
count x [] = 0
count x (c ∷ s) = (if c == x then 1 else 0) + count x s
