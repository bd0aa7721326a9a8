-- ===== src/Text/Search/Counts.antt =====
-- `count` and `in` for one character.
use gpn.Prelude.{ℕ, ◌+◌, false, [], ◌∷◌, ◌++◌, ◌≡◌, refl, ◌==◌, arith, All, inl, inr, Bool-cases}
use gpn.Text.Chars.{Text}
use gpn.Text.Split.Pieces.{IsNot}
use gpn.Text.Search.{has, count}

pub count-append : (x : ℕ) (a b : Text) → count x (a ++ b) ≡ count x a + count x b
unfolding count
count-append x [] b = omega arith
count-append x (c ∷ a) b = omega (arith, count-append x a b)

pub count-IsNot : (x : ℕ) (s : Text) → All (IsNot x) s → count x s ≡ 0
unfolding count
count-IsNot x [] h = refl
count-IsNot x (c ∷ s) h = rw h.0 (omega (arith, count-IsNot x s h.1))

pub has-IsNot : (x : ℕ) (s : Text) → has x s ≡ false → All (IsNot x) s
unfolding has
has-IsNot x [] h = tt
has-IsNot x (c ∷ s) h = elim (Bool-cases (c == x)) [
  | inl e ↦ cc (rw e at h)
  | inr e ↦ (e, has-IsNot x s (rw e at h))
]

pub IsNot-has : (x : ℕ) (s : Text) → All (IsNot x) s → has x s ≡ false
unfolding has
IsNot-has x [] h = refl
IsNot-has x (c ∷ s) h = rw h.0 (IsNot-has x s h.1)
