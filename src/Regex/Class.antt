-- ===== src/Regex/Class.antt =====
-- A class that holds of every character of every text of an expression.
use gpn.Prelude.{ℕ, true, ◌∷◌, ◌≡◌, All, All-append, inl, inr}
use gpn.Text.{Text}
use gpn.Regex.{Regex, nothing, eps, chars, alt, seq, star, full_match}
use gpn.Regex.Language.{Lang, Star, stop, more, full_match-Lang}

-- Every class in the expression lies in `P`.
abbrev pub UsesOnly : (ℕ → Type 0) → Regex → Type 0
UsesOnly P nothing = Unit
UsesOnly P eps = Unit
UsesOnly P (chars p) = (c : ℕ) → p c ≡ true → P c
UsesOnly P (alt a b) = UsesOnly P a × UsesOnly P b
UsesOnly P (seq a b) = UsesOnly P a × UsesOnly P b
UsesOnly P (star a) = UsesOnly P a

module _ (P : ℕ → Type 0) where
  Star-All : (L : Text → Type 0) → ((s : Text) → L s → All P s) → (s : Text) → Star L s → All P s
  Star-All L f s stop = tt
  Star-All L f s (more c t u e x y) = rw e (All-append P (c ∷ t) u (f (c ∷ t) x) (Star-All L f u y))

  pub Lang-All : (r : Regex) (s : Text) → UsesOnly P r → Lang r s → All P s
  Lang-All nothing s h x = absurd x
  Lang-All eps s h x = rw x tt
  Lang-All (chars p) s h (c, e, x) = rw e (h c x, tt)
  Lang-All (alt a b) s h (inl x) = Lang-All a s h.0 x
  Lang-All (alt a b) s h (inr x) = Lang-All b s h.1 x
  Lang-All (seq a b) s h (t, u, e, x, y) =
      rw e (All-append P t u (Lang-All a t h.0 x) (Lang-All b u h.1 y))
  Lang-All (star a) s h x = Star-All (Lang a) (λ t. Lang-All a t h) s x

  pub full_match-All : (r : Regex) (s : Text) → UsesOnly P r → full_match r s ≡ true → All P s
  full_match-All r s h m = Lang-All r s h ((full_match-Lang r s).0 m)
