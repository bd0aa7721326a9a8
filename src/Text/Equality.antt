-- ===== src/Text/Equality.antt =====
-- `==` and `in` on texts.
use mathlib.Core.Bool.{or-true}
use gpn.Prelude.{
  Bool, true, false, ◌&&◌, ◌||◌, List, [], ◌∷◌, ◌++◌, ◌≡◌, ◌↔◌, refl, arith, ◌==◌, All, All-mono,
  or_parts, inl, inr,
}
use gpn.Text.Chars.{Text}

unfoldable pub eqb : Text → Text → Bool
eqb [] [] = true
eqb (x ∷ a) (y ∷ b) = x == y && eqb a b
eqb _ _ = false

pub eqb_iff : (a b : Text) → (eqb a b ≡ true) ↔ (a ≡ b)
unfolding eqb
eqb_iff (x ∷ a) (y ∷ b) = ground (arith, eqb_iff a b)
eqb_iff _ _ = ground arith

pub eqb_refl : (a : Text) → eqb a a ≡ true
eqb_refl a = (eqb_iff a a).1 refl

-- `x in ("a", "b")`, on a tuple, a list or a set of texts
unfoldable pub is_in : Text → List Text → Bool
unfolding eqb
is_in x [] = false
is_in x (y ∷ ys) = eqb x y || is_in x ys

pub is_in-All {ℓ} :
    (P : Text → Type ℓ) (x : Text) (ys : List Text) → All P ys → is_in x ys ≡ true → P x
unfolding is_in
is_in-All P x [] h e = cc
is_in-All P x (y ∷ ys) h e = elim (or_parts (eqb x y) (is_in x ys) e) [
  | inl f ↦ rw ((eqb_iff x y).0 f) h.0
  | inr f ↦ is_in-All P x ys h.1 f
]

pub is_in-append : (x : Text) (ys zs : List Text) → is_in x ys ≡ true → is_in x (ys ++ zs) ≡ true
unfolding is_in
is_in-append x [] zs h = cc
is_in-append x (y ∷ ys) zs h = elim (or_parts (eqb x y) (is_in x ys) h) [
  | inl e ↦ rw e
  | inr e ↦ rw (is_in-append x ys zs e) (or-true (eqb x y))
]

pub is_in-last : (x : Text) (ys : List Text) → is_in x (ys ++ x ∷ []) ≡ true
unfolding is_in
is_in-last x [] = rw eqb_refl
is_in-last x (y ∷ ys) = rw (is_in-last x ys) (or-true (eqb x y))

pub is_in_self : (ys : List Text) → All (λ a. is_in a ys ≡ true) ys
unfolding is_in
is_in_self [] = tt
is_in_self (y ∷ ys) = (
  rw eqb_refl,
  All-mono (λ a. is_in a ys ≡ true) (λ a. is_in a (y ∷ ys) ≡ true) (λ a h. rw h (or-true (eqb a y)))
      ys (is_in_self ys),
)
