-- ===== src/Text/Split/Pieces.antt =====
-- The pieces of `split` and of `partition` hold no separator.
use gpn.Prelude.{
  false, [], ◌∷◌, ◌≡◌, ◌==◌, All, inl, inr, Bool-cases, ◌++◌, some, ==_refl, refl, ℕ, List,
}
use gpn.Text.Chars.{Text}
use gpn.Text.Split.{push, split_on, cut}
use gpn.Text.Search.{has}

abbrev pub IsNot : ℕ → ℕ → Type 0
IsNot sep c = (c == sep) ≡ false

pub push-All {ℓ} :
    (P : ℕ → Type ℓ) (c : ℕ) (fs : List Text) → P c → All (All P) fs → All (All P) (push c fs)
unfolding push
push-All P c [] h k = ((h, tt), tt)
push-All P c (f ∷ fs) h k = ((h, k.0), k.1)

pub split_on-All : (sep : ℕ) (s : Text) → All (All (IsNot sep)) (split_on sep s)
unfolding split_on
split_on-All sep [] = (tt, tt)
split_on-All sep (c ∷ s) = elim (Bool-cases (c == sep)) [
  | inl e ↦ rw e (tt, split_on-All sep s)
  | inr e ↦ rw e (push-All (IsNot sep) c (split_on sep s) e (split_on-All sep s))
]

-- `partition` at a separator that does not stand in what is before it
pub cut-at : (sep : ℕ) (a b : Text) → has sep a ≡ false → cut sep (a ++ sep ∷ b) ≡ (a, some b)
unfolding cut has
cut-at sep [] b h = rw (==_refl sep)
cut-at sep (c ∷ a) b h = elim (Bool-cases (c == sep)) [
  | inl e ↦ cc (rw e at h)
  | inr e ↦ rw e (rw (cut-at sep a b (rw e at h)))
]

-- a separator that is there is found
pub cut-some : (sep : ℕ) (a b : Text) → (r : Text) × ((cut sep (a ++ sep ∷ b)).1 ≡ some r)
unfolding cut
cut-some sep [] b = (b, rw (==_refl sep) refl)
cut-some sep (c ∷ a) b = elim (Bool-cases (c == sep)) [
  | inl e ↦ (a ++ sep ∷ b, rw e refl)
  | inr e ↦ rw e (cut-some sep a b)
]
