-- ===== src/Text/Strip.antt =====
-- `strip`, `lstrip` and `rstrip`, by a class of characters.
use gpn.Prelude.{
  refl, ℕ, Bool, true, false, ◌||◌, [], ◌∷◌, ◌==◌, if◌then◌else◌, All, Bool-cases, inl, inr, ◌≡◌,
  ap, ◌∙◌,
}
use gpn.Text.Chars.{Text, is_space}

unfoldable pub lstrip_by : (ℕ → Bool) → Text → Text
lstrip_by p [] = []
lstrip_by p (c ∷ s) = if p c then lstrip_by p s else c ∷ s

-- `c` in front of a text that is stripped on the right
unfoldable pub keep_unless : Bool → ℕ → Text → Text
keep_unless true c [] = []
keep_unless _ c s = c ∷ s

unfoldable pub rstrip_by : (ℕ → Bool) → Text → Text
unfolding keep_unless
rstrip_by p [] = []
rstrip_by p (c ∷ s) = keep_unless (p c) c (rstrip_by p s)

unfoldable pub strip_by : (ℕ → Bool) → Text → Text
unfolding lstrip_by rstrip_by
strip_by p s = rstrip_by p (lstrip_by p s)

unfoldable pub strip : Text → Text
unfolding strip_by is_space
strip = strip_by is_space

abbrev pub is_char : ℕ → ℕ → Bool
is_char x c = c == x

-- `.strip("'\"")` takes quotes of both kinds
abbrev pub is_quote : ℕ → Bool
is_quote c = c == b'\'' || c == b'"'

-- `.lstrip("- ")`
abbrev pub is_dash : ℕ → Bool
is_dash c = c == b'-' || c == b' '

module _ {ℓ} (p : ℕ → Bool) (P : ℕ → Type ℓ) where
  pub lstrip_by-All : (s : Text) → All P s → All P (lstrip_by p s)
  unfolding lstrip_by
  lstrip_by-All [] h = tt
  lstrip_by-All (c ∷ s) h = elim (Bool-cases (p c)) [
    | inl e ↦ rw e (lstrip_by-All s h.1)
    | inr e ↦ rw e h
  ]

  keep_unless-All : (b : Bool) (c : ℕ) (s : Text) → P c → All P s → All P (keep_unless b c s)
  unfolding keep_unless
  keep_unless-All true c [] hc hs = tt
  keep_unless-All true c (d ∷ s) hc hs = (hc, hs)
  keep_unless-All false c s hc hs = (hc, hs)

  pub rstrip_by-All : (s : Text) → All P s → All P (rstrip_by p s)
  unfolding rstrip_by
  rstrip_by-All [] h = tt
  rstrip_by-All (c ∷ s) h = keep_unless-All (p c) c (rstrip_by p s) h.0 (rstrip_by-All s h.1)

  pub strip_by-All : (s : Text) → All P s → All P (strip_by p s)
  unfolding strip_by
  strip_by-All s h = rstrip_by-All (lstrip_by p s) (lstrip_by-All s h)

abbrev pub Off : (ℕ → Bool) → ℕ → Type 0
Off p c = p c ≡ false

pub lstrip_by-Off : (p : ℕ → Bool) (s : Text) → All (Off p) s → lstrip_by p s ≡ s
unfolding lstrip_by
lstrip_by-Off p [] h = refl
lstrip_by-Off p (c ∷ s) h = rw h.0

pub rstrip_by-Off : (p : ℕ → Bool) (s : Text) → All (Off p) s → rstrip_by p s ≡ s
unfolding rstrip_by
rstrip_by-Off p [] h = refl
rstrip_by-Off p (c ∷ s) h = rw h.0 (rw (rstrip_by-Off p s h.1))

-- Text with none of the class is left as it is.
pub strip_by-Off : (p : ℕ → Bool) (s : Text) → All (Off p) s → strip_by p s ≡ s
unfolding strip_by
strip_by-Off p s h = ap (rstrip_by p) (lstrip_by-Off p s h) ∙ rstrip_by-Off p s h
