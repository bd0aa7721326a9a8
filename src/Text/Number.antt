-- ===== src/Text/Number.antt =====
-- `int(s)` of a text.
use gpn.Prelude.{
  ℕ, ◌+◌, ◌*◌, ◌-◌, Bool, true, false, [], ◌∷◌, Option, none, some, ℤ, pos, negate, ltb, ◌==◌,
  if◌then◌else◌,
}
use gpn.Text.Chars.{Text, Unicode, is_within}
use gpn.Text.Strip.{strip}

abbrev map_option {ℓ κ} : {A : Type ℓ} {B : Type κ} → (A → B) → Option A → Option B
map_option f none = none
map_option f (some a) = some (f a)

module _ ⦃u : Unicode⦄ where
  unfoldable pub digit_value : ℕ → Option ℕ
  digit_value c =
      if ltb c 128
      then (if is_within b'0' b'9' c then some (c - b'0') else none)
      else u.wide_decimal c

  abbrev next_digit : Option ℕ → (ℕ → Option ℕ) → Option ℕ
  next_digit none rest = none
  next_digit (some d) rest = rest d

  -- The flag says that the last character was a digit: one "_" may stand between two digits.
  unfoldable pub digits_from : ℕ → Bool → Text → Option ℕ
  unfolding digit_value
  digits_from acc after [] = if after then some acc else none
  digits_from acc after (c ∷ s) =
      let joined = digits_from acc false s in
      let rest : ℕ → Option ℕ = λ d. digits_from (acc * 10 + d) true s in
      if c == b'_' then (if after then joined else none) else next_digit (digit_value c) rest

  unfoldable pub signed : Text → Option ℤ
  unfolding digits_from
  signed [] = none
  signed (c ∷ s) =
      if c == b'-'
      then map_option negate (digits_from 0 false s)
      else if c == b'+'
      then map_option pos (digits_from 0 false s)
      else map_option pos (digits_from 0 false (c ∷ s))

  -- `none` is the `ValueError`.
  unfoldable pub int_of : Text → Option ℤ
  unfolding signed strip
  int_of s = signed (strip s)
