-- ===== src/Text/Decimal/RoundTrip.antt =====
-- `int(str(n))` is `n`.
use gpn.Prelude.{
  sym, ◌==◌, false, ℕ, zero, suc, ◌+◌, ◌*◌, ◌/◌, ◌%◌, ◌<◌, Bool, true, false, [], ◌∷◌, ◌++◌, some,
  ◌≡◌, ◌∙◌, refl, ap, arith, All, All-append, All-mono, append_assoc, append-nil, ltb, inl, inr,
  Bool-cases, pos,
}
use gpn.Text.Chars.{Text, Unicode, is_within, is_space}
use gpn.Text.Strip.{strip, strip_by-Off, Off}
use gpn.Text.Number.{digits_from, digit_value, signed, int_of}
use gpn.Text.Decimal.{decimal, decimal_in}

abbrev pub IsDigit : ℕ → Type 0
IsDigit c = is_within b'0' b'9' c ≡ true

IsDigit-char : (d : ℕ) → d < 10 → IsDigit (d + b'0')
IsDigit-char d h = ground arith

decimal_in-IsDigit : (f n : ℕ) → All IsDigit (decimal_in f n)
unfolding decimal_in
decimal_in-IsDigit zero n = tt
decimal_in-IsDigit (suc f) n = elim (Bool-cases (ltb n 10)) [
  | inl e ↦ rw e (IsDigit-char n (ground arith), tt)
  | inr e ↦ rw e (
      All-append IsDigit (decimal_in f (n / 10)) ((n % 10 + b'0') ∷ [])
        (decimal_in-IsDigit f (n / 10)) (IsDigit-char (n % 10) (omega arith), tt))
]

pub decimal-IsDigit : (n : ℕ) → All IsDigit (decimal n)
unfolding decimal
decimal-IsDigit n = decimal_in-IsDigit (suc n) n

module _ ⦃u : Unicode⦄ where
  digit_value_char : (d : ℕ) → d < 10 → digit_value (d + b'0') ≡ some d
  unfolding digit_value
  digit_value_char d h = ground arith

  no_underscore : (d : ℕ) → d < 10 → (d + b'0' == b'_') ≡ false
  no_underscore d h = ground arith

  digits_step :
      (acc d : ℕ) (after : Bool) (rest : Text)
      → d < 10
      → digits_from acc after ((d + b'0') ∷ rest) ≡ digits_from (acc * 10 + d) true rest
  unfolding digits_from
  digits_step acc d after rest h = rw (no_underscore d h) (rw (digit_value_char d h))

  digits-decimal_in :
      (f n : ℕ) (rest : Text)
      → n < f
      → digits_from 0 false (decimal_in f n ++ rest) ≡ digits_from n true rest
  unfolding decimal_in
  digits-decimal_in zero n rest h = absurd (omega arith)
  digits-decimal_in (suc f) n rest h = elim (Bool-cases (ltb n 10)) [
    | inl e ↦ rw e (
        digits_step 0 n false rest (ground arith) ∙ ap (λ k. digits_from k true rest) (omega arith))
    | inr e ↦ rw e (
        ap (digits_from 0 false) (append_assoc (decimal_in f (n / 10)) ((n % 10 + b'0') ∷ []) rest)
        ∙ digits-decimal_in f (n / 10) ((n % 10 + b'0') ∷ rest) (ground arith)
        ∙ digits_step (n / 10) (n % 10) true rest (omega arith)
        ∙ ap (λ k. digits_from k true rest) (omega arith))
  ]

  digits-decimal : (n : ℕ) → digits_from 0 false (decimal n) ≡ some n
  unfolding decimal
  digits-decimal n =
      ap (digits_from 0 false) (sym (append-nil (decimal_in (suc n) n)))
      ∙ digits-decimal_in (suc n) n [] (omega arith)
      ∙ (unfold digits_from in refl)

digit_no_space : (c : ℕ) → IsDigit c → Off is_space c
unfolding is_space
digit_no_space c h = ground arith

digit_no_sign : (c : ℕ) → IsDigit c → ((c == b'-') ≡ false) × ((c == b'+') ≡ false)
digit_no_sign c h = ground arith

pub strip-decimal : (n : ℕ) → strip (decimal n) ≡ decimal n
unfolding strip
strip-decimal n =
    strip_by-Off is_space (decimal n)
      (All-mono IsDigit (Off is_space) digit_no_space (decimal n) (decimal-IsDigit n))

module _ ⦃u : Unicode⦄ where
  signed-digits :
      (s : Text) (n : ℕ) → All IsDigit s → digits_from 0 false s ≡ some n → signed s ≡ some (pos n)
  unfolding signed
  signed-digits [] n h e = unfold digits_from in cc e
  signed-digits (c ∷ s) n h e = let (minus, plus) = digit_no_sign c h.0 in rw minus (rw plus (rw e))

  -- Reading a printed number gives the number.
  pub int_of-decimal : (n : ℕ) → int_of (decimal n) ≡ some (pos n)
  unfolding int_of
  int_of-decimal n =
      ap signed (strip-decimal n)
      ∙ signed-digits (decimal n) n (decimal-IsDigit n) (digits-decimal n)
