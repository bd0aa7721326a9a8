-- ===== src/RulesImport/Convert/Errors.antt =====
-- When the conversion ends in an uncaught exception.
use gpn.Prelude.{
  Bool, true, false, not, ◌&&◌, List, [], ◌∷◌, Option, none, some, any, ◌≡◌, ◌↔◌, ◌∙◌, refl, sym,
  arith, inl, inr, Bool-cases, Option-cases, ◌==◌,
}
use gpn.Text.{Text, codes, Unicode}
use gpn.Text.Equality.{eqb, eqb_iff}
use gpn.Text.Search.{has}
use gpn.Text.Split.{file_lines}
use gpn.Text.Strip.{strip}
use gpn.RulesImport.Category.{Selection}
use gpn.RulesImport.Logical.{after_paren, logical_parts, parse_logical}
use gpn.RulesImport.Convert.{
  Import, start, or_group, line_type, rule_line, is_comment, import_line, import_lines, finished,
  convert_lines, convert,
}

-- `none` is exactly the absence of a parenthesis.
is_none {ℓ} : {A : Type ℓ} → Option A → Bool
is_none none = true
is_none (some a) = false

is_none-after_paren : (s : Text) → is_none (after_paren s) ≡ not (has b'(' s)
unfolding is_none after_paren has
is_none-after_paren [] = refl
is_none-after_paren (c ∷ s) = elim (Bool-cases (c == b'(')) [
  | inl e ↦ rw e
  | inr e ↦ rw e (is_none-after_paren s)
]

is_none-finished : (x : Option Import) → is_none (finished x) ≡ is_none x
unfolding is_none finished
is_none-finished none = refl
is_none-finished (some s) = refl

is_none_iff {ℓ} : {A : Type ℓ} (x : Option A) → (x ≡ none) ↔ (is_none x ≡ true)
unfolding is_none
is_none_iff none = (λ _. refl, λ _. refl)
is_none_iff (some a) = (λ e. cc, λ e. cc)

module _ ⦃u : Unicode⦄ where
  -- A line that the loop cannot read: an OR with no parenthesis.
  unfoldable pub is_unreadable : Text → Bool
  is_unreadable raw =
      not (is_comment (strip raw))
      && (eqb (line_type (strip raw)) (codes "OR") && not (has b'(' (strip raw)))

module _ ⦃u : Unicode⦄ (sel : Selection) where
  is_none-or_group :
      (line : Text) (s : Import)
      → is_none (or_group sel (parse_logical line) s) ≡ not (has b'(' line)
  unfolding is_none or_group parse_logical logical_parts
  is_none-or_group line s = ground (arith, is_none-after_paren line)

  is_none-rule_line :
      (line : Text) (s : Import)
      → is_none (rule_line sel line s) ≡ (eqb (line_type line) (codes "OR") && not (has b'(' line))
  unfolding is_none rule_line
  is_none-rule_line line s = elim (Bool-cases (eqb (line_type line) (codes "AND"))) [
    | inl e ↦ rw e (rw ((eqb_iff (line_type line) (codes "AND")).0 e) (unfold eqb in refl))
    | inr e ↦ rw e (elim (Bool-cases (eqb (line_type line) (codes "OR"))) [
      | inl f ↦ rw f (is_none-or_group line s)
      | inr f ↦
          rw f (elim (Bool-cases (eqb (line_type line) (codes "FINAL"))) [
            | inl g ↦ rw g
            | inr g ↦ rw g
          ])
    ])
  ]

  is_none-import_line :
      (raw : Text) (s : Import) → is_none (import_line sel raw s) ≡ is_unreadable raw
  unfolding import_line is_unreadable is_none
  is_none-import_line raw s = elim (Bool-cases (is_comment (strip raw))) [
    | inl e ↦ rw e
    | inr e ↦ rw e (is_none-rule_line (strip raw) s)
  ]

  is_none-import_lines :
      (lines : List Text) (s : Import)
      → is_none (import_lines sel lines s) ≡ any is_unreadable lines
  unfolding import_lines is_none
  is_none-import_lines [] s = refl
  is_none-import_lines (raw ∷ rest) s = elim (Option-cases (import_line sel raw s)) [
    | inl e ↦ rw (e, import_lines) (rw (sym (is_none-import_line raw s)) (rw e))
    | inr (s', e) ↦
        rw (e, import_lines)
          (is_none-import_lines rest s' ∙ rw (sym (is_none-import_line raw s)) (rw e))
  ]

  -- The conversion ends in an exception exactly where some line that is no comment is an OR
  -- without a parenthesis; every other file is converted.
  pub convert_fails_iff :
      (file : Text) → (convert sel file ≡ none) ↔ (any is_unreadable (file_lines file) ≡ true)
  unfolding convert convert_lines
  convert_fails_iff file =
      let reading =
        is_none-finished (import_lines sel (file_lines file) start)
        ∙ is_none-import_lines (file_lines file) start in
      let (to, from) = is_none_iff (convert sel file) in
      (λ e. sym reading ∙ to e, λ h. from (reading ∙ h))
