-- ===== src/TelegramBot/Rules/Blank.antt =====
-- When the lines that tgbot.py writes are all blank, so that `op_set_rules` refuses them.
use gpn.Prelude.{
  ℕ, Bool, true, ◌&&◌, List, [], ◌∷◌, ◌++◌, ◌≡◌, refl, sym, ◌∙◌, all, is_empty, Bool-cases, inl,
  inr, arith, if◌then◌else◌,
}
use gpn.Text.{Text, codes, is_space}
use gpn.Text.Split.{join}
use gpn.Text.Strip.{strip, strip_by, lstrip_by, rstrip_by, keep_unless}
use gpn.TelegramBot.Rules.{Edit, empty_text, set_rules, op_set_rules, written}

abbrev pub is_blank : Text → Bool
is_blank l = is_empty (strip l)

module _ (p : ℕ → Bool) where
  keep_true : (c : ℕ) (s : Text) → is_empty (keep_unless true c s) ≡ is_empty s
  unfolding keep_unless
  keep_true c [] = refl
  keep_true c (d ∷ s) = refl

  is_empty-rstrip : (s : Text) → is_empty (rstrip_by p s) ≡ all p s
  unfolding rstrip_by keep_unless
  is_empty-rstrip [] = refl
  is_empty-rstrip (c ∷ s) = elim (Bool-cases (p c)) [
    | inl e ↦ rw e (keep_true c (rstrip_by p s) ∙ is_empty-rstrip s)
    | inr e ↦ rw e refl
  ]

  is_empty-strip : (s : Text) → is_empty (strip_by p s) ≡ all p s
  unfolding strip_by lstrip_by
  is_empty-strip [] = is_empty-rstrip []
  is_empty-strip (c ∷ s) = elim (Bool-cases (p c)) [
    | inl e ↦ rw e (is_empty-strip s)
    | inr e ↦ rw e (is_empty-rstrip (c ∷ s) ∙ rw e refl)
  ]

  all-append : (s t : Text) → all p (s ++ t) ≡ (all p s && all p t)
  all-append [] t = refl
  all-append (c ∷ s) t = rw (all-append s t) (ground arith)

is_blank-space : (l : Text) → is_blank l ≡ all is_space l
unfolding strip
is_blank-space l = is_empty-strip is_space l

newline_space : all is_space (codes "\n") ≡ true
unfolding is_space
newline_space = refl

-- the text of some lines is white space exactly if each line is blank
space-written : (ls : List Text) → all is_space (written ls) ≡ all is_blank ls
unfolding written join
space-written [] = newline_space
space-written (x ∷ []) =
    all-append is_space x (codes "\n") ∙ rw (newline_space, is_blank-space x) refl
space-written (x ∷ y ∷ r) =
    let rest = join (codes "\n") (y ∷ r) in
    let ih : (all is_space rest && true) ≡ all is_blank (y ∷ r) =
      rw (← newline_space) (sym (all-append is_space rest (codes "\n")) ∙ space-written (y ∷ r)) in
    all-append is_space (x ++ (codes "\n" ++ rest)) (codes "\n")
    ∙ rw
        (
          all-append is_space x (codes "\n" ++ rest),
          all-append is_space (codes "\n") rest,
          newline_space,
          is_blank-space x,
        )
        (ground (arith, ih))

-- What becomes of some lines.
abbrev pub handed : List Text → Edit
handed ls = if all is_blank ls then empty_text else set_rules (written ls)

pub op_set_rules-written : (ls : List Text) → op_set_rules (written ls) ≡ handed ls
unfolding op_set_rules
op_set_rules-written ls = rw (is_blank-space (written ls) ∙ space-written ls) refl
