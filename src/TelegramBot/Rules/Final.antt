-- ===== src/TelegramBot/Rules/Final.antt =====
-- What `op_set_final` of tgbot.py writes, `_final_target` reads.
use gpn.Prelude.{
  Bool, true, false, not, List, [], ◌∷◌, ◌++◌, ◌≡◌, inl, inr, refl, ap, ◌∙◌, some, All, All-append,
  Bool-cases, is_empty, if◌then◌else◌,
}
use gpn.Text.{Text, codes, Unicode, upper}
use gpn.Text.Lines.{
  IsLine, LineOrNil, strip-LineOrNil, strip_line, lines_from-Off, lines-written, strip-join,
  join_solid,
}
use gpn.Text.Search.{starts_with}
use gpn.Text.Split.{splitlines, cut, is_line_end}
use gpn.Text.Strip.{strip, Off}
use gpn.TelegramBot.Rules.{
  set_rules, is_final, set_final_lines, with_final, written, op_set_final, op_set_rules,
  final_target,
}

set_rules_of :
    (ls : List Text)
    → All IsLine ls
    → is_empty ls ≡ false
    → op_set_rules (written ls) ≡ set_rules (written ls)
unfolding op_set_rules written
set_rules_of ls h n = rw (ap is_empty (strip-join ls h) ∙ join_solid ls n h) refl

module _ ⦃u : Unicode⦄ (target : Text) where
  abbrev final_line : Text
  final_line = codes "FINAL," ++ target

  -- `FINAL` with the target is a line.
  module _ (line : IsLine final_line) where
    set_final_lines-IsLine :
        (ls : List Text) → All (All (Off is_line_end)) ls → All IsLine (set_final_lines target ls).0
    unfolding set_final_lines
    set_final_lines-IsLine [] h = tt
    set_final_lines-IsLine (l ∷ ls) h = elim (Bool-cases (is_final (strip l))) [
      | inl e ↦ rw e (line, set_final_lines-IsLine ls h.1)
      | inr e ↦ rw e (kept (strip l) (strip-LineOrNil l h.0) (set_final_lines-IsLine ls h.1))
    ]
      where
        kept :
            (t : Text)
            → LineOrNil t
            → All IsLine (set_final_lines target ls).0
            → All IsLine
                (if not (is_empty t)
                  then (t ∷ (set_final_lines target ls).0, (set_final_lines target ls).1)
                  else set_final_lines target ls).0
        kept [] k r = r
        kept (c ∷ t) k r = (k, r)

    final_target_here : (ls : List Text) → final_target (final_line ∷ ls) ≡ some (strip target)
    unfolding final_target upper starts_with cut
    final_target_here ls = rw (strip_line final_line line) refl

    -- a line that is no FINAL line is passed over
    final_target_past :
        (l : Text) (ls : List Text)
        → is_final (strip l) ≡ false
        → final_target (l ∷ ls) ≡ final_target ls
    unfolding final_target
    final_target_past l ls h = rw h refl

    -- `with_final` of a line that is kept
    final_target_kept :
        (t : Text) (r : List Text × Bool)
        → LineOrNil t
        → is_final t ≡ false
        → final_target (with_final target r) ≡ some (strip target)
        → final_target (with_final target (if not (is_empty t) then (t ∷ r.0, r.1) else r))
          ≡ some (strip target)
    final_target_kept [] r k n h = h
    final_target_kept (c ∷ t) (ls, true) k n h =
        final_target_past (c ∷ t) ls (rw (strip_line (c ∷ t) k) n) ∙ h
    final_target_kept (c ∷ t) (ls, false) k n h =
        final_target_past (c ∷ t) (ls ++ final_line ∷ []) (rw (strip_line (c ∷ t) k) n) ∙ h

    final_target-set :
        (ls : List Text)
        → All (All (Off is_line_end)) ls
        → final_target (with_final target (set_final_lines target ls)) ≡ some (strip target)
    unfolding set_final_lines
    final_target-set [] h = final_target_here []
    final_target-set (l ∷ ls) h = elim (Bool-cases (is_final (strip l))) [
      | inl e ↦ rw e (final_target_here (set_final_lines target ls).0)
      | inr e ↦ rw e (
          final_target_kept (strip l) (set_final_lines target ls) (strip-LineOrNil l h.0) e
            (final_target-set ls h.1))
    ]

    with_final-IsLine : (r : List Text × Bool) → All IsLine r.0 → All IsLine (with_final target r)
    with_final-IsLine (ls, true) h = h
    with_final-IsLine (ls, false) h = All-append IsLine ls (final_line ∷ []) h (line, tt)

    not_empty : (ls : List Text) → final_target ls ≡ some (strip target) → is_empty ls ≡ false
    unfolding final_target
    not_empty [] h = cc
    not_empty (l ∷ ls) h = refl

    -- Where `FINAL,` and the target make a line, so that no line boundary is in it and no white
    -- space at its end, `op_set_final` hands over a text that `_final_target` reads the target from,
    -- stripped, whatever the rules were.
    pub op_set_final-final_target :
        (txt : Text)
        → (new : Text) × (op_set_final txt target ≡ set_rules new)
          × (final_target (splitlines (strip new)) ≡ some (strip target))
    unfolding op_set_final written splitlines
    op_set_final-final_target txt =
        let lines = with_final target (set_final_lines target (splitlines txt)) in
        let off = lines_from-Off is_line_end false txt in
        let good : All IsLine lines =
          with_final-IsLine (set_final_lines target (splitlines txt))
            (set_final_lines-IsLine (splitlines txt) off) in
        (
          written lines,
          set_rules_of lines good (not_empty lines (final_target-set (splitlines txt) off)),
          ap final_target (lines-written lines good) ∙ final_target-set (splitlines txt) off,
        )
