-- ===== src/TelegramBot/Rules.antt =====
-- The edits of the rules file in tgbot.py: `_rule_entries`, `_final_target`, `op_set_final`,
-- `op_set_rules`, `op_add_rule` and `op_del_rule`.
pub mod Blank
pub mod Deletion
pub mod Final
use gpn.Prelude.{
  ℕ, zero, suc, ◌-◌, Bool, true, false, not, ◌&&◌, ◌||◌, List, [], ◌∷◌, ◌++◌, Option, none, some,
  is_empty, map, length, ltb, ◌==◌, if◌then◌else◌, ℤ, pos, negsuc,
}
use gpn.Text.{Text, codes, Unicode, upper}
use gpn.Text.Number.{int_of}
use gpn.Text.Search.{starts_with, starts_with_any}
use gpn.Text.Split.{cut, join, splitlines}
use gpn.Text.Strip.{strip, rstrip_by, is_char}

-- a line that holds a rule
unfoldable pub is_entry : Text → Bool
unfolding strip starts_with_any
is_entry l =
    not (is_empty (strip l)) && not (starts_with_any (codes "#" ∷ codes ";" ∷ []) (strip l))

-- `enumerate(lines)`, filtered; the number is that of the first line
unfoldable pub entries_from : ℕ → List Text → List (ℕ × Text)
unfolding is_entry
entries_from i [] = []
entries_from i (l ∷ ls) =
    let rest = entries_from (suc i) ls in if is_entry l then (i, l) ∷ rest else rest

-- the lines and the entries of `_rule_entries`
unfoldable pub rule_entries : Text → List Text × List (ℕ × Text)
unfolding entries_from splitlines
rule_entries txt = (splitlines txt, entries_from 0 (splitlines txt))

-- What an operation does: it refuses, or hands a text to `--set-rules`.
pub data Edit : Type 0 where
  empty_text no_number no_rules out_of_range : Edit
  set_rules : Text → Edit

-- `op_set_rules`, up to the call
unfoldable pub op_set_rules : Text → Edit
unfolding strip
op_set_rules text = if is_empty (strip text) then empty_text else set_rules text

-- lines joined, with a newline behind the last
unfoldable pub written : List Text → Text
unfolding join
written lines = join (codes "\n") lines ++ codes "\n"

unfoldable pub op_add_rule : Text → Text → Edit
unfolding strip rstrip_by op_set_rules
op_add_rule txt line =
    if is_empty (strip line)
    then empty_text
    else op_set_rules (
        if is_empty (strip txt)
        then strip line ++ codes "\n"
        else rstrip_by (is_char b'\n') txt ++ (b'\n' ∷ (strip line ++ codes "\n")))

-- the lines with another number than `drop`
unfoldable pub without_line : ℕ → ℕ → List Text → List Text
without_line i drop [] = []
without_line i drop (l ∷ ls) =
    let rest = without_line (suc i) drop ls in if i == drop then rest else l ∷ rest

-- the entry at a place that is within the list
unfoldable pub entry_at : ℕ → List (ℕ × Text) → Option (ℕ × Text)
entry_at n [] = none
entry_at zero (e ∷ es) = some e
entry_at (suc n) (e ∷ es) = entry_at n es

module _ ⦃u : Unicode⦄ where
  abbrev pub is_final : Text → Bool
  is_final s = starts_with (codes "FINAL,") (upper s)

  -- the lines of `op_set_final`; the flag is `replaced`
  unfoldable pub set_final_lines : Text → List Text → List Text × Bool
  set_final_lines target [] = ([], false)
  set_final_lines target (l ∷ ls) =
      let (rest, replaced) = set_final_lines target ls in
      if is_final (strip l)
      then ((codes "FINAL," ++ target) ∷ rest, true)
      else if not (is_empty (strip l))
      then (strip l ∷ rest, replaced)
      else (rest, replaced)

  abbrev pub with_final : Text → List Text × Bool → List Text
  with_final target (lines, true) = lines
  with_final target (lines, false) = lines ++ (codes "FINAL," ++ target) ∷ []

  unfoldable pub op_set_final : Text → Text → Edit
  unfolding set_final_lines splitlines written op_set_rules
  op_set_final txt target =
      op_set_rules (written (with_final target (set_final_lines target (splitlines txt))))

  -- the first FINAL line's policy
  unfoldable pub final_target : List Text → Option Text
  final_target [] = none
  final_target (l ∷ ls) =
      let later = final_target ls in
      if is_final (strip l)
      then (elim (cut b',' (strip l)).1 [ none ↦ none | some p ↦ some (strip p) ])
      else later

  abbrev pub deletion : Option (ℕ × Text) → List Text → Edit
  deletion none lines = out_of_range
  deletion (some (i, l)) lines = op_set_rules (written (without_line 0 i lines))

  abbrev pub delete_at : Option ℤ → List Text × List (ℕ × Text) → Edit
  delete_at none (lines, entries) = no_number
  delete_at (some n) (lines, []) = no_rules
  delete_at (some (pos (suc k))) (lines, entries) = deletion (entry_at k entries) lines
  delete_at (some _) (lines, entries) = out_of_range

  unfoldable pub op_del_rule : Text → Text → Edit
  unfolding rule_entries int_of entry_at without_line written op_set_rules
  op_del_rule txt num = delete_at (int_of num) (rule_entries txt)
