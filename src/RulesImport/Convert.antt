-- ===== src/RulesImport/Convert.antt =====
-- The conversion of a local file in `main` of rules-import.py.
pub mod Lines
pub mod Rules
pub mod Errors
pub mod Counts
use gpn.Prelude.{
  ℕ, suc, ◌+◌, Bool, true, false, not, ◌||◌, List, [], ◌∷◌, ◌++◌, Option, none, some, is_empty,
  ◌==◌, if◌then◌else◌,
}
use gpn.Text.{Text, codes, Unicode, upper}
use gpn.Text.Equality.{eqb, is_in}
use gpn.Text.Search.{starts_with_any}
use gpn.Text.Split.{before, join, file_lines}
use gpn.Text.Strip.{strip, strip_by, is_char}
use gpn.Regex.{full_match}
use gpn.RulesImport.Csv.{csv_split}
use gpn.RulesImport.Category.{Selection, category_of}
use gpn.RulesImport.Matchers.{keep_types, drop_types, modifiers}
use gpn.RulesImport.Logical.{parse_logical}

-- The variables of the loop. `cats` is a dictionary whose values are never read.
pub record Import : Type 0 where
  pub rules : List Text
  pub cats : List Text
  pub final : Option Text
  pub dropped : ℕ
  pub flattened : ℕ
  pub and_dropped : ℕ

abbrev pub start : Import
start = record { rules = []; cats = []; final = none; dropped = 0; flattened = 0; and_dropped = 0 }

-- `cats[cat] = True`
abbrev pub add_category : Text → List Text → List Text
add_category cat cats = if is_in cat cats then cats else cats ++ cat ∷ []

abbrev pub drop_line : Import → Import
drop_line s = record s { dropped = s.dropped + 1 }

-- the two statements on `typ` in `emit`
unfoldable pub gateway_type : Text → Text
unfolding eqb
gateway_type typ = if eqb typ (codes "IP-CIDR6") then codes "IP-CIDR" else typ

-- `MODIFIERS.match(x.strip().strip('"'))`
unfoldable pub is_modifier : Text → Bool
unfolding full_match modifiers strip strip_by
is_modifier x = full_match modifiers (strip_by (is_char b'"') (strip x))

-- the items of `parts[2:]` that are no modifiers
unfoldable pub policies : List Text → List Text
unfolding is_modifier
policies [] = []
policies (x ∷ xs) = if is_modifier x then policies xs else x ∷ policies xs

abbrev pub count_group : Import × Bool → Import
count_group (s, true) = record s { flattened = s.flattened + 1 }
count_group (s, false) = drop_line s

-- `if not line or line.startswith(("#", ";", "["))`
unfoldable pub is_comment : Text → Bool
unfolding starts_with_any
is_comment line = is_empty line || starts_with_any (codes "#" ∷ codes ";" ∷ codes "[" ∷ []) line

-- `if final:`
unfoldable pub add_final : Option Text → Import → Import
add_final none s = s
add_final (some []) s = s
add_final (some (c ∷ f)) s = record s {
  rules = s.rules ++ join (codes ",") (codes "FINAL" ∷ (c ∷ f) ∷ []) ∷ [];
  cats = add_category (c ∷ f) s.cats;
}

abbrev pub finish : Import → Import
finish s = add_final s.final s

unfoldable pub finished : Option Import → Option Import
unfolding add_final
finished none = none
finished (some s) = some (finish s)

module _ ⦃u : Unicode⦄ where
  -- `line.split(",", 1)[0].strip().upper()`
  unfoldable pub line_type : Text → Text
  unfolding before strip upper
  line_type line = upper (strip (before b',' line))

module _ ⦃u : Unicode⦄ (sel : Selection) where
  -- `emit`, followed by the entry in `cats` that both callers make
  unfoldable pub emit : Text → Text → Text → Import → Import
  unfolding gateway_type category_of upper is_in
  emit typ value policy s = record s {
    rules =
        s.rules
        ++ join (codes ",") (gateway_type (upper typ) ∷ value ∷ category_of sel policy ∷ []) ∷ [];
    cats = add_category (category_of sel policy) s.cats;
  }

  -- one member of an OR group; the flag is `took`
  unfoldable pub take_member : Text → List Text → Import × Bool → Import × Bool
  unfolding emit keep_types
  take_member policy (mt ∷ value ∷ _) (s, took) =
      if is_in (upper mt) keep_types then (emit (upper mt) value policy s, true) else (s, took)
  take_member policy _ (s, took) = (s, took)

  unfoldable pub take_members : Text → List Text → Import × Bool → Import × Bool
  unfolding take_member csv_split
  take_members policy [] st = st
  take_members policy (m ∷ ms) st = take_members policy ms (take_member policy (csv_split m) st)

  -- the branch for OR; `none` is the exception of `parse_logical`
  unfoldable pub or_group : Option (List Text × Option Text) → Import → Option Import
  unfolding take_members
  or_group none s = none
  or_group (some (members, none)) s = some s
  or_group (some (members, some [])) s = some s
  or_group (some (members, some (c ∷ p))) s =
      some (count_group (take_members (c ∷ p) members (s, false)))

  abbrev pub final_of : List Text → Option Text
  final_of (_ ∷ x ∷ _) = some (category_of sel x)
  final_of _ = none

  -- `emit(typ, parts[1], rest[0], rules)`, or a line dropped where `rest` is empty
  unfoldable pub emit_with : Text → Text → List Text → Import → Import
  unfolding emit
  emit_with typ value [] s = drop_line s
  emit_with typ value (policy ∷ _) s = emit typ value policy s

  -- from the test on DROP to the end of the loop's body
  unfoldable pub simple_line : Text → List Text → Import → Import
  unfolding drop_types keep_types emit_with policies is_in
  simple_line typ (t ∷ value ∷ p ∷ ps) s =
      if is_in typ drop_types
      then drop_line s
      else if not (is_in typ keep_types)
      then drop_line s
      else emit_with typ value (policies (p ∷ ps)) s
  simple_line typ _ s = drop_line s

  -- the loop's body, for a line that is no comment
  unfoldable pub rule_line : Text → Import → Option Import
  unfolding eqb line_type or_group parse_logical simple_line csv_split
  rule_line line s =
      if eqb (line_type line) (codes "AND")
      then some (record s { and_dropped = s.and_dropped + 1; dropped = s.dropped + 1 })
      else if eqb (line_type line) (codes "OR")
      then or_group (parse_logical line) s
      else if eqb (line_type line) (codes "FINAL")
      then some (record s { final = final_of (csv_split line) })
      else some (simple_line (line_type line) (csv_split line) s)

  unfoldable pub import_line : Text → Import → Option Import
  unfolding is_comment rule_line strip
  import_line raw s = if is_comment (strip raw) then some s else rule_line (strip raw) s

  unfoldable pub import_lines : List Text → Import → Option Import
  unfolding import_line
  import_lines [] s = some s
  import_lines (raw ∷ rest) s = elim (import_line raw s) [
    | none ↦ none
    | some s' ↦ import_lines rest s'
  ]

  -- the state at the end, from which `main` writes the rules and the counts
  unfoldable pub convert_lines : List Text → Option Import
  unfolding import_lines finished
  convert_lines lines = finished (import_lines lines start)

  unfoldable pub convert : Text → Option Import
  unfolding convert_lines file_lines
  convert file = convert_lines (file_lines file)
