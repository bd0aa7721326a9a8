-- ===== src/RulesImport/Logical.antt =====
-- `split_top_parens` and `parse_logical` of rules-import.py.
pub mod RoundTrip
use gpn.Prelude.{
  ℕ, zero, suc, ◌+◌, ◌-◌, Bool, true, false, List, [], ◌∷◌, ◌++◌, Option, none, some, ◌==◌,
  if◌then◌else◌,
}
use gpn.Text.{Text}
use gpn.Text.Strip.{lstrip_by, is_char}
use gpn.RulesImport.Csv.{csv_split}

-- `depth` of `split_top_parens`, which goes below zero: `under n` is -(n + 1).
pub data Depth : Type 0 where
  level : ℕ → Depth
  under : ℕ → Depth

abbrev pub deeper : Depth → Depth
deeper (level n) = level (suc n)
deeper (under zero) = level 0
deeper (under (suc n)) = under n

abbrev pub shallower : Depth → Depth
shallower (level zero) = under 0
shallower (level (suc n)) = level n
shallower (under n) = under (suc n)

abbrev pub is_top : Depth → Bool
is_top (level zero) = true
is_top _ = false

-- `s[start:i]` is kept as the text read since `start`; `none` where `start` is `None`.
abbrev pub extend : Option Text → ℕ → Option Text
extend none ch = none
extend (some t) ch = some (t ++ ch ∷ [])

abbrev pub finish_member : Bool → Option Text → ℕ → List Text × Option Text
finish_member true (some t) ch = (t ∷ [], none)
finish_member _ start ch = ([], extend start ch)

unfoldable pub top_parens_from : Depth → Option Text → Text → List Text
top_parens_from depth start [] = []
top_parens_from depth start (ch ∷ s) =
    let opened =
      top_parens_from (deeper depth) (if is_top depth then some [] else extend start ch) s in
    let (member, start') = finish_member (is_top (shallower depth)) start ch in
    let closed = top_parens_from (shallower depth) start' s in
    let other = top_parens_from depth (extend start ch) s in
    if ch == b'(' then opened else if ch == b')' then member ++ closed else other

unfoldable pub split_top_parens : Text → List Text
unfolding top_parens_from
split_top_parens = top_parens_from (level 0) none

-- the text behind the first "("; `line.index` raises where there is none
unfoldable pub after_paren : Text → Option Text
after_paren [] = none
after_paren (c ∷ s) = let rest = after_paren s in if c == b'(' then some s else rest

abbrev pub push_group : ℕ → Option (Text × Text) → Option (Text × Text)
push_group c none = none
push_group c (some (g, t)) = some (c ∷ g, t)

-- the loop over `j`, from behind the first "(": the group, and the text behind its ")"
unfoldable pub close_group : ℕ → Text → Option (Text × Text)
close_group depth [] = none
close_group depth (c ∷ s) =
    let inner = push_group c (close_group (depth + 1) s) in
    let outer = push_group c (close_group (depth - 1) s) in
    let other = push_group c (close_group depth s) in
    if c == b'('
    then inner
    else if c == b')'
    then (if depth == 1 then some ([], s) else outer)
    else other

abbrev pub first : List Text → Option Text
first [] = none
first (x ∷ r) = some x

-- `csv_split(tail)[0] if tail else None`
unfoldable pub tail_policy : Text → Option Text
unfolding csv_split
tail_policy [] = none
tail_policy (c ∷ t) = first (csv_split (c ∷ t))

unfoldable pub logical_parts : Option (Text × Text) → List Text × Option Text
unfolding split_top_parens tail_policy lstrip_by
logical_parts none = ([], none)
logical_parts (some (group, rest)) =
    (split_top_parens group, tail_policy (lstrip_by (is_char b',') rest))

-- `none`: the `ValueError` of `line.index("(")`
unfoldable pub parse_logical : Text → Option (List Text × Option Text)
unfolding after_paren close_group logical_parts
parse_logical line = elim (after_paren line) [
  | none ↦ none
  | some rest ↦ some (logical_parts (close_group 1 rest))
]
