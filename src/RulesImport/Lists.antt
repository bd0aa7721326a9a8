-- ===== src/RulesImport/Lists.antt =====
-- The list formats of rules-import.py: `parse_clash_yaml` and `parse_plain_list`.
pub mod WellFormed
use gpn.Prelude.{
  ℕ, Bool, true, false, not, ◌&&◌, ◌||◌, List, [], ◌∷◌, ◌++◌, Option, none, some, map, any, take,
  is_empty, ◌==◌, leb, length, if◌then◌else◌,
}
use gpn.Text.{Text, codes, Unicode, is_word, lower, upper}
use gpn.Text.Equality.{eqb, is_in}
use gpn.Text.Search.{starts_with_any, starts_with, ends_with, has}
use gpn.Text.Split.{split_on, cut, before, splitlines}
use gpn.Text.Strip.{strip, strip_by, lstrip_by, rstrip_by, is_char, is_quote, is_dash}
use gpn.Regex.{Regex, chars, alt, seq, star, char, prefix_match}
use gpn.RulesImport.Csv.{csv_split}
use gpn.RulesImport.Matchers.{is_domain, ilit}
use gpn.RulesImport.Sorting.{sorted_set}

-- `re.sub(r"^[*+]?\.", "", line)`
unfoldable pub drop_wildcard : Text → Text
drop_wildcard [] = []
drop_wildcard (c ∷ []) = if c == b'.' then [] else c ∷ []
drop_wildcard (c ∷ d ∷ s) =
    if (c == b'*' || c == b'+') && d == b'.' then s else if c == b'.' then d ∷ s else c ∷ d ∷ s

-- `p.strip().strip("'\"")`
unfoldable pub unquote : Text → Text
unfolding strip strip_by
unquote p = strip_by is_quote (strip p)

-- `line.lstrip("- ").strip().strip("'\"")`
unfoldable pub list_item : Text → Text
unfolding unquote lstrip_by
list_item line = unquote (lstrip_by is_dash line)

-- one rule of the simple format, with the matcher's name in front
abbrev pub rule : Text → Text → List Text
rule typ value = (typ ++ (b',' ∷ value)) ∷ []

module _ ⦃u : Unicode⦄ where
  -- the chain of tests on `t` and `v`; no rule where none holds
  unfoldable pub typed_rule : Text → Text → List Text
  unfolding is_in lstrip_by is_domain
  typed_rule t v =
      if is_in t (codes "DOMAIN" ∷ codes "HOST" ∷ []) && is_domain v
      then rule (codes "DOMAIN") v
      else if is_in t (codes "DOMAIN-SUFFIX" ∷ codes "HOST-SUFFIX" ∷ [])
          && is_domain (lstrip_by (is_char b'.') v)
      then rule (codes "DOMAIN-SUFFIX") (lstrip_by (is_char b'.') v)
      else if is_in t (codes "DOMAIN-KEYWORD" ∷ codes "HOST-KEYWORD" ∷ []) && not (is_empty v)
      then rule (codes "DOMAIN-KEYWORD") v
      else if is_in t (codes "IP-CIDR" ∷ codes "IP-CIDR6" ∷ []) && not (is_empty v)
      then rule (codes "IP-CIDR") v
      else []

  -- `parts[0].upper()` and `parts[1]`, with "" where there is no second part
  unfoldable pub parts_rule : List Text → List Text
  unfolding typed_rule upper
  parts_rule [] = []
  parts_rule (t ∷ []) = typed_rule (upper t) []
  parts_rule (t ∷ v ∷ r) = typed_rule (upper t) v

  unfoldable pub suffix_rule : Text → List Text
  unfolding is_domain
  suffix_rule v = if is_domain v then rule (codes "DOMAIN-SUFFIX") v else []

  -- one entry of the payload
  unfoldable pub payload_rule : Text → List Text
  unfolding has split_on unquote parts_rule suffix_rule drop_wildcard rstrip_by
  payload_rule line =
      if has b',' line
      then parts_rule (map unquote (split_on b',' line))
      else suffix_rule (rstrip_by (is_char b'.') (drop_wildcard line))

  -- `^\w[\w-]*:`
  abbrev pub yaml_key : Regex
  yaml_key = seq (chars is_word) (seq (star (chars (λ c. is_word c || c == b'-'))) (char b':'))

  -- the loop, with `in_payload`
  unfoldable pub clash_from : Bool → List Text → List Text
  unfolding strip starts_with_any starts_with prefix_match list_item payload_rule is_word
  clash_from in_payload [] = []
  clash_from in_payload (raw ∷ rest) =
      let line = strip raw in
      let same = clash_from in_payload rest in
      let entered = clash_from true rest in
      let outside = clash_from false rest in
      if is_empty line || starts_with_any (codes "#" ∷ codes "!" ∷ codes ";" ∷ []) line
      then same
      else if starts_with (codes "payload:") line
      then entered
      else if not in_payload && prefix_match yaml_key line
      then outside
      else if not in_payload
      then same
      else payload_rule (list_item line) ++ same

  unfoldable pub parse_clash_yaml : Text → List Text
  unfolding clash_from splitlines
  parse_clash_yaml text = clash_from false (splitlines text)

  unfoldable pub plain_line : Text → List Text
  unfolding before strip starts_with_any list_item drop_wildcard rstrip_by suffix_rule unquote
  plain_line raw =
      let line = strip (before b';' (before b'#' raw)) in
      if is_empty line || starts_with_any (codes "!" ∷ codes "[" ∷ []) line
      then []
      else suffix_rule (drop_wildcard (rstrip_by (is_char b'.') (list_item line)))

  unfoldable pub plain_from : List Text → List Text
  unfolding plain_line
  plain_from [] = []
  plain_from (raw ∷ rest) = plain_line raw ++ plain_from rest

  unfoldable pub parse_plain_list : Text → List Text
  unfolding plain_from splitlines
  parse_plain_list text = plain_from (splitlines text)
