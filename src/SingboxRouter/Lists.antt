-- ===== src/SingboxRouter/Lists.antt =====
-- `parse_rule_list` of singbox-router-config.py.
pub mod Sound
use gpn.Prelude.{
  ℕ, Bool, true, false, not, ◌&&◌, ◌||◌, List, [], ◌∷◌, ◌++◌, ◌≡◌, Option, none, some, ◌==◌,
  is_empty, All, Bool-cases, inl, inr, refl, if◌then◌else◌, drop,
}
use gpn.Text.{Text, codes, Unicode, lower, upper}
use gpn.Text.Equality.{eqb, is_in}
use gpn.Text.Search.{starts_with, starts_with_any, has}
use gpn.Text.Split.{before, split_on, splitlines}
use gpn.Text.Strip.{strip, strip_by, lstrip_by, rstrip_by, is_char, is_quote, is_dash}
use gpn.RulesImport.Matchers.{is_domain}
use gpn.RulesImport.Sorting.{insert}

-- A source rule of sing-box: the four sets, each sorted.
pub record SourceRule : Type 0 where
  pub domain : List Text
  pub domain_suffix : List Text
  pub domain_keyword : List Text
  pub ip_cidr : List Text

abbrev pub empty_rule : SourceRule
empty_rule = record { domain = []; domain_suffix = []; domain_keyword = []; ip_cidr = [] }

-- `not rule`
unfoldable pub is_empty_rule : SourceRule → Bool
is_empty_rule r =
    is_empty r.domain
    && (is_empty r.domain_suffix && (is_empty r.domain_keyword && is_empty r.ip_cidr))

abbrev pub add_suffix : Text → SourceRule → SourceRule
add_suffix v r = if is_domain v then record r { domain_suffix = insert v r.domain_suffix } else r

module _ ⦃u : Unicode⦄ where
  -- the branch with a type and a value
  unfoldable pub typed_entry : Text → Text → SourceRule → SourceRule
  unfolding is_in is_domain insert lstrip_by
  typed_entry t v r =
      if is_in t (codes "DOMAIN" ∷ codes "HOST" ∷ [])
      then (if is_domain v then record r { domain = insert v r.domain } else r)
      else if is_in t (codes "DOMAIN-SUFFIX" ∷ codes "HOST-SUFFIX" ∷ [])
      then add_suffix (lstrip_by (is_char b'.') v) r
      else if is_in t (codes "DOMAIN-KEYWORD" ∷ codes "HOST-KEYWORD" ∷ [])
      then (if is_empty v then r else record r { domain_keyword = insert v r.domain_keyword })
      else if is_in t (codes "IP-CIDR" ∷ codes "IP-CIDR6" ∷ [])
      then (if is_empty v then r else record r { ip_cidr = insert v r.ip_cidr })
      else r

  abbrev clean : Text → Text
  clean p = strip_by is_quote (strip p)

  abbrev pub parts_entry : List Text → SourceRule → SourceRule
  parts_entry [] r = r
  parts_entry (t ∷ []) r = typed_entry (upper (clean t)) [] r
  parts_entry (t ∷ v ∷ ps) r = typed_entry (upper (clean t)) (clean v) r

  -- `re.sub(r"^[*+]?\.", "", line)`
  unfoldable pub drop_mark : Text → Text
  unfolding starts_with
  drop_mark s =
      if starts_with (codes "*.") s || starts_with (codes "+.") s
      then drop 2 s
      else if starts_with (codes ".") s
      then drop 1 s
      else s

  -- a line that is no comment
  unfoldable pub list_entry : Text → SourceRule → SourceRule
  unfolding has split_on typed_entry drop_mark rstrip_by upper strip strip_by is_domain insert
  list_entry line r =
      if has b',' line
      then parts_entry (split_on b',' line) r
      else add_suffix (rstrip_by (is_char b'.') (drop_mark line)) r

  unfoldable pub list_line : Text → SourceRule → SourceRule
  unfolding strip before starts_with_any lower starts_with lstrip_by strip_by list_entry
  list_line raw r =
      let line = strip (before b'#' raw) in
      if is_empty line
        || (starts_with_any (codes "!" ∷ codes ";" ∷ []) line
            || starts_with (codes "payload") (lower line))
      then r
      else list_entry (strip_by is_quote (strip (lstrip_by is_dash line))) r

  unfoldable pub list_lines : List Text → SourceRule → SourceRule
  unfolding list_line
  list_lines [] r = r
  list_lines (l ∷ ls) r = list_lines ls (list_line l r)

  unfoldable pub parse_rule_list : Text → SourceRule
  unfolding list_lines splitlines
  parse_rule_list text = list_lines (splitlines text) empty_rule
