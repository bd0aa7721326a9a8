-- ===== src/RulesImport/Lists/WellFormed.antt =====
-- What `parse_clash_yaml` and `parse_plain_list` produce, whatever the text.
use gpn.Prelude.{
  ℕ, Bool, true, false, not, ◌&&◌, ◌||◌, List, [], ◌∷◌, ◌++◌, map, ◌≡◌, ◌≢◌, refl, ◌==◌, arith, All,
  is_empty, and_parts, Every, Every-nil, Every-one, Every-append, Every-if,
}
use gpn.Text.{Text, codes, Unicode, is_alnum, upper}
use gpn.Text.Search.{has, count, starts_with_any, starts_with}
use gpn.Text.Equality.{is_in}
use gpn.Text.Search.Counts.{count-append, count-IsNot}
use gpn.Text.Split.{before, splitlines}
use gpn.Text.Split.Pieces.{IsNot, split_on-All}
use gpn.Text.Strip.{strip, lstrip_by, rstrip_by, strip_by-All, is_char, is_quote}
use gpn.Regex.{prefix_match}
use gpn.Regex.Class.{full_match-All}
use gpn.RulesImport.Matchers.{is_domain, domain_re, is_label_char}
use gpn.RulesImport.Lists.{
  unquote, typed_rule, parts_rule, suffix_rule, payload_rule, clash_from, parse_clash_yaml,
  plain_line, yaml_key, list_item, drop_wildcard, plain_from, parse_plain_list,
}

alnum_plain : (c : ℕ) → is_alnum c ≡ true → IsNot b',' c
unfolding is_alnum
alnum_plain c h = ground arith

label_plain : (c : ℕ) → is_label_char c ≡ true → IsNot b',' c
unfolding is_label_char
label_plain c h = ground arith

dot_plain : (c : ℕ) → (c == b'.') ≡ true → IsNot b',' c
dot_plain c h = ground arith

newline_plain : (c : ℕ) → (c == b'\n') ≡ true → IsNot b',' c
newline_plain c h = ground arith

is_domain-All : (v : Text) → is_domain v ≡ true → All (IsNot b',') v
unfolding is_domain
is_domain-All v h =
    full_match-All (IsNot b',') domain_re v
      (assumption (alnum_plain, label_plain, dot_plain, newline_plain)) h

-- A rule of the simple format: a matcher that the gateway applies, one comma, and a value.
pub data IsSimpleRule : Text → Type 0 where
  domain : {r : Text} (v : Text) → is_domain v ≡ true → r ≡ codes "DOMAIN," ++ v → IsSimpleRule r
  suffix :
      {r : Text} (v : Text) → is_domain v ≡ true → r ≡ codes "DOMAIN-SUFFIX," ++ v → IsSimpleRule r
  keyword :
      {r : Text} (v : Text)
      → v ≢ []
      → All (IsNot b',') v
      → r ≡ codes "DOMAIN-KEYWORD," ++ v
      → IsSimpleRule r
  cidr :
      {r : Text} (v : Text)
      → v ≢ []
      → All (IsNot b',') v
      → r ≡ codes "IP-CIDR," ++ v
      → IsSimpleRule r

is_empty-ne : (v : Text) → not (is_empty v) ≡ true → v ≢ []
is_empty-ne [] h = cc
is_empty-ne (c ∷ v) h = λ e. cc

unquote-All : (p : Text) → All (IsNot b',') p → All (IsNot b',') (unquote p)
unfolding unquote strip
unquote-All p h = strip_by-All is_quote (IsNot b',') _ (strip_by-All _ (IsNot b',') p h)

map-unquote : (ps : List Text) → All (All (IsNot b',')) ps → All (All (IsNot b',')) (map unquote ps)
map-unquote [] h = tt
map-unquote (p ∷ ps) h = (unquote-All p h.0, map-unquote ps h.1)

abbrev Rules : List Text → Type 0
Rules = Every IsSimpleRule

module _ ⦃u : Unicode⦄ where
  typed_rule-Rules : (t v : Text) → All (IsNot b',') v → Rules (typed_rule t v)
  unfolding typed_rule
  typed_rule-Rules t v h =
      let w = lstrip_by (is_char b'.') v in
      Every-if (is_in t (codes "DOMAIN" ∷ codes "HOST" ∷ []) && is_domain v)
        (λ e. Every-one (domain v (and_parts _ (is_domain v) e).1 refl))
        (Every-if (is_in t (codes "DOMAIN-SUFFIX" ∷ codes "HOST-SUFFIX" ∷ []) && is_domain w)
          (λ e. Every-one (suffix w (and_parts _ (is_domain w) e).1 refl))
          (Every-if
            (is_in t (codes "DOMAIN-KEYWORD" ∷ codes "HOST-KEYWORD" ∷ []) && not (is_empty v))
            (λ e. Every-one (keyword v (is_empty-ne v (and_parts _ (not (is_empty v)) e).1) h refl))
            (Every-if (is_in t (codes "IP-CIDR" ∷ codes "IP-CIDR6" ∷ []) && not (is_empty v))
              (λ e. Every-one (cidr v (is_empty-ne v (and_parts _ (not (is_empty v)) e).1) h refl))
              Every-nil)))

  parts_rule-Rules : (ps : List Text) → All (All (IsNot b',')) ps → Rules (parts_rule ps)
  unfolding parts_rule
  parts_rule-Rules [] h = Every-nil
  parts_rule-Rules (t ∷ []) h = typed_rule-Rules (upper t) [] tt
  parts_rule-Rules (t ∷ v ∷ r) h = typed_rule-Rules (upper t) v h.1.0

  suffix_rule-Rules : (v : Text) → Rules (suffix_rule v)
  unfolding suffix_rule
  suffix_rule-Rules v = Every-if (is_domain v) (λ e. Every-one (suffix v e refl)) Every-nil

  payload_rule-Rules : (line : Text) → Rules (payload_rule line)
  unfolding payload_rule
  payload_rule-Rules line =
      Every-if (has b',' line) (λ _. parts_rule-Rules _ (map-unquote _ (split_on-All b',' line)))
        (suffix_rule-Rules (rstrip_by (is_char b'.') (drop_wildcard line)))

  clash_from-Rules : (in_payload : Bool) (lines : List Text) → Rules (clash_from in_payload lines)
  unfolding clash_from
  clash_from-Rules p [] = Every-nil
  clash_from-Rules p (raw ∷ rest) =
      let line = strip raw in
      let same = clash_from-Rules p rest in
      Every-if (is_empty line || starts_with_any (codes "#" ∷ codes "!" ∷ codes ";" ∷ []) line)
        (λ _. same)
        (Every-if (starts_with (codes "payload:") line) (λ _. clash_from-Rules true rest)
          (Every-if (not p && prefix_match yaml_key line) (λ _. clash_from-Rules false rest)
            (Every-if (not p) (λ _. same)
              (Every-append (payload_rule-Rules (list_item line)) same))))

  plain_line-Rules : (raw : Text) → Rules (plain_line raw)
  unfolding plain_line
  plain_line-Rules raw =
      let line = strip (before b';' (before b'#' raw)) in
      Every-if (is_empty line || starts_with_any (codes "!" ∷ codes "[" ∷ []) line) (λ _. Every-nil)
        (suffix_rule-Rules (drop_wildcard (rstrip_by (is_char b'.') (list_item line))))

  plain_from-Rules : (lines : List Text) → Rules (plain_from lines)
  unfolding plain_from
  plain_from-Rules [] = Every-nil
  plain_from-Rules (raw ∷ rest) = Every-append (plain_line-Rules raw) (plain_from-Rules rest)

  -- Whatever the two list texts hold, every line that either parser returns is a rule of the
  -- simple format: one of four matchers, a comma, and a value that is a domain name for DOMAIN
  -- and DOMAIN-SUFFIX, and is not empty and has no comma for DOMAIN-KEYWORD and IP-CIDR.
  pub parse-IsSimpleRule :
      (yaml plain : Text)
      → All IsSimpleRule (parse_clash_yaml yaml) × All IsSimpleRule (parse_plain_list plain)
  unfolding parse_clash_yaml parse_plain_list
  parse-IsSimpleRule yaml plain = (
    (clash_from-Rules false (splitlines yaml)).holds,
    (plain_from-Rules (splitlines plain)).holds,
  )

-- A rule of the simple format has exactly one comma.
count_after :
    (head v : Text) → count b',' head ≡ 1 → All (IsNot b',') v → count b',' (head ++ v) ≡ 1
count_after head v h k = omega (arith, count-append b',' head v, count-IsNot b',' v k)

pub count-IsSimpleRule : (r : Text) → IsSimpleRule r → count b',' r ≡ 1
unfolding count
count-IsSimpleRule r (domain v h e) =
    rw e (count_after (codes "DOMAIN,") v refl (is_domain-All v h))
count-IsSimpleRule r (suffix v h e) =
    rw e (count_after (codes "DOMAIN-SUFFIX,") v refl (is_domain-All v h))
count-IsSimpleRule r (keyword v n h e) = rw e (count_after (codes "DOMAIN-KEYWORD,") v refl h)
count-IsSimpleRule r (cidr v n h e) = rw e (count_after (codes "IP-CIDR,") v refl h)
