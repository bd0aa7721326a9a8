-- ===== src/SingboxRouter/Lists/Sound.antt =====
-- What `parse_rule_list` of singbox-router-config.py keeps of a list.
use gpn.Prelude.{
  Bool, true, false, ◌||◌, List, [], ◌∷◌, ◌≡◌, refl, All, Bool-cases, inl, inr, is_empty,
  if◌then◌else◌,
}
use gpn.Text.{Text, codes, Unicode, lower}
use gpn.Text.Equality.{is_in}
use gpn.Text.Search.{starts_with, starts_with_any, has}
use gpn.Text.Split.{before, split_on, splitlines}
use gpn.Text.Strip.{strip, strip_by, lstrip_by, rstrip_by, is_char, is_quote, is_dash}
use gpn.RulesImport.Matchers.{is_domain}
use gpn.RulesImport.Sorting.{insert, text_lt}
use gpn.SingboxRouter.Lists.{
  SourceRule, empty_rule, add_suffix, typed_entry, parts_entry, drop_mark, list_entry, list_line,
  list_lines, parse_rule_list,
}

insert-All : (P : Text → Type 0) (x : Text) (ys : List Text) → P x → All P ys → All P (insert x ys)
unfolding insert
insert-All P x [] h k = (h, tt)
insert-All P x (y ∷ ys) h k = elim (Bool-cases (text_lt x y)) [
  | inl e ↦ rw e (h, k)
  | inr e ↦ rw e (elim (Bool-cases (text_lt y x)) [
    | inl f ↦ rw f (k.0, insert-All P x ys h k.1)
    | inr f ↦ rw f k
  ])
]

abbrev IsDomain : Text → Type 0
IsDomain v = is_domain v ≡ true

abbrev Solid : Text → Type 0
Solid v = is_empty v ≡ false

-- Domains and suffixes are domain names, and no keyword and no range is empty.
pub record IsList (r : SourceRule) : Type 0 where
  pub domains : All IsDomain r.domain
  pub suffixes : All IsDomain r.domain_suffix
  pub keywords : All Solid r.domain_keyword
  pub ranges : All Solid r.ip_cidr

IsList-if :
    (b : Bool) {x y : SourceRule}
    → (b ≡ true → IsList x)
    → (b ≡ false → IsList y)
    → IsList (if b then x else y)
IsList-if true h k = h refl
IsList-if false h k = k refl

add_suffix-IsList : (v : Text) (r : SourceRule) → IsList r → IsList (add_suffix v r)
add_suffix-IsList v r h =
    IsList-if (is_domain v)
      (λ e. record {
        domains = h.domains;
        suffixes = insert-All IsDomain v r.domain_suffix e h.suffixes;
        keywords = h.keywords;
        ranges = h.ranges;
      })
      (λ _. h)

module _ ⦃u : Unicode⦄ where
  typed_entry-IsList : (t v : Text) (r : SourceRule) → IsList r → IsList (typed_entry t v r)
  unfolding typed_entry
  typed_entry-IsList t v r h =
      IsList-if (is_in t (codes "DOMAIN" ∷ codes "HOST" ∷ []))
        (λ _.
          IsList-if (is_domain v)
            (λ e. record {
              domains = insert-All IsDomain v r.domain e h.domains;
              suffixes = h.suffixes;
              keywords = h.keywords;
              ranges = h.ranges;
            })
            (λ _. h))
        λ _.
          IsList-if (is_in t (codes "DOMAIN-SUFFIX" ∷ codes "HOST-SUFFIX" ∷ []))
            (λ _. add_suffix-IsList (lstrip_by (is_char b'.') v) r h)
            λ _.
              IsList-if (is_in t (codes "DOMAIN-KEYWORD" ∷ codes "HOST-KEYWORD" ∷ []))
                (λ _.
                  IsList-if (is_empty v) (λ _. h)
                    (λ e. record {
                      domains = h.domains;
                      suffixes = h.suffixes;
                      keywords = insert-All Solid v r.domain_keyword e h.keywords;
                      ranges = h.ranges;
                    }))
                λ _.
                  IsList-if (is_in t (codes "IP-CIDR" ∷ codes "IP-CIDR6" ∷ []))
                    (λ _.
                      IsList-if (is_empty v) (λ _. h)
                        (λ e. record {
                          domains = h.domains;
                          suffixes = h.suffixes;
                          keywords = h.keywords;
                          ranges = insert-All Solid v r.ip_cidr e h.ranges;
                        }))
                    (λ _. h)

  parts_entry-IsList : (ps : List Text) (r : SourceRule) → IsList r → IsList (parts_entry ps r)
  parts_entry-IsList [] r h = h
  parts_entry-IsList (t ∷ []) r h = typed_entry-IsList _ _ r h
  parts_entry-IsList (t ∷ v ∷ ps) r h = typed_entry-IsList _ _ r h

  list_entry-IsList : (line : Text) (r : SourceRule) → IsList r → IsList (list_entry line r)
  unfolding list_entry
  list_entry-IsList line r h =
      IsList-if (has b',' line) (λ _. parts_entry-IsList (split_on b',' line) r h)
        (λ _. add_suffix-IsList (rstrip_by (is_char b'.') (drop_mark line)) r h)

  list_line-IsList : (raw : Text) (r : SourceRule) → IsList r → IsList (list_line raw r)
  unfolding list_line
  list_line-IsList raw r h =
      let line = strip (before b'#' raw) in
      IsList-if
        (is_empty line
          || (starts_with_any (codes "!" ∷ codes ";" ∷ []) line
              || starts_with (codes "payload") (lower line)))
        (λ _. h) (λ _. list_entry-IsList (strip_by is_quote (strip (lstrip_by is_dash line))) r h)

  list_lines-IsList : (ls : List Text) (r : SourceRule) → IsList r → IsList (list_lines ls r)
  unfolding list_lines
  list_lines-IsList [] r h = h
  list_lines-IsList (l ∷ ls) r h = list_lines-IsList ls (list_line l r) (list_line-IsList l r h)

  -- Whatever the text of a list is: its domains and suffixes are domain names by the program's
  -- pattern, and no keyword and no range of addresses is empty.
  pub parse_rule_list-IsList : (text : Text) → IsList (parse_rule_list text)
  unfolding parse_rule_list
  parse_rule_list-IsList text =
      list_lines-IsList (splitlines text) empty_rule
        (record { domains = tt; suffixes = tt; keywords = tt; ranges = tt })
