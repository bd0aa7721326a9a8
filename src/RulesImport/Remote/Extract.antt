-- ===== src/RulesImport/Remote/Extract.antt =====
-- The domains that --extract-domains writes.
use gpn.Prelude.{
  refl, true, ◌&&◌, List, [], ◌∷◌, ◌≡◌, inl, inr, Every, Every-nil, Every-one, Every-append,
  Every-if, and_parts, All, false, ◌++◌, Option-cases,
}
use gpn.Text.{Text, codes, Unicode, upper}
use gpn.Text.Equality.{is_in}
use gpn.Text.Split.{splitlines}
use gpn.Text.Strip.{strip, lstrip_by, is_char}
use gpn.RulesImport.Csv.{csv_split}
use gpn.RulesImport.Matchers.{is_domain}
use gpn.RulesImport.Sorting.{sorted_set}
use gpn.RulesImport.Sorting.Order.{IsIncreasing, Occurs, sorted_set-IsIncreasing}
use gpn.RulesImport.Remote.{
  csv, csv_domain, csv_domains, listed_domains, rule_values, parse_clash_yaml, clash, cut,
}
use gpn.Text.Search.{has}
use gpn.Text.Split.Pieces.{cut-at}

abbrev IsDomain : Text → Type 0
IsDomain d = is_domain d ≡ true

Occurs-All : (P : Text → Type 0) (xs : List Text) → All P xs → (a : Text) → Occurs a xs → P a
Occurs-All P [] h a o = absurd o
Occurs-All P (x ∷ xs) h a (inl e) = rw e h.0
Occurs-All P (x ∷ xs) h a (inr o) = Occurs-All P xs h.1 a o

module _ ⦃u : Unicode⦄ where
  csv_domain-IsDomain : (parts : List Text) → Every IsDomain (csv_domain parts)
  unfolding csv_domain
  csv_domain-IsDomain (t ∷ v ∷ r) =
      let d = lstrip_by (is_char b'.') (strip v) in
      Every-if (is_in (upper t) (codes "DOMAIN" ∷ codes "DOMAIN-SUFFIX" ∷ []) && is_domain d)
        (λ e. Every-one (and_parts _ (is_domain d) e).1) Every-nil
  csv_domain-IsDomain [] = Every-nil
  csv_domain-IsDomain _ = Every-nil

  csv_domains-IsDomain : (lines : List Text) → Every IsDomain (csv_domains lines)
  unfolding csv_domains
  csv_domains-IsDomain [] = Every-nil
  csv_domains-IsDomain (l ∷ ls) =
      Every-append (csv_domain-IsDomain (csv_split (strip l))) (csv_domains-IsDomain ls)

  -- From a CSV list --extract-domains writes domain names only, in strictly growing order, so
  -- that none stands twice, and it writes every domain that the loop has added.
  pub extract-csv :
      (text : Text)
      → IsIncreasing (sorted_set (listed_domains csv text))
        × ((d : Text)
            → (Occurs d (sorted_set (listed_domains csv text)) → is_domain d ≡ true)
              × (Occurs d (listed_domains csv text)
                  → Occurs d (sorted_set (listed_domains csv text))))
  unfolding listed_domains
  extract-csv text =
      let all = csv_domains (splitlines text) in
      let (up, same) = sorted_set-IsIncreasing all in
      (
        up,
        λ d. (
          λ o.
              Occurs-All IsDomain all (csv_domains-IsDomain (splitlines text)).holds d
                ((same d).0 o),
          (same d).1,
        ),
      )

Occurs-rule_values :
    (typ v : Text) (rs : List Text)
    → has b',' typ ≡ false
    → Occurs (typ ++ b',' ∷ v) rs
    → Occurs (strip v) (rule_values rs)
unfolding rule_values
Occurs-rule_values typ v [] h o = absurd o
Occurs-rule_values typ v (r ∷ rs) h (inl e) =
    rw (← e) (rw (cut-at b',' typ v h, rule_values) (inl refl))
Occurs-rule_values typ v (r ∷ rs) h (inr o) = elim (Option-cases (cut b',' r).1) [
  | inl e ↦ rw (e, rule_values) (Occurs-rule_values typ v rs h o)
  | inr (w, e) ↦ rw (e, rule_values) (inr (Occurs-rule_values typ v rs h o))
]

module _ ⦃u : Unicode⦄ where
  -- From a Clash list --extract-domains also writes what is no domain: the value, stripped, of
  -- every parsed rule whose matcher holds no comma, IP-CIDR and DOMAIN-KEYWORD included.
  pub extract-clash :
      (text typ v : Text)
      → has b',' typ ≡ false
      → Occurs (typ ++ b',' ∷ v) (parse_clash_yaml text)
      → Occurs (strip v) (sorted_set (listed_domains clash text))
  unfolding listed_domains
  extract-clash text typ v h o =
      ((sorted_set-IsIncreasing (rule_values (parse_clash_yaml text))).1 (strip v)).1
        (Occurs-rule_values typ v (parse_clash_yaml text) h o)
