-- ===== src/RulesImport/Remote/Imported.antt =====
-- The lines that --from-url writes.
use gpn.Prelude.{List, [], ◌∷◌, ◌++◌, map, ◌≡◌, refl, All}
use gpn.Text.{Text, Unicode}
use gpn.RulesImport.Lists.{parse_clash_yaml, parse_plain_list}
use gpn.RulesImport.Lists.WellFormed.{IsSimpleRule, parse-IsSimpleRule, count-IsSimpleRule}
use gpn.RulesImport.Remote.{plain, clash, with_category, rules_of, imported_rules}

with_category-simple :
    (category r : Text) → IsSimpleRule r → with_category category r ≡ r ++ b',' ∷ category
unfolding with_category
with_category-simple category r h = rw (count-IsSimpleRule r h)

map-with_category :
    (category : Text) (rs : List Text)
    → All IsSimpleRule rs
    → map (with_category category) rs ≡ map (λ r. r ++ b',' ∷ category) rs
map-with_category category [] h = refl
map-with_category category (r ∷ rs) h =
    rw (with_category-simple category r h.0, map-with_category category rs h.1)

module _ ⦃u : Unicode⦄ where
  -- From a Clash list and from a plain list --from-url writes each parsed rule with the
  -- category of the command line behind it; every rule gets it, and none has one of its own.
  pub imported-category :
      (category text : Text)
      → (imported_rules clash category text
          ≡ map (λ r. r ++ b',' ∷ category) (parse_clash_yaml text))
        × (imported_rules plain category text
            ≡ map (λ r. r ++ b',' ∷ category) (parse_plain_list text))
  unfolding imported_rules rules_of
  imported-category category text =
      let (yaml, list) = parse-IsSimpleRule text text in
      (
        map-with_category category (parse_clash_yaml text) yaml,
        map-with_category category (parse_plain_list text) list,
      )
