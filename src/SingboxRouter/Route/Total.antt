-- ===== src/SingboxRouter/Route/Total.antt =====
-- When `main` of singbox-router-config.py writes a configuration.
use gpn.Prelude.{
  ℕ, suc, true, false, not, Bool-cases, ◌&&◌, List, [], ◌∷◌, ◌≡◌, inl, inr, Option, All, is_empty,
  arith,
}
use gpn.Prelude.Dict.{Dict}
use gpn.Text.{Text, codes, Unicode, lower}
use gpn.Text.Equality.{eqb, is_in}
use gpn.Text.Search.{starts_with, ends_with}
use gpn.Text.Split.{file_lines}
use gpn.MihomoRouter.Policy.{load_policy_map}
use gpn.MihomoRouter.Rules.{fields, rule_text, rule_type}
use gpn.SingboxRouter.Lists.{SourceRule, is_empty_rule, parse_rule_list}
use gpn.SingboxRouter.RuleSets.{
  Host, LocalFile, absent, unreadable, content, Router, ok, ◌>>=◌, ensure_policy, rule_source,
  from_file, handle_ruleset, or_dies, add_local_source,
}
use gpn.SingboxRouter.Route.{
  typed_rule, set_final, rule_with, parts_line, route_line, route_lines, start, Config, config_of,
  router_config,
}
use gpn.SingboxRouter.Route.Complete.{
  Good, Good-ok, Good-if, Good-bind, PolicyOk, SourceOk, IsReadable, list_types, TypedOk, PartsOk,
  LineOk, ensure-Good,
}

module _ ⦃u : Unicode⦄ (h : Host) (m : Dict Text) where
  -- a list that the cache takes
  saved-Good :
      (src tag : Text) (r : SourceRule) (s : Router)
      → h.saves tag ≡ true
      → Good (or_dies h src (add_local_source h tag r s))
  unfolding add_local_source
  saved-Good src tag r s k = elim (Bool-cases (is_in tag s.rs_tags)) [
    | inl e ↦ rw e (Good-ok _)
    | inr e ↦
        rw (e, k)
          (elim (Bool-cases (is_empty_rule r)) [
            | inl f ↦ rw f (Good-ok _)
            | inr f ↦ rw f (elim (Bool-cases (h.compiles tag)) [
              | inl g ↦ rw g (Good-ok _)
              | inr g ↦ rw g (Good-ok _)
            ])
          ])
  ]

  from_file-Good :
      (src : Text) (f : LocalFile) (s : Router)
      → IsReadable h m src f
      → Good (from_file h src (h.tag_of src) f s)
  from_file-Good src absent s r = Good-ok _
  from_file-Good src unreadable s r = rw r (Good-ok _)
  from_file-Good src (content text) s (inl r) = rw r (Good-ok _)
  from_file-Good src (content text) s (inr r) =
      Good-if (ends_with (codes ".srs") (lower src)) (λ _. Good-ok _)
        (λ _. saved-Good src (h.tag_of src) (parse_rule_list text) s r)

  rule_source-Good :
      (src : Text) (s : Router) → SourceOk h m src → Good (rule_source h src (h.tag_of src) s)
  unfolding rule_source
  rule_source-Good src s r =
      let tag = h.tag_of src in
      Good-if (starts_with (codes "http") src && ends_with (codes ".srs") (lower src))
        (λ _. Good-ok _)
        λ _.
          Good-if (not (is_in tag s.rs_tags) && h.is_cached tag) (λ _. Good-ok _)
            λ _.
              Good-if (is_in tag s.rs_tags) (λ _. Good-ok _)
                λ _. Good-if (starts_with (codes "http") src) (λ _. Good-ok _) (λ e. local e r)
    where
      local :
          starts_with (codes "http") src ≡ false
          → SourceOk h m src
          → Good (from_file h src (h.tag_of src) (h.local_file src) s)
      local e (inl k) = cc
      local e (inr k) = from_file-Good src (h.local_file src) s k

  handle_ruleset-Good :
      (src out : Text) (s : Router) → SourceOk h m src → Good (handle_ruleset h src out s)
  unfolding handle_ruleset
  handle_ruleset-Good src out s r = rw (rule_source-Good src s r).is_value (Good-ok _)

  typed_rule-Good :
      (ln : ℕ) (typ v out : Text) (s : Router)
      → TypedOk h m typ v
      → Good (typed_rule h m ln typ v out s)
  unfolding typed_rule is_in
  typed_rule-Good ln typ v out s r =
      Good-if (eqb typ (codes "DOMAIN")) (λ _. Good-ok _)
        λ a.
          Good-if (eqb typ (codes "DOMAIN-SUFFIX")) (λ _. Good-ok _)
            λ b.
              Good-if (eqb typ (codes "DOMAIN-KEYWORD")) (λ _. Good-ok _)
                λ c.
                  Good-if (is_in typ (codes "IP-CIDR" ∷ codes "IP-CIDR6" ∷ [])) (λ _. Good-ok _)
                    λ d.
                      Good-if (eqb typ (codes "GEOSITE")) (λ _. Good-ok _)
                        λ e.
                          Good-if (eqb typ (codes "GEOIP")) (λ _. Good-ok _)
                            λ f.
                              Good-if (is_in typ (list_types h m))
                                (λ g. handle_ruleset-Good v out s (source a b c d e f r))
                                (λ g. absurd (unknown a b c d e f g r))
    where
      source :
          eqb typ (codes "DOMAIN") ≡ false
          → eqb typ (codes "DOMAIN-SUFFIX") ≡ false
          → eqb typ (codes "DOMAIN-KEYWORD") ≡ false
          → is_in typ (codes "IP-CIDR" ∷ codes "IP-CIDR6" ∷ []) ≡ false
          → eqb typ (codes "GEOSITE") ≡ false
          → eqb typ (codes "GEOIP") ≡ false
          → TypedOk h m typ v
          → SourceOk h m v
      source a b c d e f (inl k) = absurd (ground (arith, a, b, c, d, e, f, k))
      source a b c d e f (inr k) = k.1

      unknown :
          eqb typ (codes "DOMAIN") ≡ false
          → eqb typ (codes "DOMAIN-SUFFIX") ≡ false
          → eqb typ (codes "DOMAIN-KEYWORD") ≡ false
          → is_in typ (codes "IP-CIDR" ∷ codes "IP-CIDR6" ∷ []) ≡ false
          → eqb typ (codes "GEOSITE") ≡ false
          → eqb typ (codes "GEOIP") ≡ false
          → is_in typ (list_types h m) ≡ false
          → TypedOk h m typ v
          → ⊥
      unknown a b c d e f g (inl k) = ground (arith, a, b, c, d, e, f, k)
      unknown a b c d e f g (inr k) = cc

  set_final-Good :
      (p : Text) (s : Router) → PolicyOk h m p → Good (ensure_policy h m p s >>= set_final h m)
  set_final-Good p s r =
      Good-bind (ensure_policy h m p s) (set_final h m) (ensure-Good h m p s r) (λ q. Good-ok _)

  rule_with-Good :
      (ln : ℕ) (typ v p : Text) (s : Router)
      → TypedOk h m typ v
      → PolicyOk h m p
      → Good (ensure_policy h m p s >>= rule_with h m ln typ v)
  rule_with-Good ln typ v p s t r =
      Good-bind (ensure_policy h m p s) (rule_with h m ln typ v) (ensure-Good h m p s r)
        (λ q. typed_rule-Good ln typ v q.0 q.1 t)

  parts_line-Good :
      (ln : ℕ) (ps : List Text) (s : Router) → PartsOk h m ps → Good (parts_line h m ln ps s)
  unfolding parts_line
  parts_line-Good ln [] s r = absurd r
  parts_line-Good ln (t ∷ []) s r = absurd r
  parts_line-Good ln (t ∷ v ∷ []) s r = rw r.0 (set_final-Good v s r.1)
  parts_line-Good ln (t ∷ v ∷ p ∷ more) s (inl r) = rw r.0 (set_final-Good v s r.1)
  parts_line-Good ln (t ∷ v ∷ p ∷ more) s (inr (e, k, l)) =
      rw e (rule_with-Good ln (rule_type t) v p s k l)

  route_line-Good :
      (ln : ℕ) (raw : Text) (s : Router) → LineOk h m raw → Good (route_line h m ln raw s)
  unfolding route_line
  route_line-Good ln raw s r =
      Good-if (is_empty (rule_text raw)) (λ _. Good-ok _) (λ e. complete e r)
    where
      complete :
          is_empty (rule_text raw) ≡ false
          → LineOk h m raw
          → Good (parts_line h m ln (fields (rule_text raw)) s)
      complete e (inl k) = cc
      complete e (inr k) = parts_line-Good ln (fields (rule_text raw)) s k

  route_lines-Good :
      (ls : List Text) (ln : ℕ) (s : Router) → All (LineOk h m) ls → Good (route_lines h m ln ls s)
  unfolding route_lines
  route_lines-Good [] ln s r = Good-ok s
  route_lines-Good (l ∷ ls) ln s r =
      Good-bind (route_line h m ln l s) (route_lines h m (suc ln) ls) (route_line-Good ln l s r.0)
        (λ t. route_lines-Good ls (suc ln) t r.1)

-- Where every line of the rules is blank or complete, a configuration is written. A complete line
-- has a known type, and its policy leads to `direct`, `block` or an exit that can be built. If it
-- names a list, that is a URL, or a file that is absent, or binary by its name, or a text that can
-- be read and that the cache takes.
pub router_config_total :
    ⦃u : Unicode⦄ (h : Host) (policies : Option Text) (rules : Text)
    → All (LineOk h (load_policy_map policies)) (file_lines rules)
    → (c : Config) × (router_config h policies rules ≡ ok c)
unfolding router_config
router_config_total h policies rules r =
    let m = load_policy_map policies in
    let g = route_lines-Good h m (file_lines rules) 1 start r in
    let k = Good-bind (route_lines h m 1 (file_lines rules) start) config_of g (λ s. Good-ok _) in
    (k.value, k.is_value)
