-- ===== src/SingboxRouter/Route.antt =====
-- `main` of singbox-router-config.py: the policies, the rule sets and the loop over the rules.
pub mod Tags
pub mod Invariant
pub mod Targets
pub mod Sets
pub mod Sound
pub mod Geosite
pub mod Complete
pub mod Total
use gpn.Prelude.{
  ℕ, suc, Bool, true, false, not, ◌&&◌, ◌||◌, List, [], ◌∷◌, ◌++◌, Option, none, some, ◌==◌,
  is_empty, map, if◌then◌else◌, length,
}
use gpn.Prelude.Dict.{Dict, get, is_there}
use gpn.Text.{Text, codes, Unicode, lower, upper, is_within}
use gpn.Text.Equality.{eqb, is_in}
use gpn.Text.Search.{starts_with, ends_with}
use gpn.Text.Split.{before, split_on, file_lines}
use gpn.Text.Strip.{strip}
use gpn.MihomoRouter.Policy.{load_policy_map, direct_targets}
use gpn.MihomoRouter.Rules.{fields, rule_text, rule_type}
use gpn.SingboxRouter.Exits.{Outbound, direct, block, ExitSource, missing, build_exit_outbound}
use gpn.SingboxRouter.Lists.{SourceRule, is_empty_rule, parse_rule_list}
use gpn.SingboxRouter.RuleSets.{
  Host, Result, RouteRule, Router, RuleSet, add_remote_srs, add_rule, dies, domain, domain_keyword,
  domain_suffix, ensure_policy, final_needs_policy, handle_ruleset, ip_cidr, ok, rule_set,
  too_few_fields, unsupported_type, ◌>>=◌,
}

-- `re.sub(r"[^a-z0-9]", "", s)`
unfoldable pub only_alnum : Text → Text
only_alnum [] = []
only_alnum (c ∷ s) =
    let rest = only_alnum s in
    if is_within b'a' b'z' c || is_within b'0' b'9' c then c ∷ rest else rest

abbrev pub geosite_srs : Text → Text
geosite_srs v =
    codes "https://raw.githubusercontent.com/SagerNet/sing-geosite/rule-set/geosite-"
    ++ (v ++ codes ".srs")

abbrev pub geoip_srs : Text → Text
geoip_srs v =
    codes "https://raw.githubusercontent.com/SagerNet/sing-geoip/rule-set/geoip-"
    ++ (v ++ codes ".srs")

module _ ⦃u : Unicode⦄ (h : Host) (policy_map : Dict Text) where
  abbrev pub geo_rule : Text → Text → Text → Router → Router
  geo_rule tag url outbound s = add_rule rule_set tag outbound (add_remote_srs tag url s)

  -- the rule of a type, a value and an outbound
  unfoldable pub typed_rule : ℕ → Text → Text → Text → Router → Result Router
  unfolding eqb is_in lower only_alnum add_remote_srs handle_ruleset
  typed_rule ln typ value outbound s =
      if eqb typ (codes "DOMAIN")
      then ok (add_rule domain value outbound s)
      else if eqb typ (codes "DOMAIN-SUFFIX")
      then ok (add_rule domain_suffix value outbound s)
      else if eqb typ (codes "DOMAIN-KEYWORD")
      then ok (add_rule domain_keyword value outbound s)
      else if is_in typ (codes "IP-CIDR" ∷ codes "IP-CIDR6" ∷ [])
      then ok (add_rule ip_cidr value outbound s)
      else if eqb typ (codes "GEOSITE")
      then ok (
          geo_rule (codes "geosite_" ++ only_alnum (lower value)) (geosite_srs (lower value))
            outbound s)
      else if eqb typ (codes "GEOIP")
      then ok (
          geo_rule (codes "geoip_" ++ only_alnum (lower value)) (geoip_srs (lower value)) outbound
            s)
      else if is_in typ (codes "RULE-SET" ∷ codes "RULESET" ∷ [])
      then handle_ruleset h value outbound s
      else dies (unsupported_type ln)

  abbrev pub set_final : Text × Router → Result Router
  set_final (tag, s) = ok (record s { final = tag })

  abbrev pub rule_with : ℕ → Text → Text → Text × Router → Result Router
  rule_with ln typ value (outbound, s) = typed_rule ln typ value outbound s

  -- the parts of a line
  unfoldable pub parts_line : ℕ → List Text → Router → Result Router
  unfolding rule_type eqb ensure_policy typed_rule
  parts_line ln [] s = dies (too_few_fields ln)
  parts_line ln (t ∷ []) s =
      if eqb (rule_type t) (codes "FINAL")
      then dies (final_needs_policy ln)
      else dies (too_few_fields ln)
  parts_line ln (t ∷ v ∷ []) s =
      if eqb (rule_type t) (codes "FINAL")
      then ensure_policy h policy_map v s >>= set_final
      else dies (too_few_fields ln)
  parts_line ln (t ∷ v ∷ p ∷ more) s =
      if eqb (rule_type t) (codes "FINAL")
      then ensure_policy h policy_map v s >>= set_final
      else ensure_policy h policy_map p s >>= rule_with ln (rule_type t) v

  unfoldable pub route_line : ℕ → Text → Router → Result Router
  unfolding rule_text fields parts_line
  route_line ln raw s =
      if is_empty (rule_text raw) then ok s else parts_line ln (fields (rule_text raw)) s

  unfoldable pub route_lines : ℕ → List Text → Router → Result Router
  unfolding route_line
  route_lines ln [] s = ok s
  route_lines ln (raw ∷ rest) s = route_line ln raw s >>= route_lines (suc ln) rest

abbrev pub start : Router
start = record {
  outbounds = [];
  ob_tags = [];
  rule_sets = [];
  rs_tags = [];
  route_rules = [];
  final = codes "direct";
}

-- The parts of the configuration that the rules decide.
pub record Config : Type 0 where
  pub outbounds : List Outbound
  pub rules : List RouteRule
  pub final : Text
  pub rule_sets : List RuleSet

-- `direct` and `block` stand behind the exits
abbrev pub config_of : Router → Result Config
config_of s = ok (record {
  outbounds = s.outbounds ++ direct ∷ block ∷ [];
  rules = s.route_rules;
  final = s.final;
  rule_sets = s.rule_sets;
})

module _ ⦃u : Unicode⦄ where
  -- `main` on the text of the rules file and that of the policy map
  unfoldable pub router_config : Host → Option Text → Text → Result Config
  unfolding route_lines load_policy_map file_lines
  router_config h policies rules =
      route_lines h (load_policy_map policies) 1 (file_lines rules) start >>= config_of
