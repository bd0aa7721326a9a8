-- ===== src/MihomoRouter/Rules.antt =====
-- The loop over the rules in `main` of mihomo-router-config.py.
pub mod Targets
pub mod Sound
pub mod Counts
use gpn.Prelude.{
  ℕ, suc, Bool, true, false, not, ◌&&◌, ◌||◌, List, [], ◌∷◌, ◌++◌, Option, none, some, is_empty,
  map, ◌==◌, if◌then◌else◌,
}
use gpn.Prelude.Dict.{Dict, put}
use gpn.Text.{Text, codes, Unicode, lower, upper, is_alnum, is_within}
use gpn.Text.Equality.{eqb, is_in}
use gpn.Text.Search.{starts_with, ends_with}
use gpn.Text.Split.{split_on, before, join, file_lines}
use gpn.Text.Strip.{strip}
use gpn.Regex.{Regex, seq, star, chars, lit, prefix_match}
use gpn.RulesImport.Fetch.{State}
use gpn.MihomoRouter.Policy.{resolve_target}
use gpn.MihomoRouter.Provider.{
  Reason, few_fields, not_https, singbox_format, unsupported, Provider, Gateway, Disk, Stored,
  stored, failed, Checked, passed, refused, validate_provider_url, cache_remote_provider,
}

-- `str.replace("_", "-")`
unfoldable pub dashes : Text → Text
dashes [] = []
dashes (c ∷ s) = (if c == b'_' then b'-' else c) ∷ dashes s

abbrev pub kept_types : List Text
kept_types =
    codes "DOMAIN"
    ∷ codes "DOMAIN-SUFFIX"
    ∷ codes "DOMAIN-KEYWORD"
    ∷ codes "GEOSITE"
    ∷ codes "GEOIP"
    ∷ []

abbrev pub set_types : List Text
set_types = codes "RULE-SET" ∷ codes "RULESET" ∷ codes "RULE-PROVIDER" ∷ []

-- the matchers that a rule keeps, and the two that become "IP-CIDR"
unfoldable pub router_type : Text → Option Text
unfolding is_in
router_type typ =
    if is_in typ kept_types
    then some typ
    else if is_in typ (codes "IP-CIDR" ∷ codes "IP-CIDR6" ∷ [])
    then some (codes "IP-CIDR")
    else none

-- `re.match(r"^[A-Za-z][A-Za-z0-9+.-]*://", value)`
unfoldable pub scheme_re : Regex
unfolding is_alnum
scheme_re = seq (chars (λ c. is_alnum c && not (is_within b'0' b'9' c))) (
    seq (star (chars (λ c. is_alnum c || c == b'+' || c == b'.' || c == b'-'))) (lit (codes "://")))

module _ ⦃u : Unicode⦄ where
  -- the rule's text without its comments
  unfoldable pub rule_text : Text → Text
  unfolding strip before
  rule_text raw = strip (before b';' (before b'#' raw))

  unfoldable pub fields : Text → List Text
  unfolding strip split_on
  fields line = map strip (split_on b',' line)

  unfoldable pub rule_type : Text → Text
  unfolding upper dashes
  rule_type typ = dashes (upper typ)

-- The variables of the loop, and what is outside.
pub record Router (g : Gateway) : Type 0 where
  pub rules : List Text
  pub providers : Dict Provider
  pub used : List Text
  pub disk : Disk g

-- The end of a line: the loop goes on, or the program ends.
pub data Outcome (g : Gateway) : Type 0 where
  continues : Router g → Outcome g
  dies : ℕ → Reason → Router g → Outcome g

module _ (g : Gateway) where
  abbrev pub add_rule : Text → Router g → Router g
  add_rule r s = record s { rules = s.rules ++ r ∷ [] }

  abbrev pub use_target : Text × List Text → Router g → Router g
  use_target (t, used) s = record s { used = used }

  abbrev pub value_rule : Text → Text → Text → Text
  value_rule typ value target = join (codes ",") (typ ∷ value ∷ target ∷ [])

  -- `rule_providers[tag] = {...}` and the rule that names it
  unfoldable pub provide : Text → Text → Provider → Router g → Router g
  unfolding put
  provide tag target p s =
      add_rule (value_rule (codes "RULE-SET") tag target)
        (record s { providers = put tag p s.providers })

  abbrev pub provide_stored : ℕ → Text → Text → Stored × Disk g → Router g → Outcome g
  provide_stored ln tag target (stored p, d) s =
      continues (provide tag target p (record s { disk = d }))
  provide_stored ln tag target (failed why, d) s = dies ln why (record s { disk = d })

module _ ⦃u : Unicode⦄ (g : Gateway) (policy_map : Dict Text) where
  abbrev pub after_check : ℕ → Text → Text → Text → Checked × State g.network → Router g → Outcome g
  after_check ln value tag target (refused why, st) s =
      dies ln why (record s { disk = record s.disk { net = st } })
  after_check ln value tag target (passed, st) s =
      provide_stored g ln tag target
        (cache_remote_provider g value tag (record s.disk { net = st })) s

  -- the provider of an https URL
  unfoldable pub remote_set : ℕ → Text → Text → Text → Router g → Outcome g
  unfolding validate_provider_url cache_remote_provider provide
  remote_set ln value tag target s =
      after_check ln value tag target (validate_provider_url g value s.disk.net) s

  -- the branch for RULE-SET
  unfoldable pub rule_set : ℕ → Text → Text → Router g → Outcome g
  unfolding before lower ends_with starts_with remote_set scheme_re prefix_match provide
  rule_set ln value target s =
      if ends_with (codes ".srs") (before b'?' (lower value))
      then dies ln singbox_format s
      else if starts_with (codes "https://") (lower value)
      then remote_set ln value (g.tag_of value) target s
      else if prefix_match scheme_re value
      then dies ln not_https s
      else continues
          (provide g (g.tag_of value) target (record { path = value; behavior = codes "domain" }) s)

  -- from the test on "DOMAIN" to the end of the loop's body
  unfoldable pub typed_line : ℕ → Text → Text → Text → Router g → Outcome g
  unfolding router_type rule_type is_in rule_set
  typed_line ln typ value target s = elim (router_type (rule_type typ)) [
    | some t ↦ continues (add_rule g (value_rule g t value target) s)
    | none ↦
        if is_in (rule_type typ) set_types
        then rule_set ln value target s
        else dies ln (unsupported typ) s
  ]

  abbrev pub final_policy : List Text → Text
  final_policy (_ ∷ p ∷ _) = p
  final_policy _ = g.default_target

  abbrev pub resolve : Text → Router g → Text × List Text
  resolve p s = resolve_target g.listing policy_map p s.used

  abbrev pub final_line : Text × List Text → Router g → Router g
  final_line (t, used) s =
      add_rule g (join (codes ",") (codes "MATCH" ∷ t ∷ [])) (record s { used = used })

  abbrev pub policy_line : ℕ → Text → Text → Text × List Text → Router g → Outcome g
  policy_line ln typ value (t, used) s = typed_line ln typ value t (record s { used = used })

  unfoldable pub fields_line : ℕ → List Text → Router g → Outcome g
  unfolding typed_line resolve_target
  fields_line ln (typ ∷ value ∷ p ∷ _) s = policy_line ln typ value (resolve p s) s
  fields_line ln _ s = dies ln few_fields s

  abbrev pub first_field : List Text → Text
  first_field [] = []
  first_field (typ ∷ _) = typ

  -- the loop's body, for a line that is not empty
  unfoldable pub router_line : ℕ → List Text → Router g → Outcome g
  unfolding eqb rule_type fields_line resolve_target
  router_line ln parts s =
      if eqb (rule_type (first_field parts)) (codes "FINAL")
      then continues (final_line (resolve (final_policy parts) s) s)
      else fields_line ln parts s

  unfoldable pub raw_line : ℕ → Text → Router g → Outcome g
  unfolding rule_text router_line fields
  raw_line ln raw s =
      if is_empty (rule_text raw) then continues s else router_line ln (fields (rule_text raw)) s

  -- the loop; the number is that of the next line
  unfoldable pub router_lines : ℕ → List Text → Router g → Outcome g
  unfolding raw_line
  router_lines ln [] s = continues s
  router_lines ln (raw ∷ rest) s = elim (raw_line ln raw s) [
    | continues s' ↦ router_lines (suc ln) rest s'
    | dies k why s' ↦ dies k why s'
  ]

  unfoldable pub route : Text → Disk g → Outcome g
  unfolding router_lines file_lines
  route file d =
      router_lines 1 (file_lines file) (record { rules = []; providers = []; used = []; disk = d })
