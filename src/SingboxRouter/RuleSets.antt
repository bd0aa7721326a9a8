-- ===== src/SingboxRouter/RuleSets.antt =====
-- The variables of `main` of singbox-router-config.py, and its inner functions: the targets of
-- policies, and the rule sets.
use gpn.Prelude.{
  ℕ, Bool, true, false, not, ◌&&◌, List, [], ◌∷◌, ◌++◌, Option, none, some, if◌then◌else◌,
}
use gpn.Prelude.Dict.{Dict, get, is_there}
use gpn.Text.{Text, codes, Unicode, lower}
use gpn.Text.Equality.{is_in}
use gpn.Text.Search.{starts_with, ends_with}
use gpn.Text.Strip.{strip}
use gpn.MihomoRouter.Policy.{direct_targets}
use gpn.SingboxRouter.Exits.{Outbound, ExitSource, missing, build_exit_outbound}
use gpn.SingboxRouter.Lists.{SourceRule, is_empty_rule, parse_rule_list}

-- What the program reads outside. `fetch` is the decoded answer, or `none` where it raises; a
-- local file is absent, or its text is read, or reading it raises. `saves`
-- says that the cache takes a list: its directory and file are made, and the file is removed where
-- a binary takes its place; where it takes none, no binary is left either. `compiles` says that sing-box is installed and makes the binary. `tag_of` is "rs_" with the digest of the source.
pub data LocalFile : Type 0 where
  absent unreadable : LocalFile
  content : Text → LocalFile

pub record Host : Type 0 where
  pub exits : Text → ExitSource
  pub default_target : Text
  pub fetch : Text → Option Text
  pub local_file : Text → LocalFile
  pub is_cached : Text → Bool
  pub saves : Text → Bool
  pub compiles : Text → Bool
  pub tag_of : Text → Text

pub data Kind : Type 0 where
  domain domain_suffix domain_keyword ip_cidr rule_set : Kind

pub record RouteRule : Type 0 where
  pub kind : Kind
  pub value : Text
  pub outbound : Text

-- An entry of `rule_sets`: a remote one with its URL, or a local one with its format and path.
pub data RuleSet : Type 0 where
  remote : Text → Text → RuleSet
  stored : Text → Text → Text → RuleSet

abbrev pub set_tag : RuleSet → Text
set_tag (remote tag url) = tag
set_tag (stored tag format path) = tag

-- The variables of `main`.
pub record Router : Type 0 where
  pub outbounds : List Outbound
  pub ob_tags : List Text
  pub rule_sets : List RuleSet
  pub rs_tags : List Text
  pub route_rules : List RouteRule
  pub final : Text

-- Why the program ends.
pub data Reason : Type 0 where
  bad_exit : Text → Reason
  final_needs_policy too_few_fields unsupported_type : ℕ → Reason
  unreadable_list unwritable_cache : Text → Reason

pub data Result {ℓ} (A : Type ℓ) : Type ℓ where
  ok : A → Result A
  dies : Reason → Result A

infixl 5 ◌>>=◌
abbrev pub ◌>>=◌ {ℓ κ} : {A : Type ℓ} {B : Type κ} → Result A → (A → Result B) → Result B
ok a >>= f = f a
dies why >>= f = dies why

abbrev pub block_targets : List Text
block_targets = codes "block" ∷ codes "reject" ∷ codes "reject-drop" ∷ []

abbrev pub is_missing : ExitSource → Bool
is_missing missing = true
is_missing _ = false

abbrev pub or_target : Option Text → Text → Text
or_target none default = default
or_target (some t) default = t

module _ ⦃u : Unicode⦄ (h : Host) (policy_map : Dict Text) where
  abbrev pub with_exit : Text → Option Outbound → Router → Result (Text × Router)
  with_exit name none s = dies (bad_exit name)
  with_exit name (some o) s =
      ok (name, record s { outbounds = s.outbounds ++ o ∷ []; ob_tags = s.ob_tags ++ name ∷ [] })

  -- `_materialize_target`
  unfoldable pub materialize_target : Text → Router → Result (Text × Router)
  unfolding is_in lower strip build_exit_outbound
  materialize_target t s =
      let low = lower (strip t) in
      let name = strip t in
      if is_in low direct_targets
      then ok (codes "direct", s)
      else if is_in low block_targets
      then ok (codes "block", s)
      else if is_in name s.ob_tags
      then ok (name, s)
      else with_exit name (build_exit_outbound name (h.exits name)) s

  -- the target of a policy that is no fixed one
  unfoldable pub target_of : Text → Text
  unfolding get
  target_of p =
      if is_there (get p policy_map)
      then or_target (get p policy_map) p
      else if not (is_missing (h.exits p))
      then p
      else h.default_target

  unfoldable pub ensure_policy : Text → Router → Result (Text × Router)
  unfolding is_in lower strip target_of materialize_target
  ensure_policy policy s =
      let p = strip policy in
      if is_in (lower p) direct_targets
      then ok (codes "direct", s)
      else if is_in (lower p) block_targets
      then ok (codes "block", s)
      else materialize_target (target_of p) s

abbrev pub add_set : Text → RuleSet → Router → Router
add_set tag r s = record s { rule_sets = s.rule_sets ++ r ∷ []; rs_tags = s.rs_tags ++ tag ∷ [] }

unfoldable pub add_remote_srs : Text → Text → Router → Router
unfolding is_in
add_remote_srs tag url s = if is_in tag s.rs_tags then s else add_set tag (remote tag url) s

abbrev pub add_rule : Kind → Text → Text → Router → Router
add_rule kind value outbound s = record s {
  route_rules = s.route_rules ++ record { kind = kind; value = value; outbound = outbound } ∷ [];
}

-- `os.path.join(CACHE_DIR, tag + suffix)` with the cache's default place
abbrev pub cache_path : Text → Text → Text
cache_path tag suffix = codes "/etc/proxy-gateway/rulesets/" ++ (tag ++ suffix)

module _ (h : Host) where
  -- the new state and whether the tag is there; `none` is an `OSError` of the cache, which is
  -- raised before the state changes
  unfoldable pub add_local_source : Text → SourceRule → Router → Option (Router × Bool)
  unfolding is_in is_empty_rule
  add_local_source tag rule s =
      if is_in tag s.rs_tags
      then some (s, true)
      else if is_empty_rule rule
      then some (s, false)
      else if not (h.saves tag)
      then none
      else if h.compiles tag
      then some (add_set tag (stored tag (codes "binary") (cache_path tag (codes ".srs"))) s, true)
      else some (add_set tag (stored tag (codes "source") (cache_path tag (codes ".json"))) s, true)

abbrev pub use_set : Text → Text → Router × Bool → Router
use_set tag outbound (s, false) = s
use_set tag outbound (s, true) = add_rule rule_set tag outbound s

module _ ⦃u : Unicode⦄ (h : Host) where
  -- the `except` skips a list that is not fetched or not saved
  abbrev pub or_skipped : Router → Option (Router × Bool) → Router × Bool
  or_skipped s none = (s, false)
  or_skipped s (some r) = r

  abbrev pub fetched : Text → Option Text → Router → Router × Bool
  fetched tag none s = (s, false)
  fetched tag (some text) s = or_skipped s (add_local_source h tag (parse_rule_list text) s)

  abbrev pub or_dies : Text → Option (Router × Bool) → Result (Router × Bool)
  or_dies src none = dies (unwritable_cache src)
  or_dies src (some r) = ok r

  abbrev pub from_file : Text → Text → LocalFile → Router → Result (Router × Bool)
  from_file src tag absent s = ok (s, false)
  from_file src tag unreadable s =
      if ends_with (codes ".srs") (lower src)
      then ok (add_set tag (stored tag (codes "binary") src) s, true)
      else dies (unreadable_list src)
  from_file src tag (content text) s =
      if ends_with (codes ".srs") (lower src)
      then ok (add_set tag (stored tag (codes "binary") src) s, true)
      else or_dies src (add_local_source h tag (parse_rule_list text) s)

  -- the branches of `handle_ruleset`, up to the rule
  unfoldable pub rule_source : Text → Text → Router → Result (Router × Bool)
  unfolding starts_with ends_with lower is_in add_remote_srs parse_rule_list add_local_source
  rule_source src tag s =
      if starts_with (codes "http") src && ends_with (codes ".srs") (lower src)
      then ok (add_remote_srs tag src s, true)
      else if not (is_in tag s.rs_tags) && h.is_cached tag
      then ok (add_set tag (stored tag (codes "binary") (cache_path tag (codes ".srs"))) s, true)
      else if is_in tag s.rs_tags
      then ok (s, true)
      else if starts_with (codes "http") src
      then ok (fetched tag (h.fetch src) s)
      else from_file src tag (h.local_file src) s

  unfoldable pub handle_ruleset : Text → Text → Router → Result Router
  unfolding rule_source
  handle_ruleset src outbound s =
      rule_source src (h.tag_of src) s >>= λ r. ok (use_set (h.tag_of src) outbound r)
