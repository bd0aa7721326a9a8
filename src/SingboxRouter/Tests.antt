-- ===== src/SingboxRouter/Tests.antt =====
-- Rules of three lines with an exit that is a WireGuard file.
use gpn.Prelude.{
  true, false, List, [], ◌∷◌, ◌≡◌, refl, Option, none, some, map, if◌then◌else◌, All, inr, inl,
}
use gpn.Text.{Text, codes, ascii, lower}
use gpn.Text.Equality.{eqb, is_in}
use gpn.SingboxRouter.Exits.{ExitSource, wg_conf, missing, tag_of, build_exit_outbound}
use gpn.SingboxRouter.RuleSets.{
  Host, Result, absent, Router, ok, dies, ◌>>=◌, remote, target_of, content, unwritable_cache,
}
use gpn.SingboxRouter.Route.{router_config, only_alnum, Config, typed_rule, start, geosite_srs}
use gpn.SingboxRouter.Route.Sound.{ClosedOr, router_config-IsClosed}
use gpn.SingboxRouter.Lists.{parse_rule_list}
use gpn.SingboxRouter.Lists.Sound.{IsList, parse_rule_list-IsList}
use gpn.SingboxRouter.Route.Geosite.{geosite_shared, set_rule}
use gpn.Text.Split.{file_lines}
use gpn.MihomoRouter.Policy.{load_policy_map}
use gpn.MihomoRouter.Rules.{rule_text, fields, rule_type}
use gpn.SingboxRouter.Route.Total.{router_config_total}
use gpn.Text.Strip.{strip}
use gpn.SingboxRouter.Route.Complete.{LineOk}

abbrev wg_us : Text
wg_us =
    codes
      "[Interface]\nPrivateKey = k\nAddress = 10.0.0.2/32\n[Peer]\nPublicKey = p\nEndpoint = a.com:51820\n"

abbrev exits : Text → ExitSource
exits name = if eqb name (codes "us") then wg_conf wg_us else missing

abbrev host : Host
host = record {
  exits = exits;
  default_target = codes "direct";
  fetch = λ url. none;
  local_file = λ path. absent;
  is_cached = λ tag. false;
  saves = λ tag. true;
  compiles = λ tag. true;
  tag_of = λ src. codes "rs_x";
}

abbrev rules_txt : Text
rules_txt = codes "DOMAIN,a.com,us # mine\nGEOSITE,cn,direct\nFINAL,us\n"

abbrev final_of : Result Config → Text
final_of (ok c) = c.final
final_of (dies why) = []

abbrev tags_of : Result Config → List (Option Text)
tags_of (ok c) = map tag_of c.outbounds
tags_of (dies why) = []

-- the exit is built once, for two rules
router_config-tags :
    tags_of (router_config ⦃u = ascii⦄ host none rules_txt)
    ≡ some (codes "us") ∷ some (codes "direct") ∷ some (codes "block") ∷ []
unfolding router_config tag_of
router_config-tags = refl

router_config-final : final_of (router_config ⦃u = ascii⦄ host none rules_txt) ≡ codes "us"
unfolding router_config tag_of
router_config-final = refl

router_config-IsClosed_example : ClosedOr (router_config ⦃u = ascii⦄ host none rules_txt)
router_config-IsClosed_example = router_config-IsClosed ⦃u = ascii⦄ host none rules_txt

-- a local list that the cache does not take ends the program
router_config-unsaved :
    router_config ⦃u = ascii⦄
      (record host { local_file = λ path. content (codes "a.com\n"); saves = λ tag. false })
      none
      (codes "RULE-SET,/root/x.txt,direct\n")
    ≡ dies (unwritable_cache (codes "/root/x.txt"))
unfolding router_config
router_config-unsaved = refl

rules_complete : All (LineOk ⦃u = ascii⦄ host []) (file_lines rules_txt)
unfolding file_lines rule_text fields rule_type build_exit_outbound target_of strip lower is_in
rules_complete = (
  inr (inr (refl, inl refl, inr (inr (_, refl)))),
  (inr (inr (refl, inl refl, inl (inl refl))), (inr (refl, inr (inr (_, refl))), tt)),
)

router_config_total_example : (c : Config) × (router_config ⦃u = ascii⦄ host none rules_txt ≡ ok c)
unfolding load_policy_map
router_config_total_example = router_config_total ⦃u = ascii⦄ host none rules_txt rules_complete

abbrev list_txt : Text
list_txt =
    codes "payload:\n  - '+.a.com'\n  - DOMAIN,b.com\n  - IP-CIDR,10.0.0.0/8\n10.1.0.0/16\n# end\n"

parse_rule_list-three : parse_rule_list ⦃u = ascii⦄ list_txt ≡ record {
  domain = codes "b.com" ∷ [];
  domain_suffix = codes "a.com" ∷ [];
  domain_keyword = [];
  ip_cidr = codes "10.0.0.0/8" ∷ [];
}
unfolding parse_rule_list
parse_rule_list-three = refl

parse_rule_list-IsList_example : IsList (parse_rule_list ⦃u = ascii⦄ list_txt)
parse_rule_list-IsList_example = parse_rule_list-IsList ⦃u = ascii⦄ list_txt

-- The sites of China, and those abroad.
geosite_shared_example :
    (t : Router) × ((typed_rule ⦃u = ascii⦄ host [] 1
          (codes "GEOSITE")
          (codes "geolocation-cn")
          (codes "direct")
          start
        >>= typed_rule ⦃u = ascii⦄ host [] 1
            (codes "GEOSITE")
            (codes "geolocation-!cn")
            (codes "us"))
      ≡ ok t)
    × (t.rule_sets
        ≡ remote (codes "geosite_geolocationcn") (geosite_srs (codes "geolocation-cn")) ∷ [])
    × (t.route_rules
        ≡ set_rule (codes "geosite_geolocationcn") (codes "direct")
          ∷ set_rule (codes "geosite_geolocationcn") (codes "us")
          ∷ [])
unfolding only_alnum lower is_in
geosite_shared_example =
    geosite_shared ⦃u = ascii⦄ host [] 1 (codes "geolocation-cn") (codes "geolocation-!cn")
      (codes "direct") (codes "us") start refl refl
