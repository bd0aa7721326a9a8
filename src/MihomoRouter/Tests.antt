-- ===== src/MihomoRouter/Tests.antt =====
-- A rules file of the router.
use gpn.Prelude.{refl, ◌∷◌, List, some, [], ◌≡◌, length, ◌++◌, take}
use gpn.Prelude.Dict.{Dict}
use gpn.Text.{Text, codes, ascii}
use gpn.MihomoRouter.Provider.{Gateway, Disk}
use gpn.MihomoRouter.Rules.{Outcome, route, continues, dies}
use gpn.MihomoRouter.Rules.Targets.{IsSoundOutcome}
use gpn.MihomoRouter.Rules.Counts.{IsCounted}
use gpn.RulesImport.Fetch.Tests.{one_redirect, before_it}
use gpn.Text.Split.{join, file_lines}
use gpn.MihomoRouter.Rules.Sound.{route-IsSound}
use gpn.MihomoRouter.Rules.Counts.{rule_count, route-IsCounted}

abbrev gateway : Gateway
gateway = record {
  network = one_redirect;
  listing = some (codes "us.yaml" ∷ codes "JP.json" ∷ []);
  tag_of = λ value. codes "rs_" ++ take 2 value;
  decode_ignore = λ b. b;
  ruleset_cache = codes "/cache";
  default_target = codes "direct";
}

abbrev policies : Dict Text
policies = (codes "Video", codes "jp") ∷ []

abbrev rules_file : Text
rules_file =
    codes
      "domain_suffix, a.com, Video # films\n\nRULE-SET,https://a.com/l,US\nRULESET,/etc/l,block\nFINAL\n"

abbrev disk : Disk gateway
disk = record { net = before_it; files = [] }

abbrev outcome_rules : Outcome gateway → List Text
outcome_rules (continues s) = s.rules
outcome_rules (dies ln why s) = []

route-rules :
    outcome_rules (route ⦃u = ascii⦄ gateway policies rules_file disk)
    ≡ codes "DOMAIN-SUFFIX,a.com,JP"
      ∷ codes "RULE-SET,rs_ht,us"
      ∷ codes "RULE-SET,rs_/e,REJECT"
      ∷ codes "MATCH,DIRECT"
      ∷ []
unfolding route join
route-rules = refl

route-IsSound_example :
    IsSoundOutcome ⦃u = ascii⦄ gateway (route ⦃u = ascii⦄ gateway policies rules_file disk)
route-IsSound_example = route-IsSound ⦃u = ascii⦄ gateway policies rules_file disk tt

route-IsCounted_example :
    IsCounted ⦃u = ascii⦄ gateway policies 1
      (length (file_lines rules_file))
      (rule_count ⦃u = ascii⦄ (file_lines rules_file))
      0
      (route ⦃u = ascii⦄ gateway policies rules_file disk)
route-IsCounted_example = route-IsCounted ⦃u = ascii⦄ gateway policies rules_file disk
