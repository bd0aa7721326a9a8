-- ===== src/SingboxRouter/Route/Sound.antt =====
-- The configuration of singbox-router-config.py refers only to outbounds and rule sets that it
-- has, and has each of them once.
use mathlib.Core.Bool.{or-true}
use gpn.Prelude.{
  ℕ, suc, Bool, true, false, List, [], ◌∷◌, ◌++◌, ◌≡◌, inl, inr, refl, ap, ◌∙◌, Option, All,
  All-mono, is_empty, if◌then◌else◌, append_assoc,
}
use gpn.Prelude.Dict.{Dict}
use gpn.Text.{Text, codes, Unicode, lower}
use gpn.Text.Equality.{eqb, is_in, is_in-append}
use gpn.MihomoRouter.Policy.{load_policy_map}
use gpn.SingboxRouter.Exits.{Outbound, direct, block, tag_of}
use gpn.SingboxRouter.RuleSets.{
  Host, Kind, domain, domain_suffix, domain_keyword, ip_cidr, Router, Result, ok, dies, ◌>>=◌,
  ensure_policy, add_rule,
}
use gpn.Text.Split.{file_lines}
use gpn.MihomoRouter.Rules.{rule_type, fields, rule_text}
use gpn.SingboxRouter.Route.{
  typed_rule, set_final, rule_with, parts_line, route_line, route_lines, start, Config, config_of,
  router_config, only_alnum, geosite_srs, geoip_srs,
}
use gpn.SingboxRouter.Route.Invariant.{
  Returns, Known, IsSound, IsOther, SetOk, Returns-bind, RuleOk, add_rule-IsSound,
}
use gpn.SingboxRouter.Route.Tags.{
  out_tags, Distinct, out_tags-append, Distinct-last, set_tags, not_in-last,
}
use gpn.SingboxRouter.Route.Targets.{IsResolved, ensure_policy-IsResolved}
use gpn.SingboxRouter.Route.Sets.{geo_rule-IsSound, handle_ruleset-IsSound}

-- `Returns` as a family that does not compute, so that a rule for it fits a branch.
record Keeps (r : Result Router) : Type 0 where
  holds : Returns IsSound r

Keeps-if : (b : Bool) {x y : Result Router} → Keeps x → Keeps y → Keeps (if b then x else y)
Keeps-if true h k = h
Keeps-if false h k = k

module _ ⦃u : Unicode⦄ (h : Host) (m : Dict Text) where
  typed_rule-Keeps :
      (ln : ℕ) (typ v out : Text) (s : Router)
      → Known s.ob_tags out
      → IsSound s
      → Keeps (typed_rule h m ln typ v out s)
  unfolding typed_rule
  typed_rule-Keeps ln typ v out s k g =
      let plain : (x : Kind) → SetOk x v s.rs_tags → Keeps (ok (add_rule x v out s)) =
        λ x e. record { holds = add_rule-IsSound x v out s k e g } in
      let low = lower v in
      Keeps-if (eqb typ (codes "DOMAIN")) (plain domain tt) (
        Keeps-if (eqb typ (codes "DOMAIN-SUFFIX")) (plain domain_suffix tt) (
          Keeps-if (eqb typ (codes "DOMAIN-KEYWORD")) (plain domain_keyword tt) (
            Keeps-if (is_in typ (codes "IP-CIDR" ∷ codes "IP-CIDR6" ∷ [])) (plain ip_cidr tt) (
              Keeps-if (eqb typ (codes "GEOSITE"))
                (record {
                  holds =
                      geo_rule-IsSound h m (codes "geosite_" ++ only_alnum low) (geosite_srs low)
                        out s k g;
                })
                (Keeps-if (eqb typ (codes "GEOIP"))
                  (record {
                    holds =
                        geo_rule-IsSound h m (codes "geoip_" ++ only_alnum low) (geoip_srs low) out
                          s k g;
                  })
                  (Keeps-if (is_in typ (codes "RULE-SET" ∷ codes "RULESET" ∷ []))
                    (record { holds = handle_ruleset-IsSound h v out s k g })
                    (record { holds = tt })))))))

  final_line-Keeps :
      (p : Text) (s : Router) → IsSound s → Keeps (ensure_policy h m p s >>= set_final h m)
  final_line-Keeps p s g = record {
    holds =
        Returns-bind (IsResolved h m) IsSound (ensure_policy h m p s) (set_final h m)
          (ensure_policy-IsResolved h m p s g) (λ r x. kept r x);
  }
    where
      kept : (r : Text × Router) → IsResolved h m r → Returns IsSound (set_final h m r)
      kept (tag, t) x = record {
        outs = x.1.outs;
        sets = x.1.sets;
        outs_once = x.1.outs_once;
        others = x.1.others;
        sets_once = x.1.sets_once;
        rules = x.1.rules;
        last = x.0;
      }

  rule_line-Keeps :
      (ln : ℕ) (typ v p : Text) (s : Router)
      → IsSound s
      → Keeps (ensure_policy h m p s >>= rule_with h m ln typ v)
  rule_line-Keeps ln typ v p s g = record {
    holds =
        Returns-bind (IsResolved h m) IsSound (ensure_policy h m p s) (rule_with h m ln typ v)
          (ensure_policy-IsResolved h m p s g)
          (λ r x. (typed_rule-Keeps ln typ v r.0 r.1 x.0 x.1).holds);
  }

  parts_line-Keeps :
      (ln : ℕ) (parts : List Text) (s : Router) → IsSound s → Keeps (parts_line h m ln parts s)
  unfolding parts_line
  parts_line-Keeps ln [] s g = record { holds = tt }
  parts_line-Keeps ln (t ∷ []) s g =
      Keeps-if (eqb (rule_type t) (codes "FINAL")) (record { holds = tt }) (record { holds = tt })
  parts_line-Keeps ln (t ∷ v ∷ []) s g =
      Keeps-if (eqb (rule_type t) (codes "FINAL")) (final_line-Keeps v s g) (record { holds = tt })
  parts_line-Keeps ln (t ∷ v ∷ p ∷ more) s g =
      Keeps-if (eqb (rule_type t) (codes "FINAL")) (final_line-Keeps v s g)
        (rule_line-Keeps ln (rule_type t) v p s g)

  route_line-Keeps :
      (ln : ℕ) (raw : Text) (s : Router) → IsSound s → Keeps (route_line h m ln raw s)
  unfolding route_line
  route_line-Keeps ln raw s g =
      Keeps-if (is_empty (rule_text raw)) (record { holds = g })
        (parts_line-Keeps ln (fields (rule_text raw)) s g)

  route_lines-IsSound :
      (ls : List Text) (ln : ℕ) (s : Router) → IsSound s → Returns IsSound (route_lines h m ln ls s)
  unfolding route_lines
  route_lines-IsSound [] ln s g = g
  route_lines-IsSound (raw ∷ rest) ln s g =
      Returns-bind IsSound IsSound (route_line h m ln raw s) (route_lines h m (suc ln) rest)
        (route_line-Keeps ln raw s g).holds (λ t x. route_lines-IsSound rest (suc ln) t x)

-- The configuration's references: every outbound that a rule or `final` names, and every rule set
-- that a rule names, is there, and no tag stands twice.
abbrev pub IsClosed : Config → Type 0
IsClosed c =
    All
      (λ r.
        (is_in r.outbound (out_tags c.outbounds) ≡ true)
        × SetOk r.kind r.value (set_tags c.rule_sets))
      c.rules
    × (is_in c.final (out_tags c.outbounds) ≡ true)
    × Distinct (out_tags c.outbounds)
    × Distinct (set_tags c.rule_sets)

abbrev pub ClosedOr : Result Config → Type 0
ClosedOr (ok c) = IsClosed c
ClosedOr (dies why) = Unit

tags_in :
    (outs : List Text) (t : Text)
    → Known outs t
    → is_in t (outs ++ codes "direct" ∷ codes "block" ∷ []) ≡ true
unfolding is_in eqb
tags_in outs t (inl h) = is_in-append t outs (codes "direct" ∷ codes "block" ∷ []) h
tags_in [] t (inr (inl e)) = rw e refl
tags_in [] t (inr (inr e)) = rw e refl
tags_in (x ∷ outs) t (inr e) = rw (tags_in outs t (inr e)) (or-true (eqb t x))

out_tags-ends :
    (os : List Outbound)
    → out_tags (os ++ direct ∷ block ∷ []) ≡ out_tags os ++ codes "direct" ∷ codes "block" ∷ []
unfolding tag_of
out_tags-ends os = out_tags-append os (direct ∷ block ∷ [])

others-not_in :
    (xs : List Text)
    → All IsOther xs
    → (is_in (codes "direct") xs ≡ false) × (is_in (codes "block") xs ≡ false)
unfolding is_in
others-not_in [] h = (refl, refl)
others-not_in (x ∷ xs) h = let (a, b) = others-not_in xs h.1 in (rw h.0.0 a, rw h.0.1 b)

Distinct-ends :
    (xs : List Text)
    → Distinct xs
    → All IsOther xs
    → Distinct (xs ++ codes "direct" ∷ codes "block" ∷ [])
unfolding eqb
Distinct-ends xs h k =
    let (a, b) = others-not_in xs k in
    rw (← append_assoc xs (codes "direct" ∷ []) (codes "block" ∷ [])) (
      Distinct-last (xs ++ codes "direct" ∷ []) (codes "block")
        (Distinct-last xs (codes "direct") h a)
        (not_in-last (codes "block") (codes "direct") xs b refl))

config_of-IsClosed : (s : Router) → IsSound s → ClosedOr (config_of s)
config_of-IsClosed s g =
    let e : out_tags (s.outbounds ++ direct ∷ block ∷ [])
        ≡ s.ob_tags ++ codes "direct" ∷ codes "block" ∷ [] =
      out_tags-ends s.outbounds ∙ ap (λ x. x ++ codes "direct" ∷ codes "block" ∷ []) g.outs in
    rw (e, g.sets)
      (
        All-mono (RuleOk s.ob_tags s.rs_tags)
            (λ r.
              (is_in r.outbound (s.ob_tags ++ codes "direct" ∷ codes "block" ∷ []) ≡ true)
              × SetOk r.kind r.value s.rs_tags)
            (λ r k. (tags_in s.ob_tags r.outbound k.0, k.1)) s.route_rules g.rules,
        tags_in s.ob_tags s.final g.last,
        Distinct-ends s.ob_tags g.outs_once g.others,
        g.sets_once,
      )

-- Whatever the rules, the policy map, the exits and the lists are: a configuration that is written
-- has the outbound of each rule and of `final`, and the rule set of each rule that names one, and
-- no two outbounds and no two rule sets have the same tag.
pub router_config-IsClosed :
    ⦃u : Unicode⦄ (h : Host) (policies : Option Text) (rules : Text)
    → ClosedOr (router_config h policies rules)
unfolding router_config
router_config-IsClosed h policies rules =
    closed (route_lines h (load_policy_map policies) 1 (file_lines rules) start)
      (route_lines-IsSound h (load_policy_map policies) (file_lines rules) 1 start started)
  where
    started : IsSound start
    started = record {
      outs = refl;
      sets = refl;
      outs_once = tt;
      others = tt;
      sets_once = tt;
      rules = tt;
      last = inr (inl refl);
    }

    closed : (r : Result Router) → Returns IsSound r → ClosedOr (r >>= config_of)
    closed (ok s) g = config_of-IsClosed s g
    closed (dies why) g = tt
