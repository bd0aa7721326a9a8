-- ===== src/SingboxRouter/Route/Invariant.antt =====
-- The invariant of the loop of singbox-router-config.py, and the three ways to add to it.
use gpn.Prelude.{
  true, false, List, [], ◌∷◌, ◌++◌, ◌≡◌, ◌⊎◌, inl, inr, ap, ◌∙◌, some, All, All-append, All-mono,
}
use gpn.Text.{Text, codes}
use gpn.Text.Equality.{eqb, is_in, is_in-append}
use gpn.SingboxRouter.Exits.{Outbound, tag_of}
use gpn.SingboxRouter.RuleSets.{
  Kind, domain, domain_suffix, domain_keyword, ip_cidr, rule_set, RouteRule, RuleSet, set_tag,
  Router, Result, ok, dies, ◌>>=◌, add_set, add_rule,
}
use gpn.SingboxRouter.Route.Tags.{
  out_tags, out_tags-last, set_tags-last, set_tags, Distinct-last, Distinct,
}

-- A tag that is no `direct` and no `block`.
abbrev pub IsOther : Text → Type 0
IsOther t = (eqb (codes "direct") t ≡ false) × (eqb (codes "block") t ≡ false)

abbrev pub Known : List Text → Text → Type 0
Known tags t = (is_in t tags ≡ true) ⊎ ((t ≡ codes "direct") ⊎ (t ≡ codes "block"))

-- The rule's outbound and its rule set, if it has one, are there.
abbrev pub SetOk : Kind → Text → List Text → Type 0
SetOk rule_set v sets = is_in v sets ≡ true
SetOk _ v sets = Unit

abbrev pub RuleOk : List Text → List Text → RouteRule → Type 0
RuleOk outs sets r = Known outs r.outbound × SetOk r.kind r.value sets

pub record IsSound (s : Router) : Type 0 where
  pub outs : out_tags s.outbounds ≡ s.ob_tags
  pub sets : set_tags s.rule_sets ≡ s.rs_tags
  pub outs_once : Distinct s.ob_tags
  pub others : All IsOther s.ob_tags
  pub sets_once : Distinct s.rs_tags
  pub rules : All (RuleOk s.ob_tags s.rs_tags) s.route_rules
  pub last : Known s.ob_tags s.final

abbrev pub Returns {ℓ} : {A : Type ℓ} → (A → Type 0) → Result A → Type 0
Returns P (ok a) = P a
Returns P (dies why) = Unit

pub Returns-bind {ℓ κ} :
    {A : Type ℓ} {B : Type κ} (P : A → Type 0) (Q : B → Type 0) (m : Result A) (f : A → Result B)
    → Returns P m
    → ((a : A) → P a → Returns Q (f a))
    → Returns Q (m >>= f)
Returns-bind P Q (ok a) f h k = k a h
Returns-bind P Q (dies why) f h k = tt

pub Known-last : (outs : List Text) (x t : Text) → Known outs t → Known (outs ++ x ∷ []) t
Known-last outs x t (inl h) = inl (is_in-append t outs (x ∷ []) h)
Known-last outs x t (inr h) = inr h

pub SetOk-last :
    (k : Kind) (v : Text) (sets : List Text) (x : Text)
    → SetOk k v sets
    → SetOk k v (sets ++ x ∷ [])
SetOk-last domain v sets x h = tt
SetOk-last domain_suffix v sets x h = tt
SetOk-last domain_keyword v sets x h = tt
SetOk-last ip_cidr v sets x h = tt
SetOk-last rule_set v sets x h = is_in-append v sets (x ∷ []) h

-- a new outbound, with a tag that is new
pub add_outbound-IsSound :
    (name : Text) (o : Outbound) (s : Router)
    → tag_of o ≡ some name
    → is_in name s.ob_tags ≡ false
    → IsOther name
    → IsSound s
    → IsSound (record s { outbounds = s.outbounds ++ o ∷ []; ob_tags = s.ob_tags ++ name ∷ [] })
add_outbound-IsSound name o s t n k h = record {
  outs = out_tags-last s.outbounds o name t ∙ ap (λ x. x ++ name ∷ []) h.outs;
  sets = h.sets;
  outs_once = Distinct-last s.ob_tags name h.outs_once n;
  others = All-append IsOther s.ob_tags (name ∷ []) h.others (k, tt);
  sets_once = h.sets_once;
  rules =
      All-mono (RuleOk s.ob_tags s.rs_tags) (RuleOk (s.ob_tags ++ name ∷ []) s.rs_tags)
        (λ r g. (Known-last s.ob_tags name r.outbound g.0, g.1)) s.route_rules h.rules;
  last = Known-last s.ob_tags name s.final h.last;
}

-- a new rule set, with a tag that is new
pub add_set-IsSound :
    (tag : Text) (r : RuleSet) (s : Router)
    → set_tag r ≡ tag
    → is_in tag s.rs_tags ≡ false
    → IsSound s
    → IsSound (add_set tag r s)
add_set-IsSound tag r s t n h = record {
  outs = h.outs;
  sets =
      set_tags-last s.rule_sets r
      ∙ (ap (λ x. x ++ set_tag r ∷ []) h.sets ∙ ap (λ x. s.rs_tags ++ x ∷ []) t);
  outs_once = h.outs_once;
  others = h.others;
  sets_once = Distinct-last s.rs_tags tag h.sets_once n;
  rules =
      All-mono (RuleOk s.ob_tags s.rs_tags) (RuleOk s.ob_tags (s.rs_tags ++ tag ∷ []))
        (λ r g. (g.0, SetOk-last r.kind r.value s.rs_tags tag g.1)) s.route_rules h.rules;
  last = h.last;
}

pub add_rule-IsSound :
    (k : Kind) (v out : Text) (s : Router)
    → Known s.ob_tags out
    → SetOk k v s.rs_tags
    → IsSound s
    → IsSound (add_rule k v out s)
add_rule-IsSound k v out s g e h = record {
  outs = h.outs;
  sets = h.sets;
  outs_once = h.outs_once;
  others = h.others;
  sets_once = h.sets_once;
  rules = All-append (RuleOk s.ob_tags s.rs_tags) s.route_rules _ h.rules ((g, e), tt);
  last = h.last;
}
