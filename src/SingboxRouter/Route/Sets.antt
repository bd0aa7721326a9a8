-- ===== src/SingboxRouter/Route/Sets.antt =====
-- The rule sets of singbox-router-config.py: a rule that names one finds it.
use gpn.Prelude.{
  Bool, true, false, ◌&&◌, ◌≡◌, inl, inr, refl, sym, Option, none, some, Bool-cases, subst,
}
use gpn.Prelude.Dict.{Dict}
use gpn.Text.{Text, codes, Unicode, lower}
use gpn.Text.Equality.{is_in, is_in-last}
use gpn.Text.Search.{starts_with, ends_with}
use gpn.SingboxRouter.Lists.{SourceRule, is_empty_rule, parse_rule_list}
use gpn.SingboxRouter.RuleSets.{
  Host, absent, unreadable, content, rule_set, RuleSet, set_tag, Router, ok, add_set,
  add_remote_srs, add_local_source, use_set, fetched, or_skipped, or_dies, from_file, rule_source,
  handle_ruleset, LocalFile, content,
}
use gpn.SingboxRouter.Route.{geo_rule}
use gpn.SingboxRouter.Route.Invariant.{
  IsSound, Known, add_set-IsSound, Returns, add_rule-IsSound, Returns-bind,
}

-- A rule set with the tag is there if the flag says so, and the outbounds are those of before.
abbrev pub HasSet : Text → Router → Router × Bool → Type 0
HasSet tag s (t, found) =
    IsSound t × (t.ob_tags ≡ s.ob_tags) × (found ≡ true → is_in tag t.rs_tags ≡ true)

pub add_remote_srs-HasSet :
    (tag url : Text) (s : Router) → IsSound s → HasSet tag s (add_remote_srs tag url s, true)
unfolding add_remote_srs
add_remote_srs-HasSet tag url s g = elim (Bool-cases (is_in tag s.rs_tags)) [
  | inl e ↦ rw e (g, refl, λ _. e)
  | inr e ↦ rw e (add_set-IsSound tag _ s refl e g, refl, λ _. is_in-last tag s.rs_tags)
]

pub new_set-HasSet :
    (tag : Text) (r : RuleSet) (s : Router)
    → set_tag r ≡ tag
    → is_in tag s.rs_tags ≡ false
    → IsSound s
    → HasSet tag s (add_set tag r s, true)
new_set-HasSet tag r s t n g = (add_set-IsSound tag r s t n g, refl, λ _. is_in-last tag s.rs_tags)

abbrev pub HasSetOr : Text → Router → Option (Router × Bool) → Type 0
HasSetOr tag s none = Unit
HasSetOr tag s (some r) = HasSet tag s r

module _ ⦃u : Unicode⦄ (h : Host) where
  pub add_local_source-HasSet :
      (tag : Text) (r : SourceRule) (s : Router)
      → IsSound s
      → HasSetOr tag s (add_local_source h tag r s)
  unfolding add_local_source
  add_local_source-HasSet tag r s g = elim (Bool-cases (is_in tag s.rs_tags)) [
    | inl e ↦ rw e (g, refl, λ _. e)
    | inr e ↦ rw e (elim (Bool-cases (is_empty_rule r)) [
      | inl f ↦ rw f (g, refl, λ x. cc)
      | inr f ↦ rw f (elim (Bool-cases (h.saves tag)) [
        | inr i ↦ rw i tt
        | inl i ↦ rw i (elim (Bool-cases (h.compiles tag)) [
          | inl k ↦ rw k (new_set-HasSet tag _ s refl e g)
          | inr k ↦ rw k (new_set-HasSet tag _ s refl e g)
        ])
      ])
    ])
  ]

  or_skipped-HasSet :
      (tag : Text) (s : Router) (o : Option (Router × Bool))
      → IsSound s
      → HasSetOr tag s o
      → HasSet tag s (or_skipped h s o)
  or_skipped-HasSet tag s none g k = (g, refl, λ x. cc)
  or_skipped-HasSet tag s (some r) g k = k

  or_dies-HasSet :
      (src tag : Text) (s : Router) (o : Option (Router × Bool))
      → HasSetOr tag s o
      → Returns (HasSet tag s) (or_dies h src o)
  or_dies-HasSet src tag s none k = tt
  or_dies-HasSet src tag s (some r) k = k

  pub fetched-HasSet :
      (tag : Text) (o : Option Text) (s : Router) → IsSound s → HasSet tag s (fetched h tag o s)
  fetched-HasSet tag none s g = (g, refl, λ x. cc)
  fetched-HasSet tag (some txt) s g =
      or_skipped-HasSet tag s (add_local_source h tag (parse_rule_list txt) s) g
        (add_local_source-HasSet tag (parse_rule_list txt) s g)

  pub from_file-HasSet :
      (src tag : Text) (f : LocalFile) (s : Router)
      → is_in tag s.rs_tags ≡ false
      → IsSound s
      → Returns (HasSet tag s) (from_file h src tag f s)
  from_file-HasSet src tag absent s n g = (g, refl, λ x. cc)
  from_file-HasSet src tag unreadable s n g =
      elim (Bool-cases (ends_with (codes ".srs") (lower src))) [
        | inl e ↦ rw e (new_set-HasSet tag _ s refl n g)
        | inr e ↦ rw e tt
      ]
  from_file-HasSet src tag (content txt) s n g =
      elim (Bool-cases (ends_with (codes ".srs") (lower src))) [
        | inl e ↦ rw e (new_set-HasSet tag _ s refl n g)
        | inr e ↦ rw e (
            or_dies-HasSet src tag s (add_local_source h tag (parse_rule_list txt) s)
              (add_local_source-HasSet tag (parse_rule_list txt) s g))
      ]

  pub rule_source-HasSet :
      (src tag : Text) (s : Router) → IsSound s → Returns (HasSet tag s) (rule_source h src tag s)
  unfolding rule_source
  rule_source-HasSet src tag s g =
      elim (Bool-cases (starts_with (codes "http") src && ends_with (codes ".srs") (lower src))) [
        | inl e ↦ rw e (add_remote_srs-HasSet tag src s g)
        | inr e ↦ rw e (elim (Bool-cases (is_in tag s.rs_tags)) [
          | inl f ↦ rw f (g, refl, λ _. f)
          | inr f ↦ rw f (elim (Bool-cases (h.is_cached tag)) [
            | inl k ↦ rw k (new_set-HasSet tag _ s refl f g)
            | inr k ↦ rw k (elim (Bool-cases (starts_with (codes "http") src)) [
              | inl i ↦ rw i (fetched-HasSet tag (h.fetch src) s g)
              | inr i ↦ rw i (from_file-HasSet src tag (h.local_file src) s f g)
            ])
          ])
        ])
      ]

  pub use_set-IsSound :
      (tag out : Text) (s : Router) (r : Router × Bool)
      → Known s.ob_tags out
      → HasSet tag s r
      → IsSound (use_set tag out r)
  use_set-IsSound tag out s (t, false) k g = g.0
  use_set-IsSound tag out s (t, true) k g =
      add_rule-IsSound rule_set tag out t (subst (λ x. Known x out) (sym g.1) k) (g.2 refl) g.0

  pub handle_ruleset-IsSound :
      (src out : Text) (s : Router)
      → Known s.ob_tags out
      → IsSound s
      → Returns IsSound (handle_ruleset h src out s)
  unfolding handle_ruleset
  handle_ruleset-IsSound src out s k g =
      Returns-bind (HasSet (h.tag_of src) s) IsSound (rule_source h src (h.tag_of src) s)
        (λ r. ok (use_set (h.tag_of src) out r)) (rule_source-HasSet src (h.tag_of src) s g)
        (λ r x. use_set-IsSound (h.tag_of src) out s r k x)

  pub geo_rule-IsSound :
      (m : Dict Text) (tag url out : Text) (s : Router)
      → Known s.ob_tags out
      → IsSound s
      → IsSound (geo_rule h m tag url out s)
  geo_rule-IsSound m tag url out s k g =
      use_set-IsSound tag out s (add_remote_srs tag url s, true) k
        (add_remote_srs-HasSet tag url s g)
