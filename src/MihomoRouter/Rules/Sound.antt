-- ===== src/MihomoRouter/Rules/Sound.antt =====
-- The loop over the rules keeps what `Rules/Targets` says of its state.
use gpn.Prelude.{ℕ, suc, List, [], ◌∷◌, none, inl, inr, refl, is_empty, Bool-cases, All-mono}
use gpn.Prelude.Dict.{Dict}
use gpn.MihomoRouter.Rules.Targets.{
  IsSound, IsSoundOutcome, IsRouterRule, Outcome-cases, provide_stored-IsSound,
  validate_parts-Pinned, router_type-cases, widen, add_rule-IsSound, cache_remote_provider-Pinned,
  matcher, final, provide-IsSound,
}
use gpn.Text.{Unicode, Text}
use gpn.MihomoRouter.Provider.{
  passed, refused, Gateway, Checked, Disk, validate_provider_url, cache_remote_provider,
}
use gpn.MihomoRouter.Rules.{
  rule_set, typed_line, Router, fields_line, raw_line, router_lines, route, State, remote_set,
  router_line, resolve_target, after_check, ends_with, rule_text, file_lines, codes, eqb, before,
  rule_type, lower, first_field, starts_with, fields, prefix_match, scheme_re, is_in, final_policy,
  set_types,
}
use gpn.MihomoRouter.Policy.Targets.{IsTarget, resolve_target-IsResolvedTarget}
use gpn.RulesImport.Fetch.Resolve.{Pinned}

module _ ⦃u : Unicode⦄ (g : Gateway) (policy_map : Dict Text) where
  after_check-IsSound :
      (ln : ℕ) (value tag target : Text) (x : Checked × State g.network) (s : Router g)
      → IsTarget s.used target
      → Pinned g.network none x.1.log
      → IsSound g s
      → IsSoundOutcome g (after_check g policy_map ln value tag target x s)
  after_check-IsSound ln value tag target (refused why, st) s k p h = p
  after_check-IsSound ln value tag target (passed, st) s k p h =
      provide_stored-IsSound g ln tag target
        (cache_remote_provider g value tag (record s.disk { net = st })) s k
        (cache_remote_provider-Pinned g value tag (record s.disk { net = st }) p) h

  rule_set-IsSound :
      (ln : ℕ) (value target : Text) (s : Router g)
      → IsTarget s.used target
      → IsSound g s
      → IsSoundOutcome g (rule_set g policy_map ln value target s)
  unfolding rule_set remote_set validate_provider_url
  rule_set-IsSound ln value target s k h =
      elim (Bool-cases (ends_with (codes ".srs") (before b'?' (lower value)))) [
        | inl e ↦ rw e h.pinned
        | inr e ↦ rw e (elim (Bool-cases (starts_with (codes "https://") (lower value))) [
          | inl f ↦ rw f (
              after_check-IsSound ln value (g.tag_of value) target
                (validate_provider_url g value s.disk.net) s k
                (validate_parts-Pinned g (g.network.urlsplit value) s.disk.net h.pinned) h)
          | inr f ↦ rw f (elim (Bool-cases (prefix_match scheme_re value)) [
            | inl i ↦ rw i h.pinned
            | inr i ↦ rw i (provide-IsSound g (g.tag_of value) target _ s k h)
          ])
        ])
      ]

  typed_line-IsSound :
      (ln : ℕ) (typ value target : Text) (s : Router g)
      → IsTarget s.used target
      → IsSound g s
      → IsSoundOutcome g (typed_line g policy_map ln typ value target s)
  unfolding typed_line
  typed_line-IsSound ln typ value target s k h = elim (router_type-cases (rule_type typ)) [
    | inr (t, e, i) ↦
        rw (e, typed_line) (add_rule-IsSound g _ s (matcher t value target i k refl) h)
    | inl e ↦
        rw (e, typed_line)
          (elim (Bool-cases (is_in (rule_type typ) set_types)) [
            | inl f ↦ rw f (rule_set-IsSound ln value target s k h)
            | inr f ↦ rw f h.pinned
          ])
  ]

  -- the exits in use after a target is resolved
  used-IsSound :
      (p : Text) (s : Router g)
      → IsSound g s
      → IsSound g (record s { used = (resolve_target g.listing policy_map p s.used).1 })
  used-IsSound p s h = record {
    rules =
        All-mono (IsRouterRule s.providers s.used) (IsRouterRule s.providers _)
          (widen s.providers s.used _
            (resolve_target-IsResolvedTarget g.listing policy_map p s.used).grows)
          s.rules h.rules;
    pinned = h.pinned;
  }

  fields_line-IsSound :
      (ln : ℕ) (parts : List Text) (s : Router g)
      → IsSound g s
      → IsSoundOutcome g (fields_line g policy_map ln parts s)
  unfolding fields_line
  fields_line-IsSound ln (typ ∷ value ∷ p ∷ ps) s h =
      typed_line-IsSound ln typ value _ _
        (resolve_target-IsResolvedTarget g.listing policy_map p s.used).target (used-IsSound p s h)
  fields_line-IsSound ln [] s h = h.pinned
  fields_line-IsSound ln _ s h = h.pinned

  raw_line-IsSound :
      (ln : ℕ) (raw : Text) (s : Router g)
      → IsSound g s
      → IsSoundOutcome g (raw_line g policy_map ln raw s)
  unfolding raw_line router_line
  raw_line-IsSound ln raw s h = elim (Bool-cases (is_empty (rule_text raw))) [
    | inl e ↦ rw e h
    | inr e ↦
        rw e
          (elim (Bool-cases
            (eqb (rule_type (first_field g policy_map (fields (rule_text raw)))) (codes "FINAL"))) [
              | inl f ↦ rw f (
                  add_rule-IsSound g _ _
                    (final _
                      (resolve_target-IsResolvedTarget g.listing policy_map
                        (final_policy g policy_map (fields (rule_text raw))) s.used).target
                      refl)
                    (used-IsSound (final_policy g policy_map (fields (rule_text raw))) s h))
              | inr f ↦ rw f (fields_line-IsSound ln (fields (rule_text raw)) s h)
            ])
  ]

  router_lines-IsSound :
      (lines : List Text) (ln : ℕ) (s : Router g)
      → IsSound g s
      → IsSoundOutcome g (router_lines g policy_map ln lines s)
  unfolding router_lines
  router_lines-IsSound [] ln s h = h
  router_lines-IsSound (raw ∷ rest) ln s h =
      elim (Outcome-cases g (raw_line g policy_map ln raw s)) [
        | inl (s', e) ↦
            rw (e, router_lines)
              (router_lines-IsSound rest (suc ln) s' (rw e at (raw_line-IsSound ln raw s h)))
        | inr (n, why, s', e) ↦ rw (e, router_lines) (rw e at (raw_line-IsSound ln raw s h))
      ]

  -- Whatever the rules file, the policy map, the exits' directory and the network, from a log in
  -- which every connection is pinned: if the loop over the rules ends, each rule of the
  -- configuration is "MATCH,target", or one of the six matchers with a value and a target, or
  -- "RULE-SET,tag,target" with a tag that `rule-providers` defines, and each target is DIRECT,
  -- REJECT or one of `used_exits`. On every way out, each connection of the providers' downloads
  -- is pinned to a global address of the last resolution.
  pub route-IsSound :
      (file : Text) (d : Disk g)
      → Pinned g.network none d.net.log
      → IsSoundOutcome g (route g policy_map file d)
  unfolding route
  route-IsSound file d h =
      router_lines-IsSound (file_lines file) 1 _ (record { rules = tt; pinned = h })
