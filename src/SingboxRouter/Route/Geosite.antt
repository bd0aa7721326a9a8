-- ===== src/SingboxRouter/Route/Geosite.antt =====
-- The tags of GEOSITE lists in singbox-router-config.py leave out the marks of a list's name.
use gpn.Prelude.{ℕ, false, [], ◌∷◌, ◌++◌, ◌≡◌, refl}
use gpn.Prelude.Dict.{Dict}
use gpn.Text.{Text, codes, Unicode, lower}
use gpn.Text.Equality.{is_in, is_in-last}
use gpn.SingboxRouter.RuleSets.{
  RouteRule, rule_set, Host, Router, ok, ◌>>=◌, remote, add_remote_srs,
}
use gpn.SingboxRouter.Route.{typed_rule, only_alnum, geosite_srs, geo_rule}

-- A rule for the addresses and domains of a list.
abbrev pub set_rule : Text → Text → RouteRule
set_rule tag outbound = record { kind = rule_set; value = tag; outbound = outbound }

module _ ⦃u : Unicode⦄ (h : Host) (m : Dict Text) where
  abbrev geosite_tag : Text → Text
  geosite_tag v = codes "geosite_" ++ only_alnum (lower v)

  geosite_step :
      (ln : ℕ) (v out : Text) (s : Router)
      → typed_rule h m ln (codes "GEOSITE") v out s
        ≡ ok (geo_rule h m (geosite_tag v) (geosite_srs (lower v)) out s)
  unfolding typed_rule
  geosite_step ln v out s = refl

  -- Of two GEOSITE rules whose lists differ only in the case of letters and in characters that the
  -- tag leaves out, the second adds no list: both rules use the list of the first, where a list
  -- with its tag was not used before.
  pub geosite_shared :
      (ln : ℕ) (v w out other : Text) (s : Router)
      → is_in (geosite_tag v) s.rs_tags ≡ false
      → only_alnum (lower w) ≡ only_alnum (lower v)
      → (t : Router) × ((typed_rule h m ln (codes "GEOSITE") v out s
            >>= typed_rule h m ln (codes "GEOSITE") w other)
          ≡ ok t)
        × (t.rule_sets ≡ s.rule_sets ++ remote (geosite_tag v) (geosite_srs (lower v)) ∷ [])
        × (t.route_rules
            ≡ (s.route_rules ++ set_rule (geosite_tag v) out ∷ [])
              ++ set_rule (geosite_tag v) other ∷ [])
  unfolding add_remote_srs
  geosite_shared ln v w out other s n e =
      let first = geo_rule h m (geosite_tag v) (geosite_srs (lower v)) out s in
      (
        geo_rule h m (geosite_tag w) (geosite_srs (lower w)) other first,
        rw (geosite_step ln v out s) (geosite_step ln w other first),
        rw (e, n) (rw (is_in-last (geosite_tag v) s.rs_tags) refl),
        rw (e, n) (rw (is_in-last (geosite_tag v) s.rs_tags) refl),
      )
