-- ===== src/SingboxRouter/Route/Targets.antt =====
-- The policies of singbox-router-config.py: each resolves to an outbound that is there.
use gpn.Prelude.{false, [], ◌≡◌, inl, inr, refl, sym, ap, Option, none, some, Bool-cases, subst, ℤ}
use gpn.Prelude.Dict.{Dict, get, put, get-put_self}
use gpn.Text.{Text, codes, Unicode, lower}
use gpn.Text.Equality.{eqb, eqb_iff, is_in, is_in-last}
use gpn.Text.Strip.{strip}
use gpn.ExitConfig.Library.{text, Value, get_or}
use gpn.MihomoRouter.Policy.{direct_targets}
use gpn.SingboxRouter.Exits.{
  Outbound, tag_of, ExitSource, json, wg_conf, missing, build_exit_outbound, with_tag,
  main_outbound, wg_to_outbound, Wireguard, wg_lines, as_outbound, wg_outbound,
}
use gpn.SingboxRouter.RuleSets.{
  Host, Router, block_targets, with_exit, materialize_target, target_of, ensure_policy,
}
use gpn.Text.Split.{file_lines}
use gpn.MihomoRouter.Exits.{WgConfig, rpartition, digits_or}
use gpn.ExitConfig.Endpoint.{rcut}
use gpn.SingboxRouter.Route.Tags.{AllSome}
use gpn.SingboxRouter.Route.Invariant.{Known, IsOther, IsSound, Returns, add_outbound-IsSound}

-- The outbound of a WireGuard file has the exit's name for its tag.
pub wg_outbound-tag :
    ⦃u : Unicode⦄ (name host : Text) (port mtu : Option (Option ℤ)) (c : WgConfig)
    → AllSome (λ (w : Wireguard). w.tag ≡ name) (wg_outbound name host port mtu c)
wg_outbound-tag name host none mtu c = tt
wg_outbound-tag name host (some port) none c = tt
wg_outbound-tag name host (some port) (some mtu) c = refl

pub wg_to_outbound-tag :
    ⦃u : Unicode⦄ (name file : Text)
    → AllSome (λ (w : Wireguard). w.tag ≡ name) (wg_to_outbound name file)
unfolding wg_to_outbound
wg_to_outbound-tag name file =
    let c = wg_lines (file_lines file) (record { iface = []; peer = []; in_interface = false }) in
    let endpoint = get_or (get (codes "endpoint") c.peer) [] in
    let (host, port) = rpartition (rcut b':' endpoint) endpoint in
    wg_outbound-tag name host (digits_or port none)
      (digits_or (get_or (get (codes "mtu") c.iface) []) none) c

pub build_exit-tag_of :
    ⦃u : Unicode⦄ (name : Text) (src : ExitSource) (o : Outbound)
    → build_exit_outbound name src ≡ some o
    → tag_of o ≡ some name
unfolding build_exit_outbound tag_of
build_exit-tag_of name (json none) o h = cc
build_exit-tag_of name (json (some f)) o h = tagged (main_outbound f.outbounds f.routes) o h
  where
    tagged :
        (d : Option (Dict Value)) (o : Outbound) → with_tag name d ≡ some o → tag_of o ≡ some name
    tagged none o h = cc
    tagged (some d) o h =
        let same : Outbound.stored (put (codes "tag") (text name) d) ≡ o = cc in
        rw (← same) (rw (get-put_self (codes "tag") (text name) d) refl)
build_exit-tag_of name (wg_conf file) o h =
    tagged (wg_to_outbound name file) (wg_to_outbound-tag name file) o h
  where
    tagged :
        (w : Option Wireguard)
        → AllSome (λ (w : Wireguard). w.tag ≡ name) w
        → (o : Outbound) → as_outbound w ≡ some o
        → tag_of o ≡ some name
    tagged none k o h = cc
    tagged (some w) k o h = let same : Outbound.wireguard w ≡ o = cc in rw (← same) (ap some k)
build_exit-tag_of name missing o h = cc

module _ ⦃u : Unicode⦄ (h : Host) (m : Dict Text) where
  abbrev pub IsResolved : Text × Router → Type 0
  IsResolved r = Known r.1.ob_tags r.0 × IsSound r.1

  pub with_exit-IsResolved :
      (name : Text) (o : Option Outbound) (s : Router)
      → ((p : Outbound) → o ≡ some p → tag_of p ≡ some name)
      → is_in name s.ob_tags ≡ false
      → IsOther name
      → IsSound s
      → Returns IsResolved (with_exit h m name o s)
  with_exit-IsResolved name none s t n k g = tt
  with_exit-IsResolved name (some o) s t n k g =
      (inl (is_in-last name s.ob_tags), add_outbound-IsSound name o s (t o refl) n k g)

  -- a name that is no fixed target has another tag
  pub name-IsOther :
      (name : Text)
      → is_in (lower name) direct_targets ≡ false
      → is_in (lower name) block_targets ≡ false
      → IsOther name
  unfolding is_in lower eqb
  name-IsOther name d b = (
    elim (Bool-cases (eqb (codes "direct") name)) [
      | inr e ↦ e
      | inl e ↦
          let x =
            subst (λ n. is_in (lower n) direct_targets ≡ false)
              (sym ((eqb_iff (codes "direct") name).0 e)) d in
          cc
    ],
    elim (Bool-cases (eqb (codes "block") name)) [
      | inr e ↦ e
      | inl e ↦
          let x =
            subst (λ n. is_in (lower n) block_targets ≡ false)
              (sym ((eqb_iff (codes "block") name).0 e)) b in
          cc
    ],
  )

  pub materialize-IsResolved :
      (t : Text) (s : Router) → IsSound s → Returns IsResolved (materialize_target h m t s)
  unfolding materialize_target
  materialize-IsResolved t s g = elim (Bool-cases (is_in (lower (strip t)) direct_targets)) [
    | inl e ↦ rw e (inr (inl refl), g)
    | inr e ↦ rw e (elim (Bool-cases (is_in (lower (strip t)) block_targets)) [
      | inl f ↦ rw f (inr (inr refl), g)
      | inr f ↦ rw f (elim (Bool-cases (is_in (strip t) s.ob_tags)) [
        | inl k ↦ rw k (inl k, g)
        | inr k ↦ rw k (
            with_exit-IsResolved (strip t) (build_exit_outbound (strip t) (h.exits (strip t))) s
              (λ p. build_exit-tag_of (strip t) (h.exits (strip t)) p) k
              (name-IsOther (strip t) e f) g)
      ])
    ])
  ]

  pub ensure_policy-IsResolved :
      (p : Text) (s : Router) → IsSound s → Returns IsResolved (ensure_policy h m p s)
  unfolding ensure_policy
  ensure_policy-IsResolved p s g = elim (Bool-cases (is_in (lower (strip p)) direct_targets)) [
    | inl e ↦ rw e (inr (inl refl), g)
    | inr e ↦ rw e (elim (Bool-cases (is_in (lower (strip p)) block_targets)) [
      | inl f ↦ rw f (inr (inr refl), g)
      | inr f ↦ rw f (materialize-IsResolved (target_of h m (strip p)) s g)
    ])
  ]
