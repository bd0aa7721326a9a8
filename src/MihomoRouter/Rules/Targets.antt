-- ===== src/MihomoRouter/Rules/Targets.antt =====
-- What the rules of the router's configuration name, and where the download connects to.
use gpn.Prelude.{
  ℕ, true, List, [], ◌∷◌, Option, none, some, ◌≡◌, ◌⊎◌, inl, inr, refl, Bool-cases, All, All-append,
  All-mono, ◌||◌,
}
use gpn.Prelude.Dict.{Dict, has_key, has_key-put, has_key-put_self, put}
use gpn.Text.{Text, codes, Unicode}
use gpn.Text.Equality.{eqb, is_in, is_in-All}
use gpn.Text.Split.{join}
use gpn.RulesImport.Network.{Bytes, Url, Result, ok, err}
use gpn.RulesImport.Fetch.{State, fetch, is_set, text_of, port_or}
use gpn.RulesImport.Fetch.Resolve.{Pinned, Pinned-append}
use gpn.RulesImport.Fetch.Safety.{fetch-Pinned}
use gpn.MihomoRouter.Policy.Targets.{IsTarget}
use gpn.MihomoRouter.Provider.{
  Provider, Gateway, Disk, Reason, Stored, resolve_provider, validate_parts, cache_data,
  cache_remote_provider, failed, stored,
}
use gpn.MihomoRouter.Rules.{
  Router, Outcome, continues, dies, add_rule, provide, router_type, kept_types, provide_stored, not,
  lower,
}

abbrev pub router_types : List Text
router_types =
    codes "DOMAIN"
    ∷ codes "DOMAIN-SUFFIX"
    ∷ codes "DOMAIN-KEYWORD"
    ∷ codes "IP-CIDR"
    ∷ codes "GEOSITE"
    ∷ codes "GEOIP"
    ∷ []

-- A rule of the configuration, with the providers that it defines and the exits that it loads.
pub data IsRouterRule (providers : Dict Provider) (used : List Text) (r : Text) : Type 0 where
  matcher :
      (typ value target : Text)
      → is_in typ router_types ≡ true
      → IsTarget used target
      → r ≡ join (codes ",") (typ ∷ value ∷ target ∷ [])
      → IsRouterRule providers used r
  provided :
      (tag target : Text)
      → has_key tag providers ≡ true
      → IsTarget used target
      → r ≡ join (codes ",") (codes "RULE-SET" ∷ tag ∷ target ∷ [])
      → IsRouterRule providers used r
  final :
      (target : Text)
      → IsTarget used target
      → r ≡ join (codes ",") (codes "MATCH" ∷ target ∷ [])
      → IsRouterRule providers used r

-- Another state has the exits of this one.
abbrev pub Grows : List Text → List Text → Type 0
Grows used used' = (t : Text) → is_in t used ≡ true → is_in t used' ≡ true

IsTarget-Grows :
    (used used' : List Text) → Grows used used' → (t : Text) → IsTarget used t → IsTarget used' t
IsTarget-Grows used used' g t (inl e) = inl e
IsTarget-Grows used used' g t (inr (inl e)) = inr (inl e)
IsTarget-Grows used used' g t (inr (inr h)) = inr (inr (g t h))

pub widen :
    (ps : Dict Provider) (used used' : List Text)
    → Grows used used'
    → (r : Text) → IsRouterRule ps used r
    → IsRouterRule ps used' r
widen ps used used' g r (matcher typ value t h k e) =
    matcher typ value t h (IsTarget-Grows used used' g t k) e
widen ps used used' g r (provided tag t h k e) =
    provided tag t h (IsTarget-Grows used used' g t k) e
widen ps used used' g r (final t k e) = final t (IsTarget-Grows used used' g t k) e

with_provider :
    (tag : Text) (p : Provider) (ps : Dict Provider) (used : List Text) (r : Text)
    → IsRouterRule ps used r
    → IsRouterRule (put tag p ps) used r
with_provider tag p ps used r (matcher typ value t h k e) = matcher typ value t h k e
with_provider tag p ps used r (provided i t h k e) = provided i t (has_key-put i tag p ps h) k e
with_provider tag p ps used r (final t k e) = final t k e

pub router_type-cases :
    (typ : Text)
    → (router_type typ ≡ none)
      ⊎ ((t : Text) × (router_type typ ≡ some t) × (is_in t router_types ≡ true))
unfolding router_type
router_type-cases typ = elim (Bool-cases (is_in typ kept_types)) [
  | inl e ↦ inr (
    typ,
    rw e refl,
    is_in-All (λ t. is_in t router_types ≡ true) typ kept_types
        (refl, (refl, (refl, (refl, (refl, tt))))) e,
  )
  | inr e ↦ rw e (elim (Bool-cases (is_in typ (codes "IP-CIDR" ∷ codes "IP-CIDR6" ∷ []))) [
    | inl f ↦ rw f (inr (codes "IP-CIDR", refl, refl))
    | inr f ↦ rw f (inl refl)
  ])
]

pub Outcome-cases :
    (g : Gateway) (o : Outcome g)
    → ((s : Router g) × (o ≡ continues s))
      ⊎ ((n : ℕ) × (why : Reason) × (s : Router g) × (o ≡ dies n why s))
Outcome-cases g (continues s) = inl (s, refl)
Outcome-cases g (dies n why s) = inr (n, why, s, refl)

module _ ⦃u : Unicode⦄ (g : Gateway) where
  -- The loop's state between two lines.
  pub record IsSound (s : Router g) : Type 0 where
    pub rules : All (IsRouterRule s.providers s.used) s.rules
    pub pinned : Pinned g.network none s.disk.net.log

  abbrev pub IsSoundOutcome : Outcome g → Type 0
  IsSoundOutcome (continues s) = IsSound s
  IsSoundOutcome (dies ln why s) = Pinned g.network none s.disk.net.log

  pub add_rule-IsSound :
      (r : Text) (s : Router g)
      → IsRouterRule s.providers s.used r
      → IsSound s
      → IsSound (add_rule g r s)
  add_rule-IsSound r s k h = record {
    rules = All-append (IsRouterRule s.providers s.used) s.rules (r ∷ []) h.rules (k, tt);
    pinned = h.pinned;
  }

  pub provide-IsSound :
      (tag target : Text) (p : Provider) (s : Router g)
      → IsTarget s.used target
      → IsSound s
      → IsSound (provide g tag target p s)
  unfolding provide
  provide-IsSound tag target p s k h =
      add_rule-IsSound _ (record s { providers = put tag p s.providers })
        (provided tag target (has_key-put_self tag p s.providers) k refl)
        (record {
          rules =
              All-mono (IsRouterRule s.providers s.used)
                (IsRouterRule (put tag p s.providers) s.used)
                (with_provider tag p s.providers s.used) s.rules h.rules;
          pinned = h.pinned;
        })

  pub provide_stored-IsSound :
      (ln : ℕ) (tag target : Text) (x : Stored × Disk g) (s : Router g)
      → IsTarget s.used target
      → Pinned g.network none x.1.net.log
      → IsSound s
      → IsSoundOutcome (provide_stored g ln tag target x s)
  provide_stored-IsSound ln tag target (failed why, d) s k p h = p
  provide_stored-IsSound ln tag target (stored q, d) s k p h =
      provide-IsSound tag target q (record s { disk = d }) k
        (record { rules = h.rules; pinned = p })

  resolve_provider-Pinned :
      (host : Text) (port : Option ℕ) (st : State g.network)
      → Pinned g.network none st.log
      → Pinned g.network none (resolve_provider g host port st).1.log
  unfolding resolve_provider
  resolve_provider-Pinned host none st h = h
  resolve_provider-Pinned host (some port) st h = Pinned-append g.network none st.log _ h tt

  pub validate_parts-Pinned :
      (o : Option Url) (st : State g.network)
      → Pinned g.network none st.log
      → Pinned g.network none (validate_parts g o st).1.log
  unfolding validate_parts
  validate_parts-Pinned none st h = h
  validate_parts-Pinned (some parsed) st h =
      elim (Bool-cases (
        not (eqb (lower parsed.scheme) (codes "https"))
        || not (is_set parsed.hostname)
        || is_set parsed.username
        || is_set parsed.password)) [
          | inl e ↦ rw e h
          | inr e ↦
              rw e
                (resolve_provider-Pinned (text_of parsed.hostname) (port_or 443 parsed.port) st h)
        ]

  cache_data-Pinned :
      (tag : Text) (x : Result Bytes × State g.network) (files : Dict Bytes)
      → Pinned g.network none x.1.log
      → Pinned g.network none (cache_data g tag x files).1.net.log
  unfolding cache_data
  cache_data-Pinned tag (err e, st) files h = h
  cache_data-Pinned tag (ok body, st) files h = h

  pub cache_remote_provider-Pinned :
      (value tag : Text) (d : Disk g)
      → Pinned g.network none d.net.log
      → Pinned g.network none (cache_remote_provider g value tag d).1.net.log
  unfolding cache_remote_provider
  cache_remote_provider-Pinned value tag d h =
      cache_data-Pinned tag (fetch g.network value none d.net) d.files
        (fetch-Pinned g.network value none d.net h).0
