-- ===== src/ExitConfig/Generate/Valid.antt =====
-- What a configuration that `generate` gives is known to satisfy.
use gpn.Prelude.{
  ℕ, ◌≤◌, true, not, ◌&&◌, ◌||◌, [], ◌∷◌, Option, none, some, ◌≡◌, ◌∙◌, refl, ap, inl, inr,
  Bool-cases, leb, ℤ, pos, negsuc, is_empty, arith, subst,
}
use gpn.Prelude.Dict.{Dict, get, put, key_eq, key_eq_sound, IsUnique, get-put_self, get-put_other}
use gpn.Text.{Text, codes, Unicode}
use gpn.Text.Equality.{is_in}
use gpn.Text.Strip.{strip}
use gpn.ExitConfig.Library.{Value, text, number, Library}
use gpn.ExitConfig.Endpoint.{in_range, validate_host_port, hostname_value}
use gpn.ExitConfig.Links.{Proxied}
use gpn.ExitConfig.Protocols.Proxies.{parse_proxy_uri}
use gpn.ExitConfig.Generate.{
  Env, Config, merge, is_exit_name, with_credentials, configured, generate,
}
use gpn.ExitConfig.Generate.Parts.{IsProxy, put_if-IsProxy}
use gpn.ExitConfig.Generate.Bound.{IsBoundAs, parse_proxy_uri-IsProxy}

-- what the second dictionary does not have comes from the first
get-merge_left : (k : Text) (a b : Dict Value) → get k b ≡ none → get k (merge a b) ≡ get k a
unfolding merge get
get-merge_left k a [] h = refl
get-merge_left k a ((j, v) ∷ b) h = elim (Bool-cases (key_eq j k)) [
  | inl e ↦ cc (rw e at h)
  | inr e ↦ get-merge_left k (put j v a) b (rw e at h) ∙ get-put_other k j v a e
]

get-merge_right :
    (k : Text) (a b : Dict Value) (w : Value)
    → IsUnique b
    → get k b ≡ some w
    → get k (merge a b) ≡ some w
unfolding merge get
get-merge_right k a [] w u h = cc
get-merge_right k a ((j, v) ∷ b) w u h = elim (Bool-cases (key_eq j k)) [
  | inl e ↦
      let same = key_eq_sound j k e in
      let absent : get k b ≡ none = subst (λ l. get l b ≡ none) same u.0 in
      let value : some v ≡ some w = rw e at h in
      get-merge_left k (put j v a) b absent
      ∙ (ap (λ l. get k (put l v a)) same ∙ get-put_self k v a)
      ∙ value
  | inr e ↦ get-merge_right k (put j v a) b w u.1 (rw e at h)
]

module _ ⦃u : Unicode⦄ (lib : Library) where
  -- An exit: a checked name, and a checked host and port that are the proxy's own.
  pub record IsExit (name : Text) (c : Config) : Type 0 where
    pub host : Value
    pub port : ℕ
    pub ptype : Text
    pub name_ok : is_exit_name name ≡ true
    pub host_ok : (lib.is_address host || hostname_value lib host) ≡ true
    pub port_ok : (1 ≤ port) × (port ≤ 65535)
    pub server : get (codes "server") c.proxy ≡ some host
    pub at_port : get (codes "port") c.proxy ≡ some (number (pos port))
    pub named_ok : get (codes "name") c.proxy ≡ some (text name)
    pub typed_ok : get (codes "type") c.proxy ≡ some (text ptype)
    pub group_ok : c.group ≡ name ∷ []

  abbrev IsExit? : Text → Option Config → Type 0
  IsExit? name none = Unit
  IsExit? name (some c) = IsExit name c

  range_parts : (n : ℕ) → (leb 1 n && leb n 65535) ≡ true → (1 ≤ n) × (n ≤ 65535)
  range_parts n h = ground arith

  validate_port :
      (host : Value) (port : ℤ)
      → validate_host_port lib host port ≡ true
      → (n : ℕ) × (port ≡ pos n) × (1 ≤ n) × (n ≤ 65535)
  unfolding validate_host_port in_range
  validate_port host (negsuc n) h = cc
  validate_port host (pos n) h = elim (Bool-cases (leb 1 n && leb n 65535)) [
    | inl e ↦ (n, refl, (range_parts n e).0, (range_parts n e).1)
    | inr e ↦ cc (rw e at h)
  ]

  validate_host :
      (host : Value) (port : ℤ)
      → validate_host_port lib host port ≡ true
      → (lib.is_address host || hostname_value lib host) ≡ true
  unfolding validate_host_port
  validate_host host port h = elim (Bool-cases (in_range port)) [
    | inl e ↦ rw e at h
    | inr e ↦ cc (rw e at h)
  ]

  with_credentials-IsProxy :
      (env : Env) (ptype : Text) (host : Value) (port : ℤ) (d : Dict Value)
      → IsProxy host port d
      → IsProxy host port (with_credentials env ptype d)
  unfolding with_credentials key_eq
  with_credentials-IsProxy env ptype host port d h =
      elim (Bool-cases (is_in ptype (codes "socks5" ∷ codes "http" ∷ []))) [
        | inl e ↦ rw e (
            put_if-IsProxy host port (not (is_empty env.password)) (codes "password") _ _
              (refl, refl, refl, refl)
              (put_if-IsProxy host port (not (is_empty env.user)) (codes "username") (text env.user)
                d (refl, refl, refl, refl) h))
        | inr e ↦ rw e h
      ]

  configured-IsExit :
      (env : Env) (name uri : Text) (o : Option (Text × Proxied))
      → is_exit_name name ≡ true
      → IsBoundAs lib o
      → IsExit? name (configured lib env name uri o)
  unfolding get key_eq
  configured-IsExit env name uri none n h = tt
  configured-IsExit env name uri (some (ptype, (d, host, port))) n h =
      elim (Bool-cases (validate_host_port lib host port)) [
        | inr e ↦ rw e tt
        | inl e ↦
            let (p, same, low, high) = validate_port host port e in
            let own = with_credentials-IsProxy env ptype host port d h in
            rw e (record {
              host = host;
              port = p;
              ptype = ptype;
              name_ok = n;
              host_ok = validate_host host port e;
              port_ok = (low, high);
              server = get-merge_right (codes "server") _ _ host own.unique own.server;
              at_port =
                  get-merge_right (codes "port") _ _ (number port) own.unique own.at_port
                  ∙ ap (λ z. some (number z)) same;
              named_ok = get-merge_left (codes "name") _ _ own.unnamed;
              typed_ok = get-merge_left (codes "type") _ _ own.untyped;
              group_ok = refl;
            })
      ]

  -- Whatever the link and the environment: a configuration that is written has a checked exit
  -- name, which is also the name of its proxy and of the group's only member; the proxy's server
  -- is an address or passes the test for a hostname, its port lies between 1 and 65535, and it
  -- has a type.
  pub generate-IsExit :
      (env : Env) (name uri : Text) (c : Config)
      → generate lib env name uri ≡ some c
      → IsExit name c
  unfolding generate
  generate-IsExit env name uri c e = elim (Bool-cases (is_exit_name name)) [
    | inl n ↦
        (rw (rw n at e) at (
          configured-IsExit env name (strip uri) (parse_proxy_uri lib (strip uri)) n
            (parse_proxy_uri-IsProxy lib (strip uri))))
    | inr n ↦ cc (rw n at e)
  ]
