-- ===== src/SingboxConfig/Generate/Valid.antt =====
-- What every parser of singbox-exit-config.py returns, and what `main` writes.
use gpn.Prelude.{
  ℕ, true, not, List, [], ◌∷◌, Option, none, some, ◌≡◌, refl, inl, inr, Bool-cases, Option-cases,
  is_empty, ℤ, pos, All, drop,
}
use gpn.Prelude.Dict.{Dict, get, key_eq}
use gpn.Text.{Text, codes, Unicode, lower}
use gpn.Text.Equality.{is_in}
use gpn.Text.Search.{starts_with_any}
use gpn.Text.Strip.{strip}
use gpn.RulesImport.Fetch.{port_or}
use gpn.ExitConfig.Library.{Value, null, text, number, Uri, Library, value_of}
use gpn.ExitConfig.Links.{Proxied, parse_ss, parse_socks}
use gpn.ExitConfig.Endpoint.{b64decode_any}
use gpn.ExitConfig.Protocols.{got, got_or, tuic_user}
use gpn.ExitConfig.Protocols.Proxies.{at_port, parse_link, int_or, loaded}
use gpn.ExitConfig.Generate.{Env, is_exit_name}
use gpn.SingboxConfig.Blocks.{transport_block}
use gpn.SingboxConfig.Outbounds.{
  after_ss, parse_shadowsocks, socks_outbound, parse_socks5, with_numbers, vmess_loaded,
  parse_vmess, tuic_fields, parse_trojan, parse_vless, parse_hysteria2, parse_tuic, parse_anytls,
  parse_http, Branch, branches, parse_by, parse_proxy_uri,
}
use gpn.SingboxConfig.Generate.{Config, with_login, is_login, configured, generate}
use gpn.SingboxConfig.Generate.Bound.{
  IsOutbound, IsBuilt, IsBound, outbound-IsOutbound, put-IsOutbound, put_if-IsOutbound,
  with_block-IsBuilt, trojan-IsBuilt, vless-IsBuilt, insecure-IsOutbound, hysteria2-IsOutbound,
  tuic-IsOutbound, http-IsOutbound, vmess-IsOutbound, proxied-IsBound,
}

module _ ⦃u : Unicode⦄ (lib : Library) where
  after_ss-IsBound : (o : Option (Text × ℤ × Text × Text)) → IsBound (after_ss lib o)
  unfolding key_eq is_in
  after_ss-IsBound none = tt
  after_ss-IsBound (some (host, port, method, password)) = elim (Bool-cases (is_empty method)) [
    | inl e ↦ rw e tt
    | inr e ↦ rw e (
        put-IsOutbound (text host) port (codes "password") _ _ (refl, refl, refl, refl)
          (put-IsOutbound (text host) port (codes "method") _ _ (refl, refl, refl, refl)
            (outbound-IsOutbound (text host) port (codes "shadowsocks") refl)))
  ]

  socks_outbound-IsBound : (o : Option (Text × ℤ × Text × Text)) → IsBound (socks_outbound lib o)
  unfolding key_eq is_in
  socks_outbound-IsBound none = tt
  socks_outbound-IsBound (some (host, port, user, password)) =
      put_if-IsOutbound (text host) port (not (is_empty password)) (codes "password")
        (text password) _ (refl, refl, refl, refl)
        (put_if-IsOutbound (text host) port (not (is_empty user)) (codes "username") (text user) _
          (refl, refl, refl, refl)
          (put-IsOutbound (text host) port (codes "version") _ _ (refl, refl, refl, refl)
            (outbound-IsOutbound (text host) port (codes "socks") refl)))

  with_numbers-IsBound :
      (port aid : Option ℤ) (json : Dict Value) (host : Value)
      → IsBound (with_numbers lib port aid json host)
  with_numbers-IsBound none aid json host = tt
  with_numbers-IsBound (some port) none json host = tt
  with_numbers-IsBound (some port) (some aid) json host = proxied-IsBound lib host port _ (
      with_block-IsBuilt lib host port
        (transport_block lib (got (get (codes "net") json)) (got (get (codes "host") json))
          (got (get (codes "path") json)) null)
        _ (vmess-IsOutbound lib host port json aid))

  vmess_loaded-IsBound : (o : Option (Option (Dict Value))) → IsBound (vmess_loaded lib o)
  vmess_loaded-IsBound none = tt
  vmess_loaded-IsBound (some none) = tt
  vmess_loaded-IsBound (some (some json)) =
      with_numbers-IsBound (int_or lib (got (get (codes "port") json)) 443)
        (int_or lib (got_or (get (codes "aid") json) (number (pos 0))) 0) json
        (got (get (codes "add") json))

  abbrev Builds : (Uri → Dict Text → Value → ℤ → Option (Dict Value)) → Type 0
  Builds build =
      (uri : Uri) (q : Dict Text) (host : Value) (port : ℤ)
      → IsBuilt host port (build uri q host port)

  at_port-IsBound :
      (o : Option ℕ) (uri : Uri) (build : Uri → Dict Text → Value → ℤ → Option (Dict Value))
      → Builds build
      → IsBound (at_port lib o uri build)
  at_port-IsBound none uri build h = tt
  at_port-IsBound (some port) uri build h =
      proxied-IsBound lib (value_of uri.hostname) (pos port) _
        (h uri _ (value_of uri.hostname) (pos port))

  parse_link-IsBound :
      (default : Uri → ℕ) (build : Uri → Dict Text → Value → ℤ → Option (Dict Value)) (link : Text)
      → Builds build
      → IsBound (parse_link lib default build link)
  unfolding parse_link
  parse_link-IsBound default build link h = elim (Option-cases (lib.urlparse link)) [
    | inl e ↦ rw (e, parse_link) tt
    | inr (uri, e) ↦
        rw (e, parse_link) (at_port-IsBound (port_or (default uri) uri.port) uri build h)
  ]

  tuic_fields-IsBuilt : Builds (tuic_fields lib)
  tuic_fields-IsBuilt uri q host port = elim (Option-cases (tuic_user lib uri)) [
    | inl e ↦ rw (e, tuic_fields) tt
    | inr (user, e) ↦ rw (e, tuic_fields) (tuic-IsOutbound lib host port user q)
  ]

  abbrev BoundBy : Branch lib → Type 0
  BoundBy b = (uri : Text) → IsBound (b.parse uri)

  ss-BoundBy : (uri : Text) → IsBound (parse_shadowsocks lib uri)
  unfolding parse_shadowsocks
  ss-BoundBy uri = after_ss-IsBound (parse_ss lib uri)

  socks-BoundBy : (uri : Text) → IsBound (parse_socks5 lib uri)
  unfolding parse_socks5
  socks-BoundBy uri = socks_outbound-IsBound (parse_socks lib uri)

  vmess-BoundBy : (uri : Text) → IsBound (parse_vmess lib uri)
  unfolding parse_vmess
  vmess-BoundBy uri = vmess_loaded-IsBound (loaded lib (b64decode_any lib (drop 8 uri)))

  branches-BoundBy : All BoundBy (branches lib)
  unfolding branches parse_trojan parse_vless parse_hysteria2 parse_tuic parse_anytls parse_http
      is_in
  branches-BoundBy = (
    ss-BoundBy,
    (
      socks-BoundBy,
      (
        vmess-BoundBy,
        (
          (λ uri. parse_link-IsBound _ _ uri (λ x q h p. trojan-IsBuilt lib h p x q)),
          (
            (λ uri. parse_link-IsBound _ _ uri (λ x q h p. vless-IsBuilt lib h p x q)),
            (
              (λ uri. parse_link-IsBound _ _ uri (λ x q h p. hysteria2-IsOutbound lib h p x q)),
              (
                (λ uri. parse_link-IsBound _ _ uri tuic_fields-IsBuilt),
                (
                  (λ uri.
                      parse_link-IsBound _ _ uri
                        (λ x q h p. insecure-IsOutbound lib h p (codes "anytls") x q refl)),
                  ((λ uri. parse_link-IsBound _ _ uri (λ x q h p. http-IsOutbound lib h p x)), tt),
                ),
              ),
            ),
          ),
        ),
      ),
    ),
  )

  parse_by-IsBound :
      (low uri : Text) (bs : List (Branch lib)) → All BoundBy bs → IsBound (parse_by lib low uri bs)
  unfolding parse_by
  parse_by-IsBound low uri [] h = tt
  parse_by-IsBound low uri (b ∷ bs) h = elim (Bool-cases (starts_with_any b.schemes low)) [
    | inl e ↦ rw e (h.0 uri)
    | inr e ↦ rw e (parse_by-IsBound low uri bs h.1)
  ]

  -- The one outbound of a configuration has the tag of the final route, a known type, and the
  -- host and the port of the link.
  pub record IsRouted (uri : Text) (c : Config) : Type 0 where
    pub host : Value
    pub port : ℤ
    pub fields : Dict Value
    pub parsed : Dict Value
    pub from_link : parse_proxy_uri lib (strip uri) ≡ some (parsed, host, port)
    pub only : c.outbounds ≡ fields ∷ []
    pub outbound : IsOutbound host port fields
    pub final : get (codes "tag") fields ≡ some (text c.final)

  abbrev IsRouted? : Text → Option Config → Type 0
  IsRouted? uri none = Unit
  IsRouted? uri (some c) = IsRouted uri c

  with_login-IsOutbound :
      (env : Env) (host : Value) (port : ℤ) (d : Dict Value)
      → IsOutbound host port d
      → IsOutbound host port (with_login env d)
  unfolding with_login key_eq
  with_login-IsOutbound env host port d h = elim (Bool-cases (is_login (get (codes "type") d))) [
    | inl e ↦ rw e (
        put_if-IsOutbound host port (not (is_empty env.password)) (codes "password")
          (text env.password) _ (refl, refl, refl, refl)
          (put_if-IsOutbound host port (not (is_empty env.user)) (codes "username") (text env.user)
            d (refl, refl, refl, refl) h))
    | inr e ↦ rw e h
  ]

  configured-IsRouted :
      (env : Env) (name uri : Text) (o : Option Proxied)
      → parse_proxy_uri lib (strip uri) ≡ o
      → IsBound o
      → IsRouted? uri (configured lib env name (strip uri) o)
  configured-IsRouted env name uri none e h = tt
  configured-IsRouted env name uri (some (d, host, port)) e h =
      let own = with_login-IsOutbound env host port d h in
      record {
        host = host;
        port = port;
        fields = with_login env d;
        parsed = d;
        from_link = e;
        only = refl;
        outbound = own;
        final = own.tagged;
      }

  -- Whatever the link and the environment: a configuration that is written has a checked exit
  -- name and one outbound, whose tag is the one that the final route names, whose type is one of
  -- `PROXY_TYPES`, and whose server and port are those that the link's parser returned.
  pub generate-IsRouted :
      (env : Env) (name uri : Text) (c : Config)
      → generate lib env name uri ≡ some c
      → (is_exit_name name ≡ true) × IsRouted uri c
  unfolding generate parse_proxy_uri
  generate-IsRouted env name uri c e = elim (Bool-cases (is_exit_name name)) [
    | inl n ↦ (
      n,
      rw (rw n at e) at (
          configured-IsRouted env name uri (parse_proxy_uri lib (strip uri)) refl
            (parse_by-IsBound (lower (strip uri)) (strip uri) (branches lib) branches-BoundBy)),
    )
    | inr n ↦ cc (rw n at e)
  ]
