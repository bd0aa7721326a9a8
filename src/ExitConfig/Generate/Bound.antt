-- ===== src/ExitConfig/Generate/Bound.antt =====
-- The host and port that every parser returns are those in the fields that it returns.
use gpn.Prelude.{
  ℕ, not, ◌||◌, List, [], ◌∷◌, Option, none, some, refl, inl, inr, Bool-cases, Option-cases,
  is_empty, ℤ, pos, all, All, drop,
}
use gpn.Prelude.Dict.{Dict, get, key_eq}
use gpn.Text.{Text, codes, Unicode, is_digit, lower}
use gpn.Text.Equality.{eqb, is_in}
use gpn.Text.Number.{int_of}
use gpn.Text.Search.{starts_with_any}
use gpn.RulesImport.Fetch.{port_or}
use gpn.ExitConfig.Library.{Value, text, number, Uri, Library, get_or, value_of, null}
use gpn.ExitConfig.Links.{Proxied, ss_proxy, socks_proxy, parse_ss, parse_socks}
use gpn.ExitConfig.Endpoint.{b64decode_any}
use gpn.ExitConfig.Protocols.{
  got, got_or, map_fields, with_mtu, wireguard_fields, or_else_value, tuic_user,
}
use gpn.ExitConfig.Protocols.Proxies.{
  vmess_names, grpc_path, vmess_transport, vmess_base, with_network, proxied, with_numbers,
  vmess_of, vmess_loaded, tuic_fields, parse_vmess, at_port, parse_link, parse_trojan, parse_vless,
  parse_hysteria2, parse_tuic, parse_anytls, parse_http, parse_wireguard, Protocol, protocols,
  find_protocol, typed, parse_with, parse_proxy_uri, network_name, loaded, int_or,
}
use gpn.ExitConfig.Generate.Parts.{
  IsProxy, base-IsProxy, put-IsProxy, put_if-IsProxy, with_ws-IsProxy, with_grpc-IsProxy,
  with_h2-IsProxy, trojan_fields-IsProxy, vless_fields-IsProxy, insecure_fields-IsProxy,
  hysteria2_fields-IsProxy, tuic_with-IsProxy, http_fields-IsProxy,
}

-- The fields of a result hold its host and port.
abbrev pub IsBound : Option Proxied → Type 0
IsBound none = Unit
IsBound (some (d, host, port)) = IsProxy host port d

abbrev pub IsBuilt : Value → ℤ → Option (Dict Value) → Type 0
IsBuilt host port none = Unit
IsBuilt host port (some d) = IsProxy host port d

module _ ⦃u : Unicode⦄ (lib : Library) where
  ss_proxy-IsBound : (uri : Text) → IsBound (ss_proxy lib uri)
  unfolding ss_proxy key_eq
  ss_proxy-IsBound uri = elim (Option-cases (parse_ss lib uri)) [
    | inl e ↦ rw (e, ss_proxy) tt
    | inr ((host, port, method, password), e) ↦
        rw (e, ss_proxy)
          (put-IsProxy (text host) port (codes "password") _ _ (refl, refl, refl, refl)
            (put-IsProxy (text host) port (codes "cipher") _ _ (refl, refl, refl, refl)
              (base-IsProxy (text host) port)))
  ]

  socks_proxy-IsBound : (uri : Text) → IsBound (socks_proxy lib uri)
  unfolding socks_proxy key_eq
  socks_proxy-IsBound uri = elim (Option-cases (parse_socks lib uri)) [
    | inl e ↦ rw (e, socks_proxy) tt
    | inr ((host, port, user, password), e) ↦
        rw (e, socks_proxy)
          (put_if-IsProxy (text host) port (not (is_empty password)) (codes "password") _ _
            (refl, refl, refl, refl)
            (put_if-IsProxy (text host) port (not (is_empty user)) (codes "username") (text user) _
              (refl, refl, refl, refl) (base-IsProxy (text host) port)))
  ]

  module _ (host : Value) (port : ℤ) where
    grpc_path-IsBuilt :
        (path : Value) (d : Dict Value)
        → IsProxy host port d
        → IsBuilt host port (grpc_path lib path d)
    grpc_path-IsBuilt (text t) d h = with_grpc-IsProxy lib host port t d h
    grpc_path-IsBuilt null d h = tt
    grpc_path-IsBuilt _ d h = tt

    vmess_transport-IsBuilt :
        (net : Text) (path header : Value) (d : Dict Value)
        → IsProxy host port d
        → IsBuilt host port (vmess_transport lib net path header d)
    unfolding vmess_transport
    vmess_transport-IsBuilt net path header d h = elim (Bool-cases (is_in net vmess_names)) [
      | inl e ↦
          rw e
            (with_ws-IsProxy lib host port (or_else_value lib path (text (codes "/"))) header d h)
      | inr e ↦ rw e (elim (Bool-cases (eqb net (codes "grpc"))) [
        | inl f ↦ rw f (grpc_path-IsBuilt path d h)
        | inr f ↦ rw f (elim (Bool-cases (eqb net (codes "h2"))) [
          | inl g ↦ rw g (with_h2-IsProxy lib host port header d h)
          | inr g ↦ rw g h
        ])
      ])
    ]

    vmess_base-IsProxy :
        (json : Dict Value) (aid : ℤ) → IsProxy host port (vmess_base lib json host port aid)
    unfolding vmess_base key_eq
    vmess_base-IsProxy json aid =
        put_if-IsProxy host port _ (codes "servername") _ _ (refl, refl, refl, refl)
          (put_if-IsProxy host port _ (codes "tls") _ _ (refl, refl, refl, refl)
            (put-IsProxy host port (codes "cipher") _ _ (refl, refl, refl, refl)
              (put-IsProxy host port (codes "alterId") _ _ (refl, refl, refl, refl)
                (put-IsProxy host port (codes "uuid") _ _ (refl, refl, refl, refl)
                  (base-IsProxy host port)))))

    with_network-IsBuilt :
        (net : Option Text) (json d : Dict Value)
        → IsProxy host port d
        → IsBuilt host port (with_network lib net json d)
    with_network-IsBuilt none json d h = tt
    with_network-IsBuilt (some net) json d h = vmess_transport-IsBuilt net _ _ d h

    proxied-IsBound :
        (o : Option (Dict Value)) → IsBuilt host port o → IsBound (proxied lib host port o)
    proxied-IsBound none h = tt
    proxied-IsBound (some d) h = h

    with_mtu-IsBuilt :
        (mtu : Text) (d : Dict Value) → IsProxy host port d → IsBuilt host port (with_mtu lib mtu d)
    unfolding with_mtu key_eq
    with_mtu-IsBuilt mtu d h = elim (Bool-cases (is_empty mtu || not (all is_digit mtu))) [
      | inl e ↦ rw e h
      | inr e ↦ rw e (elim (Option-cases (int_of mtu)) [
        | inl f ↦ rw (f, with_mtu) tt
        | inr (z, f) ↦
            rw (f, with_mtu)
              (put-IsProxy host port (codes "mtu") (number z) d (refl, refl, refl, refl) h)
      ])
    ]

    map_fields-IsBuilt :
        (a : Option Text) (o : Option (Dict Value))
        → IsBuilt host port o
        → IsBuilt host port (map_fields lib a o)
    unfolding key_eq
    map_fields-IsBuilt a none h = tt
    map_fields-IsBuilt none (some d) h = h
    map_fields-IsBuilt (some a) (some d) h =
        put-IsProxy host port (codes "ipv6") (text a) d (refl, refl, refl, refl) h

    wireguard_fields-IsBuilt :
        (uri : Uri) (q : Dict Text) → IsBuilt host port (wireguard_fields lib uri q host port)
    unfolding wireguard_fields key_eq
    wireguard_fields-IsBuilt uri q = map_fields-IsBuilt (get (codes "ipv6") q) _ (
        with_mtu-IsBuilt (get_or (get (codes "mtu") q) []) _ (
          put_if-IsProxy host port _ (codes "preshared-key") _ _ (refl, refl, refl, refl)
            (put-IsProxy host port (codes "ip") _ _ (refl, refl, refl, refl)
              (put-IsProxy host port (codes "public-key") _ _ (refl, refl, refl, refl)
                (put-IsProxy host port (codes "private-key") _ _ (refl, refl, refl, refl)
                  (base-IsProxy host port))))))

  with_numbers-IsBound :
      (port aid : Option ℤ) (json : Dict Value) (host : Value)
      → IsBound (with_numbers lib port aid json host)
  with_numbers-IsBound none aid json host = tt
  with_numbers-IsBound (some port) none json host = tt
  with_numbers-IsBound (some port) (some aid) json host = proxied-IsBound host port _ (
      with_network-IsBuilt host port (network_name lib (got (get (codes "net") json))) json _
        (vmess_base-IsProxy host port json aid))

  vmess_of-IsBound : (json : Dict Value) → IsBound (vmess_of lib json)
  unfolding vmess_of
  vmess_of-IsBound json =
      with_numbers-IsBound (int_or lib (got (get (codes "port") json)) 443)
        (int_or lib (got_or (get (codes "aid") json) (number (pos 0))) 0) json
        (got (get (codes "add") json))

  vmess_loaded-IsBound : (o : Option (Option (Dict Value))) → IsBound (vmess_loaded lib o)
  vmess_loaded-IsBound none = tt
  vmess_loaded-IsBound (some none) = tt
  vmess_loaded-IsBound (some (some json)) = vmess_of-IsBound json

  parse_vmess-IsBound : (uri : Text) → IsBound (parse_vmess lib uri)
  unfolding parse_vmess
  parse_vmess-IsBound uri = vmess_loaded-IsBound (loaded lib (b64decode_any lib (drop 8 uri)))

  -- `build` keeps the host and the port that it is given
  abbrev Builds : (Uri → Dict Text → Value → ℤ → Option (Dict Value)) → Type 0
  Builds build =
      (uri : Uri) (q : Dict Text) (host : Value) (port : ℤ)
      → IsBuilt host port (build uri q host port)

  at_port-IsBound :
      (o : Option ℕ) (uri : Uri) (build : Uri → Dict Text → Value → ℤ → Option (Dict Value))
      → Builds build
      → IsBound (at_port lib o uri build)
  at_port-IsBound none uri build h = tt
  at_port-IsBound (some port) uri build h =
      proxied-IsBound (value_of uri.hostname) (pos port) _
        (h uri _ (value_of uri.hostname) (pos port))

  parse_link-IsBound :
      (default : Uri → ℕ) (build : Uri → Dict Text → Value → ℤ → Option (Dict Value)) (link : Text)
      → Builds build
      → IsBound (parse_link lib default build link)
  unfolding parse_link
  parse_link-IsBound default build link h = elim (Option-cases (lib.urlparse link)) [
    | inl e ↦ rw (e, parse_link) tt
    | inr (uri, e) ↦
        rw (e, parse_link) (at_port-IsBound (port_or (default uri) uri.port) uri build h)
  ]

  tuic_fields-IsBuilt : Builds (tuic_fields lib)
  tuic_fields-IsBuilt uri q host port = elim (Option-cases (tuic_user lib uri)) [
    | inl e ↦ rw (e, tuic_fields) tt
    | inr (user, e) ↦ rw (e, tuic_fields) (tuic_with-IsProxy lib host port user q)
  ]

  -- every entry of the dispatcher
  abbrev BoundBy : Protocol lib → Type 0
  BoundBy p = (uri : Text) → IsBound (p.parse uri)

  protocols-BoundBy : All BoundBy (protocols lib)
  unfolding protocols parse_trojan parse_vless parse_hysteria2 parse_tuic parse_anytls parse_http
      parse_wireguard
  protocols-BoundBy = (
    ss_proxy-IsBound,
    (
      socks_proxy-IsBound,
      (
        parse_vmess-IsBound,
        (
          (λ uri. parse_link-IsBound _ _ uri (λ x q h p. trojan_fields-IsProxy lib h p x q)),
          (
            (λ uri. parse_link-IsBound _ _ uri (λ x q h p. vless_fields-IsProxy lib h p x q)),
            (
              (λ uri. parse_link-IsBound _ _ uri (λ x q h p. hysteria2_fields-IsProxy lib h p x q)),
              (
                (λ uri. parse_link-IsBound _ _ uri tuic_fields-IsBuilt),
                (
                  (λ uri.
                      parse_link-IsBound _ _ uri (λ x q h p. insecure_fields-IsProxy lib h p x q)),
                  (
                    (λ uri. parse_link-IsBound _ _ uri (λ x q h p. http_fields-IsProxy lib h p x)),
                    (
                      (λ uri.
                          parse_link-IsBound _ _ uri (λ x q h p. wireguard_fields-IsBuilt h p x q)),
                      tt,
                    ),
                  ),
                ),
              ),
            ),
          ),
        ),
      ),
    ),
  )

  abbrev pub IsBoundAs : Option (Text × Proxied) → Type 0
  IsBoundAs none = Unit
  IsBoundAs (some (ptype, (d, host, port))) = IsProxy host port d

  typed-IsBoundAs : (ptype : Text) (o : Option Proxied) → IsBound o → IsBoundAs (typed lib ptype o)
  typed-IsBoundAs ptype none h = tt
  typed-IsBoundAs ptype (some p) h = h

  find_protocol-IsBoundAs :
      (low uri : Text) (ps : List (Protocol lib))
      → All BoundBy ps
      → IsBoundAs (parse_with lib (find_protocol lib low ps) uri)
  unfolding find_protocol
  find_protocol-IsBoundAs low uri [] h = tt
  find_protocol-IsBoundAs low uri (p ∷ ps) h = elim (Bool-cases (starts_with_any p.schemes low)) [
    | inl e ↦ rw e (typed-IsBoundAs p.ptype (p.parse uri) (h.0 uri))
    | inr e ↦ rw e (find_protocol-IsBoundAs low uri ps h.1)
  ]

  -- Whatever the link, the library's answers and the protocol: the fields of the parsed proxy
  -- name exactly the host and the port that are handed on to be validated, no key stands twice,
  -- and the fields do not set the proxy's name or type.
  pub parse_proxy_uri-IsProxy : (uri : Text) → IsBoundAs (parse_proxy_uri lib uri)
  unfolding parse_proxy_uri
  parse_proxy_uri-IsProxy uri =
      find_protocol-IsBoundAs (lower uri) uri (protocols lib) protocols-BoundBy
