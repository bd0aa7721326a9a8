-- ===== src/ExitConfig/Protocols/Proxies.antt =====
-- `parse_vmess`, the calls of `urlparse` and `parse_proxy_uri` of mihomo-exit-config.py.
use gpn.Prelude.{ℕ, Bool, true, List, [], ◌∷◌, Option, none, some, drop, if◌then◌else◌, ℤ, pos}
use gpn.Prelude.Dict.{Dict, get, put}
use gpn.Text.{Text, codes, Unicode, lower}
use gpn.Text.Equality.{eqb, is_in}
use gpn.Text.Search.{starts_with_any}
use gpn.Text.Strip.{lstrip_by}
use gpn.RulesImport.Fetch.{port_or}
use gpn.ExitConfig.Library.{Value, text, number, flag, Uri, Library, value_of, is_true, int_value}
use gpn.ExitConfig.Endpoint.{b64decode_any}
use gpn.ExitConfig.Links.{Proxied, base, put_if, ss_proxy, socks_proxy}
use gpn.ExitConfig.Protocols.{
  got, got_or, or_else_value, str_of, query_map, ws_opts, with_ws, with_grpc, with_h2,
  trojan_fields, vless_fields, hysteria2_fields, insecure_fields, tuic_user, tuic_with, http_fields,
  wireguard_fields,
}

abbrev pub vmess_names : List Text
vmess_names = codes "ws" ∷ codes "websocket" ∷ []

module _ ⦃u : Unicode⦄ (lib : Library) where
  -- `(v or "tcp").lower()`; a true value that is no text has no `lower`
  unfoldable pub network_name : Value → Option Text
  unfolding lower is_true
  network_name (text []) = some (codes "tcp")
  network_name (text (c ∷ s)) = some (lower (c ∷ s))
  network_name v = if is_true lib v then none else some (codes "tcp")

  -- a path that is no text has no `lstrip`
  abbrev pub grpc_path : Value → Dict Value → Option (Dict Value)
  grpc_path (text t) d = some (with_grpc lib t d)
  grpc_path _ d = none

  -- the branches on the network
  unfoldable pub vmess_transport : Text → Value → Value → Dict Value → Option (Dict Value)
  unfolding is_in eqb or_else_value ws_opts put lstrip_by
  vmess_transport net path host d =
      if is_in net vmess_names
      then some (with_ws lib (or_else_value lib path (text (codes "/"))) host d)
      else if eqb net (codes "grpc")
      then grpc_path path d
      else if eqb net (codes "h2")
      then some (with_h2 lib host d)
      else some d

  -- `int(v or default)`
  unfoldable pub int_or : Value → ℕ → Option ℤ
  unfolding is_true int_value
  int_or v default = if is_true lib v then int_value lib v else some (pos default)

  abbrev field : Text → Dict Value → Value
  field k json = got (get k json)

  -- `str(data.get("tls", "")).lower() in ("tls", "true", "1")`
  unfoldable pub is_tls : Dict Value → Bool
  unfolding lower is_in get str_of
  is_tls json =
      is_in (lower (str_of lib (got_or (get (codes "tls") json) (text []))))
        (codes "tls" ∷ codes "true" ∷ codes "1" ∷ [])

  -- the fields before the test on the network
  unfoldable pub vmess_base : Dict Value → Value → ℤ → ℤ → Dict Value
  unfolding get put or_else_value is_tls
  vmess_base json host port aid =
      let plain =
        put (codes "cipher") (or_else_value lib (field (codes "scy") json) (text (codes "auto"))) (
          put (codes "alterId") (number aid)
            (put (codes "uuid") (got_or (get (codes "id") json) (text [])) (base host port))) in
      put_if (is_tls json) (codes "servername")
        (or_else_value lib (field (codes "sni") json)
          (or_else_value lib (field (codes "host") json) host))
        (put_if (is_tls json) (codes "tls") (flag true) plain)

  abbrev pub with_network : Option Text → Dict Value → Dict Value → Option (Dict Value)
  with_network none json d = none
  with_network (some net) json d =
      vmess_transport net (got_or (get (codes "path") json) (text [])) (field (codes "host") json) d

  abbrev pub proxied : Value → ℤ → Option (Dict Value) → Option Proxied
  proxied host port none = none
  proxied host port (some d) = some (d, host, port)

  abbrev pub with_numbers : Option ℤ → Option ℤ → Dict Value → Value → Option Proxied
  with_numbers (some port) (some aid) json host =
      proxied host port (
        with_network (network_name (field (codes "net") json)) json (vmess_base json host port aid))
  with_numbers _ _ json host = none

  unfoldable pub vmess_of : Dict Value → Option Proxied
  unfolding get int_or vmess_base network_name vmess_transport
  vmess_of json =
      with_numbers (int_or (field (codes "port") json) 443)
        (int_or (got_or (get (codes "aid") json) (number (pos 0))) 0) json
        (field (codes "add") json)

  abbrev pub loaded : Option Text → Option (Option (Dict Value))
  loaded none = none
  loaded (some payload) = lib.loads payload

  abbrev pub vmess_loaded : Option (Option (Dict Value)) → Option Proxied
  vmess_loaded (some (some json)) = vmess_of json
  vmess_loaded _ = none

  unfoldable pub parse_vmess : Text → Option Proxied
  unfolding b64decode_any vmess_of
  parse_vmess uri = vmess_loaded (loaded (b64decode_any lib (drop 8 uri)))

  -- `u.hostname` and `u.port or default`, and the fields that are built from them
  abbrev pub at_port :
      Option ℕ → Uri → (Uri → Dict Text → Value → ℤ → Option (Dict Value)) → Option Proxied
  at_port none uri build = none
  at_port (some port) uri build =
      proxied (value_of uri.hostname) (pos port)
        (build uri (query_map lib uri) (value_of uri.hostname) (pos port))

  unfoldable pub parse_link :
      (Uri → ℕ) → (Uri → Dict Text → Value → ℤ → Option (Dict Value)) → Text → Option Proxied
  unfolding query_map
  parse_link default build link = elim (lib.urlparse link) [
    | none ↦ none
    | some uri ↦ at_port (port_or (default uri) uri.port) uri build
  ]

  abbrev pub tuic_fields : Uri → Dict Text → Value → ℤ → Option (Dict Value)
  tuic_fields uri q host port = elim (tuic_user lib uri) [
    | none ↦ none
    | some user ↦ some (tuic_with lib user q host port)
  ]

  unfoldable pub parse_trojan : Text → Option Proxied
  unfolding parse_link trojan_fields
  parse_trojan =
      parse_link (λ uri. 443) (λ uri q host port. some (trojan_fields lib uri q host port))

  unfoldable pub parse_vless : Text → Option Proxied
  unfolding parse_link vless_fields
  parse_vless = parse_link (λ uri. 443) (λ uri q host port. some (vless_fields lib uri q host port))

  unfoldable pub parse_hysteria2 : Text → Option Proxied
  unfolding parse_link hysteria2_fields
  parse_hysteria2 =
      parse_link (λ uri. 443) (λ uri q host port. some (hysteria2_fields lib uri q host port))

  unfoldable pub parse_tuic : Text → Option Proxied
  unfolding parse_link tuic_user get put is_in
  parse_tuic = parse_link (λ uri. 443) tuic_fields

  unfoldable pub parse_anytls : Text → Option Proxied
  unfolding parse_link insecure_fields
  parse_anytls =
      parse_link (λ uri. 443) (λ uri q host port. some (insecure_fields lib uri q host port))

  abbrev http_port : Uri → ℕ
  http_port uri = if eqb (lower uri.scheme) (codes "https") then 443 else 80

  unfoldable pub parse_http : Text → Option Proxied
  unfolding parse_link http_fields eqb lower
  parse_http = parse_link http_port (λ uri q host port. some (http_fields lib uri host port))

  unfoldable pub parse_wireguard : Text → Option Proxied
  unfolding parse_link wireguard_fields
  parse_wireguard = parse_link (λ uri. 51820) (wireguard_fields lib)

  -- One entry of the dispatcher: the schemes, the type and the parser.
  pub record Protocol : Type 0 where
    pub schemes : List Text
    pub ptype : Text
    pub parse : Text → Option Proxied

  -- the tests of `parse_proxy_uri`, in their order
  unfoldable pub protocols : List Protocol
  unfolding ss_proxy socks_proxy parse_vmess parse_trojan parse_vless parse_hysteria2 parse_tuic
      parse_anytls parse_http parse_wireguard
  protocols =
      record { schemes = codes "ss://" ∷ []; ptype = codes "ss"; parse = ss_proxy lib }
      ∷ record {
        schemes = codes "socks5h://" ∷ codes "socks5://" ∷ codes "socks://" ∷ [];
        ptype = codes "socks5";
        parse = socks_proxy lib;
      }
      ∷ record { schemes = codes "vmess://" ∷ []; ptype = codes "vmess"; parse = parse_vmess }
      ∷ record { schemes = codes "trojan://" ∷ []; ptype = codes "trojan"; parse = parse_trojan }
      ∷ record { schemes = codes "vless://" ∷ []; ptype = codes "vless"; parse = parse_vless }
      ∷ record {
        schemes = codes "hysteria2://" ∷ codes "hy2://" ∷ [];
        ptype = codes "hysteria2";
        parse = parse_hysteria2;
      }
      ∷ record { schemes = codes "tuic://" ∷ []; ptype = codes "tuic"; parse = parse_tuic }
      ∷ record { schemes = codes "anytls://" ∷ []; ptype = codes "anytls"; parse = parse_anytls }
      ∷ record {
        schemes = codes "http://" ∷ codes "https://" ∷ [];
        ptype = codes "http";
        parse = parse_http;
      }
      ∷ record { schemes = codes "wg://" ∷ []; ptype = codes "wireguard"; parse = parse_wireguard }
      ∷ []

  -- the first test that holds
  unfoldable pub find_protocol : Text → List Protocol → Option Protocol
  unfolding starts_with_any
  find_protocol low [] = none
  find_protocol low (p ∷ ps) =
      if starts_with_any p.schemes low then some p else find_protocol low ps

  abbrev pub typed : Text → Option Proxied → Option (Text × Proxied)
  typed ptype none = none
  typed ptype (some p) = some (ptype, p)

  abbrev pub parse_with : Option Protocol → Text → Option (Text × Proxied)
  parse_with none uri = none
  parse_with (some p) uri = typed p.ptype (p.parse uri)

  unfoldable pub parse_proxy_uri : Text → Option (Text × Proxied)
  unfolding lower find_protocol protocols
  parse_proxy_uri uri = parse_with (find_protocol (lower uri) protocols) uri
