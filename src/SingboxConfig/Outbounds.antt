-- ===== src/SingboxConfig/Outbounds.antt =====
-- `parse_ss`, `parse_vmess`, the calls of `urlparse` and `parse_proxy_uri` of
-- singbox-exit-config.py.
use gpn.Prelude.{
  false, not, List, [], ◌∷◌, Option, none, some, drop, is_empty, if◌then◌else◌, ℤ, pos,
}
use gpn.Prelude.Dict.{Dict, get, put}
use gpn.Text.{Text, codes, Unicode, lower}
use gpn.Text.Equality.{eqb}
use gpn.Text.Search.{starts_with_any}
use gpn.ExitConfig.Library.{Value, null, text, number, Uri, Library}
use gpn.ExitConfig.Endpoint.{b64decode_any}
use gpn.ExitConfig.Links.{Proxied, put_if, parse_ss, parse_socks}
use gpn.ExitConfig.Protocols.{got, got_or, or_else_value, tuic_user}
use gpn.ExitConfig.Protocols.Proxies.{int_or, is_tls, proxied, loaded, parse_link}
use gpn.SingboxConfig.Blocks.{
  outbound, tls_block, transport_block, with_block, trojan_outbound, vless_outbound,
  insecure_outbound, hysteria2_outbound, tuic_outbound, http_outbound,
}

module _ ⦃u : Unicode⦄ (lib : Library) where
  abbrev pub ss_outbound : Text × ℤ × Text × Text → Option Proxied
  ss_outbound (host, port, method, password) =
      if is_empty method
      then none
      else some (
        put (codes "password") (text password)
            (put (codes "method") (text method) (outbound (codes "shadowsocks") (text host) port)),
        text host,
        port,
      )

  abbrev pub after_ss : Option (Text × ℤ × Text × Text) → Option Proxied
  after_ss none = none
  after_ss (some parts) = ss_outbound parts

  -- `parse_ss`, which also refuses an empty method, and its branch of the dispatcher
  unfoldable pub parse_shadowsocks : Text → Option Proxied
  unfolding parse_ss put
  parse_shadowsocks uri = after_ss (parse_ss lib uri)

  abbrev pub socks_outbound : Option (Text × ℤ × Text × Text) → Option Proxied
  socks_outbound none = none
  socks_outbound (some (host, port, user, password)) = some (
    put_if (not (is_empty password)) (codes "password") (text password) (
        put_if (not (is_empty user)) (codes "username") (text user)
          (put (codes "version") (text (codes "5")) (outbound (codes "socks") (text host) port))),
    text host,
    port,
  )

  unfoldable pub parse_socks5 : Text → Option Proxied
  unfolding parse_socks put
  parse_socks5 uri = socks_outbound (parse_socks lib uri)

  abbrev field : Text → Dict Value → Value
  field k json = got (get k json)

  -- the fields before the transport
  unfoldable pub vmess_outbound : Dict Value → Value → ℤ → ℤ → Dict Value
  unfolding get put or_else_value is_tls tls_block
  vmess_outbound json host port aid =
      let plain =
        put (codes "security") (or_else_value lib (field (codes "scy") json) (text (codes "auto")))
          (put (codes "alter_id") (number aid) (
            put (codes "uuid") (got_or (get (codes "id") json) (text []))
              (outbound (codes "vmess") host port))) in
      put_if (is_tls lib json) (codes "tls")
        (tls_block lib
          (or_else_value lib (field (codes "sni") json)
            (or_else_value lib (field (codes "host") json) host))
          false)
        plain

  abbrev pub with_numbers : Option ℤ → Option ℤ → Dict Value → Value → Option Proxied
  with_numbers (some port) (some aid) json host = proxied lib host port (
      with_block lib
        (transport_block lib (field (codes "net") json) (field (codes "host") json)
          (field (codes "path") json) null)
        (vmess_outbound json host port aid))
  with_numbers _ _ json host = none

  abbrev pub vmess_loaded : Option (Option (Dict Value)) → Option Proxied
  vmess_loaded (some (some json)) =
      with_numbers (int_or lib (field (codes "port") json) 443)
        (int_or lib (got_or (get (codes "aid") json) (number (pos 0))) 0) json
        (field (codes "add") json)
  vmess_loaded _ = none

  unfoldable pub parse_vmess : Text → Option Proxied
  unfolding b64decode_any get int_or vmess_outbound transport_block
  parse_vmess uri = vmess_loaded (loaded lib (b64decode_any lib (drop 8 uri)))

  abbrev pub tuic_fields : Uri → Dict Text → Value → ℤ → Option (Dict Value)
  tuic_fields uri q host port = elim (tuic_user lib uri) [
    | none ↦ none
    | some user ↦ some (tuic_outbound lib user q host port)
  ]

  unfoldable pub parse_trojan : Text → Option Proxied
  unfolding parse_link trojan_outbound
  parse_trojan = parse_link lib (λ uri. 443) (trojan_outbound lib)

  unfoldable pub parse_vless : Text → Option Proxied
  unfolding parse_link vless_outbound
  parse_vless = parse_link lib (λ uri. 443) (vless_outbound lib)

  unfoldable pub parse_hysteria2 : Text → Option Proxied
  unfolding parse_link hysteria2_outbound
  parse_hysteria2 =
      parse_link lib (λ uri. 443) (λ uri q host port. some (hysteria2_outbound lib uri q host port))

  unfoldable pub parse_tuic : Text → Option Proxied
  unfolding parse_link tuic_user
  parse_tuic = parse_link lib (λ uri. 443) tuic_fields

  unfoldable pub parse_anytls : Text → Option Proxied
  unfolding parse_link insecure_outbound
  parse_anytls =
      parse_link lib (λ uri. 443)
        (λ uri q host port. some (insecure_outbound lib (codes "anytls") uri q host port))

  unfoldable pub parse_http : Text → Option Proxied
  unfolding parse_link http_outbound eqb lower
  parse_http =
      parse_link lib (λ uri. if eqb (lower uri.scheme) (codes "https") then 443 else 80)
        (λ uri q host port. some (http_outbound lib uri host port))

  -- one test of `parse_proxy_uri`: the prefixes of the link, and the parser
  pub record Branch : Type 0 where
    pub schemes : List Text
    pub parse : Text → Option Proxied

  unfoldable pub branches : List Branch
  unfolding parse_shadowsocks parse_socks5 parse_vmess parse_trojan parse_vless parse_hysteria2
      parse_tuic parse_anytls parse_http
  branches =
      record { schemes = codes "ss://" ∷ []; parse = parse_shadowsocks }
      ∷ record {
        schemes = codes "socks5h://" ∷ codes "socks5://" ∷ codes "socks://" ∷ [];
        parse = parse_socks5;
      }
      ∷ record { schemes = codes "vmess://" ∷ []; parse = parse_vmess }
      ∷ record { schemes = codes "trojan://" ∷ []; parse = parse_trojan }
      ∷ record { schemes = codes "vless://" ∷ []; parse = parse_vless }
      ∷ record { schemes = codes "hysteria2://" ∷ codes "hy2://" ∷ []; parse = parse_hysteria2 }
      ∷ record { schemes = codes "tuic://" ∷ []; parse = parse_tuic }
      ∷ record { schemes = codes "anytls://" ∷ []; parse = parse_anytls }
      ∷ record { schemes = codes "http://" ∷ codes "https://" ∷ []; parse = parse_http }
      ∷ []

  -- the first test that holds
  unfoldable pub parse_by : Text → Text → List Branch → Option Proxied
  unfolding starts_with_any
  parse_by low uri [] = none
  parse_by low uri (b ∷ bs) =
      if starts_with_any b.schemes low then b.parse uri else parse_by low uri bs

  unfoldable pub parse_proxy_uri : Text → Option Proxied
  unfolding lower parse_by branches
  parse_proxy_uri uri = parse_by (lower uri) uri branches
