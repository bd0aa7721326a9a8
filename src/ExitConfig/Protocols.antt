-- ===== src/ExitConfig/Protocols.antt =====
-- The fields of trojan, vless, hysteria2, tuic, anytls, http and wg proxies in
-- mihomo-exit-config.py.
pub mod Proxies
use gpn.Prelude.{
  ℕ, suc, Bool, true, false, not, ◌&&◌, ◌||◌, List, [], ◌∷◌, ◌++◌, Option, none, some, is_empty,
  all, drop, ◌==◌, if◌then◌else◌, ℤ, pos, negsuc,
}
use gpn.Prelude.Dict.{Dict, get, put, has_key}
use gpn.Text.{Text, codes, Unicode, lower, is_digit}
use gpn.Text.Decimal.{decimal}
use gpn.Text.Equality.{eqb, is_in}
use gpn.Text.Number.{int_of}
use gpn.Text.Search.{has, starts_with, starts_with_any}
use gpn.Text.Strip.{lstrip_by, is_char}
use gpn.RulesImport.Fetch.{is_set, text_of, port_or}
use gpn.ExitConfig.Library.{
  Value, null, flag, number, text, other, single, table, Fields, nil, entry, Uri, Library, value_of,
  or_value, or_text, get_or, is_true, int_value,
}
use gpn.ExitConfig.Endpoint.{b64decode_any}
use gpn.ExitConfig.Links.{Proxied, base, put_if, two_parts, ss_proxy, socks_proxy}

-- `d.get(k)`, and `d.get(k, default)`
abbrev pub got : Option Value → Value
got none = null
got (some v) = v

abbrev pub got_or : Option Value → Value → Value
got_or none d = d
got_or (some v) d = v

abbrev choose : Bool → Value → Value → Value
choose true a b = a
choose false a b = b

module _ (lib : Library) where
  -- `{k: v[0] for k, v in parse_qs(u.query).items()}`
  unfoldable pub first_values : Dict (Text × List Text) → Dict Text
  first_values [] = []
  first_values ((k, (v, rest)) ∷ d) = (k, v) ∷ first_values d

  unfoldable pub query_map : Uri → Dict Text
  unfolding first_values
  query_map u = first_values (lib.parse_qs u.query)

  -- `a or b` on values
  unfoldable pub or_else_value : Value → Value → Value
  unfolding is_true
  or_else_value a b = choose (is_true lib a) a b

  -- `str(v)`, for a value that is no list
  unfoldable pub str_of : Value → Text
  unfolding decimal
  str_of null = codes "None"
  str_of (flag true) = codes "True"
  str_of (flag false) = codes "False"
  str_of (number (pos n)) = decimal n
  str_of (number (negsuc n)) = b'-' ∷ decimal (suc n)
  str_of (text t) = t
  str_of (other t) = lib.other_str t
  str_of _ = []

  abbrev host_header : Value → Fields
  host_header host = entry (codes "headers") (table (entry (codes "Host") host nil)) nil

  -- `ws-opts`: the path, and the header if there is a host
  unfoldable pub ws_opts : Value → Value → Value
  unfolding is_true
  ws_opts path host =
      table (entry (codes "path") path (if is_true lib host then host_header host else nil))

  abbrev pub with_ws : Value → Value → Dict Value → Dict Value
  with_ws path host d =
      put (codes "ws-opts") (ws_opts path host) (put (codes "network") (text (codes "ws")) d)

  -- `name.lstrip("/")` is the service's name
  abbrev pub with_grpc : Text → Dict Value → Dict Value
  with_grpc name d =
      put (codes "grpc-opts")
        (table (entry (codes "grpc-service-name") (text (lstrip_by (is_char b'/') name)) nil))
        (put (codes "network") (text (codes "grpc")) d)

  abbrev pub with_h2 : Value → Dict Value → Dict Value
  with_h2 host d =
      put_if (is_true lib host) (codes "h2-opts") (table (entry (codes "host") (single host) nil))
        (put (codes "network") (text (codes "h2")) d)

abbrev pub ws_names : List Text
ws_names = codes "ws" ∷ codes "websocket" ∷ []

abbrev pub yes : Option Text → Bool
yes o = is_in (get_or o []) (codes "1" ∷ codes "true" ∷ [])

module _ ⦃u : Unicode⦄ (lib : Library) where
  -- the branches on the network of a trojan or a vless link
  unfoldable pub with_transport : Text → Dict Text → Dict Value → Dict Value
  unfolding is_in eqb get ws_opts put lstrip_by
  with_transport net q d =
      if is_in net ws_names
      then with_ws lib (text (or_text (get (codes "path") q) (codes "/")))
          (value_of (get (codes "host") q)) d
      else if eqb net (codes "grpc")
      then with_grpc lib (get_or (get (codes "serviceName") q) []) d
      else d

  unfoldable pub trojan_fields : Uri → Dict Text → Value → ℤ → Dict Value
  unfolding get put lower with_transport
  trojan_fields uri q host port =
      let sni = or_value (get (codes "sni") q) (or_value (get (codes "peer") q) host) in
      let named =
        put (codes "sni") sni
          (put (codes "password") (text (lib.unquote (text_of uri.username))) (base host port)) in
      with_transport (lower (or_text (get (codes "type") q) (codes "tcp"))) q
        (put_if (yes (get (codes "allowInsecure") q)) (codes "skip-cert-verify") (flag true) named)

  abbrev short_id : Dict Text → Fields
  short_id q =
      if is_set (get (codes "sid") q) || is_set (get (codes "short_id") q)
      then entry (codes "short-id")
          (or_value (get (codes "sid") q) (value_of (get (codes "short_id") q))) nil
      else nil

  -- the branches on `security`
  unfoldable pub with_security : Text → Dict Text → Value → Dict Value → Dict Value
  unfolding eqb get put is_in
  with_security security q host d =
      if eqb security (codes "reality")
      then put (codes "servername") (or_value (get (codes "sni") q) host) (
          put (codes "reality-opts")
            (table (
              entry (codes "public-key")
                (text (or_text (get (codes "pbk") q) (get_or (get (codes "public_key") q) [])))
                (short_id q)))
            d)
      else if eqb security (codes "tls")
      then put_if (yes (get (codes "allowInsecure") q)) (codes "skip-cert-verify") (flag true) (
          put (codes "servername") (or_value (get (codes "sni") q) host)
            (put (codes "tls") (flag true) d))
      else d

  unfoldable pub vless_fields : Uri → Dict Text → Value → ℤ → Dict Value
  unfolding get put lower with_security with_transport
  vless_fields uri q host port =
      let flowing =
        put_if (is_set (get (codes "flow") q)) (codes "flow") (value_of (get (codes "flow") q))
          (put (codes "uuid") (text (lib.unquote (text_of uri.username))) (base host port)) in
      let net =
        lower
          (or_text (get (codes "type") q) (or_text (get (codes "transport") q) (codes "tcp"))) in
      with_transport net q
        (with_security (lower (or_text (get (codes "security") q) (codes "tls"))) q host flowing)

  -- password, sni and the test on "insecure", which hysteria2 and anytls share
  unfoldable pub insecure_fields : Uri → Dict Text → Value → ℤ → Dict Value
  unfolding get put is_in
  insecure_fields uri q host port =
      put_if (yes (get (codes "insecure") q)) (codes "skip-cert-verify") (flag true) (
        put (codes "sni") (or_value (get (codes "sni") q) host)
          (put (codes "password") (text (lib.unquote (text_of uri.username))) (base host port)))

  abbrev with_obfs : Dict Text → Dict Value → Dict Value
  with_obfs q d =
      put_if (is_set (get (codes "obfs") q)) (codes "obfs-password")
        (text (or_text (get (codes "obfs-password") q) (get_or (get (codes "obfs_password") q) [])))
        (put_if (is_set (get (codes "obfs") q)) (codes "obfs") (value_of (get (codes "obfs") q)) d)

  unfoldable pub hysteria2_fields : Uri → Dict Text → Value → ℤ → Dict Value
  unfolding insecure_fields get put
  hysteria2_fields uri q host port = with_obfs q (insecure_fields uri q host port)

  -- uuid and password; `none` is the unpacking of a list of one
  unfoldable pub tuic_user : Uri → Option (Text × Text)
  unfolding has two_parts
  tuic_user uri =
      if has b':' (text_of uri.username)
      then two_parts (lib.unquote (text_of uri.username))
      else some (lib.unquote (text_of uri.username), lib.unquote (text_of uri.password))

  abbrev pub tuic_with : Text × Text → Dict Text → Value → ℤ → Dict Value
  tuic_with (uuid, password) q host port =
      put_if (yes (get (codes "allow_insecure") q)) (codes "skip-cert-verify") (flag true) (
        put (codes "sni") (or_value (get (codes "sni") q) host) (
          put (codes "password") (text password) (put (codes "uuid") (text uuid) (base host port))))

  unfoldable pub http_fields : Uri → Value → ℤ → Dict Value
  unfolding eqb lower put
  http_fields uri host port =
      let https = eqb (lower uri.scheme) (codes "https") in
      put_if https (codes "sni") host (
        put_if https (codes "tls") (flag true) (
          put_if (is_set uri.password) (codes "password")
            (text (lib.unquote (text_of uri.password)))
            (put_if (is_set uri.username) (codes "username")
              (text (lib.unquote (text_of uri.username))) (base host port))))

  -- `if q.get("mtu", "").isdigit(): proxy["mtu"] = int(q["mtu"])`; `int` refuses some digits
  unfoldable pub with_mtu : Text → Dict Value → Option (Dict Value)
  unfolding is_digit int_of put
  with_mtu mtu d =
      if is_empty mtu || not (all is_digit mtu)
      then some d
      else elim (int_of mtu) [ none ↦ none | some z ↦ some (put (codes "mtu") (number z) d) ]

  abbrev pub with_ipv6 : Option Text → Dict Value → Dict Value
  with_ipv6 none d = d
  with_ipv6 (some a) d = put (codes "ipv6") (text a) d

  abbrev pub map_fields : Option Text → Option (Dict Value) → Option (Dict Value)
  map_fields a none = none
  map_fields a (some d) = some (with_ipv6 a d)

  unfoldable pub wireguard_fields : Uri → Dict Text → Value → ℤ → Option (Dict Value)
  unfolding get put with_mtu
  wireguard_fields uri q host port =
      let keyed =
        put (codes "ip") (text (get_or (get (codes "address") q) (codes "172.19.0.2/32"))) (
          put (codes "public-key") (text (get_or (get (codes "pk") q) [])) (
            put (codes "private-key") (text (lib.unquote (text_of uri.username)))
              (base host port))) in
      map_fields (get (codes "ipv6") q) (
        with_mtu (get_or (get (codes "mtu") q) []) (
          put_if (is_set (get (codes "psk") q)) (codes "preshared-key")
            (value_of (get (codes "psk") q)) keyed))
