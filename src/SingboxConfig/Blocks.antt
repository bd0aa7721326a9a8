-- ===== src/SingboxConfig/Blocks.antt =====
-- `tls_block` and `transport_block` of singbox-exit-config.py, and the fields of each protocol.
use gpn.Prelude.{Bool, true, false, ◌||◌, [], ◌∷◌, Option, none, some, if◌then◌else◌, ℤ}
use gpn.Prelude.Dict.{Dict, get, put}
use gpn.Text.{Text, codes, Unicode, lower}
use gpn.Text.Equality.{eqb, is_in}
use gpn.Text.Strip.{lstrip_by, is_char}
use gpn.RulesImport.Fetch.{is_set, text_of}
use gpn.ExitConfig.Library.{
  Value, flag, number, text, table, Fields, nil, entry, Uri, Library, value_of, or_value, or_text,
  get_or, is_true,
}
use gpn.ExitConfig.Links.{put_if}
use gpn.ExitConfig.Protocols.{ws_names, yes}
use gpn.ExitConfig.Protocols.Proxies.{network_name}

-- the four fields that every outbound begins with
abbrev pub outbound : Text → Value → ℤ → Dict Value
outbound ptype host port =
    (codes "type", text ptype)
    ∷ (codes "tag", text (codes "out"))
    ∷ (codes "server", host)
    ∷ (codes "server_port", number port)
    ∷ []

abbrev pub put_some : Text → Option Value → Dict Value → Dict Value
put_some k none d = d
put_some k (some v) d = put k v d

abbrev insecure_field : Bool → Fields → Fields
insecure_field true d = entry (codes "insecure") (flag true) d
insecure_field false d = d

abbrev pub name_field : Bool → Value → Fields → Fields
name_field true name d = entry (codes "server_name") name d
name_field false name d = d

module _ (lib : Library) where
  -- the block with `more` behind it
  unfoldable pub tls_with : Value → Bool → Fields → Value
  unfolding is_true
  tls_with name insecure more = table (
      entry (codes "enabled") (flag true)
        (name_field (is_true lib name) name (insecure_field insecure more)))

  unfoldable pub tls_block : Value → Bool → Value
  unfolding tls_with
  tls_block name insecure = tls_with name insecure nil

module _ ⦃u : Unicode⦄ (lib : Library) where
  -- `path or "/"`, and the header if there is a host
  abbrev pub ws_block : Value → Value → Value
  ws_block host path = table (
      entry (codes "type") (text (codes "ws")) (
        entry (codes "path") (if is_true lib path then path else text (codes "/")) (
          if is_true lib host
          then entry (codes "headers") (table (entry (codes "Host") host nil)) nil
          else nil)))

  -- `(path or "").lstrip("/")`; a true value that is no text has no `lstrip`
  unfoldable pub service_name : Value → Option Value
  unfolding is_true lstrip_by
  service_name (text t) = some (text (lstrip_by (is_char b'/') t))
  service_name v = if is_true lib v then none else some (text [])

  abbrev pub grpc_block : Option Value → Option (Option Value)
  grpc_block none = none
  grpc_block (some service) = some (
      some (
        table
          (entry (codes "type") (text (codes "grpc")) (entry (codes "service_name") service nil))))

  abbrev pub named_block : Option Text → Value → Value → Value → Option (Option Value)
  named_block none host path service = none
  named_block (some net) host path service =
      if is_in net ws_names
      then some (some (ws_block host path))
      else if eqb net (codes "grpc")
      then grpc_block (if is_true lib service then some service else service_name path)
      else some none

  -- The outer `none` is an exception, the inner one is `None`.
  unfoldable pub transport_block : Value → Value → Value → Value → Option (Option Value)
  unfolding network_name is_true is_in eqb service_name
  transport_block net host path service = named_block (network_name lib net) host path service

  abbrev pub with_block : Option (Option Value) → Dict Value → Option (Dict Value)
  with_block none d = none
  with_block (some tr) d = some (put_some (codes "transport") tr d)

  -- the call for a link with a query
  unfoldable pub query_transport : Option Text → Dict Text → Dict Value → Option (Dict Value)
  unfolding transport_block get
  query_transport net q d =
      with_block
        (transport_block (value_of net) (value_of (get (codes "host") q))
          (value_of (get (codes "path") q))
          (or_value (get (codes "serviceName") q) (value_of (get (codes "service_name") q))))
        d

  abbrev pub password_of : Uri → Value
  password_of uri = text (lib.unquote (text_of uri.username))

  unfoldable pub trojan_outbound : Uri → Dict Text → Value → ℤ → Option (Dict Value)
  unfolding tls_block query_transport get put is_in
  trojan_outbound uri q host port = query_transport (get (codes "type") q) q (
      put (codes "tls")
        (tls_block lib (or_value (get (codes "sni") q) (or_value (get (codes "peer") q) host))
          (yes (get (codes "allowInsecure") q)))
        (put (codes "password") (password_of uri) (outbound (codes "trojan") host port)))

  abbrev reality : Dict Text → Fields
  reality q = entry (codes "enabled") (flag true) (
      entry (codes "public_key")
        (text (or_text (get (codes "pbk") q) (get_or (get (codes "public_key") q) [])))
        (if is_set (get (codes "sid") q) || is_set (get (codes "short_id") q)
          then entry (codes "short_id")
              (or_value (get (codes "sid") q) (value_of (get (codes "short_id") q))) nil
          else nil))

  -- the branch on `security`
  unfoldable pub vless_tls : Text → Dict Text → Value → Dict Value → Dict Value
  unfolding tls_with is_in eqb get put
  vless_tls security q host d =
      if is_in security (codes "tls" ∷ codes "reality" ∷ [])
      then put (codes "tls")
          (tls_with lib (or_value (get (codes "sni") q) host) (yes (get (codes "allowInsecure") q))
            (if eqb security (codes "reality")
              then entry (codes "reality") (table (reality q)) nil
              else nil))
          d
      else d

  abbrev pub either_text : Option Text → Option Text → Option Text
  either_text none b = b
  either_text (some []) b = b
  either_text (some (c ∷ s)) b = some (c ∷ s)

  unfoldable pub vless_outbound : Uri → Dict Text → Value → ℤ → Option (Dict Value)
  unfolding vless_tls query_transport get put lower
  vless_outbound uri q host port =
      query_transport (either_text (get (codes "type") q) (get (codes "transport") q)) q (
        vless_tls (lower (or_text (get (codes "security") q) (codes "tls"))) q host (
          put_if (is_set (get (codes "flow") q)) (codes "flow") (value_of (get (codes "flow") q))
            (put (codes "uuid") (password_of uri) (outbound (codes "vless") host port))))

  -- password and tls with the test on "insecure", which hysteria2 and anytls share
  unfoldable pub insecure_outbound : Text → Uri → Dict Text → Value → ℤ → Dict Value
  unfolding tls_block get put is_in
  insecure_outbound ptype uri q host port =
      put (codes "tls")
        (tls_block lib (or_value (get (codes "sni") q) host) (yes (get (codes "insecure") q)))
        (put (codes "password") (password_of uri) (outbound ptype host port))

  abbrev obfs : Dict Text → Value
  obfs q = table (
      entry (codes "type") (value_of (get (codes "obfs") q)) (
        entry (codes "password")
          (text
            (or_text (get (codes "obfs-password") q) (get_or (get (codes "obfs_password") q) [])))
          nil))

  unfoldable pub hysteria2_outbound : Uri → Dict Text → Value → ℤ → Dict Value
  unfolding insecure_outbound get put
  hysteria2_outbound uri q host port =
      put_if (is_set (get (codes "obfs") q)) (codes "obfs") (obfs q)
        (insecure_outbound (codes "hysteria2") uri q host port)

  abbrev pub tuic_outbound : Text × Text → Dict Text → Value → ℤ → Dict Value
  tuic_outbound (uuid, password) q host port =
      put (codes "tls")
        (tls_block lib (or_value (get (codes "sni") q) host) (yes (get (codes "allow_insecure") q)))
        (put (codes "password") (text password)
          (put (codes "uuid") (text uuid) (outbound (codes "tuic") host port)))

  unfoldable pub http_outbound : Uri → Value → ℤ → Dict Value
  unfolding tls_block eqb lower put
  http_outbound uri host port =
      put_if (eqb (lower uri.scheme) (codes "https")) (codes "tls") (tls_block lib host false) (
        put_if (is_set uri.password) (codes "password") (text (lib.unquote (text_of uri.password)))
          (put_if (is_set uri.username) (codes "username")
            (text (lib.unquote (text_of uri.username))) (outbound (codes "http") host port)))
