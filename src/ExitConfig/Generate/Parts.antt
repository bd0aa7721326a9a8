-- ===== src/ExitConfig/Generate/Parts.antt =====
-- The server, the port and the reserved names of the fields that the parsers build.
use gpn.Prelude.{Bool, true, false, [], none, some, ◌≡◌, ◌∙◌, refl, inl, inr, Bool-cases, ℤ}
use gpn.Prelude.Dict.{Dict, get, put, key_eq, get-put_other, IsUnique, put-IsUnique}
use gpn.Text.{Text, codes, Unicode, lower}
use gpn.Text.Equality.{eqb, is_in}
use gpn.RulesImport.Fetch.{is_set, text_of}
use gpn.ExitConfig.Library.{
  Value, text, number, flag, Uri, Library, or_value, or_text, get_or, value_of,
}
use gpn.ExitConfig.Links.{base, put_if}
use gpn.ExitConfig.Protocols.{
  with_ws, with_grpc, with_h2, with_transport, ws_names, yes, trojan_fields, with_security,
  vless_fields, insecure_fields, hysteria2_fields, tuic_with, http_fields,
}

-- A proxy's fields name its server and port, and have neither "name" nor "type".
pub record IsProxy (host : Value) (port : ℤ) (d : Dict Value) : Type 0 where
  pub unique : IsUnique d
  pub server : get (codes "server") d ≡ some host
  pub at_port : get (codes "port") d ≡ some (number port)
  pub unnamed : get (codes "name") d ≡ none
  pub untyped : get (codes "type") d ≡ none

-- A key other than these four.
abbrev pub IsFree : Text → Type 0
IsFree k =
    (key_eq k (codes "server") ≡ false)
    × (key_eq k (codes "port") ≡ false)
    × (key_eq k (codes "name") ≡ false)
    × (key_eq k (codes "type") ≡ false)

module _ (host : Value) (port : ℤ) where
  pub base-IsProxy : IsProxy host port (base host port)
  unfolding get key_eq
  base-IsProxy = record {
    unique = (refl, (refl, tt));
    server = refl;
    at_port = refl;
    unnamed = refl;
    untyped = refl;
  }

  pub put-IsProxy :
      (k : Text) (v : Value) (d : Dict Value)
      → IsFree k
      → IsProxy host port d
      → IsProxy host port (put k v d)
  put-IsProxy k v d (a, b, c, e) h = record {
    unique = put-IsUnique k v d h.unique;
    server = get-put_other (codes "server") k v d a ∙ h.server;
    at_port = get-put_other (codes "port") k v d b ∙ h.at_port;
    unnamed = get-put_other (codes "name") k v d c ∙ h.unnamed;
    untyped = get-put_other (codes "type") k v d e ∙ h.untyped;
  }

  pub put_if-IsProxy :
      (b : Bool) (k : Text) (v : Value) (d : Dict Value)
      → IsFree k
      → IsProxy host port d
      → IsProxy host port (put_if b k v d)
  put_if-IsProxy true k v d f h = put-IsProxy k v d f h
  put_if-IsProxy false k v d f h = h

module _ ⦃u : Unicode⦄ (lib : Library) (host : Value) (port : ℤ) where
  free : IsFree (codes "network")
  unfolding key_eq
  free = (refl, refl, refl, refl)

  pub with_ws-IsProxy :
      (path h : Value) (d : Dict Value)
      → IsProxy host port d
      → IsProxy host port (with_ws lib path h d)
  unfolding key_eq
  with_ws-IsProxy path h d k =
      put-IsProxy host port (codes "ws-opts") _ _ (refl, refl, refl, refl)
        (put-IsProxy host port (codes "network") _ d free k)

  pub with_grpc-IsProxy :
      (name : Text) (d : Dict Value)
      → IsProxy host port d
      → IsProxy host port (with_grpc lib name d)
  unfolding key_eq
  with_grpc-IsProxy name d k =
      put-IsProxy host port (codes "grpc-opts") _ _ (refl, refl, refl, refl)
        (put-IsProxy host port (codes "network") _ d free k)

  pub with_h2-IsProxy :
      (h : Value) (d : Dict Value) → IsProxy host port d → IsProxy host port (with_h2 lib h d)
  unfolding key_eq
  with_h2-IsProxy h d k =
      put_if-IsProxy host port _ (codes "h2-opts") _ _ (refl, refl, refl, refl)
        (put-IsProxy host port (codes "network") _ d free k)

  with_transport-IsProxy :
      (net : Text) (q : Dict Text) (d : Dict Value)
      → IsProxy host port d
      → IsProxy host port (with_transport lib net q d)
  unfolding with_transport
  with_transport-IsProxy net q d h = elim (Bool-cases (is_in net ws_names)) [
    | inl e ↦ rw e (with_ws-IsProxy _ (value_of (get (codes "host") q)) d h)
    | inr e ↦ rw e (elim (Bool-cases (eqb net (codes "grpc"))) [
      | inl f ↦ rw f (with_grpc-IsProxy (get_or (get (codes "serviceName") q) []) d h)
      | inr f ↦ rw f h
    ])
  ]

  pub trojan_fields-IsProxy :
      (uri : Uri) (q : Dict Text) → IsProxy host port (trojan_fields lib uri q host port)
  unfolding trojan_fields key_eq
  trojan_fields-IsProxy uri q =
      with_transport-IsProxy (lower (or_text (get (codes "type") q) (codes "tcp"))) q _ (
        put_if-IsProxy host port (yes (get (codes "allowInsecure") q)) (codes "skip-cert-verify")
          (flag true) _ (refl, refl, refl, refl)
          (put-IsProxy host port (codes "sni")
            (or_value (get (codes "sni") q) (or_value (get (codes "peer") q) host)) _
            (refl, refl, refl, refl)
            (put-IsProxy host port (codes "password") (text (lib.unquote (text_of uri.username))) _
              (refl, refl, refl, refl) (base-IsProxy host port))))

  with_security-IsProxy :
      (security : Text) (q : Dict Text) (d : Dict Value)
      → IsProxy host port d
      → IsProxy host port (with_security lib security q host d)
  unfolding with_security key_eq
  with_security-IsProxy security q d h = elim (Bool-cases (eqb security (codes "reality"))) [
    | inl e ↦ rw e (
        put-IsProxy host port (codes "servername") _ _ (refl, refl, refl, refl)
          (put-IsProxy host port (codes "reality-opts") _ d (refl, refl, refl, refl) h))
    | inr e ↦ rw e (elim (Bool-cases (eqb security (codes "tls"))) [
      | inl f ↦ rw f (
          put_if-IsProxy host port (yes (get (codes "allowInsecure") q)) (codes "skip-cert-verify")
            (flag true) _ (refl, refl, refl, refl)
            (put-IsProxy host port (codes "servername") _ _ (refl, refl, refl, refl)
              (put-IsProxy host port (codes "tls") (flag true) d (refl, refl, refl, refl) h)))
      | inr f ↦ rw f h
    ])
  ]

  pub vless_fields-IsProxy :
      (uri : Uri) (q : Dict Text) → IsProxy host port (vless_fields lib uri q host port)
  unfolding vless_fields key_eq
  vless_fields-IsProxy uri q =
      with_transport-IsProxy
        (lower (or_text (get (codes "type") q) (or_text (get (codes "transport") q) (codes "tcp"))))
        q _
        (with_security-IsProxy (lower (or_text (get (codes "security") q) (codes "tls"))) q _ (
          put_if-IsProxy host port (is_set (get (codes "flow") q)) (codes "flow")
            (value_of (get (codes "flow") q)) _ (refl, refl, refl, refl)
            (put-IsProxy host port (codes "uuid") (text (lib.unquote (text_of uri.username))) _
              (refl, refl, refl, refl) (base-IsProxy host port))))

  pub insecure_fields-IsProxy :
      (uri : Uri) (q : Dict Text) → IsProxy host port (insecure_fields lib uri q host port)
  unfolding insecure_fields key_eq
  insecure_fields-IsProxy uri q =
      put_if-IsProxy host port _ (codes "skip-cert-verify") _ _ (refl, refl, refl, refl)
        (put-IsProxy host port (codes "sni") _ _ (refl, refl, refl, refl)
          (put-IsProxy host port (codes "password") _ _ (refl, refl, refl, refl)
            (base-IsProxy host port)))

  pub hysteria2_fields-IsProxy :
      (uri : Uri) (q : Dict Text) → IsProxy host port (hysteria2_fields lib uri q host port)
  unfolding hysteria2_fields key_eq
  hysteria2_fields-IsProxy uri q =
      put_if-IsProxy host port _ (codes "obfs-password") _ _ (refl, refl, refl, refl)
        (put_if-IsProxy host port _ (codes "obfs") _ _ (refl, refl, refl, refl)
          (insecure_fields-IsProxy uri q))

  pub tuic_with-IsProxy :
      (user : Text × Text) (q : Dict Text) → IsProxy host port (tuic_with lib user q host port)
  unfolding key_eq
  tuic_with-IsProxy (uuid, password) q =
      put_if-IsProxy host port _ (codes "skip-cert-verify") _ _ (refl, refl, refl, refl)
        (put-IsProxy host port (codes "sni") _ _ (refl, refl, refl, refl)
          (put-IsProxy host port (codes "password") _ _ (refl, refl, refl, refl)
            (put-IsProxy host port (codes "uuid") _ _ (refl, refl, refl, refl)
              (base-IsProxy host port))))

  pub http_fields-IsProxy : (uri : Uri) → IsProxy host port (http_fields lib uri host port)
  unfolding http_fields key_eq
  http_fields-IsProxy uri =
      put_if-IsProxy host port _ (codes "sni") _ _ (refl, refl, refl, refl)
        (put_if-IsProxy host port _ (codes "tls") _ _ (refl, refl, refl, refl)
          (put_if-IsProxy host port _ (codes "password") _ _ (refl, refl, refl, refl)
            (put_if-IsProxy host port _ (codes "username") _ _ (refl, refl, refl, refl)
              (base-IsProxy host port))))
