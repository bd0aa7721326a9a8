-- ===== src/SingboxConfig/Generate/Bound.antt =====
-- The type, tag, server and port of the outbound that is written.
use gpn.Prelude.{
  Bool, true, false, List, [], ◌∷◌, Option, none, some, ◌≡◌, ◌∙◌, refl, inl, inr, Bool-cases, ℤ,
}
use gpn.Prelude.Dict.{Dict, get, put, key_eq, get-put_other}
use gpn.Text.{Text, codes, Unicode, lower}
use gpn.Text.Equality.{is_in}
use gpn.RulesImport.Fetch.{is_set}
use gpn.ExitConfig.Library.{Value, text, number, Uri, Library, value_of, or_value, or_text}
use gpn.ExitConfig.Links.{Proxied, put_if}
use gpn.ExitConfig.Protocols.Proxies.{proxied}
use gpn.SingboxConfig.Blocks.{
  outbound, with_block, transport_block, query_transport, trojan_outbound, vless_tls,
  vless_outbound, insecure_outbound, hysteria2_outbound, tuic_outbound, http_outbound, password_of,
  either_text,
}
use gpn.SingboxConfig.Outbounds.{vmess_outbound}

-- `PROXY_TYPES`
abbrev pub proxy_types : List Text
proxy_types =
    codes "shadowsocks"
    ∷ codes "vmess"
    ∷ codes "trojan"
    ∷ codes "vless"
    ∷ codes "hysteria"
    ∷ codes "hysteria2"
    ∷ codes "tuic"
    ∷ codes "anytls"
    ∷ codes "shadowtls"
    ∷ codes "socks"
    ∷ codes "http"
    ∷ []

-- An outbound of a known type for this host and port, with the tag "out".
pub record IsOutbound (host : Value) (port : ℤ) (d : Dict Value) : Type 0 where
  pub ptype : Text
  pub known : is_in ptype proxy_types ≡ true
  pub typed : get (codes "type") d ≡ some (text ptype)
  pub tagged : get (codes "tag") d ≡ some (text (codes "out"))
  pub server : get (codes "server") d ≡ some host
  pub at_port : get (codes "server_port") d ≡ some (number port)

-- A key other than these four.
abbrev IsFree : Text → Type 0
IsFree k =
    (key_eq k (codes "type") ≡ false)
    × (key_eq k (codes "tag") ≡ false)
    × (key_eq k (codes "server") ≡ false)
    × (key_eq k (codes "server_port") ≡ false)

module _ (host : Value) (port : ℤ) where
  pub outbound-IsOutbound :
      (ptype : Text)
      → is_in ptype proxy_types ≡ true
      → IsOutbound host port (outbound ptype host port)
  unfolding get key_eq
  outbound-IsOutbound ptype h = record {
    ptype = ptype;
    known = h;
    typed = refl;
    tagged = refl;
    server = refl;
    at_port = refl;
  }

  pub put-IsOutbound :
      (k : Text) (v : Value) (d : Dict Value)
      → IsFree k
      → IsOutbound host port d
      → IsOutbound host port (put k v d)
  put-IsOutbound k v d (a, b, c, e) h = record {
    ptype = h.ptype;
    known = h.known;
    typed = get-put_other (codes "type") k v d a ∙ h.typed;
    tagged = get-put_other (codes "tag") k v d b ∙ h.tagged;
    server = get-put_other (codes "server") k v d c ∙ h.server;
    at_port = get-put_other (codes "server_port") k v d e ∙ h.at_port;
  }

  pub put_if-IsOutbound :
      (b : Bool) (k : Text) (v : Value) (d : Dict Value)
      → IsFree k
      → IsOutbound host port d
      → IsOutbound host port (put_if b k v d)
  put_if-IsOutbound true k v d f h = put-IsOutbound k v d f h
  put_if-IsOutbound false k v d f h = h

  abbrev pub IsBuilt : Option (Dict Value) → Type 0
  IsBuilt none = Unit
  IsBuilt (some d) = IsOutbound host port d

-- The outbound holds the host and the port that are returned with it.
abbrev pub IsBound : Option Proxied → Type 0
IsBound none = Unit
IsBound (some (d, host, port)) = IsOutbound host port d

module _ ⦃u : Unicode⦄ (lib : Library) (host : Value) (port : ℤ) where
  pub with_block-IsBuilt :
      (o : Option (Option Value)) (d : Dict Value)
      → IsOutbound host port d
      → IsBuilt host port (with_block lib o d)
  unfolding key_eq
  with_block-IsBuilt none d h = tt
  with_block-IsBuilt (some none) d h = h
  with_block-IsBuilt (some (some v)) d h =
      put-IsOutbound host port (codes "transport") v d (refl, refl, refl, refl) h

  query_transport-IsBuilt :
      (net : Option Text) (q : Dict Text) (d : Dict Value)
      → IsOutbound host port d
      → IsBuilt host port (query_transport lib net q d)
  unfolding query_transport
  query_transport-IsBuilt net q d h =
      with_block-IsBuilt
        (transport_block lib (value_of net) (value_of (get (codes "host") q))
          (value_of (get (codes "path") q))
          (or_value (get (codes "serviceName") q) (value_of (get (codes "service_name") q))))
        d h

  pub trojan-IsBuilt :
      (uri : Uri) (q : Dict Text) → IsBuilt host port (trojan_outbound lib uri q host port)
  unfolding trojan_outbound key_eq is_in
  trojan-IsBuilt uri q = query_transport-IsBuilt (get (codes "type") q) q _ (
      put-IsOutbound host port (codes "tls") _ _ (refl, refl, refl, refl)
        (put-IsOutbound host port (codes "password") (password_of lib uri) _
          (refl, refl, refl, refl) (outbound-IsOutbound host port (codes "trojan") refl)))

  vless_tls-IsOutbound :
      (security : Text) (q : Dict Text) (d : Dict Value)
      → IsOutbound host port d
      → IsOutbound host port (vless_tls lib security q host d)
  unfolding vless_tls key_eq
  vless_tls-IsOutbound security q d h =
      elim (Bool-cases (is_in security (codes "tls" ∷ codes "reality" ∷ []))) [
        | inl e ↦ rw e (put-IsOutbound host port (codes "tls") _ d (refl, refl, refl, refl) h)
        | inr e ↦ rw e h
      ]

  pub vless-IsBuilt :
      (uri : Uri) (q : Dict Text) → IsBuilt host port (vless_outbound lib uri q host port)
  unfolding vless_outbound key_eq is_in
  vless-IsBuilt uri q =
      query_transport-IsBuilt (either_text lib (get (codes "type") q) (get (codes "transport") q)) q
        _
        (vless_tls-IsOutbound (lower (or_text (get (codes "security") q) (codes "tls"))) q _ (
          put_if-IsOutbound host port (is_set (get (codes "flow") q)) (codes "flow")
            (value_of (get (codes "flow") q)) _ (refl, refl, refl, refl)
            (put-IsOutbound host port (codes "uuid") (password_of lib uri) _
              (refl, refl, refl, refl) (outbound-IsOutbound host port (codes "vless") refl))))

  pub insecure-IsOutbound :
      (ptype : Text) (uri : Uri) (q : Dict Text)
      → is_in ptype proxy_types ≡ true
      → IsOutbound host port (insecure_outbound lib ptype uri q host port)
  unfolding insecure_outbound key_eq
  insecure-IsOutbound ptype uri q k =
      put-IsOutbound host port (codes "tls") _ _ (refl, refl, refl, refl)
        (put-IsOutbound host port (codes "password") _ _ (refl, refl, refl, refl)
          (outbound-IsOutbound host port ptype k))

  pub hysteria2-IsOutbound :
      (uri : Uri) (q : Dict Text) → IsOutbound host port (hysteria2_outbound lib uri q host port)
  unfolding hysteria2_outbound key_eq is_in
  hysteria2-IsOutbound uri q =
      put_if-IsOutbound host port _ (codes "obfs") _ _ (refl, refl, refl, refl)
        (insecure-IsOutbound (codes "hysteria2") uri q refl)

  pub tuic-IsOutbound :
      (user : Text × Text) (q : Dict Text)
      → IsOutbound host port (tuic_outbound lib user q host port)
  unfolding key_eq is_in
  tuic-IsOutbound (uuid, password) q =
      put-IsOutbound host port (codes "tls") _ _ (refl, refl, refl, refl)
        (put-IsOutbound host port (codes "password") _ _ (refl, refl, refl, refl)
          (put-IsOutbound host port (codes "uuid") _ _ (refl, refl, refl, refl)
            (outbound-IsOutbound host port (codes "tuic") refl)))

  pub http-IsOutbound : (uri : Uri) → IsOutbound host port (http_outbound lib uri host port)
  unfolding http_outbound key_eq is_in
  http-IsOutbound uri =
      put_if-IsOutbound host port _ (codes "tls") _ _ (refl, refl, refl, refl)
        (put_if-IsOutbound host port _ (codes "password") _ _ (refl, refl, refl, refl)
          (put_if-IsOutbound host port _ (codes "username") _ _ (refl, refl, refl, refl)
            (outbound-IsOutbound host port (codes "http") refl)))

  pub vmess-IsOutbound :
      (json : Dict Value) (aid : ℤ) → IsOutbound host port (vmess_outbound lib json host port aid)
  unfolding vmess_outbound key_eq is_in
  vmess-IsOutbound json aid =
      put_if-IsOutbound host port _ (codes "tls") _ _ (refl, refl, refl, refl)
        (put-IsOutbound host port (codes "security") _ _ (refl, refl, refl, refl)
          (put-IsOutbound host port (codes "alter_id") _ _ (refl, refl, refl, refl)
            (put-IsOutbound host port (codes "uuid") _ _ (refl, refl, refl, refl)
              (outbound-IsOutbound host port (codes "vmess") refl))))

  pub proxied-IsBound :
      (o : Option (Dict Value)) → IsBuilt host port o → IsBound (proxied lib host port o)
  proxied-IsBound none h = tt
  proxied-IsBound (some d) h = h
