-- ===== src/MihomoRouter/Exits/Names.antt =====
-- The names of the loaded exits.
use gpn.Prelude.{
  Bool, true, false, List, [], ◌∷◌, ◌++◌, Option, none, some, ◌≡◌, ◌∙◌, refl, ap, subst, ◌||◌, inl,
  inr, Bool-cases, Option-cases, is_empty, length, take, ◌-◌, if◌then◌else◌, ℤ,
}
use gpn.Prelude.Dict.{Dict, get, put, key_eq, get-put_other, get-put_self}
use gpn.Text.{Text, codes, Unicode, lower}
use gpn.Text.Equality.{eqb, eqb_iff, is_in, eqb_refl}
use gpn.ExitConfig.Library.{Value, text, Library, is_true, table, get_or}
use gpn.ExitConfig.Protocols.{got, got_or}
use gpn.MihomoRouter.Exits.{
  WgConfig, with_name, with_sni, with_websocket, is_ws, field_of, server, copy_true, with_tls,
  typed_proxy, parse_singbox_exit, present, from_wg, from_outbound, from_yaml, listed, wg_proxy,
  wg_to_proxy, copy, assign, singbox_proxy, Exits, find_file, locate, spelled, load_json, load_yaml,
  load_exit_proxy,
}

-- A proxy, if there is one, has the name.
abbrev IsNamed : Text → Option (Dict Value) → Type 0
IsNamed n none = Unit
IsNamed n (some d) = get (codes "name") d ≡ some (text n)

copy-IsNamed :
    (n from to : Text) (ob : Dict Value) (o : Option (Dict Value))
    → key_eq to (codes "name") ≡ false
    → IsNamed n o
    → IsNamed n (copy from to ob o)
unfolding copy
copy-IsNamed n from to ob none k h = tt
copy-IsNamed n from to ob (some d) k h = elim (Option-cases (get from ob)) [
  | inl e ↦ rw (e, copy) tt
  | inr (v, e) ↦ rw (e, copy) (get-put_other (codes "name") to v d k ∙ h)
]

assign-IsNamed :
    (n k : Text) (v : Value) (o : Option (Dict Value))
    → key_eq k (codes "name") ≡ false
    → IsNamed n o
    → IsNamed n (assign k v o)
unfolding assign
assign-IsNamed n k v none e h = tt
assign-IsNamed n k v (some d) e h = get-put_other (codes "name") k v d e ∙ h

with_name-IsNamed :
    (n k : Text) (tls : Option Value) (o : Option (Dict Value))
    → key_eq k (codes "name") ≡ false
    → IsNamed n o
    → IsNamed n (with_name k tls o)
with_name-IsNamed n k none o e h = h
with_name-IsNamed n k (some (table f)) o e h = assign-IsNamed n k _ o e h
with_name-IsNamed n k (some _) o e h = tt

with_sni-IsNamed :
    (n : Text) (tls : Option Value) (o : Option (Dict Value))
    → IsNamed n o
    → IsNamed n (with_sni tls o)
unfolding key_eq
with_sni-IsNamed n none o h = assign-IsNamed n (codes "sni") _ o refl h
with_sni-IsNamed n (some (table f)) o h = assign-IsNamed n (codes "sni") _ o refl h
with_sni-IsNamed n (some _) o h = tt

with_websocket-IsNamed :
    (n : Text) (transport : Option Value) (o : Option (Dict Value))
    → IsNamed n o
    → IsNamed n (with_websocket transport o)
unfolding key_eq
with_websocket-IsNamed n none o h = h
with_websocket-IsNamed n (some (table f)) o h =
    elim (Bool-cases (is_ws (field_of (codes "type") f))) [
      | inl e ↦ rw e (
          assign-IsNamed n (codes "ws-opts") _ _ refl
            (assign-IsNamed n (codes "network") _ o refl h))
      | inr e ↦ rw e h
    ]
with_websocket-IsNamed n (some _) o h = tt

module _ (lib : Library) where
  server-IsNamed : (ptype n : Text) (ob : Dict Value) → IsNamed n (server lib ptype n ob)
  unfolding key_eq get
  server-IsNamed ptype n ob =
      copy-IsNamed n (codes "server_port") (codes "port") ob _ refl
        (copy-IsNamed n (codes "server") (codes "server") ob _ refl refl)

  copy_true-IsNamed :
      (n k : Text) (ob : Dict Value) (o : Option (Dict Value))
      → key_eq k (codes "name") ≡ false
      → IsNamed n o
      → IsNamed n (copy_true lib k ob o)
  copy_true-IsNamed n k ob o e h = elim (Bool-cases (is_true lib (got (get k ob)))) [
    | inl f ↦ rw f (copy-IsNamed n k k ob o e h)
    | inr f ↦ rw f h
  ]

  with_tls-IsNamed :
      (n : Text) (tls : Option Value) (o : Option (Dict Value))
      → IsNamed n o
      → IsNamed n (with_tls lib tls o)
  unfolding key_eq
  with_tls-IsNamed n none o h = h
  with_tls-IsNamed n (some tls) o h =
      with_name-IsNamed n (codes "servername") (some tls) _ refl
        (assign-IsNamed n (codes "tls") _ o refl h)

  if-IsNamed :
      (n : Text) (b : Bool) (x y : Option (Dict Value))
      → IsNamed n x
      → IsNamed n y
      → IsNamed n (if b then x else y)
  if-IsNamed n true x y h k = h
  if-IsNamed n false x y h k = k

  login-IsNamed :
      (ptype n : Text) (ob : Dict Value)
      → IsNamed n (
          copy_true lib
            (codes "password")
            ob
            (copy_true lib (codes "username") ob (server lib ptype n ob)))
  unfolding key_eq
  login-IsNamed ptype n ob =
      copy_true-IsNamed n (codes "password") ob _ refl
        (copy_true-IsNamed n (codes "username") ob _ refl (server-IsNamed ptype n ob))

  singbox_proxy-IsNamed : (t n : Text) (ob : Dict Value) → IsNamed n (singbox_proxy lib t n ob)
  unfolding singbox_proxy key_eq get
  singbox_proxy-IsNamed t n ob = elim (Bool-cases (eqb t (codes "shadowsocks"))) [
    | inl e ↦ rw e (
        copy-IsNamed n (codes "password") (codes "password") ob _ refl (
          copy-IsNamed n (codes "method") (codes "cipher") ob _ refl
            (server-IsNamed (codes "ss") n ob)))
    | inr e ↦ rw e (elim (Bool-cases (eqb t (codes "vmess"))) [
      | inl e ↦ rw e (
          with_websocket-IsNamed n (get (codes "transport") ob) _ (
            with_tls-IsNamed n (get (codes "tls") ob) _ (
              assign-IsNamed n (codes "cipher") _ _ refl (
                assign-IsNamed n (codes "alterId") _ _ refl (
                  copy-IsNamed n (codes "uuid") (codes "uuid") ob _ refl
                    (server-IsNamed (codes "vmess") n ob))))))
      | inr e ↦ rw e (elim (Bool-cases (eqb t (codes "trojan"))) [
        | inl e ↦ rw e (
            with_name-IsNamed n (codes "sni") (get (codes "tls") ob) _ refl (
              copy-IsNamed n (codes "password") (codes "password") ob _ refl
                (server-IsNamed (codes "trojan") n ob)))
        | inr e ↦ rw e (elim (Bool-cases (eqb t (codes "vless"))) [
          | inl e ↦ rw e (
              with_name-IsNamed n (codes "servername") (get (codes "tls") ob) _ refl (
                copy-IsNamed n (codes "uuid") (codes "uuid") ob _ refl
                  (server-IsNamed (codes "vless") n ob)))
          | inr e ↦ rw e (elim (Bool-cases (eqb t (codes "hysteria2"))) [
            | inl e ↦ rw e (
                with_sni-IsNamed n (get (codes "tls") ob) _ (
                  copy-IsNamed n (codes "password") (codes "password") ob _ refl
                    (server-IsNamed (codes "hysteria2") n ob)))
            | inr e ↦ rw e (elim (Bool-cases (eqb t (codes "tuic"))) [
              | inl e ↦ rw e (
                  with_sni-IsNamed n (get (codes "tls") ob) _ (
                    assign-IsNamed n (codes "password") _ _ refl (
                      copy-IsNamed n (codes "uuid") (codes "uuid") ob _ refl
                        (server-IsNamed (codes "tuic") n ob))))
              | inr e ↦ rw e (elim (Bool-cases (eqb t (codes "socks"))) [
                | inl e ↦ rw e (login-IsNamed (codes "socks5") n ob)
                | inr e ↦ rw e (elim (Bool-cases (eqb t (codes "http"))) [
                  | inl e ↦ rw e (login-IsNamed (codes "http") n ob)
                  | inr e ↦ rw e (elim (Bool-cases (eqb t (codes "wireguard"))) [
                    | inl e ↦ rw e (refl)
                    | inr e ↦ rw e (tt)
                  ])
                ])
              ])
            ])
          ])
        ])
      ])
    ])
  ]

  typed_proxy-IsNamed :
      (v : Value) (n : Text) (ob : Dict Value) → IsNamed n (typed_proxy lib v n ob)
  typed_proxy-IsNamed (text t) n ob = singbox_proxy-IsNamed t n ob
  typed_proxy-IsNamed _ n ob = tt

abbrev text_or : Text → Option Text → Text
text_or d none = d
text_or d (some t) = t

-- What the loading gives: nothing, or a proxy with a name.
abbrev pub IsLoaded : (Text → Type 0) → Option (Option (Dict Value)) → Type 0
IsLoaded P none = Unit
IsLoaded P (some none) = Unit
IsLoaded P (some (some d)) = (n : Text) × P n × (get (codes "name") d ≡ some (text n))

module _ ⦃u : Unicode⦄ (lib : Library) (dir : Exits) where
  -- The name, or that of a listed file whose spelling in small letters is that of the name with
  -- an extension.
  pub data IsSpelling (name : Text) : Text → Type 0 where
    same : IsSpelling name name
    listed_as :
        (m f ext : Text)
        → IsSpelling name m
        → is_in f (listed lib dir dir.listing) ≡ true
        → lower f ≡ lower m ++ ext
        → IsSpelling name (take (length f - 5) f)

  or_right : (a : Bool) {b : Bool} → b ≡ true → (a || b) ≡ true
  or_right true h = refl
  or_right false h = h

  find_file-listed :
      (w : Text) (fs : List Text) (f : Text)
      → find_file lib dir w fs ≡ some f
      → (is_in f fs ≡ true) × (lower f ≡ w)
  unfolding find_file is_in
  find_file-listed w [] f e = cc
  find_file-listed w (x ∷ fs) f e = elim (Bool-cases (eqb (lower x) w)) [
    | inl g ↦
        let same : x ≡ f = ap (text_or []) (rw g at e) in
        subst (λ y. (is_in y (x ∷ fs) ≡ true) × (lower y ≡ w)) same
          (rw (eqb_refl x) refl, (eqb_iff (lower x) w).0 g)
    | inr g ↦
        let (there, spelled) = find_file-listed w fs f (rw g at e) in
        (or_right (eqb f x) there, spelled)
  ]

  locate-IsSpelling :
      (name ext m : Text) → IsSpelling name m → IsSpelling name (locate lib dir ext m).1
  unfolding locate
  locate-IsSpelling name ext m h = elim (Bool-cases (dir.exists_file (m ++ ext))) [
    | inl e ↦ rw e h
    | inr e ↦
        rw e
          (elim (Option-cases (find_file lib dir (lower m ++ ext) (listed lib dir dir.listing))) [
            | inl g ↦ rw g h
            | inr (f, g) ↦
                let (there, same_text) =
                  find_file-listed (lower m ++ ext) (listed lib dir dir.listing) f g in
                rw g (listed_as m f ext h there same_text)
          ])
  ]

  wg_proxy-IsNamed :
      (n host : Text) (port mtu : Option (Option ℤ)) (c : WgConfig)
      → IsNamed n (wg_proxy n host port mtu c)
  unfolding wg_proxy key_eq get put
  wg_proxy-IsNamed n host none mtu c = tt
  wg_proxy-IsNamed n host (some port) none c = tt
  wg_proxy-IsNamed n host (some port) (some none) c =
      elim (Bool-cases (is_empty (get_or (get (codes "presharedkey") c.peer) []))) [
        | inl e ↦ rw e refl
        | inr e ↦ rw e refl
      ]
  wg_proxy-IsNamed n host (some port) (some (some z)) c =
      elim (Bool-cases (is_empty (get_or (get (codes "presharedkey") c.peer) []))) [
        | inl e ↦ rw e refl
        | inr e ↦ rw e refl
      ]

  wg_to_proxy-IsNamed : (n file : Text) → IsNamed n (wg_to_proxy n file)
  unfolding wg_to_proxy
  wg_to_proxy-IsNamed n file = wg_proxy-IsNamed n _ _ _ _

  present-IsLoaded :
      (P : Text → Type 0) (n : Text) (o : Option (Dict Value))
      → P n
      → IsNamed n o
      → IsLoaded P (present lib dir o)
  present-IsLoaded P n none p h = tt
  present-IsLoaded P n (some d) p h = (n, p, h)

  load_json-IsLoaded :
      (name : Text) (x : Text × Text)
      → IsSpelling name x.1
      → IsLoaded (IsSpelling name) (load_json lib dir x)
  unfolding load_json
  load_json-IsLoaded name (file, n) h = elim (Bool-cases (dir.exists_file file)) [
    | inl e ↦ rw e (outbound n (dir.first_outbound file) h)
    | inr e ↦ rw e (wg n (dir.wg_file (codes "pgw-" ++ (n ++ codes ".conf"))) h)
  ]
    where
      outbound :
          (n : Text) (o : Option (Dict Value))
          → IsSpelling name n
          → IsLoaded (IsSpelling name) (from_outbound lib dir n o)
      outbound n none h = tt
      outbound n (some ob) h =
          present-IsLoaded (IsSpelling name) n (parse_singbox_exit lib ob n) h (
            unfold parse_singbox_exit in
            typed_proxy-IsNamed lib (got_or (get (codes "type") ob) (text (codes "direct"))) n ob)

      wg :
          (n : Text) (o : Option Text)
          → IsSpelling name n
          → IsLoaded (IsSpelling name) (from_wg lib dir n o)
      wg n none h = tt
      wg n (some file) h =
          present-IsLoaded (IsSpelling name) n (wg_to_proxy n file) h (wg_to_proxy-IsNamed n file)

  load_yaml-IsLoaded :
      (name : Text) (x : Text × Text)
      → IsSpelling name x.1
      → IsLoaded (IsSpelling name) (load_yaml lib dir x)
  unfolding load_yaml
  load_yaml-IsLoaded name (file, n) h = elim (Bool-cases (dir.exists_file file)) [
    | inl e ↦ rw e (yaml n (dir.yaml_proxies file) h)
    | inr e ↦ rw e (json n h)
  ]
    where
      json :
          (n : Text)
          → IsSpelling name n
          → IsLoaded (IsSpelling name) (load_json lib dir (locate lib dir (codes ".json") n))
      json n h =
          load_json-IsLoaded name (locate lib dir (codes ".json") n)
            (locate-IsSpelling name (codes ".json") n h)

      yaml :
          (n : Text) (o : Option (List (Dict Value)))
          → IsSpelling name n
          → IsLoaded (IsSpelling name) (from_yaml lib dir n o)
      yaml n none h = tt
      yaml n (some []) h = json n h
      yaml n (some (p ∷ ps)) h = (n, h, get-put_self (codes "name") (text n) p)

  -- A loaded exit, from whichever of the three places it comes, is a proxy whose name is the one
  -- that was asked for, or that of a listed file which is this name and an extension but for the
  -- case of its letters.
  pub load_exit_proxy-IsLoaded :
      (name : Text) → IsLoaded (IsSpelling name) (load_exit_proxy lib dir name)
  unfolding load_exit_proxy
  load_exit_proxy-IsLoaded name =
      load_yaml-IsLoaded name (locate lib dir (codes ".yaml") name)
        (locate-IsSpelling name (codes ".yaml") name same)
