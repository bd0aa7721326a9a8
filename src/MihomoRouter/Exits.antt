-- ===== src/MihomoRouter/Exits.antt =====
-- `wg_to_proxy`, `parse_singbox_exit`, `load_exit_proxy` and the loading loop of `main` in
-- mihomo-router-config.py.
pub mod Names
mod Tests
use gpn.Prelude.{
  ℕ, Bool, true, false, not, ◌&&◌, ◌||◌, List, [], ◌∷◌, ◌++◌, Option, none, some, is_empty, all,
  length, take, drop, ◌-◌, map, if◌then◌else◌, ℤ, pos,
}
use gpn.Prelude.Dict.{Dict, get, put}
use gpn.Text.{Text, codes, Unicode, lower, is_digit}
use gpn.Text.Equality.{eqb}
use gpn.Text.Number.{int_of}
use gpn.Text.Search.{starts_with, ends_with}
use gpn.Text.Split.{cut, before, file_lines}
use gpn.Text.Strip.{strip}
use gpn.ExitConfig.Library.{
  Value, text, flag, number, table, Fields, nil, entry, Library, get_or, is_true,
}
use gpn.ExitConfig.Links.{put_if}
use gpn.ExitConfig.Endpoint.{rcut}
use gpn.ExitConfig.Protocols.{got, got_or}

-- The two dictionaries of `wg_to_proxy`, and whether the section is "interface".
pub record WgConfig : Type 0 where
  pub iface : Dict Text
  pub peer : Dict Text
  pub in_interface : Bool

-- `line[1:-1]`
unfoldable pub inner : Text → Text
inner s = take (length s - 2) (drop 1 s)

module _ ⦃u : Unicode⦄ where
  abbrev pub wg_entry : Text × Option Text → WgConfig → WgConfig
  wg_entry (k, none) c = c
  wg_entry (k, some v) c =
      if c.in_interface
      then record c { iface = put (lower (strip k)) (strip v) c.iface }
      else record c { peer = put (lower (strip k)) (strip v) c.peer }

  -- the loop's body, for a line without its comment
  unfoldable pub wg_line : Text → WgConfig → WgConfig
  unfolding starts_with ends_with inner lower eqb cut strip put
  wg_line line c =
      if is_empty line
      then c
      else if starts_with (codes "[") line && ends_with (codes "]") line
      then record c { in_interface = eqb (lower (inner line)) (codes "interface") }
      else wg_entry (cut b'=' line) c

  unfoldable pub wg_lines : List Text → WgConfig → WgConfig
  unfolding wg_line before strip
  wg_lines [] c = c
  wg_lines (raw ∷ rest) c = wg_lines rest (wg_line (strip (before b'#' raw)) c)

  -- `s.isdigit()` and `int(s)`; the outer `none` is the exception
  unfoldable pub digits_or : Text → Option ℤ → Option (Option ℤ)
  unfolding is_digit int_of
  digits_or s default =
      if is_empty s || not (all is_digit s)
      then some default
      else elim (int_of s) [ none ↦ none | some z ↦ some (some z) ]

  -- `host, _, port = s.rpartition(":")`
  abbrev pub rpartition : Option (Text × Text) → Text → Text × Text
  rpartition none s = ([], s)
  rpartition (some (host, port)) s = (host, port)

  abbrev pub number_or : Option ℤ → Value
  number_or none = number (pos 51820)
  number_or (some z) = number z

  abbrev with_mtu : Option ℤ → Dict Value → Dict Value
  with_mtu none d = d
  with_mtu (some z) d = put (codes "mtu") (number z) d

  unfoldable pub wg_proxy :
      Text → Text → Option (Option ℤ) → Option (Option ℤ) → WgConfig → Option (Dict Value)
  unfolding put get strip before
  wg_proxy name host (some port) (some mtu) c =
      let psk = get_or (get (codes "presharedkey") c.peer) [] in
      some (
        with_mtu mtu (
          put_if (not (is_empty psk)) (codes "preshared-key") (text psk) (
            (codes "name", text name)
            ∷ (codes "type", text (codes "wireguard"))
            ∷ (codes "server", text host)
            ∷ (codes "port", number_or port)
            ∷ (
              codes "ip",
              text (
                  strip
                    (before b',' (get_or (get (codes "address") c.iface) (codes "172.19.0.2/32")))),
            )
            ∷ (codes "private-key", text (get_or (get (codes "privatekey") c.iface) []))
            ∷ (codes "public-key", text (get_or (get (codes "publickey") c.peer) []))
            ∷ [])))
  wg_proxy name host _ _ c = none

  -- `none` is the exception of `int`
  unfoldable pub wg_to_proxy : Text → Text → Option (Dict Value)
  unfolding wg_lines file_lines digits_or rcut get put strip before
  wg_to_proxy name file =
      let c = wg_lines (file_lines file) (record { iface = []; peer = []; in_interface = false }) in
      let endpoint = get_or (get (codes "endpoint") c.peer) [] in
      let (host, port) = rpartition (rcut b':' endpoint) endpoint in
      wg_proxy name host (digits_or port none)
        (digits_or (get_or (get (codes "mtu") c.iface) []) none) c

-- `ob.get(k)` on a nested object
unfoldable pub field_of : Text → Fields → Option Value
unfolding eqb
field_of k nil = none
field_of k (entry j v d) = if eqb j k then some v else field_of k d

-- `proxy[to] = ob[from]`; `none` is the `KeyError`
unfoldable pub copy : Text → Text → Dict Value → Option (Dict Value) → Option (Dict Value)
unfolding get put
copy from to ob none = none
copy from to ob (some d) = elim (get from ob) [ none ↦ none | some v ↦ some (put to v d) ]

-- `proxy[k] = v`, and what stands under `if "tls" in ob`
unfoldable pub assign : Text → Value → Option (Dict Value) → Option (Dict Value)
unfolding put
assign k v none = none
assign k v (some d) = some (put k v d)

-- `ob["tls"].get("server_name", "")`; a value that is no object has no `get`
abbrev server_name : Value → Option Value
server_name (table f) = some (got_or (field_of (codes "server_name") f) (text []))
server_name _ = none

abbrev name_from : Option Value → Text → Option (Dict Value) → Option (Dict Value)
name_from none k d = none
name_from (some v) k d = assign k v d

-- `if "tls" in ob: proxy[k] = ob["tls"].get("server_name", "")`
abbrev pub with_name : Text → Option Value → Option (Dict Value) → Option (Dict Value)
with_name k none d = d
with_name k (some tls) d = name_from (server_name tls) k d

-- `proxy["sni"] = ob.get("tls", {}).get("server_name", "")`
abbrev pub with_sni : Option Value → Option (Dict Value) → Option (Dict Value)
with_sni none d = assign (codes "sni") (text []) d
with_sni (some tls) d = name_from (server_name tls) (codes "sni") d

abbrev pub is_ws : Option Value → Bool
is_ws (some (text t)) = eqb t (codes "ws")
is_ws _ = false

-- the two statements for a websocket
abbrev pub with_websocket : Option Value → Option (Dict Value) → Option (Dict Value)
with_websocket none d = d
with_websocket (some (table f)) d =
    if is_ws (field_of (codes "type") f)
    then assign (codes "ws-opts")
        (table (entry (codes "path") (got_or (field_of (codes "path") f) (text (codes "/"))) nil))
        (assign (codes "network") (text (codes "ws")) d)
    else d
with_websocket (some _) d = none

module _ (lib : Library) where
  abbrev pub server : Text → Text → Dict Value → Option (Dict Value)
  server ptype name ob = copy (codes "server_port") (codes "port") ob (
      copy (codes "server") (codes "server") ob
        (some ((codes "name", text name) ∷ (codes "type", text ptype) ∷ [])))

  -- `if ob.get(k): proxy[k] = ob[k]`
  abbrev pub copy_true : Text → Dict Value → Option (Dict Value) → Option (Dict Value)
  copy_true k ob d = if is_true lib (got (get k ob)) then copy k k ob d else d

  abbrev pub with_tls : Option Value → Option (Dict Value) → Option (Dict Value)
  with_tls none d = d
  with_tls (some tls) d =
      with_name (codes "servername") (some tls) (assign (codes "tls") (flag true) d)

  -- the branches on the type; the last `none` is `die`
  unfoldable pub singbox_proxy : Text → Text → Dict Value → Option (Dict Value)
  unfolding eqb copy assign get is_true field_of
  singbox_proxy ptype name ob =
      if eqb ptype (codes "shadowsocks")
      then copy (codes "password") (codes "password") ob
          (copy (codes "method") (codes "cipher") ob (server (codes "ss") name ob))
      else if eqb ptype (codes "vmess")
      then with_websocket (get (codes "transport") ob) (
          with_tls (get (codes "tls") ob) (
            assign (codes "cipher") (got_or (get (codes "security") ob) (text (codes "auto"))) (
              assign (codes "alterId") (got_or (get (codes "alter_id") ob) (number (pos 0)))
                (copy (codes "uuid") (codes "uuid") ob (server (codes "vmess") name ob)))))
      else if eqb ptype (codes "trojan")
      then with_name (codes "sni") (get (codes "tls") ob)
          (copy (codes "password") (codes "password") ob (server (codes "trojan") name ob))
      else if eqb ptype (codes "vless")
      then with_name (codes "servername") (get (codes "tls") ob)
          (copy (codes "uuid") (codes "uuid") ob (server (codes "vless") name ob))
      else if eqb ptype (codes "hysteria2")
      then with_sni (get (codes "tls") ob)
          (copy (codes "password") (codes "password") ob (server (codes "hysteria2") name ob))
      else if eqb ptype (codes "tuic")
      then with_sni (get (codes "tls") ob) (
          assign (codes "password") (got_or (get (codes "password") ob) (text []))
            (copy (codes "uuid") (codes "uuid") ob (server (codes "tuic") name ob)))
      else if eqb ptype (codes "socks")
      then copy_true (codes "password") ob
          (copy_true (codes "username") ob (server (codes "socks5") name ob))
      else if eqb ptype (codes "http")
      then copy_true (codes "password") ob
          (copy_true (codes "username") ob (server (codes "http") name ob))
      else if eqb ptype (codes "wireguard")
      then some (
          (codes "name", text name)
          ∷ (codes "type", text (codes "wireguard"))
          ∷ (codes "ip", text (codes "172.19.0.2/32"))
          ∷ [])
      else none

  abbrev pub typed_proxy : Value → Text → Dict Value → Option (Dict Value)
  typed_proxy (text t) name ob = singbox_proxy t name ob
  typed_proxy _ name ob = none

  -- on `cfg["outbounds"][0]`
  unfoldable pub parse_singbox_exit : Dict Value → Text → Option (Dict Value)
  unfolding singbox_proxy get
  parse_singbox_exit ob name =
      typed_proxy (got_or (get (codes "type") ob) (text (codes "direct"))) name ob

-- What stands in the two directories; a reader gives `none` where it raises. `wg_file` is `none`
-- where there is no such file.
pub record Exits : Type 0 where
  pub listing : Option (List Text)
  pub exists_file : Text → Bool
  pub yaml_proxies : Text → Option (List (Dict Value))
  pub first_outbound : Text → Option (Dict Value)
  pub wg_file : Text → Option Text

module _ ⦃u : Unicode⦄ (lib : Library) (dir : Exits) where
  -- the loop over the directory: the first entry that is the wanted one but for its case
  unfoldable pub find_file : Text → List Text → Option Text
  unfolding lower eqb
  find_file wanted [] = none
  find_file wanted (f ∷ fs) = if eqb (lower f) wanted then some f else find_file wanted fs

  abbrev pub listed : Option (List Text) → List Text
  listed none = []
  listed (some fs) = fs

  abbrev pub spelled : Text → Text → Option Text → Text × Text
  spelled ext name none = (name ++ ext, name)
  spelled ext name (some f) = (f, take (length f - 5) f)

  -- the file for a name, and the name that it gives
  unfoldable pub locate : Text → Text → Text × Text
  unfolding find_file lower
  locate ext name =
      if dir.exists_file (name ++ ext)
      then (name ++ ext, name)
      else spelled ext name (find_file (lower name ++ ext) (listed dir.listing))

  abbrev pub present : Option (Dict Value) → Option (Option (Dict Value))
  present none = none
  present (some d) = some (some d)

  abbrev pub from_wg : Text → Option Text → Option (Option (Dict Value))
  from_wg name none = some none
  from_wg name (some file) = present (wg_to_proxy name file)

  abbrev pub from_outbound : Text → Option (Dict Value) → Option (Option (Dict Value))
  from_outbound name none = none
  from_outbound name (some ob) = present (parse_singbox_exit lib ob name)

  -- from the JSON file on
  unfoldable pub load_json : Text × Text → Option (Option (Dict Value))
  unfolding parse_singbox_exit wg_to_proxy
  load_json (file, name) =
      if dir.exists_file file
      then from_outbound name (dir.first_outbound file)
      else from_wg name (dir.wg_file (codes "pgw-" ++ (name ++ codes ".conf")))

  abbrev pub from_yaml : Text → Option (List (Dict Value)) → Option (Option (Dict Value))
  from_yaml name none = none
  from_yaml name (some (p ∷ _)) = some (some (put (codes "name") (text name) p))
  from_yaml name (some []) = load_json (locate (codes ".json") name)

  unfoldable pub load_yaml : Text × Text → Option (Option (Dict Value))
  unfolding load_json locate put
  load_yaml (file, name) =
      if dir.exists_file file
      then from_yaml name (dir.yaml_proxies file)
      else load_json (locate (codes ".json") name)

  -- The outer `none` is an error that ends the program, the inner one is `None`.
  unfoldable pub load_exit_proxy : Text → Option (Option (Dict Value))
  unfolding load_yaml locate
  load_exit_proxy name = load_yaml (locate (codes ".yaml") name)

  -- `proxies`, for the exits in the order of the set; `none` where the program ends
  unfoldable pub load_exits : List Text → Option (List (Dict Value))
  unfolding load_exit_proxy
  load_exits [] = some []
  load_exits (name ∷ names) = elim (load_exit_proxy name) [
    | none ↦ none
    | some none ↦ none
    | some (some d) ↦ elim (load_exits names) [ none ↦ none | some ds ↦ some (d ∷ ds) ]
  ]
