-- ===== src/SingboxRouter/Exits.antt =====
-- `wg_to_outbound` and `build_exit_outbound` of singbox-router-config.py.
use gpn.Prelude.{
  ℕ, Bool, false, not, ◌&&◌, ◌||◌, List, [], ◌∷◌, Option, none, some, ◌==◌, is_empty, if◌then◌else◌,
  ℤ, pos,
}
use gpn.Prelude.Dict.{Dict, get, put}
use gpn.Text.{Text, codes, Unicode, lower}
use gpn.Text.Equality.{eqb, is_in}
use gpn.Text.Search.{starts_with}
use gpn.Text.Split.{before, cut, split_on, file_lines}
use gpn.Text.Strip.{strip, strip_by}
use gpn.ExitConfig.Endpoint.{rcut}
use gpn.ExitConfig.Library.{Value, text, get_or}
use gpn.MihomoRouter.Exits.{WgConfig, wg_entry, digits_or, rpartition}

-- A wireguard outbound, and any outbound of the configuration.
pub record Wireguard : Type 0 where
  pub tag : Text
  pub server : Text
  pub server_port : ℤ
  pub local_address : List Text
  pub private_key : Text
  pub peer_public_key : Text
  pub pre_shared_key : Option Text
  pub mtu : Option ℤ

pub data Outbound : Type 0 where
  stored : Dict Value → Outbound
  wireguard : Wireguard → Outbound
  direct block : Outbound

abbrev pub text_in : Option Value → Option Text
text_in (some (text t)) = some t
text_in _ = none

unfoldable pub tag_of : Outbound → Option Text
unfolding get
tag_of (stored d) = text_in (get (codes "tag") d)
tag_of (wireguard w) = some w.tag
tag_of direct = some (codes "direct")
tag_of block = some (codes "block")

-- What `json.load` gives of an exit: its outbounds, and the outbound of each route rule.
pub record ExitFile : Type 0 where
  pub outbounds : List (Dict Value)
  pub routes : List (Option Text)

abbrev is_bracket : ℕ → Bool
is_bracket c = c == b'[' || c == b']'

abbrev addresses : List Text → List Text
addresses [] = []
addresses (a ∷ more) =
    let rest = addresses more in if is_empty (strip a) then rest else strip a ∷ rest

module _ ⦃u : Unicode⦄ where
  -- the loop's body: a section keeps its name without brackets
  unfoldable pub wg_line : Text → WgConfig → WgConfig
  unfolding starts_with strip_by lower eqb cut strip put
  wg_line line c =
      if is_empty line
      then c
      else if starts_with (codes "[") line
      then record c { in_interface = eqb (lower (strip_by is_bracket line)) (codes "interface") }
      else wg_entry (cut b'=' line) c

  unfoldable pub wg_lines : List Text → WgConfig → WgConfig
  unfolding wg_line before strip
  wg_lines [] c = c
  wg_lines (raw ∷ rest) c = wg_lines rest (wg_line (strip (before b'#' raw)) c)

  abbrev port_or : Option ℤ → ℤ
  port_or none = pos 51820
  port_or (some z) = z

  abbrev some_unless_empty : Text → Option Text
  some_unless_empty [] = none
  some_unless_empty (c ∷ s) = some (c ∷ s)

  abbrev pub wg_outbound :
      Text → Text → Option (Option ℤ) → Option (Option ℤ) → WgConfig → Option Wireguard
  wg_outbound name host (some port) (some mtu) c = some (record {
    tag = name;
    server = host;
    server_port = port_or port;
    local_address = addresses (split_on b',' (get_or (get (codes "address") c.iface) []));
    private_key = get_or (get (codes "privatekey") c.iface) [];
    peer_public_key = get_or (get (codes "publickey") c.peer) [];
    pre_shared_key = some_unless_empty (get_or (get (codes "presharedkey") c.peer) []);
    mtu = mtu;
  })
  wg_outbound name host _ _ c = none

  -- `none` is the exception of `int`
  unfoldable pub wg_to_outbound : Text → Text → Option Wireguard
  unfolding wg_lines file_lines digits_or rcut get split_on strip
  wg_to_outbound name file =
      let c = wg_lines (file_lines file) (record { iface = []; peer = []; in_interface = false }) in
      let endpoint = get_or (get (codes "endpoint") c.peer) [] in
      let (host, port) = rpartition (rcut b':' endpoint) endpoint in
      wg_outbound name host (digits_or port none)
        (digits_or (get_or (get (codes "mtu") c.iface) []) none) c

-- `by_tag.get(tag)`: the last outbound with a tag
unfoldable pub by_tag : Text → List (Dict Value) → Option (Dict Value)
unfolding get eqb
by_tag tag [] = none
by_tag tag (o ∷ os) = elim (by_tag tag os) [
  | some p ↦ some p
  | none ↦ elim (text_in (get (codes "tag") o)) [
    | none ↦ none
    | some t ↦ if eqb t tag then some o else none
  ]
]

abbrev or_first : Option (Dict Value) → Dict Value → Dict Value → Dict Value
or_first none later first = later
or_first (some o) later first = o

-- the loop over the route rules: the first that names another outbound
unfoldable pub routed : List (Option Text) → List (Dict Value) → Dict Value → Dict Value
unfolding is_in by_tag
routed [] obs first = first
routed (none ∷ rs) obs first = routed rs obs first
routed (some tag ∷ rs) obs first =
    let later = routed rs obs first in
    if is_empty tag || is_in tag (codes "out" ∷ codes "direct" ∷ codes "block" ∷ [])
    then later
    else or_first (by_tag tag obs) later first

abbrev is_out : Option Text → Bool
is_out none = false
is_out (some t) = eqb t (codes "out")

-- the outbound of an exit's file; `none` is an exception, as for a file with no outbound
abbrev pub main_outbound : List (Dict Value) → List (Option Text) → Option (Dict Value)
main_outbound [] routes = none
main_outbound (o ∷ os) routes = some (
    if is_out (text_in (get (codes "tag") o)) && not (is_empty os)
    then routed routes (o ∷ os) o
    else o)

-- What the program reads of an exit: its JSON, `none` where it does not load, and its WireGuard
-- file. A WireGuard file that cannot be read ends the program as such a JSON does, and counts as
-- one.
pub data ExitSource : Type 0 where
  json : Option ExitFile → ExitSource
  wg_conf : Text → ExitSource
  missing : ExitSource

module _ ⦃u : Unicode⦄ where
  abbrev pub with_tag : Text → Option (Dict Value) → Option Outbound
  with_tag name none = none
  with_tag name (some d) = some (stored (put (codes "tag") (text name) d))

  abbrev pub as_outbound : Option Wireguard → Option Outbound
  as_outbound none = none
  as_outbound (some w) = some (wireguard w)

  -- `none`: the program ends
  unfoldable pub build_exit_outbound : Text → ExitSource → Option Outbound
  unfolding get put eqb routed wg_to_outbound
  build_exit_outbound name (json none) = none
  build_exit_outbound name (json (some f)) = with_tag name (main_outbound f.outbounds f.routes)
  build_exit_outbound name (wg_conf file) = as_outbound (wg_to_outbound name file)
  build_exit_outbound name missing = none
