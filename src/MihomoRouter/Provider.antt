-- ===== src/MihomoRouter/Provider.antt =====
-- `validate_provider_url` and `cache_remote_provider` of mihomo-router-config.py.
use gpn.Prelude.{
  ℕ, Bool, true, false, not, ◌&&◌, ◌||◌, List, [], ◌∷◌, ◌++◌, Option, none, some, take, is_empty,
  ◌==◌, if◌then◌else◌,
}
use gpn.Prelude.Dict.{Dict, put}
use gpn.Text.{Text, codes, Unicode, lower, is_space}
use gpn.Text.Equality.{eqb}
use gpn.Text.Strip.{is_quote}
use gpn.Regex.{Regex, seq, alt, star, opt, chars, char, prefix_match}
use gpn.IosHttp.{path_join}
use gpn.RulesImport.Network.{Bytes, Url, Network, Error, Result, ok, err}
use gpn.RulesImport.Matchers.{ilit}
use gpn.RulesImport.Fetch.{State, is_set, text_of, port_or, resolved, record_event, fetch}

-- Why a line of the rules ends the program. `raised` is an exception that nothing catches.
pub data Reason : Type 0 where
  few_fields not_https unresolvable no_addresses private_address singbox_format : Reason
  unsupported : Text → Reason
  fetch_failed : Error → Reason
  raised : Reason

-- one of the entries of `rule-providers`, whose type is always "file"
pub record Provider : Type 0 where
  pub path : Text
  pub behavior : Text

-- `[A-Z-]+,` at the start of a line, for the seven matchers that make a list classical
abbrev matcher_word : Regex
matcher_word = alt (ilit (codes "domain")) (
    alt (ilit (codes "domain-suffix")) (
      alt (ilit (codes "domain-keyword")) (
        alt (ilit (codes "ip-cidr"))
          (alt (ilit (codes "ip-cidr6")) (alt (ilit (codes "geoip")) (ilit (codes "geosite")))))))

module _ ⦃u : Unicode⦄ where
  abbrev spaces : Regex
  spaces = star (chars is_space)

  -- the expression of `re.search`, without its `^`
  unfoldable pub classical_line : Regex
  classical_line = seq spaces (
      seq (opt (seq (char b'-') spaces))
        (seq (opt (chars is_quote)) (seq matcher_word (char b','))))

  -- `re.search` under `(?m)`: the flag says whether a line starts here
  unfoldable pub search_lines : Regex → Bool → Text → Bool
  unfolding prefix_match
  search_lines r at_start [] = at_start && prefix_match r []
  search_lines r at_start (c ∷ s) =
      (at_start && prefix_match r (c ∷ s)) || search_lines r (c == b'\n') s

  unfoldable pub behavior_of : Text → Text
  unfolding search_lines classical_line
  behavior_of text =
      if search_lines classical_line true text then codes "classical" else codes "domain"

-- What the program reads around it: the network, the directory of the exits (`none` where it
-- cannot be listed), `"rs_" + md5(value)[:8]`, the replacement-free decoding, and two constants.
pub record Gateway : Type 1 where
  pub network : Network
  pub listing : Option (List Text)
  pub tag_of : Text → Text
  pub decode_ignore : Bytes → Text
  pub ruleset_cache : Text
  pub default_target : Text

-- The network and the files of the cache.
pub record Disk (g : Gateway) : Type 0 where
  pub net : State g.network
  pub files : Dict Bytes

pub data Stored : Type 0 where
  stored : Provider → Stored
  failed : Reason → Stored

pub data Checked : Type 0 where
  passed : Checked
  refused : Reason → Checked

module _ (g : Gateway) where
  -- the loop over the answers
  unfoldable pub check_addresses : List Text → Checked
  check_addresses [] = passed
  check_addresses (a ∷ infos) = elim (g.network.is_global a) [
    | none ↦ refused raised
    | some false ↦ refused private_address
    | some true ↦ check_addresses infos
  ]

  unfoldable pub check_infos : Option (List Text) → Checked
  unfolding check_addresses
  check_infos none = refused unresolvable
  check_infos (some infos) = if is_empty infos then refused no_addresses else check_addresses infos

  abbrev infos_of : Option (List Text) → List Text
  infos_of none = []
  infos_of (some infos) = infos

  -- the call of `getaddrinfo` and the tests on its answer; the outer `none` is a port that cannot
  -- be read
  unfoldable pub resolve_provider : Text → Option ℕ → State g.network → Checked × State g.network
  unfolding check_infos
  resolve_provider host none st = (refused raised, st)
  resolve_provider host (some port) st =
      let (answer, w) = g.network.getaddrinfo st.world host port in
      (check_infos answer, record_event g.network st w (resolved host port (infos_of answer)))

module _ ⦃u : Unicode⦄ (g : Gateway) where
  unfoldable pub validate_parts : Option Url → State g.network → Checked × State g.network
  unfolding lower eqb resolve_provider
  validate_parts none st = (refused raised, st)
  validate_parts (some parsed) st =
      if not (eqb (lower parsed.scheme) (codes "https"))
        || not (is_set parsed.hostname)
        || is_set parsed.username
        || is_set parsed.password
      then (refused not_https, st)
      else resolve_provider g (text_of parsed.hostname) (port_or 443 parsed.port) st

  unfoldable pub validate_provider_url : Text → State g.network → Checked × State g.network
  unfolding validate_parts
  validate_provider_url value st = validate_parts (g.network.urlsplit value) st

  abbrev cache_path : Text → Text
  cache_path tag = path_join g.ruleset_cache (tag ++ codes ".rules")

  -- what follows the download; writing the file succeeds
  unfoldable pub cache_data : Text → Result Bytes × State g.network → Dict Bytes → Stored × Disk g
  unfolding path_join behavior_of put
  cache_data tag (err e, st) files = (failed (fetch_failed e), record { net = st; files = files })
  cache_data tag (ok body, st) files =
      let path = cache_path tag in
      (
        stored
            (record { path = path; behavior = behavior_of (g.decode_ignore (take 262144 body)) }),
        record { net = st; files = put path body files },
      )

  unfoldable pub cache_remote_provider : Text → Text → Disk g → Stored × Disk g
  unfolding cache_data fetch
  cache_remote_provider value tag d = cache_data tag (fetch g.network value none d.net) d.files
