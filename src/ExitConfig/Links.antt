-- ===== src/ExitConfig/Links.antt =====
-- The parsers of ss, socks and vmess links of mihomo-exit-config.py.
use gpn.Prelude.{
  Bool, true, false, not, ◌||◌, [], ◌∷◌, Option, none, some, is_empty, drop, ◌==◌, if◌then◌else◌, ℤ,
}
use gpn.Prelude.Dict.{Dict, put}
use gpn.Text.{Text, codes, Unicode, is_within}
use gpn.Text.Split.{cut, before}
use gpn.Text.Strip.{strip}
use gpn.Regex.{plus, chars, at_end, full_match}
use gpn.RulesImport.Matchers.{folds_to}
use gpn.ExitConfig.Library.{Value, number, text, Library}
use gpn.ExitConfig.Endpoint.{b64decode_any, before_path, rcut, parse_hostport}

-- `re.match(r"^[a-z0-9-]+$", s)`
unfoldable pub is_method : Text → Bool
unfolding full_match
is_method s =
    full_match
      (at_end (plus (chars (λ c. is_within b'a' b'z' c || is_within b'0' b'9' c || c == b'-')))) s

-- `s.split(":", 1)` into two, where there is a colon
unfoldable pub two_parts : Text → Option (Text × Text)
unfolding cut
two_parts s = elim (cut b':' s).1 [ none ↦ none | some b ↦ some ((cut b':' s).0, b) ]

-- One proxy: its fields, its host and its port.
abbrev pub Proxied : Type 0
Proxied = Dict Value × Value × ℤ

abbrev pub base : Value → ℤ → Dict Value
base host port = (codes "server", host) ∷ (codes "port", number port) ∷ []

-- `if b: proxy[k] = v`
abbrev pub put_if : Bool → Text → Value → Dict Value → Dict Value
put_if true k v d = put k v d
put_if false k v d = d

module _ (lib : Library) where
  abbrev credentials : Option (Text × Text) → Text → Option (Text × Text)
  credentials (some (method, password)) dec =
      if is_method method then some (method, password) else none
  credentials none dec = none

  abbrev decoded_credentials : Option Text → Option (Text × Text)
  decoded_credentials none = none
  decoded_credentials (some dec) = credentials (two_parts dec) dec

  abbrev or_plain : Option (Text × Text) → Option (Text × Text) → Option (Text × Text)
  or_plain none b = b
  or_plain (some a) b = some a

  unfoldable pub decode_ss_userinfo : Text → Option (Text × Text)
  unfolding b64decode_any two_parts is_method
  decode_ss_userinfo userinfo =
      or_plain (decoded_credentials (b64decode_any lib userinfo)) (two_parts (lib.unquote userinfo))

module _ ⦃u : Unicode⦄ (lib : Library) where
  -- host, port, method and password, from the credentials and the server's text
  abbrev server_of : Option (Text × Text) → Option (Text × ℤ) → Option (Text × ℤ × Text × Text)
  server_of (some (method, password)) (some (host, port)) = some (host, port, method, password)
  server_of _ _ = none

  abbrev legacy_ss : Option Text → Option (Text × ℤ × Text × Text)
  legacy_ss none = none
  legacy_ss (some dec) = elim (rcut b'@' dec) [
    | none ↦ none
    | some (creds, server) ↦ server_of (two_parts creds) (parse_hostport server)
  ]

  unfoldable pub parse_ss : Text → Option (Text × ℤ × Text × Text)
  unfolding before rcut decode_ss_userinfo parse_hostport b64decode_any two_parts
  parse_ss uri =
      let rest = before b'?' (before b'#' (drop 5 uri)) in
      elim (rcut b'@' rest) [
        | some (userinfo, server) ↦
            server_of (decode_ss_userinfo lib userinfo) (parse_hostport server)
        | none ↦ legacy_ss (b64decode_any lib rest)
      ]

  unfoldable pub ss_proxy : Text → Option Proxied
  unfolding parse_ss
  ss_proxy uri = elim (parse_ss uri) [
    | none ↦ none
    | some (host, port, method, password) ↦ some (
      put (codes "password") (text password)
          (put (codes "cipher") (text method) (base (text host) port)),
      text host,
      port,
    )
  ]

  -- a literal in small letters under `re.I`, taken from the front
  unfoldable pub without_literal : Text → Text → Option Text
  without_literal [] s = some s
  without_literal (x ∷ p) [] = none
  without_literal (x ∷ p) (c ∷ s) =
      let rest = without_literal p s in if folds_to x c then rest else none

  -- `re.sub(r"^socks(?:5h|5)?://", "", uri, flags=re.I)`
  unfoldable pub without_socks : Text → Text
  unfolding without_literal
  without_socks uri = elim (without_literal (codes "socks5h://") uri) [
    | some rest ↦ rest
    | none ↦ elim (without_literal (codes "socks5://") uri) [
      | some rest ↦ rest
      | none ↦ elim (without_literal (codes "socks://") uri) [ some rest ↦ rest | none ↦ uri ]
    ]
  ]

  abbrev userinfo_of : Option (Text × Text) → Text → Text × Text
  userinfo_of none rest = ([], rest)
  userinfo_of (some (userinfo, hostport)) rest = (userinfo, hostport)

  -- user and password; the empty text stands for `None` too, since both are only tested
  abbrev user_of : Option (Text × Text) → Text → Text × Text
  user_of none userinfo = (userinfo, [])
  user_of (some (user, password)) userinfo = (user, password)

  abbrev with_user : Text × Text → Option (Text × ℤ) → Option (Text × ℤ × Text × Text)
  with_user (user, password) none = none
  with_user (user, password) (some (host, port)) = some (host, port, user, password)

  unfoldable pub parse_socks : Text → Option (Text × ℤ × Text × Text)
  unfolding without_socks rcut two_parts parse_hostport before_path strip
  parse_socks uri =
      let rest = without_socks uri in
      let (userinfo, hostport) = userinfo_of (rcut b'@' rest) rest in
      with_user (user_of (two_parts userinfo) userinfo)
        (parse_hostport (strip (before_path hostport)))

  unfoldable pub socks_proxy : Text → Option Proxied
  unfolding parse_socks
  socks_proxy uri = elim (parse_socks uri) [
    | none ↦ none
    | some (host, port, user, password) ↦ some (
      put_if (not (is_empty password)) (codes "password") (text password)
          (put_if (not (is_empty user)) (codes "username") (text user) (base (text host) port)),
      text host,
      port,
    )
  ]
