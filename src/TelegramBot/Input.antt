-- ===== src/TelegramBot/Input.antt =====
-- How tgbot.py reads an added exit: `b64decode_text`, `exit_name_from_uri` and
-- `parse_add_exit_input`; and `str.split(None, 1)`.
pub mod Names
use gpn.Prelude.{
  ℕ, ◌-◌, Bool, true, false, not, ◌&&◌, ◌||◌, List, [], ◌∷◌, ◌++◌, Option, none, some, ◌==◌,
  is_empty, length, drop, any, if◌then◌else◌,
}
use gpn.Prelude.Dict.{Dict, get}
use gpn.Text.{Text, codes, Unicode, is_space, is_within, lower}
use gpn.Text.Equality.{eqb}
use gpn.Text.Search.{starts_with, contains}
use gpn.Text.Split.{splitlines}
use gpn.Text.Strip.{strip, lstrip_by}
use gpn.ExitConfig.Endpoint.{padding}
use gpn.ExitConfig.Library.{Library, Value, null, text, is_true}
use gpn.TelegramBot.Names.{is_add_name, unique_exit_name}

-- the characters up to the first white space, and what follows them
unfoldable pub first_word : Text → Text × Text
unfolding is_space
first_word [] = ([], [])
first_word (c ∷ s) = let (a, b) = first_word s in if is_space c then ([], c ∷ s) else (c ∷ a, b)

-- `s.split(None, 1)`: `none` where there is no word, and a second part if there is one
abbrev pub two_words : Text × Text → Text × Option Text
two_words (a, []) = (a, none)
two_words (a, b ∷ r) = (a, some (b ∷ r))

unfoldable pub split_once : Text → Option (Text × Option Text)
unfolding first_word lstrip_by is_space
split_once s =
    let word = first_word (lstrip_by is_space s) in
    if is_empty (lstrip_by is_space s)
    then none
    else some (two_words (word.0, lstrip_by is_space word.1))

-- `s.replace(old, new, 1)`
unfoldable pub replace_once : Text → Text → Text → Text
unfolding starts_with
replace_once old new [] = if is_empty old then new else []
replace_once old new (c ∷ s) =
    let later = replace_once old new s in
    if starts_with old (c ∷ s) then new ++ drop (length old) (c ∷ s) else c ∷ later

-- One character of a pattern in small letters, under `re.I`: the long s and the Kelvin sign count as
-- "s" and "k".
abbrev same_letter : ℕ → ℕ → Bool
same_letter x c =
    c == x
    || is_within b'a' b'z' x && (c == x - 32 || (x == b's' && c == 383 || x == b'k' && c == 8490))

unfoldable pub starts_as : Text → Text → Bool
starts_as [] s = true
starts_as (p ∷ ps) [] = false
starts_as (p ∷ ps) (c ∷ s) = same_letter p c && starts_as ps s

abbrev proxy_schemes : List Text
proxy_schemes =
    codes "ss://"
    ∷ codes "vmess://"
    ∷ codes "trojan://"
    ∷ codes "vless://"
    ∷ codes "hysteria2://"
    ∷ codes "hy2://"
    ∷ codes "tuic://"
    ∷ codes "anytls://"
    ∷ codes "socks5h://"
    ∷ codes "socks5://"
    ∷ codes "socks://"
    ∷ codes "http://"
    ∷ codes "https://"
    ∷ []

-- `PROXY_URI_RE.match(s)`
unfoldable pub is_proxy_uri : Text → Bool
unfolding starts_as
is_proxy_uri s = any (λ p. starts_as p s) proxy_schemes

-- The result of `parse_add_exit_input`: a name with a configuration, an error's text, or an
-- exception.
pub data Added : Type 0 where
  added : Text → Text → Added
  refused raised : Added

-- the first line of a text that is not empty
abbrev pub head_line : List Text → Text
head_line [] = []
head_line (l ∷ ls) = l

module _ ⦃u : Unicode⦄ (lib : Library) (fragment : Text → Option Text) (existing : List Text) where
  abbrev or_else : Option Text → Option Text → Text
  or_else (some a) b = a
  or_else none (some b) = b
  or_else none none = []

  unfoldable pub b64decode_text : Text → Text
  unfolding padding
  b64decode_text s =
      let padded = s ++ padding lib (length s) in
      or_else (lib.urlsafe_b64decode padded) (lib.b64decode padded)

  -- `unique_exit_name(data.get("ps") or "")`; `none` is an exception
  abbrev pub name_of : Option Value → Option Text
  name_of none = some (unique_exit_name lib.unquote existing [])
  name_of (some (text t)) = some (unique_exit_name lib.unquote existing t)
  name_of (some v) = if is_true lib v then none else some (unique_exit_name lib.unquote existing [])

  abbrev pub name_in : Option (Option (Dict Value)) → Option Text
  name_in none = some (unique_exit_name lib.unquote existing [])
  name_in (some none) = none
  name_in (some (some d)) = name_of (get (codes "ps") d)

  abbrev pub fragment_name : Option Text → Text
  fragment_name none = []
  fragment_name (some f) = unique_exit_name lib.unquote existing f

  -- `fragment` is `urlparse(uri).fragment`, `none` where it raises
  unfoldable pub exit_name_from_uri : Text → Option Text
  unfolding lower starts_with b64decode_text strip unique_exit_name get is_true
  exit_name_from_uri uri =
      if starts_with (codes "vmess://") (lower uri)
      then name_in (lib.loads (b64decode_text (strip (drop 8 uri))))
      else some (fragment_name (fragment uri))

  abbrev pub named_link : Text → Option Text → Added
  named_link config none = raised
  named_link config (some []) = refused
  named_link config (some (c ∷ name)) = added (c ∷ name) config

  -- where the first line is no name with a link
  unfoldable pub unnamed_link : Text → Text → Added
  unfolding contains is_proxy_uri exit_name_from_uri
  unnamed_link config first =
      if contains (codes "[Interface]") config && contains (codes "[Peer]") config
      then refused
      else if not (is_proxy_uri first)
      then refused
      else named_link config (exit_name_from_uri first)

  unfoldable pub parts_link : Text → Text → Option (Text × Option Text) → Added
  unfolding is_add_name eqb is_proxy_uri strip replace_once unnamed_link
  parts_link config first (some (a, some b)) =
      if is_add_name a && (not (eqb a (codes "local")) && is_proxy_uri (strip b))
      then added a (replace_once first (strip b) config)
      else unnamed_link config first
  parts_link config first _ = unnamed_link config first

  unfoldable pub parse_add_exit_input : Text → Added
  unfolding strip splitlines split_once parts_link
  parse_add_exit_input payload =
      let config = strip payload in
      let first = strip (head_line (splitlines config)) in
      if is_empty config then refused else parts_link config first (split_once first)
