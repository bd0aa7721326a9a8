-- ===== src/ExitConfig/Endpoint.antt =====
-- `validate_host_port`, `b64decode_any` and `parse_hostport` of mihomo-exit-config.py.
pub mod RoundTrip
use gpn.Prelude.{
  ℕ, suc, ◌+◌, ◌-◌, ◌%◌, take, Bool, true, false, not, ◌&&◌, ◌||◌, List, [], ◌∷◌, ◌++◌, Option,
  none, some, is_empty, all, length, leb, ◌==◌, if◌then◌else◌, ℤ, pos, negsuc,
}
use gpn.Text.{Text, codes, Unicode, is_alnum}
use gpn.Text.Number.{digit_value, int_of}
use gpn.Text.Search.{starts_with, ends_with, has}
use gpn.Text.Strip.{strip}
use gpn.Regex.{Regex, chars, seq, star, opt, up_to, char, full_match}
use gpn.ExitConfig.Library.{Value, text, Library}

-- `[A-Za-z0-9](?:[A-Za-z0-9-]{0,61}[A-Za-z0-9])?`
unfoldable pub host_label : Regex
unfolding is_alnum
host_label =
    seq (chars is_alnum)
      (opt (seq (up_to 61 (chars (λ c. is_alnum c || c == b'-'))) (chars is_alnum)))

-- the expression of `re.fullmatch`, without its look-ahead
unfoldable pub host_re : Regex
unfolding host_label
host_re = seq (star (seq host_label (char b'.'))) host_label

-- a text that passes the tests behind `ip_address`; the look-ahead bounds its length again
unfoldable pub is_hostname : Text → Bool
unfolding host_re full_match
is_hostname t = leb (length t) 253 && (leb 1 (length t) && full_match host_re t)

unfoldable pub in_range : ℤ → Bool
in_range (pos n) = leb 1 n && leb n 65535
in_range (negsuc n) = false

module _ (lib : Library) where
  abbrev pub hostname_value : Value → Bool
  hostname_value (text t) = is_hostname t
  hostname_value _ = false

  -- `false` where the program ends: a value that is no text is an address or is refused
  unfoldable pub validate_host_port : Value → ℤ → Bool
  unfolding in_range is_hostname
  validate_host_port host port =
      if not (in_range port) then false else lib.is_address host || hostname_value host

  -- `"=" * (-len(s) % 4)`
  unfoldable pub padding : ℕ → Text
  padding n = take ((4 - n % 4) % 4) (codes "===")

  abbrev first_of : Option Text → Option Text → Option Text
  first_of none b = b
  first_of (some a) b = some a

  unfoldable pub b64decode_any : Text → Option Text
  unfolding strip padding
  b64decode_any s =
      let padded = strip s ++ padding (length (strip s)) in
      first_of (lib.urlsafe_b64decode padded) (lib.b64decode padded)

-- `re.split(r"[/?#]", s, maxsplit=1)[0]`
unfoldable pub before_path : Text → Text
before_path [] = []
before_path (c ∷ s) = if c == b'/' || c == b'?' || c == b'#' then [] else c ∷ before_path s

-- the text before the last separator, and the text behind it
unfoldable pub rcut : ℕ → Text → Option (Text × Text)
rcut sep [] = none
rcut sep (c ∷ s) = elim (rcut sep s) [
  | some (a, b) ↦ some (c ∷ a, b)
  | none ↦ if c == sep then some ([], s) else none
]

-- `.+` matches it
abbrev pub is_run : Text → Bool
is_run s = not (is_empty s) && not (has b'\n' s)

-- the text without its last character
unfoldable pub init : Text → Text
init [] = []
init (c ∷ []) = []
init (c ∷ d ∷ s) = c ∷ init (d ∷ s)

abbrev pub inside : Text → Text
inside [] = []
inside (c ∷ s) = init s

module _ ⦃u : Unicode⦄ where
  abbrev pub is_decimal : ℕ → Bool
  is_decimal c = elim (digit_value c) [ none ↦ false | some d ↦ true ]

  abbrev pub with_port : Text → Option ℤ → Option (Text × ℤ)
  with_port host none = none
  with_port host (some port) = some (host, port)

  -- what both expressions ask of the text around the last colon; the brackets are tried first
  unfoldable pub split_port : Option (Text × Text) → Option (Text × ℤ)
  unfolding init has int_of digit_value starts_with ends_with
  split_port none = none
  split_port (some (host, port)) =
      if is_empty port || not (all is_decimal port)
      then none
      else if starts_with (codes "[") host && ends_with (codes "]") host && is_run (inside host)
      then with_port (inside host) (int_of port)
      else if is_run host
      then with_port host (int_of port)
      else none

  -- `none` where the program ends
  unfoldable pub parse_hostport : Text → Option (Text × ℤ)
  unfolding split_port strip before_path rcut
  parse_hostport s = split_port (rcut b':' (strip (before_path (strip s))))
