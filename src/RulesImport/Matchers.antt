-- ===== src/RulesImport/Matchers.antt =====
-- The constants of rules-import.py: `KEEP`, `DROP`, `MODIFIERS` and `DOMAIN_RE`.
use gpn.Prelude.{ℕ, Bool, ◌||◌, not, List, [], ◌∷◌, ◌==◌, ◌-◌, if◌then◌else◌}
use gpn.Text.{Text, codes, is_alnum, is_within}
use gpn.Regex.{Regex, eps, chars, alt, seq, star, opt, plus, char, at_end, full_match}

unfoldable pub keep_types : List Text
keep_types =
    codes "DOMAIN"
    ∷ codes "DOMAIN-SUFFIX"
    ∷ codes "DOMAIN-KEYWORD"
    ∷ codes "IP-CIDR"
    ∷ codes "IP-CIDR6"
    ∷ codes "RULE-SET"
    ∷ codes "GEOIP"
    ∷ codes "GEOSITE"
    ∷ []

unfoldable pub drop_types : List Text
drop_types =
    codes "PROCESS-NAME"
    ∷ codes "SRC-IP"
    ∷ codes "SRC-PORT"
    ∷ codes "DEST-PORT"
    ∷ codes "IN-PORT"
    ∷ codes "MAC-ADDRESS"
    ∷ codes "DEVICE-NAME"
    ∷ codes "IP-ASN"
    ∷ codes "USER-AGENT"
    ∷ codes "SUBNET"
    ∷ codes "PROTOCOL"
    ∷ codes "CELLULAR-RADIO"
    ∷ codes "SSID"
    ∷ []

-- A small letter under `re.I`: its capital too, and the letters above ASCII that fold to it.
abbrev pub folds_to : ℕ → ℕ → Bool
folds_to x c =
    c == x
    || (if is_within b'a' b'z' x then c == x - 32 else c == x)
    || (if x == b'i' then is_within 0x130 0x131 c else c == x)
    || (if x == b's' then c == 0x17f else c == x)
    || (if x == b'k' then c == 0x212a else c == x)

-- a literal in small letters, under `re.I`
abbrev pub ilit : Text → Regex
ilit [] = eps
ilit (x ∷ s) = seq (chars (folds_to x)) (ilit s)

-- `.*`
abbrev pub any_line : Regex
any_line = star (chars (λ c. not (c == b'\n')))

unfoldable pub modifiers : Regex
modifiers = at_end (
    alt (ilit (codes "no-resolve")) (
      alt (ilit (codes "extended-matching")) (
        alt (ilit (codes "dns-failed")) (
          alt (ilit (codes "pre-matching")) (
            alt (seq (ilit (codes "update-interval=")) any_line)
              (seq (ilit (codes "interval=")) any_line))))))

-- `[A-Za-z0-9_-]`
unfoldable pub is_label_char : ℕ → Bool
unfolding is_alnum
is_label_char c = is_alnum c || c == b'_' || c == b'-'

-- `[A-Za-z0-9]([A-Za-z0-9_-]*[A-Za-z0-9])?`
unfoldable pub label : Regex
unfolding is_label_char
label = seq (chars is_alnum) (opt (seq (star (chars is_label_char)) (chars is_alnum)))

unfoldable pub domain_re : Regex
unfolding label
domain_re = at_end (seq label (plus (seq (char b'.') label)))

-- `DOMAIN_RE.match(v)`
unfoldable pub is_domain : Text → Bool
unfolding domain_re full_match
is_domain v = full_match domain_re v
