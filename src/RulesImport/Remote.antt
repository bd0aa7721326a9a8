-- ===== src/RulesImport/Remote.antt =====
-- `detect_format`, `check_url`, `extract_domains` and the branch of `main` for --from-url, of
-- rules-import.py.
pub mod Extract
pub mod Imported
use gpn.Prelude.{
  ℕ, ◌+◌, Bool, true, false, not, ◌&&◌, ◌||◌, List, [], ◌∷◌, ◌++◌, Option, none, some, map, take,
  is_empty, leb, if◌then◌else◌,
}
use gpn.Text.{Text, codes, Unicode, lower, upper}
use gpn.Text.Equality.{is_in}
use gpn.Text.Search.{starts_with_any, ends_with, count}
use gpn.Text.Split.{cut, splitlines}
use gpn.Text.Strip.{strip, lstrip_by, is_char}
use gpn.Regex.{Regex, alt, seq, char, prefix_match}
use gpn.RulesImport.Csv.{csv_split}
use gpn.RulesImport.Fetch.{State, fetch}
use gpn.RulesImport.Lists.{parse_clash_yaml, parse_plain_list}
use gpn.RulesImport.Matchers.{is_domain, ilit}
use gpn.RulesImport.Network.{Bytes, Network, Result, ok, err, Error, unsupported_srs}
use gpn.RulesImport.Sorting.{sorted_set}

pub data Format : Type 0 where
  clash csv plain : Format

-- the first argument of `detect_format`
pub data Data : Type 0 where
  bytes : Bytes → Data
  str : Text → Data

-- the first of the lines that are neither empty nor a comment
unfoldable pub first_line : List Text → Option Text
unfolding strip starts_with_any
first_line [] = none
first_line (l ∷ rest) =
    let later = first_line rest in
    if is_empty (strip l)
      || starts_with_any (codes "#" ∷ codes ";" ∷ codes "!" ∷ codes "[" ∷ []) (strip l)
    then later
    else some l

-- `^(DOMAIN|DOMAIN-SUFFIX|IP-CIDR|RULE-SET|GEOSITE|GEOIP),`, under `re.I`
abbrev pub csv_head : Regex
csv_head =
    seq
      (alt (ilit (codes "domain")) (
        alt (ilit (codes "domain-suffix")) (
          alt (ilit (codes "ip-cidr"))
            (alt (ilit (codes "rule-set")) (alt (ilit (codes "geosite")) (ilit (codes "geoip")))))))
      (char b',')

unfoldable pub csv_or_plain : Option Text → Format
unfolding prefix_match
csv_or_plain none = plain
csv_or_plain (some l) = if prefix_match csv_head l then csv else plain

unfoldable pub text_format : Text → Format
unfolding first_line csv_or_plain strip starts_with_any splitlines
text_format text =
    if starts_with_any
      (codes "payload:" ∷ codes "rules:" ∷ codes "rule-providers:" ∷ codes "{" ∷ []) (strip text)
    then clash
    else csv_or_plain (first_line (splitlines text))

-- `parts[1]` of `rule.split(",", 1)`, stripped
unfoldable pub rule_values : List Text → List Text
unfolding cut strip
rule_values [] = []
rule_values (r ∷ rs) = elim (cut b',' r).1 [
  | none ↦ rule_values rs
  | some v ↦ strip v ∷ rule_values rs
]

-- `if r.count(",") >= 2`
unfoldable pub with_category : Text → Text → Text
unfolding count
with_category category r = if leb 2 (count b',' r) then r else r ++ b',' ∷ category

-- the lines of a CSV list that are no comment
unfoldable pub csv_rules : List Text → List Text
unfolding strip starts_with_any
csv_rules [] = []
csv_rules (l ∷ ls) =
    if is_empty (strip l) || starts_with_any (codes "#" ∷ codes ";" ∷ []) (strip l)
    then csv_rules ls
    else strip l ∷ csv_rules ls

module _ ⦃u : Unicode⦄ where
  -- the start of the data: of bytes it is cut before it is decoded
  abbrev pub start_of : (Bytes → Text) → Data → Text
  start_of decode (bytes body) = decode (take 4096 body)
  start_of decode (str text) = take 4096 text

  unfoldable pub detect_format : (Bytes → Text) → Data → Text → Result Format
  unfolding text_format lower ends_with
  detect_format decode body url =
      if ends_with (codes ".srs") (lower url)
      then err unsupported_srs
      else ok (text_format (start_of decode body))

  -- one line of the loop for CSV
  unfoldable pub csv_domain : List Text → List Text
  unfolding upper is_in strip lstrip_by is_domain
  csv_domain (t ∷ v ∷ _) =
      let d = lstrip_by (is_char b'.') (strip v) in
      if is_in (upper t) (codes "DOMAIN" ∷ codes "DOMAIN-SUFFIX" ∷ []) && is_domain d
      then d ∷ []
      else []
  csv_domain _ = []

  unfoldable pub csv_domains : List Text → List Text
  unfolding csv_domain csv_split strip
  csv_domains [] = []
  csv_domains (l ∷ ls) = csv_domain (csv_split (strip l)) ++ csv_domains ls

  -- what is added to `domains`, in the order of the list
  unfoldable pub listed_domains : Format → Text → List Text
  unfolding csv_domains splitlines rule_values parse_clash_yaml parse_plain_list
  listed_domains csv text = csv_domains (splitlines text)
  listed_domains clash text = rule_values (parse_clash_yaml text)
  listed_domains plain text = rule_values (parse_plain_list text)

  unfoldable pub rules_of : Format → Text → List Text
  unfolding csv_rules splitlines parse_clash_yaml parse_plain_list
  rules_of csv text = csv_rules (splitlines text)
  rules_of clash text = parse_clash_yaml text
  rules_of plain text = parse_plain_list text

  -- the lines that --from-url writes
  unfoldable pub imported_rules : Format → Text → Text → List Text
  unfolding rules_of with_category
  imported_rules format category text = map (with_category category) (rules_of format text)

module _ ⦃u : Unicode⦄ (n : Network) where
  abbrev pub map_result {ℓ κ} : {A : Type ℓ} {B : Type κ} → (A → B) → Result A → Result B
  map_result f (ok a) = ok (f a)
  map_result f (err e) = err e

  -- a fetched text with its format, which is that of the text
  unfoldable pub decoded : Text → Result Bytes → Result (Format × Text)
  unfolding detect_format
  decoded url (err e) = err e
  decoded url (ok body) =
      map_result (λ format. (format, n.decode body))
        (detect_format n.decode (str (n.decode body)) url)

  -- a first chunk, whose format is that of the bytes
  unfoldable pub checked : Text → Result Bytes → Result (Format × ℕ)
  unfolding detect_format count
  checked url (err e) = err e
  checked url (ok body) =
      map_result (λ format. (format, count b'\n' (n.decode body) + 1))
        (detect_format n.decode (bytes body) url)

  unfoldable pub extract_domains : Text → State n → Result (List Text) × State n
  unfolding fetch decoded listed_domains sorted_set
  extract_domains url st =
      let (result, st') = fetch n url none st in
      (map_result (λ (f, text). sorted_set (listed_domains f text)) (decoded url result), st')

  unfoldable pub from_url : Text → Text → State n → Result (List Text) × State n
  unfolding fetch decoded imported_rules
  from_url url category st =
      let (result, st') = fetch n url none st in
      (map_result (λ (f, text). imported_rules f category text) (decoded url result), st')

  -- `check_url`: the format and the lines of the first chunk, or the error that was caught
  unfoldable pub check_url : Text → State n → Result (Format × ℕ) × State n
  unfolding fetch checked
  check_url url st = let (result, st') = fetch n url (some 8192) st in (checked url result, st')
