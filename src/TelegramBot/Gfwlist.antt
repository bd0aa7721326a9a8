-- ===== src/TelegramBot/Gfwlist.antt =====
-- The additional domains of tgbot.py: `_read_gfwlist_extra`, `_write_gfwlist_extra`,
-- `op_gfwlist_add`, `op_gfwlist_del` and `op_gfwl_import_set`.
pub mod Refines
mod Tests
use gpn.Prelude.{
  ℕ, suc, Bool, true, false, not, ◌&&◌, ◌||◌, List, [], ◌∷◌, ◌++◌, Option, none, some, ◌==◌,
  is_empty, drop, length, map, if◌then◌else◌,
}
use gpn.Text.{Text, codes, Unicode, lower, is_alnum, is_within}
use gpn.Text.Equality.{eqb, is_in}
use gpn.Text.Search.{starts_with, starts_with_any, contains, has}
use gpn.Text.Split.{before, join, splitlines}
use gpn.Text.Strip.{strip, rstrip_by, is_char}
use gpn.TelegramBot.Disk.{Save, save_file}
use gpn.Regex.{Regex, chars, seq, opt, star, plus, char, at_end, full_match}

-- `_read_file`: the text of a file without white space at its ends; `none` is an `OSError`
unfoldable pub read_file : Option Text → Text
unfolding strip
read_file none = []
read_file (some s) = strip s

-- the lines that hold a domain
unfoldable pub domain_lines : List Text → List Text
unfolding strip starts_with
domain_lines [] = []
domain_lines (l ∷ ls) =
    let rest = domain_lines ls in
    if not (is_empty (strip l)) && not (starts_with (codes "#") (strip l))
    then strip l ∷ rest
    else rest

unfoldable pub read_gfwlist_extra : Option Text → List Text
unfolding read_file splitlines domain_lines
read_gfwlist_extra file = domain_lines (splitlines (read_file file))

-- the text of `_write_gfwlist_extra`
unfoldable pub write_gfwlist_extra : List Text → Text
unfolding join
write_gfwlist_extra domains = join (codes "\n") domains ++ codes "\n"

-- `^[a-zA-Z0-9]([a-zA-Z0-9.-]*[a-zA-Z0-9])?\.[a-zA-Z]{2,}$`
unfoldable pub extra_domain_re : Regex
unfolding is_alnum
extra_domain_re =
    let inner = chars (λ c. is_alnum c || (c == b'.' || c == b'-')) in
    let letter = chars (λ c. is_within b'a' b'z' c || is_within b'A' b'Z' c) in
    at_end (
      seq (chars is_alnum) (
        seq (opt (seq (star inner) (chars is_alnum))) (seq (char b'.') (seq letter (plus letter)))))

-- What an operation tells: what it refuses, or the list that it writes, followed by
-- `--update-rules`. The file afterwards is that of `_write_gfwlist_extra`.
pub data Told : Type 0 where
  bad_domain is_there is_missing nothing_new : Told
  written : List Text → Told

unfoldable pub file_after : Save → Option Text → Told → Option Text
unfolding write_gfwlist_extra save_file
file_after save file (written ds) = save_file save (write_gfwlist_extra ds) file
file_after save file _ = file

module _ ⦃u : Unicode⦄ where
  abbrev host_or : Text → Option (Option Text) → Text
  host_or raw (some (some (c ∷ s))) = c ∷ s
  host_or raw _ = raw

  -- `hostname` is `urlparse(url).hostname`, whose outer `none` is an exception
  unfoldable pub extra_domain : (Text → Option (Option Text)) → Text → Text
  unfolding strip starts_with_any contains before
  extra_domain hostname domain =
      let raw = strip domain in
      let url = if contains (codes "://") raw then raw else codes "https:" ++ raw in
      if starts_with_any (codes "http://" ∷ codes "https://" ∷ codes "//" ∷ []) raw
      then host_or raw (hostname url)
      else before b'/' raw

  -- `re.sub(r'^www\.', '', domain)` of the text in small letters without dots at its end
  unfoldable pub normal_domain : Text → Text
  unfolding lower rstrip_by starts_with
  normal_domain domain =
      let d = rstrip_by (is_char b'.') (lower domain) in
      if starts_with (codes "www.") d then drop 4 d else d

  abbrev pub add_domain : List Text → Text → Told
  add_domain domains d =
      if not (full_match extra_domain_re d)
      then bad_domain
      else if is_in d domains
      then is_there
      else written (domains ++ d ∷ [])

  unfoldable pub op_gfwlist_add : (Text → Option (Option Text)) → Option Text → Text → Told
  unfolding extra_domain normal_domain extra_domain_re full_match read_gfwlist_extra is_in
  op_gfwlist_add hostname file domain =
      add_domain (read_gfwlist_extra file) (normal_domain (extra_domain hostname domain))

  -- the domains that differ from one, whatever the case
  unfoldable pub without : Text → List Text → List Text
  unfolding eqb lower
  without d [] = []
  without d (x ∷ xs) = let rest = without d xs in if eqb (lower x) d then rest else x ∷ rest

  unfoldable pub lowered : List Text → List Text
  unfolding lower
  lowered [] = []
  lowered (x ∷ xs) = lower x ∷ lowered xs

  unfoldable pub op_gfwlist_del : Option Text → Text → Told
  unfolding read_gfwlist_extra is_in without lowered strip lower
  op_gfwlist_del file domain =
      let domains = read_gfwlist_extra file in
      let d = lower (strip domain) in
      if not (is_in d (lowered domains)) then is_missing else written (without d domains)

-- the lines of `out` that are not blank, stripped
unfoldable pub new_domains : List Text → List Text
unfolding strip
new_domains [] = []
new_domains (l ∷ ls) =
    let rest = new_domains ls in if is_empty (strip l) then rest else strip l ∷ rest

unfoldable pub missing_from : List Text → List Text → List Text
unfolding is_in
missing_from existing [] = []
missing_from existing (d ∷ ds) =
    let rest = missing_from existing ds in if is_in d existing then rest else d ∷ rest

-- `order` is the order in which `list` gives a set of domains, and `out` is what
-- `rules-import.py --extract-domains` writes
unfoldable pub op_gfwl_import_set : (List Text → List Text) → Option Text → Text → Told
unfolding read_gfwlist_extra new_domains missing_from splitlines strip
op_gfwl_import_set order file out =
    let existing = read_gfwlist_extra file in
    let added = missing_from existing (new_domains (splitlines (strip out))) in
    if is_empty added then nothing_new else written (order existing ++ added)

-- `_read_gfwlist_rulesets` of the lines of its file, and the file that `_save_gfwlist_ruleset`
-- leaves
unfoldable pub read_gfwlist_rulesets : List Text → List Text
unfolding domain_lines
read_gfwlist_rulesets ls = domain_lines ls

unfoldable pub save_gfwlist_ruleset : List Text → Text → Text → Text
unfolding read_gfwlist_rulesets is_in
save_gfwlist_ruleset ls file url =
    if is_in url (read_gfwlist_rulesets ls) then file else file ++ (url ++ codes "\n")
