-- ===== src/TelegramBot/Firewall/Rules.antt =====
-- `_parse_nft_open_ports` of tgbot.py: the rules of `nft -j list ruleset` as values, and the text
-- of `nft list chain`, which is read where the first gives no port.
use gpn.Prelude.{
  ℕ, Bool, false, not, ◌&&◌, ◌||◌, List, [], ◌∷◌, ◌++◌, Option, none, some, ◌==◌, ℤ, pos, any,
  is_empty, drop, length, if◌then◌else◌,
}
use gpn.Prelude.Dict.{Dict, is_there}
use gpn.Text.{Text, codes, Unicode, is_space, is_within}
use gpn.Text.Decimal.{decimal}
use gpn.Text.Equality.{eqb, is_in}
use gpn.Text.Number.{digit_value, int_of}
use gpn.Text.Search.{starts_with}
use gpn.Text.Split.{splitlines, words_by}
use gpn.Text.Strip.{lstrip_by}
use gpn.TelegramBot.Firewall.{Port, entry_for}

-- The right side of a match: a set, whose items are numbers or not, a number, or another value.
pub data Right : Type 0 where
  items : List (Option ℕ) → Right
  number : ℕ → Right
  other : Right

-- `e["match"]`, with the protocol and the field of its payload, empty where there is none
pub record Match : Type 0 where
  pub protocol : Text
  pub field : Text
  pub right : Right

-- One object of `expr`.
pub record Expr : Type 0 where
  pub accept : Bool
  pub matching : Option Match

pub record Rule : Type 0 where
  pub family : Text
  pub table : Text
  pub chain : Text
  pub handle : Option ℕ
  pub expr : List Expr

abbrev numbers : List (Option ℕ) → List Text
numbers [] = []
numbers (none ∷ is) = numbers is
numbers (some n ∷ is) = decimal n ∷ numbers is

unfoldable pub ports_of : Right → List Text
unfolding decimal
ports_of (items is) = numbers is
ports_of (number n) = decimal n ∷ []
ports_of other = []

-- The names that the loop over the rules shares: the last ports and protocol, if they are bound.
pub record Scope : Type 0 where
  pub ports : Option (List Text)
  pub proto : Text
  pub found : List Port

module _ (listening notes : Dict Text) where
  abbrev pub entries : Option ℕ → Text → List Text → List Port
  entries handle proto [] = []
  entries handle proto (p ∷ ps) = entry_for listening notes handle proto p ∷ entries handle proto ps

  -- the protocol is bound before the tests
  unfoldable pub match_step : Option ℕ → Option Match → Scope → Scope
  unfolding is_in eqb ports_of entry_for
  match_step handle none s = s
  match_step handle (some m) s =
      let t = record s { proto = m.protocol } in
      let ps = ports_of m.right in
      if not (is_in m.protocol (codes "tcp" ∷ codes "udp" ∷ []))
      then t
      else if not (eqb m.field (codes "dport"))
      then t
      else record t { ports = some ps; found = s.found ++ entries handle m.protocol ps }

  unfoldable pub match_steps : Option ℕ → List Expr → Scope → Scope
  unfolding match_step
  match_steps handle [] s = s
  match_steps handle (e ∷ es) s = match_steps handle es (match_step handle e.matching s)

  -- The loop behind the matches adds the last ports again; where none are bound, it raises, and
  -- the `except` around all leaves what was found before.
  abbrev pub again : Option ℕ → Scope → Option Scope
  again handle s = elim s.ports [
    | none ↦ none
    | some ps ↦ some (record s { found = s.found ++ entries handle s.proto ps })
  ]

  unfoldable pub rule_steps : List Rule → Scope → List Port
  unfolding match_steps entry_for
  rule_steps [] s = s.found
  rule_steps (r ∷ rs) s =
      let t = match_steps r.handle r.expr s in
      let skipped = rule_steps rs s in
      if any (λ (e : Expr). e.accept) r.expr
      then (elim (again r.handle t) [ none ↦ t.found | some v ↦ rule_steps rs v ])
      else skipped

  -- a rule of the chain that is read
  unfoldable pub is_input : Rule → Bool
  unfolding eqb
  is_input r =
      eqb r.family (codes "inet") && (eqb r.table (codes "filter") && eqb r.chain (codes "input"))

  abbrev pub input_rules : List Rule → List Rule
  input_rules [] = []
  input_rules (r ∷ rs) = let rest = input_rules rs in if is_input r then r ∷ rest else rest

  -- `none` is a failure of `nft` or of `json.loads`
  unfoldable pub json_ports : Option (List Rule) → List Port
  unfolding is_input rule_steps
  json_ports none = []
  json_ports (some rules) =
      rule_steps (input_rules rules) (record { ports = none; proto = []; found = [] })

  module _ ⦃u : Unicode⦄ where
    abbrev or_later {ℓ} : {A : Type ℓ} → Option A → Option A → Option A
    or_later none later = later
    or_later (some a) later = some a

    -- the longest prefix of a class, and what follows it
    unfoldable pub span : (ℕ → Bool) → Text → Text × Text
    span p [] = ([], [])
    span p (c ∷ s) = let (a, b) = span p s in if p c then (c ∷ a, b) else ([], c ∷ s)

    -- `\s+` and then a text
    unfoldable pub spaced : Text → Text → Option Text
    unfolding is_space starts_with lstrip_by
    spaced word [] = none
    spaced word (c ∷ s) =
        let rest = lstrip_by is_space s in
        if is_space c && starts_with word rest then some (drop (length word) rest) else none

    abbrev is_listed : ℕ → Bool
    is_listed c = is_within b'0' b'9' c || (c == b',' || is_space c)

    abbrev not_digit : ℕ → Bool
    not_digit c = not (is_within b'0' b'9' c)

    -- the last character is white space
    abbrev ends_spaced : Text → Bool
    ends_spaced [] = false
    ends_spaced (c ∷ []) = is_space c
    ends_spaced (c ∷ d ∷ s) = ends_spaced (d ∷ s)

    -- `(?:{\s*)?([0-9,\s]+)(?:\s*})?\s+accept`: the digits of the group
    unfoldable pub listed_ports : Text → List Text
    unfolding span spaced is_space starts_with words_by lstrip_by
    listed_ports s =
        let body = if starts_with (codes "{") s then drop 1 s else s in
        let (run, rest) = span is_listed body in
        let closed = is_there (spaced (codes "accept") (drop 1 rest)) in
        let accepted =
          if starts_with (codes "}") rest
          then closed
          else ends_spaced run && starts_with (codes "accept") rest in
        if accepted then words_by not_digit run else []

    -- the protocol at the start of a line, and what follows "dport"
    unfoldable pub line_ports : Text → Option (Text × List Text)
    unfolding lstrip_by is_space starts_with spaced listed_ports
    line_ports line =
        let s = lstrip_by is_space line in
        let proto = if starts_with (codes "tcp") s then codes "tcp" else codes "udp" in
        if starts_with (codes "tcp") s || starts_with (codes "udp") s
        then (elim (spaced (codes "dport") (drop 3 s)) [
          | none ↦ none
          | some [] ↦ none
          | some (c ∷ t) ↦
              if is_space c then some (proto, listed_ports (lstrip_by is_space t)) else none
        ])
        else none

    abbrev is_decimal : ℕ → Bool
    is_decimal c = is_there (digit_value c)

    abbrev number_of : Option ℤ → Option ℕ
    number_of (some (pos n)) = some n
    number_of _ = none

    -- `\s+(\d+)`
    abbrev spaced_number : Text → Option ℕ
    spaced_number [] = none
    spaced_number (c ∷ s) =
        let digits = (span is_decimal (lstrip_by is_space s)).0 in
        if is_space c && not (is_empty digits) then number_of (int_of digits) else none

    -- `#\s*handle\s+(\d+)`, searched
    unfoldable pub find_handle : Text → Option ℕ
    unfolding lstrip_by is_space starts_with span digit_value int_of
    find_handle [] = none
    find_handle (c ∷ s) =
        let later = find_handle s in
        let t = lstrip_by is_space s in
        if c == b'#' && starts_with (codes "handle") t
        then or_later (spaced_number (drop 6 t)) later
        else later

    abbrev pub line_entries : Text → Option (Text × List Text) → List Port
    line_entries line none = []
    line_entries line (some (proto, ps)) = entries (find_handle line) proto ps

    unfoldable pub text_ports : List Text → List Port
    unfolding line_ports find_handle entry_for
    text_ports [] = []
    text_ports (l ∷ ls) = line_entries l (line_ports l) ++ text_ports ls

    abbrev pub or_text : List Port → Option Text → List Port
    or_text [] none = []
    or_text [] (some out) = text_ports (splitlines out)
    or_text (p ∷ ps) out = p ∷ ps

    -- `rules` is the JSON of `nft`, `out` its text; `none` is a failure
    unfoldable pub parse_nft_open_ports : Option (List Rule) → Option Text → List Port
    unfolding json_ports text_ports splitlines
    parse_nft_open_ports rules out = or_text (json_ports rules) out
