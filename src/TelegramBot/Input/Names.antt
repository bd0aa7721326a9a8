-- ===== src/TelegramBot/Input/Names.antt =====
-- The name that `parse_add_exit_input` of tgbot.py gives is one that an exit may be added under.
use gpn.Prelude.{
  Bool, true, false, not, ◌&&◌, List, [], ◌∷◌, ◌≡◌, ◌≢◌, inl, inr, refl, Option, none, some,
  is_empty, Bool-cases, arith, if◌then◌else◌, drop, ℕ,
}
use gpn.Prelude.Dict.{Dict, get}
use gpn.Text.{Text, codes, Unicode, lower}
use gpn.Text.Equality.{eqb, is_in, eqb_iff}
use gpn.Text.Search.{starts_with, contains}
use gpn.Text.Split.{splitlines}
use gpn.Text.Strip.{strip}
use gpn.ExitConfig.Library.{Library, Value, text, is_true}
use gpn.TelegramBot.Input.{
  Added, added, refused, raised, is_proxy_uri, parse_add_exit_input, split_once, name_of, name_in,
  fragment_name, exit_name_from_uri, named_link, unnamed_link, parts_link, b64decode_text,
  head_line,
}
use gpn.TelegramBot.Names.{is_add_name, unique_exit_name, IsFresh, unique_exit_name-IsFresh}

-- A name that `--add-exit` may be given.
module _ ⦃u : Unicode⦄ where
  abbrev pub IsNewName : Text → Type 0
  IsNewName name = (is_add_name name ≡ true) × (name ≢ codes "local")

  abbrev pub HasNewName : Added → Type 0
  HasNewName (added name config) = IsNewName name
  HasNewName refused = Unit
  HasNewName raised = Unit

named_parts : (a b c : Bool) → (a && (not b && c)) ≡ true → (a ≡ true) × (b ≡ false)
named_parts a b c h = ground arith

-- The names that are taken begin with `local`, as `parse_exit_names` gives them.
module _ ⦃u : Unicode⦄ (lib : Library) (fragment : Text → Option Text) (others : List Text) where
  abbrev existing : List Text
  existing = codes "local" ∷ others

  abbrev Fresh : Option Text → Type 0
  Fresh none = Unit
  Fresh (some r) = IsFresh existing r

  fresh : (t : Text) → IsFresh existing (unique_exit_name lib.unquote existing t)
  fresh t = unique_exit_name-IsFresh lib.unquote existing t

  or_empty :
      (b : Bool) → Fresh (if b then none else some (unique_exit_name lib.unquote existing []))
  or_empty true = tt
  or_empty false = fresh []

  name_of-Fresh : (o : Option Value) → Fresh (name_of lib fragment existing o)
  name_of-Fresh none = fresh []
  name_of-Fresh (some (text t)) = fresh t
  name_of-Fresh (some v) = or_empty (is_true lib v)

  name_in-Fresh : (o : Option (Option (Dict Value))) → Fresh (name_in lib fragment existing o)
  name_in-Fresh none = fresh []
  name_in-Fresh (some none) = tt
  name_in-Fresh (some (some d)) = name_of-Fresh (get (codes "ps") d)

  fragment_name-Fresh : (o : Option Text) → IsFresh existing (fragment_name lib fragment existing o)
  fragment_name-Fresh none = inl refl
  fragment_name-Fresh (some f) = fresh f

  exit_name-Fresh : (uri : Text) → Fresh (exit_name_from_uri lib fragment existing uri)
  unfolding exit_name_from_uri
  exit_name-Fresh uri = elim (Bool-cases (starts_with (codes "vmess://") (lower uri))) [
    | inl e ↦
        rw e (name_in-Fresh (lib.loads (b64decode_text lib fragment existing (strip (drop 8 uri)))))
    | inr e ↦ rw e (fragment_name-Fresh (fragment uri))
  ]

  Fresh-IsNewName : (c : ℕ) (r : Text) → IsFresh existing (c ∷ r) → IsNewName (c ∷ r)
  unfolding is_in
  Fresh-IsNewName c r (inl e) = cc
  Fresh-IsNewName c r (inr (free, named)) =
      (named, λ e. let same = (eqb_iff (c ∷ r) (codes "local")).1 e in ground arith)

  named_link-HasNewName :
      (config : Text) (o : Option Text)
      → Fresh o
      → HasNewName (named_link lib fragment existing config o)
  named_link-HasNewName config none h = tt
  named_link-HasNewName config (some []) h = tt
  named_link-HasNewName config (some (c ∷ r)) h = Fresh-IsNewName c r h

  unnamed_link-HasNewName :
      (config first : Text) → HasNewName (unnamed_link lib fragment existing config first)
  unfolding unnamed_link
  unnamed_link-HasNewName config first =
      elim (Bool-cases
        (contains (codes "[Interface]") config && contains (codes "[Peer]") config)) [
          | inl e ↦ rw e tt
          | inr e ↦ rw e (elim (Bool-cases (is_proxy_uri first)) [
            | inl f ↦ rw f (
                named_link-HasNewName config (exit_name_from_uri lib fragment existing first)
                  (exit_name-Fresh first))
            | inr f ↦ rw f tt
          ])
        ]

  parts_link-HasNewName :
      (config first : Text) (o : Option (Text × Option Text))
      → HasNewName (parts_link lib fragment existing config first o)
  unfolding parts_link
  parts_link-HasNewName config first none = unnamed_link-HasNewName config first
  parts_link-HasNewName config first (some (a, none)) = unnamed_link-HasNewName config first
  parts_link-HasNewName config first (some (a, some b)) =
      elim (Bool-cases (is_add_name a && (not (eqb a (codes "local")) && is_proxy_uri (strip b)))) [
        | inl e ↦
            let (named, other) =
              named_parts (is_add_name a) (eqb a (codes "local")) (is_proxy_uri (strip b)) e in
            rw e (named, λ f. cc ((eqb_iff a (codes "local")).1 f, other))
        | inr e ↦ rw e (unnamed_link-HasNewName config first)
      ]

  pub parse_add_exit_input-HasNewName :
      (payload : Text) → HasNewName (parse_add_exit_input lib fragment existing payload)
  unfolding parse_add_exit_input
  parse_add_exit_input-HasNewName payload = elim (Bool-cases (is_empty (strip payload))) [
    | inl e ↦ rw e tt
    | inr e ↦
        let first = strip (head_line (splitlines (strip payload))) in
        rw e (parts_link-HasNewName (strip payload) first (split_once first))
  ]
