-- ===== src/TelegramBot/Names.antt =====
-- The names of exits in tgbot.py: `clean_exit_name`, `unique_exit_name`, `parse_exit_names` and
-- `_policy_map`.
use gpn.Prelude.{
  ℕ, zero, suc, ◌-◌, Bool, true, false, not, ◌&&◌, ◌||◌, List, [], ◌∷◌, ◌++◌, Option, none, some,
  is_empty, length, take, drop, ◌==◌, ◌≡◌, ◌⊎◌, inl, inr, refl, Bool-cases, if◌then◌else◌, arith,
}
use gpn.Text.{Text, codes, Unicode, is_word, is_within}
use gpn.Text.Decimal.{decimal}
use gpn.Text.Equality.{eqb, is_in}
use gpn.Text.Search.{starts_with, ends_with}
use gpn.Text.Split.{cut, splitlines}
use gpn.Text.Strip.{strip, strip_by}
use gpn.Regex.{full_match}
use gpn.RulesImport.Sorting.{sorted_set}
use gpn.ExitConfig.Generate.{name_re}

abbrev is_edge : ℕ → Bool
is_edge c = c == b'-' || c == b'_'

module _ ⦃u : Unicode⦄ where
  -- `re.sub(r"[^\w\-一-鿿]+", "-", name)`; the flag says that a run has begun
  unfoldable pub dash_runs : Bool → Text → Text
  unfolding is_word
  dash_runs inside [] = []
  dash_runs inside (c ∷ s) =
      let kept = dash_runs false s in
      let run = dash_runs true s in
      if is_word c || c == b'-' || is_within 0x4e00 0x9fff c
      then c ∷ kept
      else if inside
      then run
      else b'-' ∷ run

  -- `EXIT_ADD_NAME_RE.match(name)`
  unfoldable pub is_add_name : Text → Bool
  unfolding full_match name_re
  is_add_name name = full_match name_re name

  abbrev checked : Text → Text
  checked name =
      if is_empty name || eqb name (codes "local") || not (is_add_name name) then [] else name

  -- `unquote` is a parameter
  unfoldable pub clean_exit_name : (Text → Text) → Text → Text
  unfolding strip strip_by dash_runs is_add_name eqb
  clean_exit_name unquote name =
      checked (take 16 (strip_by is_edge (dash_runs false (strip (unquote name)))))

  abbrev candidate : Text → ℕ → Text
  candidate base i =
      let suffix = b'-' ∷ decimal i in strip_by is_edge (take (16 - length suffix) base ++ suffix)

  abbrev is_free : List Text → Text → Bool
  is_free existing cand = not (is_empty cand) && (not (is_in cand existing) && is_add_name cand)

  -- the loop over the numbers from `i` on, `count` of them
  unfoldable pub numbered : ℕ → ℕ → List Text → Text → Text
  unfolding decimal strip_by is_in is_add_name
  numbered zero i existing base = []
  numbered (suc count) i existing base =
      let later = numbered count (suc i) existing base in
      if is_free existing (candidate base i) then candidate base i else later

  -- `existing` is what `parse_exit_names` gives
  unfoldable pub unique_exit_name : (Text → Text) → List Text → Text → Text
  unfolding clean_exit_name numbered is_in
  unique_exit_name unquote existing name =
      let base = clean_exit_name unquote name in
      if is_empty base
      then []
      else if not (is_in base existing)
      then base
      else numbered 98 2 existing base

  -- No name, or one that no exit has and that the pattern lets pass.
  abbrev pub IsFresh : List Text → Text → Type 0
  IsFresh existing r = (r ≡ []) ⊎ ((is_in r existing ≡ false) × (is_add_name r ≡ true))

  numbered-IsFresh :
      (count i : ℕ) (existing : List Text) (base : Text)
      → IsFresh existing (numbered count i existing base)
  unfolding numbered
  numbered-IsFresh zero i existing base = inl refl
  numbered-IsFresh (suc count) i existing base =
      elim (Bool-cases (is_free existing (candidate base i))) [
        | inr e ↦ rw e (numbered-IsFresh count (suc i) existing base)
        | inl e ↦ rw e (inr (fresh (candidate base i) e))
      ]
    where
      fresh :
          (r : Text)
          → is_free existing r ≡ true
          → (is_in r existing ≡ false) × (is_add_name r ≡ true)
      fresh r h = ground arith

  clean-IsFresh :
      (unquote : Text → Text) (existing : List Text) (name : Text)
      → is_in (clean_exit_name unquote name) existing ≡ false
      → IsFresh existing (clean_exit_name unquote name)
  unfolding clean_exit_name
  clean-IsFresh unquote existing name h =
      checked_fresh (take 16 (strip_by is_edge (dash_runs false (strip (unquote name))))) h
    where
      passed :
          (r : Text)
          → (is_empty r || eqb r (codes "local") || not (is_add_name r)) ≡ false
          → is_add_name r ≡ true
      passed r e = ground arith

      checked_fresh : (r : Text) → is_in (checked r) existing ≡ false → IsFresh existing (checked r)
      checked_fresh r h =
          elim (Bool-cases (is_empty r || eqb r (codes "local") || not (is_add_name r))) [
            | inl e ↦ rw e (inl refl)
            | inr e ↦ rw e (inr (rw e at h, passed r e))
          ]

  -- The name for a new exit is empty, which refuses it, or it matches the pattern for names and
  -- is none of the names that are taken.
  pub unique_exit_name-IsFresh :
      (unquote : Text → Text) (existing : List Text) (name : Text)
      → IsFresh existing (unique_exit_name unquote existing name)
  unfolding unique_exit_name
  unique_exit_name-IsFresh unquote existing name =
      elim (Bool-cases (is_empty (clean_exit_name unquote name))) [
        | inl e ↦ rw e (inl refl)
        | inr e ↦ rw e (elim (Bool-cases (is_in (clean_exit_name unquote name) existing)) [
          | inl f ↦ rw f (numbered-IsFresh 98 2 existing (clean_exit_name unquote name))
          | inr f ↦ rw f (clean-IsFresh unquote existing name f)
        ])
      ]

-- the names in the two directories; `none` is an `OSError`
unfoldable pub type_names : List Text → List Text
unfolding ends_with
type_names [] = []
type_names (f ∷ fs) =
    let rest = type_names fs in
    if ends_with (codes ".type") f then take (length f - 5) f ∷ rest else rest

unfoldable pub wg_names : List Text → List Text
unfolding starts_with ends_with
wg_names [] = []
wg_names (f ∷ fs) =
    let rest = wg_names fs in
    if starts_with (codes "pgw-") f && ends_with (codes ".conf") f
    then drop 4 (take (length f - 5) f) ∷ rest
    else rest

abbrev listed : Option (List Text) → List Text
listed none = []
listed (some fs) = fs

unfoldable pub parse_exit_names : Option (List Text) → Option (List Text) → List Text
unfolding type_names wg_names sorted_set
parse_exit_names exits wireguard =
    codes "local" ∷ sorted_set (type_names (listed exits) ++ wg_names (listed wireguard))

unfoldable pub policy_pairs : List Text → List (Text × Text)
unfolding strip starts_with cut
policy_pairs [] = []
policy_pairs (raw ∷ rest) =
    let others = policy_pairs rest in
    if is_empty (strip raw) || starts_with (codes "#") (strip raw)
    then others
    else (elim (cut b'=' (strip raw)).1 [
      | none ↦ others
      | some v ↦ (strip (cut b'=' (strip raw)).0, strip v) ∷ others
    ])

-- `_policy_map`
unfoldable pub policy_map : Text → List (Text × Text)
unfolding policy_pairs splitlines
policy_map txt = policy_pairs (splitlines txt)
