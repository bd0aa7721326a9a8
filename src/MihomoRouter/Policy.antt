-- ===== src/MihomoRouter/Policy.antt =====
-- `load_policy_map`, `canonical_exit_name` and `resolve_target` of mihomo-router-config.py.
pub mod Targets
use gpn.Prelude.{
  ℕ, Bool, true, false, not, ◌&&◌, ◌||◌, List, [], ◌∷◌, ◌++◌, Option, none, some, all, is_empty,
  ◌==◌, if◌then◌else◌,
}
use gpn.Prelude.Dict.{Dict, get, put}
use gpn.Text.{Text, codes, Unicode, lower}
use gpn.Text.Equality.{eqb, is_in}
use gpn.Text.Search.{starts_with}
use gpn.Text.Split.{cut, file_lines}
use gpn.Text.Strip.{strip, is_char}

-- one line of the policy map
unfoldable pub policy_entry : Text × Option Text → Dict Text → Dict Text
unfolding strip put
policy_entry (k, none) m = m
policy_entry (k, some v) m = put (strip k) (strip v) m

unfoldable pub policy_lines : List Text → Dict Text → Dict Text
unfolding policy_entry cut starts_with
policy_lines [] m = m
policy_lines (raw ∷ rest) m = policy_lines rest (
    if is_empty (strip raw) || starts_with (codes "#") (strip raw)
    then m
    else policy_entry (cut b'=' (strip raw)) m)

-- `none`: the file cannot be opened
unfoldable pub load_policy_map : Option Text → Dict Text
unfolding policy_lines file_lines
load_policy_map none = []
load_policy_map (some file) = policy_lines (file_lines file) []

-- the text before the last separator, and what is behind it
unfoldable pub cut_last : ℕ → Text → Option (Text × Text)
cut_last sep [] = none
cut_last sep (c ∷ s) = elim (cut_last sep s) [
  | some (a, b) ↦ some (c ∷ a, b)
  | none ↦ if c == sep then some ([], s) else none
]

-- `os.path.splitext` of a name with no slash: dots at its start begin no extension
unfoldable pub split_extension : Text → Text × Text
unfolding cut_last
split_extension name = elim (cut_last b'.' name) [
  | none ↦ (name, [])
  | some (stem, ext) ↦ if all (is_char b'.') stem then (name, []) else (stem, b'.' ∷ ext)
]

-- `set.add`, on a set that is the list of its members
unfoldable pub add_to : Text → List Text → List Text
unfolding is_in
add_to x xs = if is_in x xs then xs else xs ++ x ∷ []

module _ ⦃u : Unicode⦄ where
  abbrev exit_extensions : List Text
  exit_extensions = codes ".yaml" ∷ codes ".json" ∷ codes ".type" ∷ []

  -- the loop over the directory's entries
  unfoldable pub find_exit : Text → List Text → Option Text
  unfolding split_extension is_in eqb lower
  find_exit wanted [] = none
  find_exit wanted (entry ∷ rest) =
      let (stem, ext) = split_extension entry in
      let later = find_exit wanted rest in
      if is_in ext exit_extensions && eqb (lower stem) wanted then some stem else later

  abbrev found_or : Text → Option Text → Text
  found_or name none = name
  found_or name (some stem) = stem

  -- `listing` is what `os.listdir` gives; `none` is an `OSError`.
  unfoldable pub canonical_exit_name : Option (List Text) → Text → Text
  unfolding find_exit lower
  canonical_exit_name none name = name
  canonical_exit_name (some entries) name = found_or name (find_exit (lower name) entries)

  abbrev pub direct_targets : List Text
  direct_targets = codes "direct" ∷ codes "direct-out" ∷ codes "dir" ∷ []

  abbrev pub block_targets : List Text
  block_targets = codes "block" ∷ codes "reject" ∷ codes "reject-drop" ∷ []

  -- the two tests that `resolve_target` makes on a name and on what the map has for it
  unfoldable pub fixed_target : Text → Option Text
  unfolding lower is_in
  fixed_target t =
      if is_in (lower t) direct_targets
      then some (codes "DIRECT")
      else if is_in (lower t) block_targets
      then some (codes "REJECT")
      else none

  module _ (listing : Option (List Text)) where
    -- `used_exits.add(target)`, and the target
    unfoldable pub use_exit : Text → List Text → Text × List Text
    unfolding canonical_exit_name add_to
    use_exit name used =
        let target = canonical_exit_name listing name in (target, add_to target used)

    abbrev pub fixed_or : Option Text → Text → List Text → Text × List Text
    fixed_or (some target) name used = (target, used)
    fixed_or none name used = use_exit name used

    unfoldable pub mapped_or : Option Text → Text → List Text → Text × List Text
    unfolding fixed_target strip use_exit
    mapped_or none t used = use_exit t used
    mapped_or (some v) t used = fixed_or (fixed_target (strip v)) (strip v) used

    abbrev pub unless_fixed : Option Text → Text × List Text → List Text → Text × List Text
    unless_fixed (some target) other used = (target, used)
    unless_fixed none other used = other

    -- the target of a policy, and `used_exits` after it
    unfoldable pub resolve_target : Dict Text → Text → List Text → Text × List Text
    unfolding fixed_target mapped_or strip get
    resolve_target policy_map t used =
        unless_fixed (fixed_target (strip t)) (mapped_or (get (strip t) policy_map) (strip t) used)
          used
