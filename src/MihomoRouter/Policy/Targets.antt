-- ===== src/MihomoRouter/Policy/Targets.antt =====
-- What `resolve_target` gives.
use gpn.Prelude.{true, List, [], ◌∷◌, Option, none, some, ◌≡◌, ◌⊎◌, inl, inr, refl, Bool-cases}
use gpn.Prelude.Dict.{Dict, get}
use gpn.Text.{Text, codes, Unicode, lower}
use gpn.Text.Equality.{is_in, is_in-append, is_in-last}
use gpn.Text.Strip.{strip}
use gpn.MihomoRouter.Policy.{
  add_to, canonical_exit_name, fixed_target, direct_targets, block_targets, use_exit, fixed_or,
  mapped_or, unless_fixed, resolve_target,
}

pub is_in-add_to_self : (x : Text) (xs : List Text) → is_in x (add_to x xs) ≡ true
unfolding add_to
is_in-add_to_self x xs = elim (Bool-cases (is_in x xs)) [
  | inl e ↦ rw e e
  | inr e ↦ rw e (is_in-last x xs)
]

pub is_in-add_to : (y x : Text) (xs : List Text) → is_in y xs ≡ true → is_in y (add_to x xs) ≡ true
unfolding add_to
is_in-add_to y x xs h = elim (Bool-cases (is_in x xs)) [
  | inl e ↦ rw e h
  | inr e ↦ rw e (is_in-append y xs (x ∷ []) h)
]

-- A target that mihomo knows by itself, or an exit in use.
abbrev pub IsTarget : List Text → Text → Type 0
IsTarget used t = (t ≡ codes "DIRECT") ⊎ ((t ≡ codes "REJECT") ⊎ (is_in t used ≡ true))

pub IsTarget-add_to : (used : List Text) (x t : Text) → IsTarget used t → IsTarget (add_to x used) t
IsTarget-add_to used x t (inl e) = inl e
IsTarget-add_to used x t (inr (inl e)) = inr (inl e)
IsTarget-add_to used x t (inr (inr h)) = inr (inr (is_in-add_to t x used h))

module _ ⦃u : Unicode⦄ where
  abbrev IsFixed : List Text → Option Text → Type 0
  IsFixed used none = Unit
  IsFixed used (some t) = IsTarget used t

  fixed_target-IsFixed : (used : List Text) (t : Text) → IsFixed used (fixed_target t)
  unfolding fixed_target
  fixed_target-IsFixed used t = elim (Bool-cases (is_in (lower t) direct_targets)) [
    | inl d ↦ rw d (inl refl)
    | inr d ↦ rw d (elim (Bool-cases (is_in (lower t) block_targets)) [
      | inl b ↦ rw b (inr (inl refl))
      | inr b ↦ rw b tt
    ])
  ]

  -- What holds of a resolved target and the exits that are then in use.
  pub record IsResolvedTarget (used : List Text) (r : Text × List Text) : Type 0 where
    pub target : IsTarget r.1 r.0
    pub grows : (t : Text) → is_in t used ≡ true → is_in t r.1 ≡ true

  module _ (listing : Option (List Text)) where
    use_exit-IsResolvedTarget :
        (name : Text) (used : List Text) → IsResolvedTarget used (use_exit listing name used)
    unfolding use_exit
    use_exit-IsResolvedTarget name used = record {
      target = inr (inr (is_in-add_to_self (canonical_exit_name listing name) used));
      grows = λ t h. is_in-add_to t (canonical_exit_name listing name) used h;
    }

    fixed_or-IsResolvedTarget :
        (o : Option Text) (name : Text) (used : List Text)
        → IsFixed used o
        → IsResolvedTarget used (fixed_or listing o name used)
    fixed_or-IsResolvedTarget none name used h = use_exit-IsResolvedTarget name used
    fixed_or-IsResolvedTarget (some t) name used h = record { target = h; grows = λ t h. h }

    mapped_or-IsResolvedTarget :
        (o : Option Text) (t : Text) (used : List Text)
        → IsResolvedTarget used (mapped_or listing o t used)
    unfolding mapped_or
    mapped_or-IsResolvedTarget none t used = use_exit-IsResolvedTarget t used
    mapped_or-IsResolvedTarget (some v) t used =
        fixed_or-IsResolvedTarget _ (strip v) used (fixed_target-IsFixed used (strip v))

    unless_fixed-IsResolvedTarget :
        (o : Option Text) (other : Text × List Text) (used : List Text)
        → IsFixed used o
        → IsResolvedTarget used other
        → IsResolvedTarget used (unless_fixed listing o other used)
    unless_fixed-IsResolvedTarget none other used h k = k
    unless_fixed-IsResolvedTarget (some t) other used h k = record { target = h; grows = λ t h. h }

    pub resolve_target-IsResolvedTarget :
        (policy_map : Dict Text) (t : Text) (used : List Text)
        → IsResolvedTarget used (resolve_target listing policy_map t used)
    unfolding resolve_target
    resolve_target-IsResolvedTarget policy_map t used =
        unless_fixed-IsResolvedTarget _ _ used (fixed_target-IsFixed used (strip t))
          (mapped_or-IsResolvedTarget (get (strip t) policy_map) (strip t) used)
