-- ===== src/SingboxRouter/Route/Complete.antt =====
-- Lines that singbox-router-config.py takes, and the policies that it can resolve.
use gpn.Prelude.{
  Bool, true, false, List, [], ◌∷◌, ◌≡◌, ◌⊎◌, inl, inr, refl, some, is_empty, if◌then◌else◌,
}
use gpn.Prelude.Dict.{Dict}
use gpn.Text.{Text, codes, Unicode, lower}
use gpn.Text.Equality.{eqb, is_in}
use gpn.Text.Search.{starts_with, ends_with}
use gpn.Text.Strip.{strip}
use gpn.MihomoRouter.Policy.{direct_targets}
use gpn.MihomoRouter.Rules.{fields, rule_text, rule_type}
use gpn.SingboxRouter.Exits.{Outbound, build_exit_outbound}
use gpn.SingboxRouter.RuleSets.{
  Host, LocalFile, unreadable, content, absent, Router, Result, ok, ◌>>=◌, block_targets, with_exit,
  materialize_target, target_of, ensure_policy,
}

-- A result that is a value.
pub record Good {ℓ} {A : Type ℓ} (r : Result A) : Type ℓ where
  pub value : A
  pub is_value : r ≡ ok value

pub Good-ok {ℓ} : {A : Type ℓ} (a : A) → Good (ok a)
Good-ok a = record { value = a; is_value = refl }

pub Good-if {ℓ} :
    {A : Type ℓ} (b : Bool) {x y : Result A}
    → (b ≡ true → Good x)
    → (b ≡ false → Good y)
    → Good (if b then x else y)
Good-if true f g = f refl
Good-if false f g = g refl

pub Good-bind {ℓ κ} :
    {A : Type ℓ} {B : Type κ} (r : Result A) (f : A → Result B)
    → Good r
    → ((a : A) → Good (f a))
    → Good (r >>= f)
Good-bind r f g k = rw g.is_value (k g.value)

module _ ⦃u : Unicode⦄ (h : Host) (m : Dict Text) where
  abbrev IsFixed : Text → Type 0
  IsFixed t =
      (is_in (lower (strip t)) direct_targets ≡ true)
      ⊎ (is_in (lower (strip t)) block_targets ≡ true)

  -- `direct`, `block`, or an exit that can be built
  abbrev Resolves : Text → Type 0
  Resolves t =
      IsFixed t ⊎ ((o : Outbound) × (build_exit_outbound (strip t) (h.exits (strip t)) ≡ some o))

  -- a policy whose target is one
  abbrev pub PolicyOk : Text → Type 0
  PolicyOk p = IsFixed p ⊎ Resolves (target_of h m (strip p))

  abbrev pub IsReadable : Text → LocalFile → Type 0
  IsReadable src absent = Unit
  IsReadable src unreadable = ends_with (codes ".srs") (lower src) ≡ true
  IsReadable src (content text) =
      (ends_with (codes ".srs") (lower src) ≡ true) ⊎ (h.saves (h.tag_of src) ≡ true)

  -- a list that is downloaded, or whose file is absent, binary, or a text that is read and that
  -- the cache takes
  abbrev pub SourceOk : Text → Type 0
  SourceOk src = (starts_with (codes "http") src ≡ true) ⊎ IsReadable src (h.local_file src)

  abbrev pub value_types : List Text
  value_types =
      codes "DOMAIN"
      ∷ codes "DOMAIN-SUFFIX"
      ∷ codes "DOMAIN-KEYWORD"
      ∷ codes "IP-CIDR"
      ∷ codes "IP-CIDR6"
      ∷ codes "GEOSITE"
      ∷ codes "GEOIP"
      ∷ []

  abbrev pub list_types : List Text
  list_types = codes "RULE-SET" ∷ codes "RULESET" ∷ []

  -- a type that is known, and for a list one that can be read
  abbrev pub TypedOk : Text → Text → Type 0
  TypedOk typ v = (is_in typ value_types ≡ true) ⊎ ((is_in typ list_types ≡ true) × SourceOk v)

  -- the parts of a line that names all that it needs
  abbrev pub PartsOk : List Text → Type 0
  PartsOk [] = ⊥
  PartsOk (t ∷ []) = ⊥
  PartsOk (t ∷ v ∷ []) = (eqb (rule_type t) (codes "FINAL") ≡ true) × PolicyOk v
  PartsOk (t ∷ v ∷ p ∷ more) =
      ((eqb (rule_type t) (codes "FINAL") ≡ true) × PolicyOk v)
      ⊎ ((eqb (rule_type t) (codes "FINAL") ≡ false) × TypedOk (rule_type t) v × PolicyOk p)

  -- a blank line or a complete one
  abbrev pub LineOk : Text → Type 0
  LineOk raw = (is_empty (rule_text raw) ≡ true) ⊎ PartsOk (fields (rule_text raw))

  materialize-Good : (t : Text) (s : Router) → Resolves t → Good (materialize_target h m t s)
  unfolding materialize_target
  materialize-Good t s r =
      Good-if (is_in (lower (strip t)) direct_targets) (λ _. Good-ok _)
        λ a.
          Good-if (is_in (lower (strip t)) block_targets) (λ _. Good-ok _)
            λ b. Good-if (is_in (strip t) s.ob_tags) (λ _. Good-ok _) (λ _. built a b r)
    where
      built :
          is_in (lower (strip t)) direct_targets ≡ false
          → is_in (lower (strip t)) block_targets ≡ false
          → Resolves t
          → Good (with_exit h m (strip t) (build_exit_outbound (strip t) (h.exits (strip t))) s)
      built a b (inl (inl e)) = cc
      built a b (inl (inr e)) = cc
      built a b (inr (o, e)) = rw e (Good-ok _)

  pub ensure-Good : (p : Text) (s : Router) → PolicyOk p → Good (ensure_policy h m p s)
  unfolding ensure_policy
  ensure-Good p s r =
      Good-if (is_in (lower (strip p)) direct_targets) (λ _. Good-ok _)
        λ a. Good-if (is_in (lower (strip p)) block_targets) (λ _. Good-ok _) (λ b. target a b r)
    where
      target :
          is_in (lower (strip p)) direct_targets ≡ false
          → is_in (lower (strip p)) block_targets ≡ false
          → PolicyOk p
          → Good (materialize_target h m (target_of h m (strip p)) s)
      target a b (inl (inl e)) = cc
      target a b (inl (inr e)) = cc
      target a b (inr k) = materialize-Good (target_of h m (strip p)) s k
