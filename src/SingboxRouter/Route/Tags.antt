-- ===== src/SingboxRouter/Route/Tags.antt =====
-- Tags of outbounds and rule sets in singbox-router-config.py, and lists with no text twice.
use gpn.Prelude.{
  Bool, false, ◌||◌, List, [], ◌∷◌, ◌++◌, ◌≡◌, inl, inr, refl, sym, ap, ◌∙◌, Option, none, some,
  Bool-cases, arith,
}
use gpn.Text.{Text}
use gpn.Text.Equality.{eqb, eqb_iff, is_in}
use gpn.SingboxRouter.Exits.{Outbound, tag_of}
use gpn.SingboxRouter.RuleSets.{RuleSet, set_tag}

abbrev pub AllSome {ℓ} : {A : Type ℓ} → (A → Type 0) → Option A → Type 0
AllSome P none = Unit
AllSome P (some a) = P a

abbrev pub tag_cons : Option Text → List Text → List Text
tag_cons none ts = ts
tag_cons (some t) ts = t ∷ ts

-- The tags of outbounds, and of rule sets.
abbrev pub out_tags : List Outbound → List Text
out_tags [] = []
out_tags (o ∷ os) = tag_cons (tag_of o) (out_tags os)

abbrev pub set_tags : List RuleSet → List Text
set_tags [] = []
set_tags (r ∷ rs) = set_tag r ∷ set_tags rs

-- No text stands twice.
abbrev pub Distinct : List Text → Type 0
Distinct [] = Unit
Distinct (x ∷ xs) = (is_in x xs ≡ false) × Distinct xs

pub tag_cons-append :
    (x : Option Text) (a b c : List Text) → a ≡ b ++ c → tag_cons x a ≡ tag_cons x b ++ c
tag_cons-append none a b c e = e
tag_cons-append (some y) a b c e = ap (◌∷◌ y) e

pub out_tags-append : (os ps : List Outbound) → out_tags (os ++ ps) ≡ out_tags os ++ out_tags ps
out_tags-append [] ps = refl
out_tags-append (o ∷ os) ps =
    tag_cons-append (tag_of o) (out_tags (os ++ ps)) (out_tags os) (out_tags ps)
      (out_tags-append os ps)

pub out_tags-last :
    (os : List Outbound) (o : Outbound) (t : Text)
    → tag_of o ≡ some t
    → out_tags (os ++ o ∷ []) ≡ out_tags os ++ t ∷ []
out_tags-last os o t h = out_tags-append os (o ∷ []) ∙ rw h refl

pub set_tags-last :
    (rs : List RuleSet) (r : RuleSet) → set_tags (rs ++ r ∷ []) ≡ set_tags rs ++ set_tag r ∷ []
set_tags-last [] r = refl
set_tags-last (x ∷ rs) r = ap (◌∷◌ (set_tag x)) (set_tags-last rs r)

pub eqb_sym : (a b : Text) → eqb a b ≡ false → eqb b a ≡ false
eqb_sym a b h = elim (Bool-cases (eqb b a)) [
  | inl e ↦ cc (h, (eqb_iff a b).1 (sym ((eqb_iff b a).0 e)))
  | inr e ↦ e
]

pub or_false : (a b : Bool) → (a || b) ≡ false → (a ≡ false) × (b ≡ false)
or_false a b h = ground arith

pub not_in-last :
    (y x : Text) (ys : List Text)
    → is_in y ys ≡ false
    → eqb y x ≡ false
    → is_in y (ys ++ x ∷ []) ≡ false
unfolding is_in
not_in-last y x [] h e = rw e refl
not_in-last y x (z ∷ ys) h e =
    let (a, b) = or_false (eqb y z) (is_in y ys) h in rw a (not_in-last y x ys b e)

pub Distinct-last :
    (xs : List Text) (x : Text) → Distinct xs → is_in x xs ≡ false → Distinct (xs ++ x ∷ [])
unfolding is_in
Distinct-last [] x h n = (refl, tt)
Distinct-last (y ∷ xs) x h n =
    let (a, b) = or_false (eqb x y) (is_in x xs) n in
    (not_in-last y x xs h.0 (eqb_sym x y a), Distinct-last xs x h.1 b)
