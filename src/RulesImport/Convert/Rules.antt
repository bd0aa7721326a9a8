-- ===== src/RulesImport/Convert/Rules.antt =====
-- What the conversion of a rule list can emit.
use gpn.Prelude.{
  Bool, true, false, List, [], ◌∷◌, ◌++◌, Option, none, some, ◌≡◌, refl, All, All-append, All-mono,
  Bool-cases, Option-cases, inl, inr,
}
use gpn.Text.{Text, codes, Unicode, upper}
use gpn.Text.Equality.{eqb, is_in, is_in-All, is_in-append, is_in-last}
use gpn.Text.Split.{join, file_lines}
use gpn.Text.Strip.{strip}
use gpn.RulesImport.Csv.{csv_split}
use gpn.RulesImport.Category.{Selection, category_of}
use gpn.RulesImport.Matchers.{keep_types, drop_types}
use gpn.RulesImport.Logical.{parse_logical}
use gpn.RulesImport.Convert.{
  Import, start, add_category, gateway_type, emit, take_member, take_members, count_group, or_group,
  emit_with, policies, simple_line, line_type, rule_line, is_comment, import_line, import_lines,
  add_final, finished, convert_lines, convert,
}

-- The matchers of the gateway's rules.
abbrev pub gateway_types : List Text
gateway_types =
    codes "DOMAIN"
    ∷ codes "DOMAIN-SUFFIX"
    ∷ codes "DOMAIN-KEYWORD"
    ∷ codes "IP-CIDR"
    ∷ codes "RULE-SET"
    ∷ codes "GEOIP"
    ∷ codes "GEOSITE"
    ∷ []

-- A line of the output: a matcher, a value and a category, or FINAL and a category. The category
-- is among those that the import reports.
pub data IsGatewayRule (cats : List Text) (r : Text) : Type 0 where
  matcher :
      (typ value cat : Text)
      → is_in typ gateway_types ≡ true
      → is_in cat cats ≡ true
      → r ≡ join (codes ",") (typ ∷ value ∷ cat ∷ [])
      → IsGatewayRule cats r
  default :
      (cat : Text)
      → is_in cat cats ≡ true
      → r ≡ join (codes ",") (codes "FINAL" ∷ cat ∷ [])
      → IsGatewayRule cats r

abbrev pub IsSound : Import → Type 0
IsSound s = All (IsGatewayRule s.cats) s.rules

is_in-add :
    (x c : Text) (cats : List Text) → is_in x cats ≡ true → is_in x (add_category c cats) ≡ true
is_in-add x c cats h = elim (Bool-cases (is_in c cats)) [
  | inl e ↦ rw e h
  | inr e ↦ rw e (is_in-append x cats (c ∷ []) h)
]

is_in-add_self : (c : Text) (cats : List Text) → is_in c (add_category c cats) ≡ true
is_in-add_self c cats = elim (Bool-cases (is_in c cats)) [
  | inl e ↦ rw e e
  | inr e ↦ rw e (is_in-last c cats)
]

widen :
    (c : Text) (cats : List Text) (r : Text)
    → IsGatewayRule cats r
    → IsGatewayRule (add_category c cats) r
widen c cats r (matcher t v k h i e) = matcher t v k h (is_in-add k c cats i) e
widen c cats r (default k i e) = default k (is_in-add k c cats i) e

-- one more rule, with its category
add_rule-IsSound :
    (cats rules : List Text) (c r : Text)
    → All (IsGatewayRule cats) rules
    → IsGatewayRule (add_category c cats) r
    → All (IsGatewayRule (add_category c cats)) (rules ++ r ∷ [])
add_rule-IsSound cats rules c r h k =
    All-append (IsGatewayRule (add_category c cats)) rules (r ∷ [])
      (All-mono (IsGatewayRule cats) (IsGatewayRule (add_category c cats)) (widen c cats) rules h)
      (k, tt)

module _ ⦃u : Unicode⦄ (sel : Selection) where
  gateway_type-keep :
      (t : Text) → is_in t keep_types ≡ true → is_in (gateway_type (upper t)) gateway_types ≡ true
  unfolding keep_types gateway_type upper is_in
  gateway_type-keep t h =
      is_in-All (λ t. is_in (gateway_type (upper t)) gateway_types ≡ true) t keep_types
        (refl, (refl, (refl, (refl, (refl, (refl, (refl, (refl, tt)))))))) h

  emit-IsSound :
      (t v p : Text) (s : Import)
      → is_in t keep_types ≡ true
      → IsSound s
      → IsSound (emit sel t v p s)
  unfolding emit
  emit-IsSound t v p s h k =
      let cat = category_of sel p in
      add_rule-IsSound s.cats s.rules cat _ k (
        matcher (gateway_type (upper t)) v cat (gateway_type-keep t h) (is_in-add_self cat s.cats)
          refl)

  take_member-IsSound :
      (p : Text) (ps : List Text) (s : Import) (k : Bool)
      → IsSound s
      → IsSound (take_member sel p ps (s, k)).0
  unfolding take_member
  take_member-IsSound p [] s k h = h
  take_member-IsSound p (t ∷ []) s k h = h
  take_member-IsSound p (t ∷ v ∷ r) s k h = elim (Bool-cases (is_in (upper t) keep_types)) [
    | inl e ↦ rw e (emit-IsSound (upper t) v p s e h)
    | inr e ↦ rw e h
  ]

  take_members-IsSound :
      (p : Text) (ms : List Text) (st : Import × Bool)
      → IsSound st.0
      → IsSound (take_members sel p ms st).0
  unfolding take_members
  take_members-IsSound p [] st h = h
  take_members-IsSound p (m ∷ ms) (s, k) h =
      take_members-IsSound p ms _ (take_member-IsSound p (csv_split m) s k h)

  count_group-IsSound : (x : Import × Bool) → IsSound x.0 → IsSound (count_group x)
  count_group-IsSound (s, true) h = h
  count_group-IsSound (s, false) h = h

  abbrev IsSound? : Option Import → Type 0
  IsSound? none = Unit
  IsSound? (some s) = IsSound s

  or_group-IsSound :
      (parsed : Option (List Text × Option Text)) (s : Import)
      → IsSound s
      → IsSound? (or_group sel parsed s)
  unfolding or_group
  or_group-IsSound none s h = tt
  or_group-IsSound (some (ms, none)) s h = h
  or_group-IsSound (some (ms, some [])) s h = h
  or_group-IsSound (some (ms, some (c ∷ p))) s h =
      count_group-IsSound _ (take_members-IsSound (c ∷ p) ms (s, false) h)

  emit_with-IsSound :
      (t v : Text) (ps : List Text) (s : Import)
      → is_in t keep_types ≡ true
      → IsSound s
      → IsSound (emit_with sel t v ps s)
  unfolding emit_with
  emit_with-IsSound t v [] s e h = h
  emit_with-IsSound t v (p ∷ ps) s e h = emit-IsSound t v p s e h

  simple_line-IsSound :
      (t : Text) (parts : List Text) (s : Import) → IsSound s → IsSound (simple_line sel t parts s)
  unfolding simple_line
  simple_line-IsSound t (x ∷ v ∷ p ∷ ps) s h = elim (Bool-cases (is_in t drop_types)) [
    | inl e ↦ rw e h
    | inr e ↦ rw e (elim (Bool-cases (is_in t keep_types)) [
      | inl f ↦ rw f (emit_with-IsSound t v (policies (p ∷ ps)) s f h)
      | inr f ↦ rw f h
    ])
  ]
  simple_line-IsSound t [] s h = h
  simple_line-IsSound t _ s h = h

  rule_line-IsSound : (line : Text) (s : Import) → IsSound s → IsSound? (rule_line sel line s)
  unfolding rule_line
  rule_line-IsSound line s h = elim (Bool-cases (eqb (line_type line) (codes "AND"))) [
    | inl e ↦ rw e h
    | inr e ↦ rw e (elim (Bool-cases (eqb (line_type line) (codes "OR"))) [
      | inl f ↦ rw f (or_group-IsSound (parse_logical line) s h)
      | inr f ↦ rw f (elim (Bool-cases (eqb (line_type line) (codes "FINAL"))) [
        | inl g ↦ rw g h
        | inr g ↦ rw g (simple_line-IsSound (line_type line) (csv_split line) s h)
      ])
    ])
  ]

  import_line-IsSound : (raw : Text) (s : Import) → IsSound s → IsSound? (import_line sel raw s)
  unfolding import_line
  import_line-IsSound raw s h = elim (Bool-cases (is_comment (strip raw))) [
    | inl e ↦ rw e h
    | inr e ↦ rw e (rule_line-IsSound (strip raw) s h)
  ]

  import_lines-IsSound :
      (lines : List Text) (s : Import) → IsSound s → IsSound? (import_lines sel lines s)
  unfolding import_lines
  import_lines-IsSound [] s h = h
  import_lines-IsSound (raw ∷ rest) s h = elim (Option-cases (import_line sel raw s)) [
    | inl e ↦ rw (e, import_lines) tt
    | inr (s', e) ↦
        rw (e, import_lines) (import_lines-IsSound rest s' (rw e at (import_line-IsSound raw s h)))
  ]

  add_final-IsSound : (f : Option Text) (s : Import) → IsSound s → IsSound (add_final f s)
  unfolding add_final
  add_final-IsSound none s h = h
  add_final-IsSound (some []) s h = h
  add_final-IsSound (some (c ∷ f)) s h =
      add_rule-IsSound s.cats s.rules (c ∷ f) _ h
        (default (c ∷ f) (is_in-add_self (c ∷ f) s.cats) refl)

  finished-IsSound : (x : Option Import) → IsSound? x → IsSound? (finished x)
  unfolding finished
  finished-IsSound none h = tt
  finished-IsSound (some s) h = add_final-IsSound s.final s h

  -- Whatever the file, a conversion that ends without an error has emitted only lines of the
  -- form "matcher,value,category", with one of the gateway's seven matchers, or
  -- "FINAL,category", and each line's category is among those that it reports.
  pub convert-IsGatewayRule :
      (file : Text) (s : Import) → convert sel file ≡ some s → All (IsGatewayRule s.cats) s.rules
  unfolding convert convert_lines
  convert-IsGatewayRule file s e =
      rw e at (finished-IsSound _ (import_lines-IsSound (file_lines file) start tt))
