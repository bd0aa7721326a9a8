-- ===== src/RulesImport/Convert/Lines.antt =====
-- AND lines of a rule list do not reach the gateway's rules.
use gpn.Prelude.{
  ◌+◌, Bool, true, false, not, List, [], ◌∷◌, Option, none, some, ◌≡◌, ◌∙◌, refl, subst, sym, arith,
  inl, inr, Bool-cases, if◌then◌else◌, ◌&&◌,
}
use gpn.Text.{Text, codes, Unicode, upper}
use gpn.Text.Equality.{eqb, is_in}
use gpn.Text.Split.{file_lines}
use gpn.Text.Strip.{strip}
use gpn.RulesImport.Csv.{csv_split}
use gpn.RulesImport.Category.{Selection}
use gpn.RulesImport.Matchers.{keep_types, drop_types}
use gpn.RulesImport.Logical.{parse_logical}
use gpn.RulesImport.Convert.{
  Import, start, drop_line, emit, take_member, take_members, count_group, or_group, emit_with,
  policies, simple_line, line_type, rule_line, is_comment, import_line, import_lines, add_final,
  finish, finished, convert_lines, convert,
}

-- All but the two counts of lines that were left out.
pub record Agree (a b : Import) : Type 0 where
  pub rules : a.rules ≡ b.rules
  pub cats : a.cats ≡ b.cats
  pub final : a.final ≡ b.final
  pub flattened : a.flattened ≡ b.flattened

abbrev pub BothAgree : Option Import → Option Import → Type 0
BothAgree none none = Unit
BothAgree (some a) (some b) = Agree a b
BothAgree _ _ = ⊥

abbrev AgreeWith : Import × Bool → Import × Bool → Type 0
AgreeWith (a, k) (b, l) = Agree a b × (k ≡ l)

Agree-refl : (a : Import) → Agree a a
Agree-refl a = record { rules = refl; cats = refl; final = refl; flattened = refl }

Agree-trans : {a b c : Import} → Agree a b → Agree b c → Agree a c
Agree-trans h k = record {
  rules = h.rules ∙ k.rules;
  cats = h.cats ∙ k.cats;
  final = h.final ∙ k.final;
  flattened = h.flattened ∙ k.flattened;
}

drop_line-Agree : (a b : Import) → Agree a b → Agree (drop_line a) (drop_line b)
drop_line-Agree a b h = record {
  rules = h.rules;
  cats = h.cats;
  final = h.final;
  flattened = h.flattened;
}

module _ ⦃u : Unicode⦄ (sel : Selection) where
  emit-Agree :
      (t v p : Text) (a b : Import) → Agree a b → Agree (emit sel t v p a) (emit sel t v p b)
  unfolding emit
  emit-Agree t v p a b h = record {
    rules = rw h.rules;
    cats = rw h.cats;
    final = h.final;
    flattened = h.flattened;
  }

  take_member-Agree :
      (p : Text) (ps : List Text) (a b : Import) (k : Bool)
      → Agree a b
      → AgreeWith (take_member sel p ps (a, k)) (take_member sel p ps (b, k))
  unfolding take_member
  take_member-Agree p [] a b k h = (h, refl)
  take_member-Agree p (t ∷ []) a b k h = (h, refl)
  take_member-Agree p (t ∷ v ∷ r) a b k h = elim (Bool-cases (is_in (upper t) keep_types)) [
    | inl e ↦ rw e (emit-Agree (upper t) v p a b h, refl)
    | inr e ↦ rw e (h, refl)
  ]

  take_members-Agree :
      (p : Text) (ms : List Text) (a b : Import) (k l : Bool)
      → Agree a b
      → k ≡ l
      → AgreeWith (take_members sel p ms (a, k)) (take_members sel p ms (b, l))
  unfolding take_members
  take_members-Agree p [] a b k l h e = (h, e)
  take_members-Agree p (m ∷ ms) a b k l h e = rw (← e) (
      let next = take_member-Agree p (csv_split m) a b k h in
      take_members-Agree p ms _ _ _ _ next.0 next.1)

  count_group-Agree : (x y : Import × Bool) → AgreeWith x y → Agree (count_group x) (count_group y)
  count_group-Agree (a, true) (b, true) (h, e) = record {
    rules = h.rules;
    cats = h.cats;
    final = h.final;
    flattened = rw h.flattened;
  }
  count_group-Agree (a, false) (b, false) (h, e) = drop_line-Agree a b h
  count_group-Agree (a, true) (b, false) (h, e) = cc
  count_group-Agree (a, false) (b, true) (h, e) = cc

  or_group-Agree :
      (parsed : Option (List Text × Option Text)) (a b : Import)
      → Agree a b
      → BothAgree (or_group sel parsed a) (or_group sel parsed b)
  unfolding or_group
  or_group-Agree none a b h = tt
  or_group-Agree (some (ms, none)) a b h = h
  or_group-Agree (some (ms, some [])) a b h = h
  or_group-Agree (some (ms, some (c ∷ p))) a b h =
      count_group-Agree _ _ (take_members-Agree (c ∷ p) ms a b false false h refl)

  emit_with-Agree :
      (t v : Text) (ps : List Text) (a b : Import)
      → Agree a b
      → Agree (emit_with sel t v ps a) (emit_with sel t v ps b)
  unfolding emit_with
  emit_with-Agree t v [] a b h = drop_line-Agree a b h
  emit_with-Agree t v (p ∷ ps) a b h = emit-Agree t v p a b h

  simple_line-Agree :
      (t : Text) (parts : List Text) (a b : Import)
      → Agree a b
      → Agree (simple_line sel t parts a) (simple_line sel t parts b)
  unfolding simple_line
  simple_line-Agree t (x ∷ v ∷ p ∷ ps) a b h = elim (Bool-cases (is_in t drop_types)) [
    | inl e ↦ rw e (drop_line-Agree a b h)
    | inr e ↦ rw e (elim (Bool-cases (is_in t keep_types)) [
      | inl f ↦ rw f (emit_with-Agree t v (policies (p ∷ ps)) a b h)
      | inr f ↦ rw f (drop_line-Agree a b h)
    ])
  ]
  simple_line-Agree t [] a b h = drop_line-Agree a b h
  simple_line-Agree t _ a b h = drop_line-Agree a b h

  -- `typ == "AND"`
  abbrev is_and : Text → Bool
  is_and line = eqb (line_type line) (codes "AND")

  rule_line-Agree :
      (line : Text) (a b : Import)
      → Agree a b
      → BothAgree (rule_line sel line a) (rule_line sel line b)
  unfolding rule_line
  rule_line-Agree line a b h = elim (Bool-cases (is_and line)) [
    | inl e ↦
        rw e (record { rules = h.rules; cats = h.cats; final = h.final; flattened = h.flattened })
    | inr e ↦ rw e (elim (Bool-cases (eqb (line_type line) (codes "OR"))) [
      | inl f ↦ rw f (or_group-Agree (parse_logical line) a b h)
      | inr f ↦ rw f (elim (Bool-cases (eqb (line_type line) (codes "FINAL"))) [
        | inl g ↦
            rw g (record { rules = h.rules; cats = h.cats; final = refl; flattened = h.flattened })
        | inr g ↦ rw g (simple_line-Agree (line_type line) (csv_split line) a b h)
      ])
    ])
  ]

  import_line-Agree :
      (raw : Text) (a b : Import)
      → Agree a b
      → BothAgree (import_line sel raw a) (import_line sel raw b)
  unfolding import_line
  import_line-Agree raw a b h = elim (Bool-cases (is_comment (strip raw))) [
    | inl e ↦ rw e h
    | inr e ↦ rw e (rule_line-Agree (strip raw) a b h)
  ]

  -- The lines of the file that are no AND line.
  unfoldable pub without_and : List Text → List Text
  without_and [] = []
  without_and (raw ∷ rest) =
      if not (is_comment (strip raw)) && is_and (strip raw)
      then without_and rest
      else raw ∷ without_and rest

  continue-BothAgree :
      (x y : Option Import) (f g : Import → Option Import)
      → BothAgree x y
      → ((a b : Import) → Agree a b → BothAgree (f a) (g b))
      → BothAgree (elim x [ none ↦ none | some s ↦ f s ]) (elim y [ none ↦ none | some s ↦ g s ])
  continue-BothAgree none none f g h k = tt
  continue-BothAgree none (some b) f g h k = absurd h
  continue-BothAgree (some a) none f g h k = absurd h
  continue-BothAgree (some a) (some b) f g h k = k a b h

  import_and :
      (raw : Text) (a : Import)
      → (not (is_comment (strip raw)) && is_and (strip raw)) ≡ true
      → (b : Import) × (import_line sel raw a ≡ some b) × Agree b a
  unfolding import_line rule_line
  import_and raw a h = (
    record a { and_dropped = a.and_dropped + 1; dropped = a.dropped + 1 },
    ground arith,
    record { rules = refl; cats = refl; final = refl; flattened = refl },
  )

  import_lines-Agree :
      (lines : List Text) (a b : Import)
      → Agree a b
      → BothAgree (import_lines sel lines a) (import_lines sel (without_and lines) b)
  unfolding import_lines without_and
  import_lines-Agree [] a b h = h
  import_lines-Agree (raw ∷ rest) a b h =
      elim (Bool-cases (not (is_comment (strip raw)) && is_and (strip raw))) [
        | inl e ↦
            let (a', step, same) = import_and raw a e in
            rw (e, import_lines, step) (import_lines-Agree rest a' b (Agree-trans same h))
        | inr e ↦ rw e (
            continue-BothAgree _ _ _ _ (import_line-Agree raw a b h)
              (λ x y k. import_lines-Agree rest x y k))
      ]

  add_final-Agree :
      (f : Option Text) (a b : Import) → Agree a b → Agree (add_final f a) (add_final f b)
  unfolding add_final
  add_final-Agree none a b h = h
  add_final-Agree (some []) a b h = h
  add_final-Agree (some (c ∷ f)) a b h = record {
    rules = rw h.rules;
    cats = rw h.cats;
    final = h.final;
    flattened = h.flattened;
  }

  finish-Agree : (a b : Import) → Agree a b → Agree (finish a) (finish b)
  finish-Agree a b h =
      subst (λ f. Agree (add_final f a) (finish b)) (sym h.final) (add_final-Agree b.final a b h)

  finished-Agree : (x y : Option Import) → BothAgree x y → BothAgree (finished x) (finished y)
  unfolding finished
  finished-Agree none none h = h
  finished-Agree none (some b) h = h
  finished-Agree (some a) none h = h
  finished-Agree (some a) (some b) h = finish-Agree a b h

  -- Leaving every AND line out of the list changes neither whether the conversion ends in an
  -- error nor, where it does not, the rules, the categories, the final policy and the count of
  -- flattened groups: no member of an AND becomes a rule of its own.
  pub convert-without_and :
      (file : Text)
      → BothAgree (convert sel file) (convert_lines sel (without_and (file_lines file)))
  unfolding convert convert_lines
  convert-without_and file =
      finished-Agree _ _ (import_lines-Agree (file_lines file) start start (Agree-refl start))
