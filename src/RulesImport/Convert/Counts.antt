-- ===== src/RulesImport/Convert/Counts.antt =====
-- The counts that the conversion reports.
use native.Mathlib.Nat.{add_comm, add-zero}
use gpn.Prelude.{
  ℕ, ◌+◌, ◌≤◌, ◌<◌, Bool, true, false, List, [], ◌∷◌, Option, none, some, ◌≡◌, refl, arith, inl,
  inr, Bool-cases, Option-cases, length, length-append, if◌then◌else◌,
}
use gpn.Text.{Text, codes, Unicode, upper}
use gpn.Text.Equality.{eqb, is_in}
use gpn.Text.Split.{file_lines}
use gpn.Text.Strip.{strip}
use gpn.RulesImport.Csv.{csv_split}
use gpn.RulesImport.Category.{Selection}
use gpn.RulesImport.Matchers.{keep_types, drop_types}
use gpn.RulesImport.Logical.{parse_logical}
use gpn.RulesImport.Convert.{
  Import, start, drop_line, emit, take_member, take_members, count_group, or_group, emit_with,
  policies, simple_line, line_type, rule_line, is_comment, import_line, import_lines, add_final,
  finished, convert_lines, convert,
}

-- After `n` lines.
pub record IsCounted (n : ℕ) (s : Import) : Type 0 where
  pub within : s.dropped + s.flattened ≤ n
  pub groups : s.flattened ≤ length s.rules
  pub ands : s.and_dropped ≤ s.dropped

weight : Text → ℕ
weight raw = if is_comment (strip raw) then 0 else 1

-- the lines that are no comment
unfoldable pub considered : List Text → ℕ
unfolding weight
considered [] = 0
considered (raw ∷ rest) = weight raw + considered rest

module _ ⦃u : Unicode⦄ (sel : Selection) where
  -- what the statements that emit leave alone, and that they only add rules
  record Grows (a b : Import) : Type 0 where
    dropped : b.dropped ≡ a.dropped
    flattened : b.flattened ≡ a.flattened
    ands : b.and_dropped ≡ a.and_dropped
    rules : length a.rules ≤ length b.rules

  emit-Grows : (t v p : Text) (s : Import) → Grows s (emit sel t v p s)
  unfolding emit
  emit-Grows t v p s = record {
    dropped = refl;
    flattened = refl;
    ands = refl;
    rules = omega (arith, length-append {0} s.rules);
  }

  length-emit : (t v p : Text) (s : Import) → length (emit sel t v p s).rules ≡ length s.rules + 1
  unfolding emit
  length-emit t v p s = length-append s.rules _

  -- `a` is the state at the head of the group; a rule has come since, if `took` is set.
  record Taken (a : Import) (st : Import × Bool) : Type 0 where
    grows : Grows a st.0
    took : st.1 ≡ true → length a.rules < length st.0.rules

  take_member-Taken :
      (a : Import) (p : Text) (ps : List Text) (s : Import) (k : Bool)
      → Taken a (s, k)
      → Taken a (take_member sel p ps (s, k))
  unfolding take_member
  take_member-Taken a p [] s k h = h
  take_member-Taken a p (t ∷ []) s k h = h
  take_member-Taken a p (t ∷ v ∷ r) s k h = elim (Bool-cases (is_in (upper t) keep_types)) [
    | inl e ↦
        let g = emit-Grows (upper t) v p s in
        let longer = length-emit (upper t) v p s in
        rw e (record {
          grows = record {
            dropped = omega arith;
            flattened = omega arith;
            ands = omega arith;
            rules = omega arith;
          };
          took = λ _. omega arith;
        })
    | inr e ↦ rw e h
  ]

  take_members-Taken :
      (a : Import) (p : Text) (ms : List Text) (s : Import) (k : Bool)
      → Taken a (s, k)
      → Taken a (take_members sel p ms (s, k))
  unfolding take_members
  take_members-Taken a p [] s k h = h
  take_members-Taken a p (m ∷ ms) s k h =
      take_members-Taken a p ms _ _ (take_member-Taken a p (csv_split m) s k h)

  count_group-IsCounted :
      (n : ℕ) (a : Import) (st : Import × Bool)
      → IsCounted n a
      → Taken a st
      → IsCounted (n + 1) (count_group st)
  count_group-IsCounted n a (s, true) h t =
      let more = t.took refl in
      record { within = omega arith; groups = omega arith; ands = omega arith }
  count_group-IsCounted n a (s, false) h t = record {
    within = omega arith;
    groups = omega arith;
    ands = omega arith;
  }

  abbrev IsCounted? : ℕ → Option Import → Type 0
  IsCounted? n none = Unit
  IsCounted? n (some s) = IsCounted n s

  IsCounted-later : (n : ℕ) (s : Import) → IsCounted n s → IsCounted (n + 1) s
  IsCounted-later n s h = record { within = omega arith; groups = h.groups; ands = h.ands }

  drop_line-IsCounted : (n : ℕ) (s : Import) → IsCounted n s → IsCounted (n + 1) (drop_line s)
  drop_line-IsCounted n s h = record { within = omega arith; groups = h.groups; ands = omega arith }

  or_group-IsCounted :
      (n : ℕ) (parsed : Option (List Text × Option Text)) (s : Import)
      → IsCounted n s
      → IsCounted? (n + 1) (or_group sel parsed s)
  unfolding or_group
  or_group-IsCounted n none s h = tt
  or_group-IsCounted n (some (ms, none)) s h = IsCounted-later n s h
  or_group-IsCounted n (some (ms, some [])) s h = IsCounted-later n s h
  or_group-IsCounted n (some (ms, some (c ∷ p))) s h = count_group-IsCounted n s _ h (
      take_members-Taken s (c ∷ p) ms s false (record {
        grows = record { dropped = refl; flattened = refl; ands = refl; rules = omega arith };
        took = λ e. cc;
      }))

  emit_with-IsCounted :
      (n : ℕ) (t v : Text) (ps : List Text) (s : Import)
      → IsCounted n s
      → IsCounted (n + 1) (emit_with sel t v ps s)
  unfolding emit_with
  emit_with-IsCounted n t v [] s h = drop_line-IsCounted n s h
  emit_with-IsCounted n t v (p ∷ ps) s h =
      let g = emit-Grows t v p s in
      record { within = omega arith; groups = omega arith; ands = omega arith }

  simple_line-IsCounted :
      (n : ℕ) (t : Text) (parts : List Text) (s : Import)
      → IsCounted n s
      → IsCounted (n + 1) (simple_line sel t parts s)
  unfolding simple_line
  simple_line-IsCounted n t (x ∷ v ∷ p ∷ ps) s h = elim (Bool-cases (is_in t drop_types)) [
    | inl e ↦ rw e (drop_line-IsCounted n s h)
    | inr e ↦ rw e (elim (Bool-cases (is_in t keep_types)) [
      | inl f ↦ rw f (emit_with-IsCounted n t v (policies (p ∷ ps)) s h)
      | inr f ↦ rw f (drop_line-IsCounted n s h)
    ])
  ]
  simple_line-IsCounted n t [] s h = drop_line-IsCounted n s h
  simple_line-IsCounted n t _ s h = drop_line-IsCounted n s h

  rule_line-IsCounted :
      (n : ℕ) (line : Text) (s : Import) → IsCounted n s → IsCounted? (n + 1) (rule_line sel line s)
  unfolding rule_line
  rule_line-IsCounted n line s h = elim (Bool-cases (eqb (line_type line) (codes "AND"))) [
    | inl e ↦ rw e (record { within = omega arith; groups = h.groups; ands = omega arith })
    | inr e ↦ rw e (elim (Bool-cases (eqb (line_type line) (codes "OR"))) [
      | inl f ↦ rw f (or_group-IsCounted n (parse_logical line) s h)
      | inr f ↦ rw f (elim (Bool-cases (eqb (line_type line) (codes "FINAL"))) [
        | inl g ↦ rw g (record { within = omega arith; groups = h.groups; ands = h.ands })
        | inr g ↦ rw g (simple_line-IsCounted n (line_type line) (csv_split line) s h)
      ])
    ])
  ]

  import_line-IsCounted :
      (n : ℕ) (raw : Text) (s : Import)
      → IsCounted n s
      → IsCounted? (weight raw + n) (import_line sel raw s)
  unfolding import_line weight
  import_line-IsCounted n raw s h = elim (Bool-cases (is_comment (strip raw))) [
    | inl e ↦ rw e (record { within = omega arith; groups = h.groups; ands = h.ands })
    | inr e ↦ rw e (rw (add_comm 1 n) (rule_line-IsCounted n (strip raw) s h))
  ]

  import_lines-IsCounted :
      (lines : List Text) (n : ℕ) (s : Import)
      → IsCounted n s
      → IsCounted? (considered lines + n) (import_lines sel lines s)
  unfolding import_lines considered
  import_lines-IsCounted [] n s h = record {
    within = omega arith;
    groups = h.groups;
    ands = h.ands;
  }
  import_lines-IsCounted (raw ∷ rest) n s h = elim (Option-cases (import_line sel raw s)) [
    | inl e ↦ rw (e, import_lines) tt
    | inr (s', e) ↦
        rw (e, import_lines)
          (let regroup : considered rest + (weight raw + n) ≡ weight raw + considered rest + n =
              omega arith in
            rw regroup at (
              import_lines-IsCounted rest (weight raw + n) s'
                (rw e at (import_line-IsCounted n raw s h))))
  ]

  add_final-IsCounted :
      (n : ℕ) (f : Option Text) (s : Import) → IsCounted n s → IsCounted n (add_final f s)
  unfolding add_final
  add_final-IsCounted n none s h = h
  add_final-IsCounted n (some []) s h = h
  add_final-IsCounted n (some (c ∷ f)) s h = record {
    within = h.within;
    groups = omega (arith, length-append {0} s.rules);
    ands = h.ands;
  }

  finished-IsCounted : (n : ℕ) (x : Option Import) → IsCounted? n x → IsCounted? n (finished x)
  unfolding finished
  finished-IsCounted n none h = tt
  finished-IsCounted n (some s) h = add_final-IsCounted n s.final s h

  -- After a conversion that ends without an error the dropped lines and the flattened groups
  -- together are at most the lines that are no comment, no more groups are flattened than there
  -- are rules, and the AND lines are among the dropped ones.
  pub convert-IsCounted :
      (file : Text) (s : Import)
      → convert sel file ≡ some s
      → IsCounted (considered (file_lines file)) s
  unfolding convert convert_lines
  convert-IsCounted file s e = rw add-zero at (
      rw e at (
        finished-IsCounted _ (import_lines sel (file_lines file) start) (
          import_lines-IsCounted (file_lines file) 0 start
            (record { within = omega arith; groups = omega arith; ands = omega arith }))))
