-- ===== src/MihomoRouter/Rules/Counts.antt =====
-- How many rules the loop gives, and the line that it ends at.
use gpn.Prelude.{
  ℕ, suc, ◌+◌, ◌≤◌, ◌<◌, List, [], ◌∷◌, ◌≡◌, inl, inr, refl, is_empty, length, length-append,
  Bool-cases, arith, if◌then◌else◌,
}
use gpn.Prelude.Dict.{Dict}
use gpn.MihomoRouter.Rules.Targets.{router_type-cases, Outcome-cases}
use gpn.Text.{Unicode, Text}
use gpn.MihomoRouter.Provider.{
  passed, Gateway, Checked, Stored, Disk, failed, refused, stored, cache_remote_provider,
  validate_provider_url,
}
use gpn.MihomoRouter.Rules.{
  Outcome, provide, rule_set, typed_line, fields_line, raw_line, router_lines, route, rule_text,
  continues, State, remote_set, Router, router_line, dies, provide_stored, after_check, ends_with,
  rule_type, resolve_target, eqb, file_lines, codes, is_in, first_field, before, set_types, fields,
  lower, starts_with, prefix_match, scheme_re,
}

module _ ⦃u : Unicode⦄ where
  -- the lines that hold a rule
  pub rule_count : List Text → ℕ
  rule_count [] = 0
  rule_count (raw ∷ rest) = (if is_empty (rule_text raw) then 0 else 1) + rule_count rest

module _ ⦃u : Unicode⦄ (g : Gateway) (policy_map : Dict Text) where
  -- The outcome of a step at the line `ln` that adds `n` rules to `m` unless it ends there.
  abbrev IsStep : ℕ → ℕ → ℕ → Outcome g → Type 0
  IsStep ln n m (continues s) = length s.rules ≡ m + n
  IsStep ln n m (dies k why s) = k ≡ ln

  provide_stored-IsStep :
      (ln : ℕ) (tag target : Text) (x : Stored × Disk g) (s : Router g)
      → IsStep ln 1 (length s.rules) (provide_stored g ln tag target x s)
  unfolding provide
  provide_stored-IsStep ln tag target (failed why, d) s = refl
  provide_stored-IsStep ln tag target (stored q, d) s = length-append s.rules _

  after_check-IsStep :
      (ln : ℕ) (value tag target : Text) (x : Checked × State g.network) (s : Router g)
      → IsStep ln 1 (length s.rules) (after_check g policy_map ln value tag target x s)
  after_check-IsStep ln value tag target (refused why, st) s = refl
  after_check-IsStep ln value tag target (passed, st) s =
      provide_stored-IsStep ln tag target
        (cache_remote_provider g value tag (record s.disk { net = st })) s

  rule_set-IsStep :
      (ln : ℕ) (value target : Text) (s : Router g)
      → IsStep ln 1 (length s.rules) (rule_set g policy_map ln value target s)
  unfolding rule_set remote_set provide
  rule_set-IsStep ln value target s =
      elim (Bool-cases (ends_with (codes ".srs") (before b'?' (lower value)))) [
        | inl e ↦ rw e refl
        | inr e ↦ rw e (elim (Bool-cases (starts_with (codes "https://") (lower value))) [
          | inl f ↦ rw f (
              after_check-IsStep ln value (g.tag_of value) target
                (validate_provider_url g value s.disk.net) s)
          | inr f ↦ rw f (elim (Bool-cases (prefix_match scheme_re value)) [
            | inl i ↦ rw i refl
            | inr i ↦ rw i (length-append s.rules _)
          ])
        ])
      ]

  typed_line-IsStep :
      (ln : ℕ) (typ value target : Text) (s : Router g)
      → IsStep ln 1 (length s.rules) (typed_line g policy_map ln typ value target s)
  unfolding typed_line
  typed_line-IsStep ln typ value target s = elim (router_type-cases (rule_type typ)) [
    | inr (t, e, i) ↦ rw (e, typed_line) (length-append s.rules _)
    | inl e ↦
        rw (e, typed_line)
          (elim (Bool-cases (is_in (rule_type typ) set_types)) [
            | inl f ↦ rw f (rule_set-IsStep ln value target s)
            | inr f ↦ rw f refl
          ])
  ]

  fields_line-IsStep :
      (ln : ℕ) (parts : List Text) (s : Router g)
      → IsStep ln 1 (length s.rules) (fields_line g policy_map ln parts s)
  unfolding fields_line
  fields_line-IsStep ln (typ ∷ value ∷ p ∷ ps) s =
      typed_line-IsStep ln typ value (resolve_target g.listing policy_map p s.used).0
        (record s { used = (resolve_target g.listing policy_map p s.used).1 })
  fields_line-IsStep ln [] s = refl
  fields_line-IsStep ln _ s = refl

  raw_line-IsStep :
      (ln : ℕ) (raw : Text) (s : Router g)
      → IsStep ln
          (if is_empty (rule_text raw) then 0 else 1)
          (length s.rules)
          (raw_line g policy_map ln raw s)
  unfolding raw_line router_line
  raw_line-IsStep ln raw s = elim (Bool-cases (is_empty (rule_text raw))) [
    | inl e ↦ rw e (omega arith)
    | inr e ↦
        rw e
          (elim (Bool-cases
            (eqb (rule_type (first_field g policy_map (fields (rule_text raw)))) (codes "FINAL"))) [
              | inl f ↦ rw f (length-append s.rules _)
              | inr f ↦ rw f (fields_line-IsStep ln (fields (rule_text raw)) s)
            ])
  ]

  -- The outcome of the loop over `count` lines from `ln` on, `n` of which hold a rule.
  abbrev pub IsCounted : ℕ → ℕ → ℕ → ℕ → Outcome g → Type 0
  IsCounted ln count n m (continues s) = length s.rules ≡ m + n
  IsCounted ln count n m (dies k why s) = (ln ≤ k) × (k < ln + count)

  widened :
      (ln count c n m l : ℕ) (o : Outcome g)
      → l ≡ m + c
      → IsCounted (suc ln) count n l o
      → IsCounted ln (suc count) (c + n) m o
  widened ln count c n m l (continues s) e h = omega arith
  widened ln count c n m l (dies k why s) e h = (omega arith, omega arith)

  router_lines-IsCounted :
      (lines : List Text) (ln : ℕ) (s : Router g)
      → IsCounted ln
          (length lines)
          (rule_count lines)
          (length s.rules)
          (router_lines g policy_map ln lines s)
  unfolding router_lines rule_count
  router_lines-IsCounted [] ln s = omega arith
  router_lines-IsCounted (raw ∷ rest) ln s =
      elim (Outcome-cases g (raw_line g policy_map ln raw s)) [
        | inl (s', e) ↦
            rw (e, router_lines)
              (widened ln (length rest) _ (rule_count rest) (length s.rules) (length s'.rules) _
                (rw e at (raw_line-IsStep ln raw s)) (router_lines-IsCounted rest (suc ln) s'))
        | inr (n, why, s', e) ↦
            let at_line : n ≡ ln = rw e at (raw_line-IsStep ln raw s) in
            rw (e, router_lines) (omega arith, omega arith)
      ]

  -- If the loop ends, the configuration has exactly one rule for each line of the file that is
  -- not empty without its comments. If the program dies, the line number that it reports is the
  -- number of a line of the file.
  pub route-IsCounted :
      (file : Text) (d : Disk g)
      → IsCounted 1
          (length (file_lines file))
          (rule_count (file_lines file))
          0
          (route g policy_map file d)
  unfolding route
  route-IsCounted file d =
      router_lines-IsCounted (file_lines file) 1
        (record { rules = []; providers = []; used = []; disk = d })
