-- ===== src/TelegramBot/Rules/Deletion.antt =====
-- Which rules are left after `op_del_rule`.
use gpn.Prelude.{
  ℕ, zero, suc, ◌≤◌, ◌<◌, true, false, List, [], ◌∷◌, Option, none, some, ◌≡◌, ◌⊎◌, refl, sym, ap,
  ◌∙◌, all, and_parts, inl, inr, Bool-cases, ◌==◌, if◌then◌else◌, pos, arith, length,
}
use gpn.Text.{Text, Unicode}
use gpn.Text.Number.{int_of}
use gpn.Text.Split.{splitlines}
use gpn.TelegramBot.Rules.Blank.{is_blank, handed, op_set_rules-written}
use gpn.TelegramBot.Rules.{
  empty_text, set_rules, is_entry, entries_from, rule_entries, Edit, no_rules, out_of_range,
  written, without_line, entry_at, deletion, delete_at, op_del_rule,
}

-- the rules of a file's lines
unfoldable pub rules_of : List Text → List Text
unfolding is_entry
rules_of [] = []
rules_of (l ∷ ls) = let rest = rules_of ls in if is_entry l then l ∷ rest else rest

-- the list without the item at a place
unfoldable pub remove_at : ℕ → List Text → List Text
remove_at n [] = []
remove_at zero (x ∷ xs) = xs
remove_at (suc n) (x ∷ xs) = x ∷ remove_at n xs

abbrev number_or : ℕ → Option (ℕ × Text) → ℕ
number_or d none = d
number_or d (some (n, l)) = n

-- an entry's number is at least the first one
entry_at-least :
    (k i n : ℕ) (l : Text) (ls : List Text) → entry_at k (entries_from i ls) ≡ some (n, l) → i ≤ n
unfolding entries_from entry_at
entry_at-least k i n l [] e = cc
entry_at-least zero i n l (x ∷ ls) e = elim (Bool-cases (is_entry x)) [
  | inr f ↦ let ih = entry_at-least zero (suc i) n l ls (rw f at e) in omega arith
  | inl f ↦ let same : i ≡ n = ap (number_or 0) (rw f at e) in omega arith
]
entry_at-least (suc k) i n l (x ∷ ls) e = elim (Bool-cases (is_entry x)) [
  | inr f ↦ let ih = entry_at-least (suc k) (suc i) n l ls (rw f at e) in omega arith
  | inl f ↦ let ih = entry_at-least k (suc i) n l ls (rw f at e) in omega arith
]

without_line-after : (i drop : ℕ) (ls : List Text) → drop < i → without_line i drop ls ≡ ls
unfolding without_line
without_line-after i drop [] h = refl
without_line-after i drop (l ∷ ls) h =
    let differ : (i == drop) ≡ false = ground arith in
    rw differ (ap (◌∷◌ l) (without_line-after (suc i) drop ls (omega arith)))

-- the line of an entry's number is that entry
without_line-entry :
    (k i n : ℕ) (l : Text) (ls : List Text)
    → entry_at k (entries_from i ls) ≡ some (n, l)
    → rules_of (without_line i n ls) ≡ remove_at k (rules_of ls)
unfolding entries_from entry_at rules_of without_line remove_at
without_line-entry k i n l [] e = cc
without_line-entry zero i n l (x ∷ ls) e = elim (Bool-cases (is_entry x)) [
  | inr f ↦
      let least = entry_at-least zero (suc i) n l ls (rw f at e) in
      let differ : (i == n) ≡ false = ground arith in
      rw (differ, rules_of, remove_at) (rw f (without_line-entry zero (suc i) n l ls (rw f at e)))
  | inl f ↦
      let same : i ≡ n = ap (number_or 0) (rw f at e) in
      let equal : (i == n) ≡ true = ground arith in
      rw (equal, rules_of) (rw f (ap rules_of (without_line-after (suc i) n ls (omega arith))))
]
without_line-entry (suc k) i n l (x ∷ ls) e = elim (Bool-cases (is_entry x)) [
  | inr f ↦
      let least = entry_at-least (suc k) (suc i) n l ls (rw f at e) in
      let differ : (i == n) ≡ false = ground arith in
      rw (differ, rules_of) (rw f (without_line-entry (suc k) (suc i) n l ls (rw f at e)))
  | inl f ↦
      let least = entry_at-least k (suc i) n l ls (rw f at e) in
      let differ : (i == n) ≡ false = ground arith in
      rw (differ, rules_of) (rw f (ap (◌∷◌ x) (without_line-entry k (suc i) n l ls (rw f at e))))
]

entry_at-none :
    (k i : ℕ) (ls : List Text) → entry_at k (entries_from i ls) ≡ none → length (rules_of ls) ≤ k
unfolding entries_from entry_at rules_of
entry_at-none k i [] e = omega arith
entry_at-none zero i (x ∷ ls) e = elim (Bool-cases (is_entry x)) [
  | inr f ↦ rw f (entry_at-none zero (suc i) ls (rw f at e))
  | inl f ↦ cc (rw f at e)
]
entry_at-none (suc k) i (x ∷ ls) e = elim (Bool-cases (is_entry x)) [
  | inr f ↦ rw f (entry_at-none (suc k) (suc i) ls (rw f at e))
  | inl f ↦ let ih = entry_at-none k (suc i) ls (rw f at e) in rw f (omega arith)
]

entry_at-some :
    (k i n : ℕ) (l : Text) (ls : List Text)
    → entry_at k (entries_from i ls) ≡ some (n, l)
    → k < length (rules_of ls)
unfolding entries_from entry_at rules_of
entry_at-some k i n l [] e = cc
entry_at-some zero i n l (x ∷ ls) e = elim (Bool-cases (is_entry x)) [
  | inr f ↦ rw f (entry_at-some zero (suc i) n l ls (rw f at e))
  | inl f ↦ rw f (omega arith)
]
entry_at-some (suc k) i n l (x ∷ ls) e = elim (Bool-cases (is_entry x)) [
  | inr f ↦ rw f (entry_at-some (suc k) (suc i) n l ls (rw f at e))
  | inl f ↦ let ih = entry_at-some k (suc i) n l ls (rw f at e) in rw f (omega arith)
]

-- blank lines hold no rules
rules_of-blank : (ls : List Text) → all is_blank ls ≡ true → rules_of ls ≡ []
unfolding rules_of is_entry
rules_of-blank [] h = refl
rules_of-blank (l ∷ ls) h =
    let (a, b) = and_parts (is_blank l) (all is_blank ls) h in rw a (rules_of-blank ls b)

-- What `op_del_rule` does for the number of a place: it refuses, as there are fewer rules; or it
-- refuses, as the lines without one are all blank, so that no rule is left; or it hands over those
-- lines.
pub data IsDeletion (k : ℕ) (lines : List Text) (x : Edit) : Type 0 where
  refused : (x ≡ no_rules) ⊎ (x ≡ out_of_range) → length (rules_of lines) ≤ k → IsDeletion k lines x
  emptied :
      (n : ℕ)
      → k < length (rules_of lines)
      → x ≡ empty_text
      → all is_blank (without_line 0 n lines) ≡ true
      → remove_at k (rules_of lines) ≡ []
      → IsDeletion k lines x
  removed :
      (n : ℕ)
      → k < length (rules_of lines)
      → x ≡ set_rules (written (without_line 0 n lines))
      → all is_blank (without_line 0 n lines) ≡ false
      → rules_of (without_line 0 n lines) ≡ remove_at k (rules_of lines)
      → IsDeletion k lines x

module _ ⦃u : Unicode⦄ where
  handed-IsDeletion :
      (k n : ℕ) (lines : List Text)
      → k < length (rules_of lines)
      → rules_of (without_line 0 n lines) ≡ remove_at k (rules_of lines)
      → IsDeletion k lines (handed (without_line 0 n lines))
  handed-IsDeletion k n lines h r = elim (Bool-cases (all is_blank (without_line 0 n lines))) [
    | inl e ↦ rw e (emptied n h refl e (sym r ∙ rules_of-blank (without_line 0 n lines) e))
    | inr e ↦ rw e (removed n h refl e r)
  ]

  deletion-IsDeletion :
      (k : ℕ) (lines : List Text) (o : Option (ℕ × Text))
      → entry_at k (entries_from 0 lines) ≡ o
      → IsDeletion k lines (deletion o lines)
  deletion-IsDeletion k lines none e = refused (inr refl) (entry_at-none k 0 lines e)
  deletion-IsDeletion k lines (some (n, l)) e = rw (op_set_rules-written (without_line 0 n lines)) (
      handed-IsDeletion k n lines (entry_at-some k 0 n l lines e)
        (without_line-entry k 0 n l lines e))

  delete_at-IsDeletion :
      (k : ℕ) (lines : List Text) (es : List (ℕ × Text))
      → entries_from 0 lines ≡ es
      → IsDeletion k lines (delete_at (some (pos (suc k))) (lines, es))
  unfolding entry_at
  delete_at-IsDeletion k lines [] e =
      refused (inl refl) (entry_at-none k 0 lines (ap (entry_at k) e))
  delete_at-IsDeletion k lines (x ∷ es) e =
      deletion-IsDeletion k lines (entry_at k (x ∷ es)) (ap (entry_at k) e)

  -- Deleting the rule with a number from 1 on is refused for its number exactly where the file has
  -- fewer rules. Else, where the lines without it are all blank, it is refused as empty, so the last
  -- rule of a file without comments cannot be deleted. Else the lines without it are handed to
  -- --set-rules, and hold the rules of the file without the one at that place, the others in their
  -- order, whatever comments and blank lines stand between.
  pub op_del_rule-IsDeletion :
      (txt num : Text) (k : ℕ)
      → int_of num ≡ some (pos (suc k))
      → IsDeletion k (splitlines txt) (op_del_rule txt num)
  unfolding op_del_rule rule_entries
  op_del_rule-IsDeletion txt num k e =
      rw e (delete_at-IsDeletion k (splitlines txt) (entries_from 0 (splitlines txt)) refl)
