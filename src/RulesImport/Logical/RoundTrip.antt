-- ===== src/RulesImport/Logical/RoundTrip.antt =====
-- A written group of members is read back.
use native.Mathlib.Numerals.{add-one}
use gpn.Prelude.{
  ℕ, suc, ◌-◌, inl, inr, false, ◌||◌, List, [], ◌∷◌, ◌++◌, Option, none, some, map, ◌≡◌, ◌∙◌, refl,
  sym, ap, ◌==◌, arith, All, append_assoc, append-nil, Bool-cases, inl, inr,
}
use gpn.Text.{Text, codes}
use gpn.Text.Search.{has}
use gpn.Text.Split.{join}
use gpn.Text.Strip.{lstrip_by, is_char}
use gpn.RulesImport.Csv.RoundTrip.{IsField, csv_split-join}
use gpn.RulesImport.Logical.{
  level, top_parens_from, split_top_parens, after_paren, close_group, push_group, tail_policy,
  logical_parts, parse_logical,
}

-- Text in which every parenthesis has its partner.
pub data IsBalanced : Text → Type 0 where
  nil : IsBalanced []
  other : {s : Text} (c : ℕ) → (c == b'(' || c == b')') ≡ false → IsBalanced s → IsBalanced (c ∷ s)
  group : {a b s : Text} → IsBalanced a → IsBalanced b → s ≡ b'(' ∷ (a ++ (b')' ∷ b)) → IsBalanced s

-- a member in its parentheses
abbrev pub wrap : Text → Text
wrap m = b'(' ∷ (m ++ b')' ∷ [])

inside_other :
    (d c : ℕ) (t s : Text)
    → (c == b'(' || c == b')') ≡ false
    → top_parens_from (level (suc d)) (some t) (c ∷ s)
      ≡ top_parens_from (level (suc d)) (some (t ++ c ∷ [])) s
unfolding top_parens_from
inside_other d c t s h = ground arith

inside_open :
    (d : ℕ) (t s : Text)
    → top_parens_from (level (suc d)) (some t) (b'(' ∷ s)
      ≡ top_parens_from (level (suc (suc d))) (some (t ++ b'(' ∷ [])) s
unfolding top_parens_from
inside_open d t s = refl

inside_close :
    (d : ℕ) (t s : Text)
    → top_parens_from (level (suc (suc d))) (some t) (b')' ∷ s)
      ≡ top_parens_from (level (suc d)) (some (t ++ b')' ∷ [])) s
unfolding top_parens_from
inside_close d t s = refl

inside :
    {m : Text} (d : ℕ) (t rest : Text)
    → IsBalanced m
    → top_parens_from (level (suc d)) (some t) (m ++ rest)
      ≡ top_parens_from (level (suc d)) (some (t ++ m)) rest
inside d t rest nil = rw append-nil
inside d t rest (other {s} c h b) =
    inside_other d c t (s ++ rest) h ∙ inside d (t ++ c ∷ []) rest b ∙ rw append_assoc
inside d t rest (group {a} {b} x y e) = rw e (
    ap (top_parens_from (level (suc d)) (some t)) (ap (◌∷◌ b'(') (append_assoc a (b')' ∷ b) rest))
    ∙ inside_open d t (a ++ (b')' ∷ (b ++ rest)))
    ∙ inside (suc d) (t ++ b'(' ∷ []) (b')' ∷ (b ++ rest)) x
    ∙ inside_close d ((t ++ b'(' ∷ []) ++ a) (b ++ rest)
    ∙ inside d (((t ++ b'(' ∷ []) ++ a) ++ b')' ∷ []) rest y
    ∙ simp append_assoc)

member_step :
    (m rest : Text)
    → IsBalanced m
    → top_parens_from (level 0) none (wrap m ++ rest) ≡ m ∷ top_parens_from (level 0) none rest
unfolding top_parens_from
member_step m rest b =
    ap (top_parens_from (level 1) (some [])) (append_assoc m (b')' ∷ []) rest)
    ∙ inside 0 [] (b')' ∷ rest) b

comma_step :
    (rest : Text)
    → top_parens_from (level 0) none (b',' ∷ rest) ≡ top_parens_from (level 0) none rest
unfolding top_parens_from
comma_step rest = refl

members-joined :
    (m : Text) (ms : List Text)
    → All IsBalanced (m ∷ ms)
    → split_top_parens (join (codes ",") (map wrap (m ∷ ms))) ≡ m ∷ ms
unfolding split_top_parens join
members-joined m [] h =
    ap (top_parens_from (level 0) none) (sym (append-nil (wrap m)))
    ∙ member_step m [] h.0
    ∙ (unfold top_parens_from in refl)
members-joined m (k ∷ ms) h =
    member_step m (b',' ∷ join (codes ",") (map wrap (k ∷ ms))) h.0
    ∙ ap (◌∷◌ m) (comma_step (join (codes ",") (map wrap (k ∷ ms))) ∙ members-joined k ms h.1)

prepend : Text → Option (Text × Text) → Option (Text × Text)
prepend [] o = o
prepend (c ∷ m) o = push_group c (prepend m o)

prepend-append :
    (a b : Text) (o : Option (Text × Text)) → prepend (a ++ b) o ≡ prepend a (prepend b o)
unfolding prepend
prepend-append [] b o = refl
prepend-append (c ∷ a) b o = ap (push_group c) (prepend-append a b o)

prepend-some : (m t : Text) → prepend m (some ([], t)) ≡ some (m, t)
unfolding prepend
prepend-some [] t = refl
prepend-some (c ∷ m) t = rw (prepend-some m t)

close_other :
    (d c : ℕ) (s : Text)
    → (c == b'(' || c == b')') ≡ false
    → close_group d (c ∷ s) ≡ push_group c (close_group d s)
unfolding close_group
close_other d c s h = ground arith

close_open : (d : ℕ) (s : Text) → close_group d (b'(' ∷ s) ≡ push_group b'(' (close_group (suc d) s)
unfolding close_group
close_open d s = rw add-one

close_close :
    (d : ℕ) (s : Text)
    → close_group (suc (suc d)) (b')' ∷ s) ≡ push_group b')' (close_group (suc d) s)
unfolding close_group
close_close d s = let down : suc (suc d) - 1 ≡ suc d = omega arith in rw down (ground arith)

close-IsBalanced :
    {m : Text} (d : ℕ) (rest : Text)
    → IsBalanced m
    → close_group (suc d) (m ++ rest) ≡ prepend m (close_group (suc d) rest)
unfolding prepend
close-IsBalanced d rest nil = refl
close-IsBalanced d rest (other {s} c h b) =
    close_other (suc d) c (s ++ rest) h ∙ ap (push_group c) (close-IsBalanced d rest b)
close-IsBalanced d rest (group {a} {b} x y e) = rw e (
    ap (close_group (suc d)) (ap (◌∷◌ b'(') (append_assoc a (b')' ∷ b) rest))
    ∙ close_open (suc d) (a ++ (b')' ∷ (b ++ rest)))
    ∙ ap (push_group b'(') (
        close-IsBalanced (suc d) (b')' ∷ (b ++ rest)) x
        ∙ ap (prepend a)
            (close_close d (b ++ rest) ∙ ap (push_group b')') (close-IsBalanced d rest y))
        ∙ sym (prepend-append a (b')' ∷ b) (close_group (suc d) rest))))

-- the members of a group, as a list has them
abbrev pub group_text : List Text → Text
group_text ms = join (codes ",") (map wrap ms)

group_text-IsBalanced :
    (m : Text) (ms : List Text) → All IsBalanced (m ∷ ms) → IsBalanced (group_text (m ∷ ms))
unfolding join
group_text-IsBalanced m [] h = group h.0 nil refl
group_text-IsBalanced m (k ∷ ms) h =
    group h.0 (other b',' refl (group_text-IsBalanced k ms h.1))
      (ap (◌∷◌ b'(') (append_assoc m (b')' ∷ []) (b',' ∷ group_text (k ∷ ms))))

after_paren-head : (head s : Text) → has b'(' head ≡ false → after_paren (head ++ b'(' ∷ s) ≡ some s
unfolding after_paren has
after_paren-head [] s h = refl
after_paren-head (c ∷ head) s h = elim (Bool-cases (c == b'(')) [
  | inl e ↦ cc (rw e at h)
  | inr e ↦ rw e (after_paren-head head s (rw e at h))
]

close_end : (t : Text) → close_group 1 (b')' ∷ t) ≡ some ([], t)
unfolding close_group
close_end t = refl

close-group_text :
    (m : Text) (ms : List Text) (t : Text)
    → All IsBalanced (m ∷ ms)
    → close_group 1 (group_text (m ∷ ms) ++ b')' ∷ t) ≡ some (group_text (m ∷ ms), t)
close-group_text m ms t h =
    close-IsBalanced 0 (b')' ∷ t) (group_text-IsBalanced m ms h)
    ∙ ap (prepend (group_text (m ∷ ms))) (close_end t)
    ∙ prepend-some (group_text (m ∷ ms)) t

no_comma : (c : ℕ) → (c == b'"' || c == b',') ≡ false → (c == b',') ≡ false
no_comma c h = ground arith

tail_policy-field :
    (c : ℕ) (p : Text)
    → IsField (c ∷ p)
    → tail_policy (lstrip_by (is_char b',') (b',' ∷ c ∷ p)) ≡ some (c ∷ p)
unfolding tail_policy lstrip_by join
tail_policy-field c p f = rw (no_comma c f.plain.0) (rw (csv_split-join (c ∷ p) [] (f, tt)))

-- `parse_logical` reads back a line "TYPE,((m1),...,(mk)),policy": the members in order, each
-- with balanced parentheses, and the policy. The text before the group has no parenthesis; the
-- policy is not empty, has no quote and no comma, and no white space at its ends.
pub parse_logical-group :
    (head m : Text) (ms : List Text) (c : ℕ) (p : Text)
    → has b'(' head ≡ false
    → All IsBalanced (m ∷ ms)
    → IsField (c ∷ p)
    → parse_logical (head ++ b'(' ∷ (group_text (m ∷ ms) ++ b')' ∷ b',' ∷ c ∷ p))
      ≡ some (m ∷ ms, some (c ∷ p))
unfolding parse_logical logical_parts
parse_logical-group head m ms c p h b f =
    rw (after_paren-head head (group_text (m ∷ ms) ++ b')' ∷ b',' ∷ c ∷ p) h, parse_logical)
      (ap (λ x. some (logical_parts x)) (close-group_text m ms (b',' ∷ c ∷ p) b)
        ∙ (λ i. some (members-joined m ms b i, tail_policy-field c p f i)))
