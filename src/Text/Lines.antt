-- ===== src/Text/Lines.antt =====
-- Lines that are written with "\n" behind each, and read by `strip` and `splitlines`.
use gpn.Prelude.{
  ℕ, Bool, true, false, ◌&&◌, List, [], ◌∷◌, ◌++◌, ◌≡◌, refl, sym, ap, ◌∙◌, arith, ◌==◌,
  if◌then◌else◌, All, Bool-cases, inl, inr, is_empty,
}
use gpn.Text.Chars.{Text, codes, is_space}
use gpn.Text.Split.{push, join, lines_from, splitlines, is_line_end}
use gpn.Text.Split.Pieces.{push-All}
use gpn.Text.Strip.{lstrip_by, rstrip_by, strip_by, strip, keep_unless, Off, rstrip_by-All}

-- A line as `strip` leaves it: not empty, with no white space at its ends, and no line boundary.
abbrev pub IsLine : Text → Type 0
IsLine [] = ⊥
IsLine (c ∷ s) =
    (is_space c ≡ false) × All (Off is_line_end) (c ∷ s) × (rstrip_by is_space (c ∷ s) ≡ c ∷ s)

module _ (p : ℕ → Bool) where
  rstrip_cons :
      (c : ℕ) (s : Text) → rstrip_by p s ≡ s → is_empty s ≡ false → rstrip_by p (c ∷ s) ≡ c ∷ s
  unfolding rstrip_by keep_unless
  rstrip_cons c [] h n = cc
  rstrip_cons c (d ∷ s) h n = rw h (kept (p c))
    where
      kept : (b : Bool) → keep_unless b c (d ∷ s) ≡ c ∷ d ∷ s
      kept true = refl
      kept false = refl

  rstrip_append :
      (s t : Text) → rstrip_by p t ≡ t → is_empty t ≡ false → rstrip_by p (s ++ t) ≡ s ++ t
  rstrip_append [] t h n = h
  rstrip_append (c ∷ s) t h n = rstrip_cons c (s ++ t) (rstrip_append s t h n) (not_empty s t n)
    where
      not_empty : (s t : Text) → is_empty t ≡ false → is_empty (s ++ t) ≡ false
      not_empty [] t n = n
      not_empty (c ∷ s) t n = refl

  rstrip_last : (s : Text) (c : ℕ) → p c ≡ true → rstrip_by p (s ++ c ∷ []) ≡ rstrip_by p s
  unfolding rstrip_by keep_unless
  rstrip_last [] c h = rw h refl
  rstrip_last (d ∷ s) c h = ap (keep_unless (p d) d) (rstrip_last s c h)

  -- one character in front of a text that is stripped
  keep-rstrip :
      (c : ℕ) (t : Text)
      → rstrip_by p t ≡ t
      → rstrip_by p (keep_unless (p c) c t) ≡ keep_unless (p c) c t
  unfolding rstrip_by keep_unless
  keep-rstrip c [] h = elim (Bool-cases (p c)) [ inl e ↦ rw e refl | inr e ↦ rw e (rw e refl) ]
  keep-rstrip c (d ∷ t) h = rw (kept (p c)) (rstrip_cons c (d ∷ t) h refl)
    where
      kept : (b : Bool) → keep_unless b c (d ∷ t) ≡ c ∷ d ∷ t
      kept true = refl
      kept false = refl

  pub rstrip_idem : (s : Text) → rstrip_by p (rstrip_by p s) ≡ rstrip_by p s
  unfolding rstrip_by
  rstrip_idem [] = refl
  rstrip_idem (c ∷ s) = keep-rstrip c (rstrip_by p s) (rstrip_idem s)

abbrev pub LineOrNil : Text → Type 0
LineOrNil [] = Unit
LineOrNil (c ∷ s) = IsLine (c ∷ s)

-- a text that begins with no white space, stripped on the right
rstrip-LineOrNil :
    (c : ℕ) (s : Text)
    → is_space c ≡ false
    → All (Off is_line_end) (c ∷ s)
    → LineOrNil (rstrip_by is_space (c ∷ s))
unfolding rstrip_by keep_unless
rstrip-LineOrNil c s h k = rw h (h, (k.0, rstrip_by-All is_space (Off is_line_end) s k.1), kept)
  where
    kept : rstrip_by is_space (c ∷ rstrip_by is_space s) ≡ c ∷ rstrip_by is_space s
    kept = rw h (ap (◌∷◌ c) (rstrip_idem is_space s))

-- What `strip` leaves of a text with no line boundary is nothing or a line.
pub strip-LineOrNil : (s : Text) → All (Off is_line_end) s → LineOrNil (strip s)
unfolding strip strip_by lstrip_by
strip-LineOrNil [] h = tt
strip-LineOrNil (c ∷ s) h = elim (Bool-cases (is_space c)) [
  | inl e ↦ rw e (strip-LineOrNil s h.1)
  | inr e ↦ rw e (rstrip-LineOrNil c s e h)
]

pub strip_line : (d : Text) → IsLine d → strip d ≡ d
unfolding strip strip_by lstrip_by
strip_line [] h = absurd h
strip_line (c ∷ s) h = rw h.0 h.2

-- one of three lists, the third where the second test fails
All-choice {ℓ κ} :
    {A : Type ℓ} (P : A → Type κ) (x y : Bool) (us vs ws : List A)
    → All P us
    → All P vs
    → (y ≡ false → All P ws)
    → All P (if x then us else if y then vs else ws)
All-choice P true y us vs ws hu hv hw = hu
All-choice P false true us vs ws hu hv hw = hv
All-choice P false false us vs ws hu hv hw = hw refl

-- The lines between boundaries hold none.
pub lines_from-Off :
    (end : ℕ → Bool) (inside : Bool) (s : Text) → All (All (Off end)) (lines_from end inside s)
unfolding lines_from
lines_from-Off end true [] = (tt, tt)
lines_from-Off end false [] = tt
lines_from-Off end inside (c ∷ []) = elim (Bool-cases (end c)) [
  | inl e ↦ rw e (tt, tt)
  | inr e ↦ rw e ((e, tt), tt)
]
lines_from-Off end inside (c ∷ d ∷ s) =
    All-choice (All (Off end)) (c == 13 && d == 10 && end c) (end c) ([] ∷ lines_from end false s)
      ([] ∷ lines_from end false (d ∷ s)) (push c (lines_from end true (d ∷ s)))
      (tt, lines_from-Off end false s) (tt, lines_from-Off end false (d ∷ s))
      λ e. push-All (Off end) c (lines_from end true (d ∷ s)) e (lines_from-Off end true (d ∷ s))

module _ (end : ℕ → Bool) where
  lines_from_end :
      (inside : Bool) (s : Text)
      → end 10 ≡ true
      → lines_from end inside (10 ∷ s) ≡ [] ∷ lines_from end false s
  unfolding lines_from
  lines_from_end inside [] h = rw h refl
  lines_from_end inside (d ∷ s) h = rw h refl

  lines_from_char :
      (inside : Bool) (c : ℕ) (s : Text)
      → end c ≡ false
      → lines_from end inside (c ∷ s) ≡ push c (lines_from end true s)
  unfolding lines_from push
  lines_from_char inside c [] h = rw h refl
  lines_from_char inside c (d ∷ s) h = rw h (no_pair (c == 13) (d == 10))
    where
      no_pair :
          (x y : Bool)
          → (if x && y && false
              then [] ∷ lines_from end false s
              else push c (lines_from end true (d ∷ s)))
            ≡ push c (lines_from end true (d ∷ s))
      no_pair x y = ground arith

  lines_from_line :
      (d s : Text)
      → end 10 ≡ true
      → All (Off end) d
      → lines_from end true (d ++ 10 ∷ s) ≡ d ∷ lines_from end false s
  unfolding push
  lines_from_line [] s h k = lines_from_end true s h
  lines_from_line (c ∷ d) s h k =
      lines_from_char true c (d ++ 10 ∷ s) k.0 ∙ ap (push c) (lines_from_line d s h k.1)

  lines_from_last : (d : Text) → All (Off end) d → lines_from end true d ≡ d ∷ []
  unfolding push lines_from
  lines_from_last [] k = refl
  lines_from_last (c ∷ d) k = lines_from_char true c d k.0 ∙ ap (push c) (lines_from_last d k.1)

  -- a first line that is not empty opens itself
  lines_from_open :
      (c : ℕ) (s : Text)
      → end c ≡ false
      → lines_from end false (c ∷ s) ≡ lines_from end true (c ∷ s)
  lines_from_open c s h = lines_from_char false c s h ∙ sym (lines_from_char true c s h)

newline_ends : is_line_end 10 ≡ true
unfolding is_line_end
newline_ends = refl

newline_spaces : is_space 10 ≡ true
unfolding is_space
newline_spaces = refl

-- Lines joined by "\n" are split into the same lines.
pub splitlines-join : (ds : List Text) → All IsLine ds → splitlines (join (codes "\n") ds) ≡ ds
unfolding splitlines join lines_from
splitlines-join [] h = refl
splitlines-join ([] ∷ ds) h = absurd h.0
splitlines-join ((c ∷ d) ∷ []) h =
    lines_from_open is_line_end c d h.0.1.0 ∙ lines_from_last is_line_end (c ∷ d) h.0.1
splitlines-join ((c ∷ d) ∷ e ∷ ds) h =
    lines_from_open is_line_end c (d ++ 10 ∷ join (codes "\n") (e ∷ ds)) h.0.1.0
    ∙ (lines_from_line is_line_end (c ∷ d) (join (codes "\n") (e ∷ ds)) newline_ends h.0.1
        ∙ ap (◌∷◌ (c ∷ d)) (splitlines-join (e ∷ ds) h.1))

pub join_solid :
    (ds : List Text) → is_empty ds ≡ false → All IsLine ds → is_empty (join (codes "\n") ds) ≡ false
unfolding join
join_solid [] n h = cc
join_solid ([] ∷ ds) n h = absurd h.0
join_solid ((c ∷ d) ∷ []) n h = refl
join_solid ((c ∷ d) ∷ e ∷ ds) n h = refl

rstrip-join :
    (ds : List Text)
    → All IsLine ds
    → rstrip_by is_space (join (codes "\n") ds) ≡ join (codes "\n") ds
unfolding join rstrip_by
rstrip-join [] h = refl
rstrip-join ([] ∷ ds) h = absurd h.0
rstrip-join ((c ∷ d) ∷ []) h = h.0.2
rstrip-join ((c ∷ d) ∷ e ∷ ds) h =
    let rest = join (codes "\n") (e ∷ ds) in
    rstrip_append is_space (c ∷ d) (10 ∷ rest)
      (rstrip_cons is_space 10 rest (rstrip-join (e ∷ ds) h.1) (join_solid (e ∷ ds) refl h.1)) refl

strip_newline : strip (codes "\n") ≡ rstrip_by is_space (codes "\n")
unfolding strip strip_by lstrip_by rstrip_by is_space
strip_newline = refl

lstrip_solid : (c : ℕ) (s : Text) → is_space c ≡ false → lstrip_by is_space (c ∷ s) ≡ c ∷ s
unfolding lstrip_by
lstrip_solid c s h = rw h refl

strip_solid : (c : ℕ) (s : Text) → is_space c ≡ false → strip (c ∷ s) ≡ rstrip_by is_space (c ∷ s)
unfolding strip
strip_solid c s h = ap (rstrip_by is_space) (lstrip_solid c s h)

strip-front :
    (ds : List Text)
    → All IsLine ds
    → strip (join (codes "\n") ds ++ codes "\n")
      ≡ rstrip_by is_space (join (codes "\n") ds ++ codes "\n")
unfolding join
strip-front [] h = strip_newline
strip-front ([] ∷ ds) h = absurd h.0
strip-front ((c ∷ d) ∷ []) h = strip_solid c (d ++ codes "\n") h.0.0
strip-front ((c ∷ d) ∷ e ∷ ds) h =
    strip_solid c ((d ++ 10 ∷ join (codes "\n") (e ∷ ds)) ++ codes "\n") h.0.0

-- What is written with a "\n" behind every line is stripped to the lines joined.
pub strip-join :
    (ds : List Text)
    → All IsLine ds
    → strip (join (codes "\n") ds ++ codes "\n") ≡ join (codes "\n") ds
strip-join ds h =
    strip-front ds h
    ∙ (rstrip_last is_space (join (codes "\n") ds) 10 newline_spaces ∙ rstrip-join ds h)

-- What is written is read back.
pub lines-written :
    (ds : List Text) → All IsLine ds → splitlines (strip (join (codes "\n") ds ++ codes "\n")) ≡ ds
lines-written ds h = ap splitlines (strip-join ds h) ∙ splitlines-join ds h
