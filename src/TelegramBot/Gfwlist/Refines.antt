-- ===== src/TelegramBot/Gfwlist/Refines.antt =====
-- The operations on the file of additional domains in tgbot.py refine operations on a list.
use gpn.Prelude.{
  ℕ, Bool, true, false, not, ◌&&◌, ◌||◌, List, [], ◌∷◌, ◌++◌, ◌≡◌, ◌⊎◌, inl, inr, refl, sym, ap,
  ◌∙◌, Option, some, All, All-append, All-mono, take, Bool-cases, is_empty, arith, if◌then◌else◌,
  ◌==◌, ==_iff, subst,
}
use gpn.Text.{Text, codes, Unicode, lower, is_alnum, is_within, is_space}
use gpn.Text.Equality.{eqb, is_in, eqb_iff}
use gpn.Text.Lines.{IsLine, LineOrNil, strip-LineOrNil, strip_line, lines_from-Off, lines-written}
use gpn.Text.Search.{starts_with}
use gpn.Text.Split.{splitlines, is_line_end}
use gpn.Text.Strip.{strip, Off, rstrip_by-Off}
use gpn.Regex.{full_match}
use gpn.TelegramBot.Gfwlist.{
  file_after, read_file, domain_lines, read_gfwlist_extra, write_gfwlist_extra, extra_domain,
  normal_domain, add_domain, op_gfwlist_add, without, op_gfwlist_del, is_within, extra_domain_re,
  full_match, lowered,
}
use gpn.TelegramBot.Disk.{Save, complete, kept, torn, save_file}
use gpn.Regex.Class.{full_match-All}

-- A line that is read: no comment.
abbrev pub IsEntry : Text → Type 0
IsEntry l = IsLine l × (starts_with (codes "#") l ≡ false)

IsLine-LineOrNil : (l : Text) → is_empty l ≡ false → LineOrNil l → IsLine l
IsLine-LineOrNil [] h k = cc
IsLine-LineOrNil (c ∷ l) h k = k

line_solid : (l : Text) → IsLine l → is_empty l ≡ false
line_solid [] h = absurd h
line_solid (c ∷ l) h = refl

domain_lines-IsEntry :
    (ls : List Text) → All (All (Off is_line_end)) ls → All IsEntry (domain_lines ls)
unfolding domain_lines
domain_lines-IsEntry [] h = tt
domain_lines-IsEntry (l ∷ ls) h =
    elim (Bool-cases (not (is_empty (strip l)) && not (starts_with (codes "#") (strip l)))) [
      | inr e ↦ rw e (domain_lines-IsEntry ls h.1)
      | inl e ↦
          let (a, b) = both (is_empty (strip l)) (starts_with (codes "#") (strip l)) e in
          rw e
            ((IsLine-LineOrNil (strip l) a (strip-LineOrNil l h.0), b), domain_lines-IsEntry ls h.1)
    ]
  where
    both : (x y : Bool) → (not x && not y) ≡ true → (x ≡ false) × (y ≡ false)
    both x y h = ground arith

read-IsEntry : (file : Option Text) → All IsEntry (read_gfwlist_extra file)
unfolding read_gfwlist_extra splitlines
read-IsEntry file = domain_lines-IsEntry _ (lines_from-Off is_line_end false (read_file file))

domain_lines-entries : (ds : List Text) → All IsEntry ds → domain_lines ds ≡ ds
unfolding domain_lines
domain_lines-entries [] h = refl
domain_lines-entries (d ∷ ds) h =
    rw (strip_line d h.0.0)
      (rw (line_solid d h.0.0, h.0.1) (ap (◌∷◌ d) (domain_lines-entries ds h.1)))

-- What is written is read back.
pub read-write :
    (ds : List Text) → All IsEntry ds → read_gfwlist_extra (some (write_gfwlist_extra ds)) ≡ ds
unfolding read_gfwlist_extra write_gfwlist_extra read_file
read-write ds h =
    ap domain_lines (lines-written ds (All-mono IsEntry IsLine (λ d k. k.0) ds h))
    ∙ domain_lines-entries ds h

-- A character of a domain: no white space, and no "#".
abbrev IsSolid : ℕ → Type 0
IsSolid c = (is_space c ≡ false) × ((b'#' == c) ≡ false)

abbrev SolidOrEnd : ℕ → Type 0
SolidOrEnd c = IsSolid c ⊎ (c ≡ b'\n')

alnum-IsSolid : (c : ℕ) → is_alnum c ≡ true → SolidOrEnd c
unfolding is_alnum is_space
alnum-IsSolid c h = inl (ground arith)

inner-IsSolid : (c : ℕ) → (is_alnum c || (c == b'.' || c == b'-')) ≡ true → SolidOrEnd c
unfolding is_alnum is_space
inner-IsSolid c h = inl (ground arith)

letter-IsSolid : (c : ℕ) → (is_within b'a' b'z' c || is_within b'A' b'Z' c) ≡ true → SolidOrEnd c
unfolding is_space
letter-IsSolid c h = inl (ground arith)

char-IsSolid : (c : ℕ) → (c == b'.') ≡ true → SolidOrEnd c
unfolding is_space
char-IsSolid c h = inl (ground arith)

end-SolidOrEnd : (c : ℕ) → (c == b'\n') ≡ true → SolidOrEnd c
end-SolidOrEnd c h = inr ((==_iff c b'\n').0 h)

domain-SolidOrEnd : (d : Text) → full_match extra_domain_re d ≡ true → All SolidOrEnd d
unfolding extra_domain_re
domain-SolidOrEnd d h =
    full_match-All SolidOrEnd extra_domain_re d
      (
        (
          alnum-IsSolid,
          (
            ((inner-IsSolid, alnum-IsSolid), tt),
            (char-IsSolid, (letter-IsSolid, (letter-IsSolid, letter-IsSolid))),
          ),
        ),
        (end-SolidOrEnd, tt),
      )
      h

All-IsSolid : (d : Text) → All SolidOrEnd d → All (Off is_line_end) d → All IsSolid d
unfolding is_line_end
All-IsSolid [] h k = tt
All-IsSolid (c ∷ d) (inl s, h) k = (s, All-IsSolid d h k.1)
All-IsSolid (c ∷ d) (inr e, h) k =
    let off : is_line_end b'\n' ≡ false = subst (λ x. is_line_end x ≡ false) e k.0 in cc

-- A domain that the pattern takes, with no line boundary in it.
domain-IsEntry :
    (d : Text) → full_match extra_domain_re d ≡ true → All (Off is_line_end) d → IsEntry d
unfolding full_match extra_domain_re starts_with
domain-IsEntry [] h k = cc
domain-IsEntry (c ∷ d) h k =
    let s = All-IsSolid (c ∷ d) (domain-SolidOrEnd (c ∷ d) h) k in
    let spaces = All-mono IsSolid (Off is_space) (λ x a. a.0) (c ∷ d) s in
    ((s.0.0, k, rstrip_by-Off is_space (c ∷ d) spaces), rw s.0.1 refl)

-- The list with a domain behind the others, unless it is there.
abbrev pub append_new : Text → List Text → List Text
append_new d ds = if is_in d ds then ds else ds ++ d ∷ []

-- What the file reads as, by how the writing ended: the new list, the old one, or the old one or
-- a first part of the new text.
abbrev pub ReadsAs : Save → List Text → List Text → Option Text → Type 0
ReadsAs complete old new file = read_gfwlist_extra file ≡ new
ReadsAs kept old new file = read_gfwlist_extra file ≡ old
ReadsAs (torn n) old new file =
    (read_gfwlist_extra file ≡ old) ⊎ (file ≡ some (take n (write_gfwlist_extra new)))

unchanged :
    (save : Save) (file : Option Text)
    → ReadsAs save (read_gfwlist_extra file) (read_gfwlist_extra file) file
unchanged complete file = refl
unchanged kept file = refl
unchanged (torn n) file = inl refl

changed :
    (save : Save) (file : Option Text) (ds : List Text)
    → All IsEntry ds
    → ReadsAs save (read_gfwlist_extra file) ds (save_file save (write_gfwlist_extra ds) file)
unfolding save_file
changed complete file ds h = read-write ds h
changed kept file ds h = refl
changed (torn n) file ds h = inr refl

module _ ⦃u : Unicode⦄ where
  -- For a domain without a line boundary: where the writing succeeds, the file after
  -- `op_gfwlist_add` reads as the list of before, to which the domain is appended if it is not
  -- there and if the pattern takes it. Where the file does not open, it reads as before. Where the
  -- writing breaks off, it reads as before or holds a first part of the new list's text.
  pub op_gfwlist_add-refines :
      (hostname : Text → Option (Option Text)) (save : Save) (file : Option Text) (domain : Text)
      → All (Off is_line_end) (normal_domain (extra_domain hostname domain))
      → let d = normal_domain (extra_domain hostname domain) in
        let old = read_gfwlist_extra file in
        ReadsAs save old
          (if full_match extra_domain_re d then append_new d old else old)
          (file_after save file (op_gfwlist_add hostname file domain))
  unfolding op_gfwlist_add file_after
  op_gfwlist_add-refines hostname save file domain k =
      added (normal_domain (extra_domain hostname domain)) k
    where
      added :
          (d : Text)
          → All (Off is_line_end) d
          → let old = read_gfwlist_extra file in
            ReadsAs save old
              (if full_match extra_domain_re d then append_new d old else old)
              (file_after save file (add_domain old d))
      added d k = elim (Bool-cases (full_match extra_domain_re d)) [
        | inr e ↦ rw e (unchanged save file)
        | inl e ↦ rw e (elim (Bool-cases (is_in d (read_gfwlist_extra file))) [
          | inl f ↦ rw f (unchanged save file)
          | inr f ↦ rw f (
              changed save file (read_gfwlist_extra file ++ d ∷ []) (
                All-append IsEntry (read_gfwlist_extra file) (d ∷ []) (read-IsEntry file)
                  (domain-IsEntry d e k, tt)))
        ])
      ]

  without-IsEntry : (d : Text) (ds : List Text) → All IsEntry ds → All IsEntry (without d ds)
  unfolding without
  without-IsEntry d [] h = tt
  without-IsEntry d (x ∷ xs) h = elim (Bool-cases (eqb (lower x) d)) [
    | inl e ↦ rw e (without-IsEntry d xs h.1)
    | inr e ↦ rw e (h.0, without-IsEntry d xs h.1)
  ]

  without-missing : (d : Text) (ds : List Text) → is_in d (lowered ds) ≡ false → without d ds ≡ ds
  unfolding without is_in lowered
  without-missing d [] h = refl
  without-missing d (x ∷ xs) h =
      let rest = or_false (eqb d (lower x)) (is_in d (lowered xs)) h in
      elim (Bool-cases (eqb (lower x) d)) [
        | inl e ↦ cc (rest.0, (eqb_iff d (lower x)).1 (sym ((eqb_iff (lower x) d).0 e)))
        | inr e ↦ rw e (ap (◌∷◌ x) (without-missing d xs rest.1))
      ]
    where
      or_false : (a b : Bool) → (a || b) ≡ false → (a ≡ false) × (b ≡ false)
      or_false a b h = ground arith

  -- Where the writing succeeds, the file after `op_gfwlist_del` reads as the list of before, without
  -- the domains that are the given one but for the case of letters, the others in their order.
  -- Where the file does not open, it reads as before. Where the writing breaks off, it reads as
  -- before or holds a first part of the new list's text.
  pub op_gfwlist_del-refines :
      (save : Save) (file : Option Text) (domain : Text)
      → ReadsAs save
          (read_gfwlist_extra file)
          (without (lower (strip domain)) (read_gfwlist_extra file))
          (file_after save file (op_gfwlist_del file domain))
  unfolding op_gfwlist_del file_after
  op_gfwlist_del-refines save file domain =
      let ds = read_gfwlist_extra file in
      let d = lower (strip domain) in
      elim (Bool-cases (is_in d (lowered ds))) [
        | inl e ↦ rw e (changed save file (without d ds) (without-IsEntry d ds (read-IsEntry file)))
        | inr e ↦ rw e (rw (without-missing d ds e) (unchanged save file))
      ]
