-- ===== src/RulesImport/Csv/RoundTrip.antt =====
-- Fields joined by commas are split into the same fields.
use gpn.Prelude.{
  ℕ, false, sym, ◌||◌, List, [], ◌∷◌, ◌++◌, map, ◌≡◌, refl, ◌==◌, arith, All, ap, append_assoc,
  append-nil, ◌∙◌,
}
use gpn.Text.{Text, codes}
use gpn.Text.Strip.{strip}
use gpn.Text.Split.{join}
use gpn.RulesImport.Csv.{csv_from, csv_split}

-- neither a quote nor a comma
abbrev pub IsPlain : ℕ → Type 0
IsPlain c = (c == b'"' || c == b',') ≡ false

csv_from_step :
    (c : ℕ) (cur s : Text)
    → IsPlain c
    → csv_from false cur (c ∷ s) ≡ csv_from false (cur ++ c ∷ []) s
unfolding csv_from
csv_from_step c cur s h = ground arith

csv_from-plain :
    (f cur rest : Text)
    → All IsPlain f
    → csv_from false cur (f ++ rest) ≡ csv_from false (cur ++ f) rest
csv_from-plain [] cur rest h = rw append-nil
csv_from-plain (c ∷ f) cur rest h =
    csv_from_step c cur (f ++ rest) h.0
    ∙ csv_from-plain f (cur ++ c ∷ []) rest h.1
    ∙ rw append_assoc

-- A field that `csv_split` gives back: plain, with no white space at its ends.
pub record IsField (f : Text) : Type 0 where
  pub plain : All IsPlain f
  pub stripped : strip f ≡ f

csv_from-join :
    (f : Text) (fs : List Text)
    → All IsField (f ∷ fs)
    → csv_from false [] (join (codes ",") (f ∷ fs)) ≡ f ∷ fs
unfolding join csv_from
csv_from-join f [] h =
    ap (csv_from false []) (sym (append-nil f)) ∙ csv_from-plain f [] [] h.0.plain
csv_from-join f (g ∷ fs) h =
    csv_from-plain f [] (b',' ∷ join (codes ",") (g ∷ fs)) h.0.plain
    ∙ ap (◌∷◌ f) (csv_from-join g fs h.1)

map-strip : (fs : List Text) → All IsField fs → map strip fs ≡ fs
map-strip [] h = refl
map-strip (f ∷ fs) h = rw (h.0.stripped, map-strip fs h.1)

-- Splitting a line of plain, stripped fields joined by commas gives back the fields.
pub csv_split-join :
    (f : Text) (fs : List Text)
    → All IsField (f ∷ fs)
    → csv_split (join (codes ",") (f ∷ fs)) ≡ f ∷ fs
unfolding csv_split
csv_split-join f fs h = ap (map strip) (csv_from-join f fs h) ∙ map-strip (f ∷ fs) h
