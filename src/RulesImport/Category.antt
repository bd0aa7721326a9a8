-- ===== src/RulesImport/Category.antt =====
-- The categories of rules-import.py: `norm_category`, `category_of` and the two environment
-- variables that select them.
use gpn.Prelude.{ℕ, Bool, ◌||◌, List, [], ◌∷◌, map, any, is_empty, ◌==◌, if◌then◌else◌, not}
use gpn.Text.{Text, codes, Unicode, is_space, is_word, is_within, lower}
use gpn.Text.Equality.{is_in}
use gpn.Text.Search.{contains}
use gpn.Text.Split.{words_by}
use gpn.Text.Strip.{strip, strip_by, lstrip_by, is_char}

-- `x or default`
abbrev pub or_else : Text → Text → Text
or_else [] d = d
or_else (c ∷ s) d = c ∷ s

-- `_KEEP` and `_DIRECT`; a set is the list of its items
pub record Selection : Type 0 where
  pub keep : List Text
  pub direct : List Text

-- `{c.strip() for c in re.split(r"[,\s]+", value) if c.strip()}`
unfoldable pub category_names : Text → List Text
unfolding words_by strip
category_names value = map strip (words_by (λ c. c == b',' || is_space c) value)

module _ ⦃u : Unicode⦄ where
  -- the two environment variables at the time of the import
  unfoldable pub selection : Text → Text → Selection
  unfolding category_names lower
  selection keep direct = record {
    keep = category_names keep;
    direct = map lower (category_names direct);
  }

  -- `[^\w一-鿿]`
  abbrev is_ornament : ℕ → Bool
  is_ornament c = not (is_word c || is_within 0x4e00 0x9fff c)

  unfoldable pub norm_category : Text → Text
  unfolding strip strip_by lstrip_by is_word
  norm_category p =
      or_else (strip (lstrip_by is_ornament (strip (strip_by (is_char b'"') (strip p)))))
        (codes "Proxy")

  abbrev pub direct_words : List Text
  direct_words = codes "dir" ∷ codes "direct" ∷ codes "china" ∷ codes "lan" ∷ codes "domestic" ∷ []

  abbrev pub block_words : List Text
  block_words =
      codes "advert"
      ∷ codes "hijack"
      ∷ codes "privacy"
      ∷ codes "reject"
      ∷ codes "广告"
      ∷ codes "malware"
      ∷ []

  unfoldable pub category_of : Selection → Text → Text
  unfolding norm_category lower is_in contains
  category_of sel policy =
      let cat = norm_category policy in
      let low = lower cat in
      if is_in low sel.direct
      then codes "direct"
      else if is_empty sel.keep || is_in cat sel.keep
      then cat
      else if is_in low direct_words
      then codes "direct"
      else if any (λ x. contains x low) block_words
      then codes "block"
      else codes "Proxy"
