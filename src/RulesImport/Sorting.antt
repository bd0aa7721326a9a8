-- ===== src/RulesImport/Sorting.antt =====
-- `sorted` on a set of texts: Python compares `str` by code points.
pub mod Order
use gpn.Prelude.{ℕ, Bool, true, false, ◌&&◌, ◌||◌, List, [], ◌∷◌, ltb, ◌==◌, if◌then◌else◌}
use gpn.Text.{Text}

-- `a < b`
unfoldable pub text_lt : Text → Text → Bool
text_lt a [] = false
text_lt [] (y ∷ b) = true
text_lt (x ∷ a) (y ∷ b) = ltb x y || x == y && text_lt a b

-- the set with `x` in its place: a text that is there is not added again
unfoldable pub insert : Text → List Text → List Text
unfolding text_lt
insert x [] = x ∷ []
insert x (y ∷ ys) =
    let rest = insert x ys in
    if text_lt x y then x ∷ y ∷ ys else if text_lt y x then y ∷ rest else y ∷ ys

-- `sorted(set(items))`
unfoldable pub sorted_set : List Text → List Text
unfolding insert
sorted_set [] = []
sorted_set (x ∷ xs) = insert x (sorted_set xs)
