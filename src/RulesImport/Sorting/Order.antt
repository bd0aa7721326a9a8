-- ===== src/RulesImport/Sorting/Order.antt =====
-- `sorted_set` gives the members of the list, in strictly growing order.
use gpn.Prelude.{true, false, List, [], ◌∷◌, ◌≡◌, refl, arith, ◌⊎◌, inl, inr, ◌↔◌, Bool-cases}
use gpn.Text.{Text}
use gpn.RulesImport.Sorting.{text_lt, insert, sorted_set}

text_lt_total : (a b : Text) → text_lt a b ≡ false → text_lt b a ≡ false → a ≡ b
unfolding text_lt
text_lt_total [] [] h k = refl
text_lt_total [] (y ∷ b) h k = cc
text_lt_total (x ∷ a) [] h k = cc
text_lt_total (x ∷ a) (y ∷ b) h k = ground (arith, text_lt_total a b)

-- Each text is below the next one.
abbrev pub IsIncreasing : List Text → Type 0
IsIncreasing [] = Unit
IsIncreasing (x ∷ []) = Unit
IsIncreasing (x ∷ y ∷ r) = (text_lt x y ≡ true) × IsIncreasing (y ∷ r)

abbrev pub Occurs : Text → List Text → Type 0
Occurs a [] = ⊥
Occurs a (x ∷ xs) = (a ≡ x) ⊎ Occurs a xs

-- `x` put behind a smaller text
insert_after :
    (w x : Text) (ys : List Text)
    → text_lt w x ≡ true
    → IsIncreasing (w ∷ ys)
    → IsIncreasing (w ∷ insert x ys)
unfolding insert
insert_after w x [] h k = (h, tt)
insert_after w x (y ∷ ys) h k = elim (Bool-cases (text_lt x y)) [
  | inl e ↦ rw e (h, (e, k.1))
  | inr e ↦ rw e (elim (Bool-cases (text_lt y x)) [
    | inl f ↦ rw f (k.0, insert_after y x ys f k.1)
    | inr f ↦ rw f k
  ])
]

insert-IsIncreasing : (x : Text) (ys : List Text) → IsIncreasing ys → IsIncreasing (insert x ys)
unfolding insert
insert-IsIncreasing x [] k = tt
insert-IsIncreasing x (y ∷ ys) k = elim (Bool-cases (text_lt x y)) [
  | inl e ↦ rw e (e, k)
  | inr e ↦
      rw e (elim (Bool-cases (text_lt y x)) [
        | inl f ↦ rw f (insert_after y x ys f k)
        | inr f ↦ rw f k
      ])
]

insert-Occurs : (a x : Text) (ys : List Text) → Occurs a (insert x ys) → Occurs a (x ∷ ys)
unfolding insert
insert-Occurs a x [] h = h
insert-Occurs a x (y ∷ ys) h = ground (arith, insert-Occurs a x ys)

Occurs-insert : (a x : Text) (ys : List Text) → Occurs a (x ∷ ys) → Occurs a (insert x ys)
unfolding insert
Occurs-insert a x [] h = h
Occurs-insert a x (y ∷ ys) h = ground (arith, Occurs-insert a x ys, text_lt_total x y)

-- The sorted set grows strictly, so that no text stands twice, and it holds exactly the items.
pub sorted_set-IsIncreasing :
    (xs : List Text)
    → IsIncreasing (sorted_set xs) × ((a : Text) → Occurs a (sorted_set xs) ↔ Occurs a xs)
unfolding sorted_set
sorted_set-IsIncreasing [] = (tt, λ a. (λ h. h, λ h. h))
sorted_set-IsIncreasing (x ∷ xs) =
    let (up, same) = sorted_set-IsIncreasing xs in
    (
      insert-IsIncreasing x (sorted_set xs) up,
      λ a. (
        λ h. elim (insert-Occurs a x (sorted_set xs) h) [
          | inl e ↦ inl e
          | inr o ↦ inr ((same a).0 o)
        ],
        λ h.
            Occurs-insert a x (sorted_set xs)
              (elim h [ inl e ↦ inl e | inr o ↦ inr ((same a).1 o) ]),
      ),
    )
