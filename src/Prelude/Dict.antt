-- ===== src/Prelude/Dict.antt =====
-- A Python dictionary with text keys, as the list of its entries in the order of insertion.
use mathlib.Core.Path.{◌≡◌, refl, ap, ◌∙◌}
use mathlib.Core.Bool.{Bool, true, false, ◌&&◌}
use mathlib.Core.List.{List, [], ◌∷◌}
use mathlib.Core.Logic.{inl, inr}
use mathlib.Core.Option.{Option, none, some}
use Prim.Native.Nat.{ℕ}
use gpn.Prelude.Tests.{if◌then◌else◌, ◌==◌, ==_refl, Bool-cases, and_parts, ==_iff}

unfoldable pub key_eq : List ℕ → List ℕ → Bool
key_eq [] [] = true
key_eq (x ∷ a) (y ∷ b) = x == y && key_eq a b
key_eq _ _ = false

key_eq_refl : (a : List ℕ) → key_eq a a ≡ true
unfolding key_eq
key_eq_refl [] = refl
key_eq_refl (x ∷ a) = rw (==_refl x) (key_eq_refl a)

pub key_eq_sound : (a b : List ℕ) → key_eq a b ≡ true → a ≡ b
unfolding key_eq
key_eq_sound [] [] h = refl
key_eq_sound [] (y ∷ b) h = cc
key_eq_sound (x ∷ a) [] h = cc
key_eq_sound (x ∷ a) (y ∷ b) h =
    let (e, f) = and_parts (x == y) (key_eq a b) h in
    let head = (==_iff x y).0 e in let tail = key_eq_sound a b f in cc

differ : (j k : List ℕ) → key_eq j k ≡ false → key_eq k j ≡ false
differ j k h = elim (Bool-cases (key_eq k j)) [
  | inl e ↦
      let same : key_eq j k ≡ true = ap (λ l. key_eq j l) (key_eq_sound k j e) ∙ key_eq_refl j in cc
  | inr e ↦ e
]

abbrev pub Dict {ℓ} : Type ℓ → Type ℓ
Dict V = List (List ℕ × V)

module _ {ℓ} {V : Type ℓ} where
  unfoldable pub get : List ℕ → Dict V → Option V
  unfolding key_eq
  get k [] = none
  get k ((j, v) ∷ d) = if key_eq j k then some v else get k d

  -- `d[k] = v`: an entry that is there keeps its place
  unfoldable pub put : List ℕ → V → Dict V → Dict V
  unfolding key_eq
  put k v [] = (k, v) ∷ []
  put k v ((j, w) ∷ d) = if key_eq j k then (j, v) ∷ d else (j, w) ∷ put k v d

  abbrev pub is_there : Option V → Bool
  is_there none = false
  is_there (some v) = true

  -- `k in d`
  unfoldable pub has_key : List ℕ → Dict V → Bool
  unfolding get
  has_key k d = is_there (get k d)

  pub has_key-put_self : (k : List ℕ) (v : V) (d : Dict V) → has_key k (put k v d) ≡ true
  unfolding has_key put get
  has_key-put_self k v [] = rw (key_eq_refl k) refl
  has_key-put_self k v ((j, w) ∷ d) = elim (Bool-cases (key_eq j k)) [
    | inl e ↦ rw (e, get) (rw e refl)
    | inr e ↦ rw (e, get) (rw e (has_key-put_self k v d))
  ]

  pub has_key-put :
      (i k : List ℕ) (v : V) (d : Dict V) → has_key i d ≡ true → has_key i (put k v d) ≡ true
  unfolding has_key put get
  has_key-put i k v [] h = cc
  has_key-put i k v ((j, w) ∷ d) h = elim (Bool-cases (key_eq j k)) [
    | inl e ↦ rw e (elim (Bool-cases (key_eq j i)) [ inl f ↦ rw f refl | inr f ↦ rw f (rw f at h) ])
    | inr e ↦ rw e (elim (Bool-cases (key_eq j i)) [
      | inl f ↦ rw f refl
      | inr f ↦ rw f (has_key-put i k v d (rw f at h))
    ])
  ]

  pub get-put_other :
      (i k : List ℕ) (v : V) (d : Dict V) → key_eq k i ≡ false → get i (put k v d) ≡ get i d
  unfolding put get
  get-put_other i k v [] h = rw h refl
  get-put_other i k v ((j, w) ∷ d) h = elim (Bool-cases (key_eq j k)) [
    | inl e ↦ rw e (rw (ap (λ l. key_eq l i) (key_eq_sound j k e) ∙ h) refl)
    | inr e ↦ rw e (elim (Bool-cases (key_eq j i)) [
      | inl f ↦ rw f refl
      | inr f ↦ rw f (get-put_other i k v d h)
    ])
  ]

  pub get-put_self : (k : List ℕ) (v : V) (d : Dict V) → get k (put k v d) ≡ some v
  unfolding put get
  get-put_self k v [] = rw (key_eq_refl k) refl
  get-put_self k v ((j, w) ∷ d) = elim (Bool-cases (key_eq j k)) [
    | inl e ↦ rw e (rw e refl)
    | inr e ↦ rw e (rw e (get-put_self k v d))
  ]

  -- No key stands twice.
  abbrev pub IsUnique : Dict V → Type ℓ
  IsUnique [] = Unit
  IsUnique ((k, v) ∷ d) = (get k d ≡ none) × IsUnique d

  pub put-IsUnique : (k : List ℕ) (v : V) (d : Dict V) → IsUnique d → IsUnique (put k v d)
  unfolding put get
  put-IsUnique k v [] h = (refl, tt)
  put-IsUnique k v ((j, w) ∷ d) h = elim (Bool-cases (key_eq j k)) [
    | inl e ↦ rw e h
    | inr e ↦ rw e (get-put_other j k v d (differ j k e) ∙ h.0, put-IsUnique k v d h.1)
  ]
