-- ===== src/Regex/Language.antt =====
-- The language of an expression, and the proof that the matcher decides it.
use gpn.Prelude.{
  ℕ, true, [], ◌∷◌, ◌++◌, ◌≡◌, ◌↔◌, ◌⊎◌, inl, inr, refl, sym, ap, arith, Bool-cases, ◌∙◌, or_parts,
  and_parts, subst,
}
use mathlib.Core.Bool.{or-true}
use gpn.Text.{Text}
use gpn.Regex.{
  Regex, nothing, eps, chars, alt, seq, star, nullable, alt', seq', deriv, full_match, prefix_match,
}

-- Any number of non-empty texts of `L`.
pub data Star (L : Text → Type 0) : Text → Type 0 where
  stop : Star L []
  more : (c : ℕ) (t u : Text) {s : Text} → s ≡ c ∷ (t ++ u) → L (c ∷ t) → Star L u → Star L s

abbrev pub Lang : Regex → Text → Type 0
Lang nothing s = ⊥
Lang eps s = s ≡ []
Lang (chars p) s = (c : ℕ) × (s ≡ c ∷ []) × (p c ≡ true)
Lang (alt a b) s = Lang a s ⊎ Lang b s
Lang (seq a b) s = (t : Text) × (u : Text) × (s ≡ t ++ u) × Lang a t × Lang b u
Lang (star a) s = Star (Lang a) s

append-eq-nil : (t u : Text) → [] ≡ t ++ u → (t ≡ []) × (u ≡ [])
append-eq-nil [] u e = (refl, sym e)
append-eq-nil (c ∷ t) u e = cc

nullable-Lang : (r : Regex) → nullable r ≡ true → Lang r []
unfolding nullable
nullable-Lang nothing h = cc
nullable-Lang eps h = refl
nullable-Lang (chars p) h = cc
nullable-Lang (alt a b) h = elim (or_parts (nullable a) (nullable b) h) [
  | inl x ↦ inl (nullable-Lang a x)
  | inr x ↦ inr (nullable-Lang b x)
]
nullable-Lang (seq a b) h =
    let (x, y) = and_parts (nullable a) (nullable b) h in
    ([], [], refl, nullable-Lang a x, nullable-Lang b y)
nullable-Lang (star a) h = stop

Lang-nullable : (r : Regex) (s : Text) → s ≡ [] → Lang r s → nullable r ≡ true
unfolding nullable
Lang-nullable nothing s e h = absurd h
Lang-nullable eps s e h = refl
Lang-nullable (chars p) s e (c, f, _) = cc
Lang-nullable (alt a b) s e (inl h) = rw (Lang-nullable a s e h)
Lang-nullable (alt a b) s e (inr h) = ground (arith, Lang-nullable b s e h)
Lang-nullable (seq a b) s e (t, u, f, x, y) =
    let (et, eu) = append-eq-nil t u (sym e ∙ f) in
    rw (Lang-nullable a t et x) (Lang-nullable b u eu y)
Lang-nullable (star a) s e h = refl

abbrev Same : Regex → Regex → Type 0
Same a b = (s : Text) → Lang a s ↔ Lang b s

alt'-Same : (a b : Regex) → Same (alt' a b) (alt a b)
unfolding alt'
alt'-Same nothing b s = (inr, λ h. elim h [ inl x ↦ absurd x | inr x ↦ x ])
alt'-Same eps nothing s = (inl, λ h. elim h [ inl x ↦ x | inr x ↦ absurd x ])
alt'-Same (chars p) nothing s = (inl, λ h. elim h [ inl x ↦ x | inr x ↦ absurd x ])
alt'-Same (alt a b) nothing s = (inl, λ h. elim h [ inl x ↦ x | inr x ↦ absurd x ])
alt'-Same (seq a b) nothing s = (inl, λ h. elim h [ inl x ↦ x | inr x ↦ absurd x ])
alt'-Same (star a) nothing s = (inl, λ h. elim h [ inl x ↦ x | inr x ↦ absurd x ])
alt'-Same _ _ s = (λ h. h, λ h. h)

seq'-Same : (a b : Regex) → Same (seq' a b) (seq a b)
unfolding seq'
seq'-Same nothing b s = (λ h. absurd h, λ (t, u, e, x, y). absurd x)
seq'-Same eps b s = (λ h. ([], s, refl, refl, h), λ (t, u, e, x, y). rw (e, x) y)
seq'-Same _ b s = (λ h. h, λ h. h)

deriv-Lang : (c : ℕ) (r : Regex) (s : Text) → Lang (deriv c r) s → Lang r (c ∷ s)
unfolding deriv
deriv-Lang c nothing s h = h
deriv-Lang c eps s h = absurd h
deriv-Lang c (chars p) s h = elim (Bool-cases (p c)) [
  | inl e ↦ (c, ap (◌∷◌ c) (rw e at h), e)
  | inr e ↦ absurd (rw e at h)
]
deriv-Lang c (alt a b) s h = elim ((alt'-Same (deriv c a) (deriv c b) s).0 h) [
  | inl x ↦ inl (deriv-Lang c a s x)
  | inr x ↦ inr (deriv-Lang c b s x)
]
deriv-Lang c (seq a b) s h =
    let here : Lang (seq' (deriv c a) b) s → Lang (seq a b) (c ∷ s) = λ g.
      (let (t, u, e, x, y) = (seq'-Same (deriv c a) b s).0 g in
        (c ∷ t, u, ap (◌∷◌ c) e, deriv-Lang c a t x, y)) in
    elim (Bool-cases (nullable a)) [
      | inl n ↦ elim ((alt'-Same (seq' (deriv c a) b) (deriv c b) s).0 (rw n at h)) [
        | inl g ↦ here g
        | inr g ↦ ([], c ∷ s, refl, nullable-Lang a n, deriv-Lang c b s g)
      ]
      | inr n ↦ here (rw n at h)
    ]
deriv-Lang c (star a) s h =
    let (t, u, e, x, y) = (seq'-Same (deriv c a) (star a) s).0 h in
    more c t u (ap (◌∷◌ c) e) (deriv-Lang c a t x) y

cons_inv : {c d : ℕ} {s t : Text} → c ∷ s ≡ d ∷ t → (d ≡ c) × (s ≡ t)
cons_inv e = (cc, cc)

-- A text that a nullable expression or a derivative takes from `c ∷ s`.
Lang-seq_deriv :
    (c : ℕ) (a b : Regex) (s t u : Text)
    → c ∷ s ≡ t ++ u
    → ((v : Text) → Lang a (c ∷ v) → Lang (deriv c a) v)
    → ((v : Text) → Lang b (c ∷ v) → Lang (deriv c b) v)
    → Lang a t
    → Lang b u
    → Lang (deriv c (seq a b)) s
unfolding deriv
Lang-seq_deriv c a b s [] u e ia ib x y =
    rw (Lang-nullable a [] refl x)
      ((alt'-Same (seq' (deriv c a) b) (deriv c b) s).1 (inr (ib s (rw (← e) at y))))
Lang-seq_deriv c a b s (d ∷ t) u e ia ib x y =
    let here : Lang (seq' (deriv c a) b) s =
      (seq'-Same (deriv c a) b s).1
        (t, u, (cons_inv e).1, ia t (subst (λ v. Lang a (v ∷ t)) (cons_inv e).0 x), y) in
    elim (Bool-cases (nullable a)) [
      | inl n ↦ rw n ((alt'-Same (seq' (deriv c a) b) (deriv c b) s).1 (inl here))
      | inr n ↦ rw n here
    ]

Lang-deriv : (c : ℕ) (r : Regex) (s : Text) → Lang r (c ∷ s) → Lang (deriv c r) s
unfolding deriv
Lang-deriv c nothing s h = h
Lang-deriv c eps s h = cc
Lang-deriv c (chars p) s (d, e, x) = rw (subst (λ v. p v ≡ true) (cons_inv e).0 x) (cons_inv e).1
Lang-deriv c (alt a b) s (inl h) =
    (alt'-Same (deriv c a) (deriv c b) s).1 (inl (Lang-deriv c a s h))
Lang-deriv c (alt a b) s (inr h) =
    (alt'-Same (deriv c a) (deriv c b) s).1 (inr (Lang-deriv c b s h))
Lang-deriv c (seq a b) s (t, u, e, x, y) =
    Lang-seq_deriv c a b s t u e (Lang-deriv c a) (Lang-deriv c b) x y
Lang-deriv c (star a) s (more d t u e x y) =
    (seq'-Same (deriv c a) (star a) s).1
      (t, u, (cons_inv e).1, Lang-deriv c a t (subst (λ v. Lang a (v ∷ t)) (cons_inv e).0 x), y)

-- `re.fullmatch` accepts exactly the texts of the expression.
pub full_match-Lang : (r : Regex) (s : Text) → (full_match r s ≡ true) ↔ Lang r s
unfolding full_match
full_match-Lang r [] = (nullable-Lang r, Lang-nullable r [] refl)
full_match-Lang r (c ∷ s) =
    let (sound, complete) = full_match-Lang (deriv c r) s in
    (λ h. deriv-Lang c r s (sound h), λ h. complete (Lang-deriv c r s h))

abbrev HasPrefix : Regex → Text → Type 0
HasPrefix r s = (t : Text) × (u : Text) × (s ≡ t ++ u) × Lang r t

prefix_match-HasPrefix : (r : Regex) (s : Text) → prefix_match r s ≡ true → HasPrefix r s
unfolding prefix_match
prefix_match-HasPrefix r [] h = ([], [], refl, nullable-Lang r h)
prefix_match-HasPrefix r (c ∷ s) h = elim (or_parts (nullable r) (prefix_match (deriv c r) s) h) [
  | inl n ↦ ([], c ∷ s, refl, nullable-Lang r n)
  | inr m ↦
      let (t, u, e, x) = prefix_match-HasPrefix (deriv c r) s m in
      (c ∷ t, u, ap (◌∷◌ c) e, deriv-Lang c r t x)
]

HasPrefix-prefix_match :
    (r : Regex) (s t u : Text) → s ≡ t ++ u → Lang r t → prefix_match r s ≡ true
unfolding prefix_match
HasPrefix-prefix_match r [] t u e x = Lang-nullable r t (append-eq-nil t u e).0 x
HasPrefix-prefix_match r (c ∷ s) [] u e x = rw (Lang-nullable r [] refl x)
HasPrefix-prefix_match r (c ∷ s) (d ∷ t) u e x =
    let rest =
      HasPrefix-prefix_match (deriv c r) s t u (cons_inv e).1
        (Lang-deriv c r t (subst (λ v. Lang r (v ∷ t)) (cons_inv e).0 x)) in
    rw rest (or-true (nullable r))

-- `re.match` accepts exactly the texts with a prefix of the expression.
pub prefix_match-Lang :
    (r : Regex) (s : Text)
    → (prefix_match r s ≡ true) ↔ ((t : Text) × (u : Text) × (s ≡ t ++ u) × Lang r t)
prefix_match-Lang r s =
    (prefix_match-HasPrefix r s, λ (t, u, e, x). HasPrefix-prefix_match r s t u e x)
