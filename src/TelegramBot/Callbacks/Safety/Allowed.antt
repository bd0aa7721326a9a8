-- ===== src/TelegramBot/Callbacks/Safety/Allowed.antt =====
-- What a button of tgbot.py may start, and the rules by which a branch is shown to start no more.
use gpn.Prelude.{
  ℕ, zero, suc, Bool, true, false, not, List, [], ◌∷◌, ◌≡◌, ◌≢◌, ◌⊎◌, inl, inr, refl, Option, none,
  some, All, is_empty, Bool-cases, Option-cases, or_parts, and_parts, arith, if◌then◌else◌, ℤ,
  negsuc, pos, subst,
}
use gpn.Text.{Text, codes, Unicode}
use gpn.Text.Equality.{eqb, eqb_iff, is_in}
use gpn.Text.Number.{int_of}
use gpn.Text.Split.{cut}
use gpn.Regex.{full_match}
use gpn.TelegramBot.Session.{
  Menu, Pending, rule_value, rule_target, World, exit_names, Operation, op_set_exit, op_del_exit,
  op_set_final, op_set_policy, op_add_rule, op_firewall_del_port_key, op_logs,
  op_force_set_dot_domain, op_set_rules, op_del_rule, op_set_dot_domain, op_gfwlist_add,
  op_gfwl_import_set, op_add_exit, op_set_dns, op_firewall_set_note, op_import_ruleset,
  op_firewall_add_port, Effect, perform, send_async, edit_async, Change, become, Outcome,
  valid_rule_target, reserved, rule_types, services, categories,
}
use gpn.TelegramBot.Callbacks.{◌or_else◌}
use gpn.TelegramBot.Callbacks.Actions.{
  refuse_with, start, is_port, port_key_re, rule_line, entry_of, nth,
}

-- `direct`, `block`, or an exit other than `local` and `smart`.
abbrev pub IsTarget : World → Text → Type 0
IsTarget w t =
    ((t ≡ codes "direct") ⊎ (t ≡ codes "block"))
    ⊎ ((is_in t (exit_names w) ≡ true) × (t ≢ codes "local") × (t ≢ codes "smart"))

-- A category of the policy file.
abbrev pub IsCategory : Text → List (Text × Text) → Type 0
IsCategory c [] = ⊥
IsCategory c ((k, t) ∷ es) = (c ≡ k) ⊎ IsCategory c es

module _ ⦃u : Unicode⦄ where
  -- What a button may start, by the chat's step, the domain that failed last, and the files.
  abbrev pub MayStart : World → Option Pending → Option Text → Operation → Type 0
  MayStart w pending last (op_set_exit n) =
      ((n ≡ codes "smart") ⊎ (n ≡ codes "local")) ⊎ (is_in n (exit_names w) ≡ true)
  MayStart w pending last (op_del_exit n) =
      (is_in n (exit_names w) ≡ true) × (n ≢ codes "local") × (n ≢ codes "smart")
  MayStart w pending last (op_set_final t) = IsTarget w t
  MayStart w pending last (op_set_policy c t) = IsCategory c (categories w) × IsTarget w t
  MayStart w pending last (op_add_rule line) =
      (typ : Text) × (value : Text) × (target : Text) × (pending ≡ some (rule_target typ value))
      × (line ≡ rule_line typ value target)
      × (is_in typ rule_types ≡ true)
      × (is_empty value ≡ false)
      × IsTarget w target
  MayStart w pending last (op_firewall_del_port_key k) =
      (full_match port_key_re k ≡ true)
      × (is_port (int_of (cut b'/' k).0) ≡ true)
      × (k ≢ codes "22/tcp")
  MayStart w pending last (op_logs s) = is_in s services ≡ true
  MayStart w pending last (op_force_set_dot_domain d) = (last ≡ some d) × (is_empty d ≡ false)
  MayStart w pending last (op_set_rules t) = ⊥
  MayStart w pending last (op_del_rule t) = ⊥
  MayStart w pending last (op_set_dot_domain t) = ⊥
  MayStart w pending last (op_gfwlist_add t) = ⊥
  MayStart w pending last (op_gfwl_import_set t) = ⊥
  MayStart w pending last (op_add_exit n t) = ⊥
  MayStart w pending last (op_set_dns k t) = ⊥
  MayStart w pending last (op_firewall_set_note k t) = ⊥
  MayStart w pending last (op_import_ruleset u t) = ⊥
  MayStart w pending last (op_firewall_add_port p t n) = ⊥
  MayStart w pending last _ = Unit

-- `P` holds of the operation that an effect runs, if it runs one.
abbrev pub Runs : (Operation → Type 0) → Effect → Type 0
Runs P (perform op m) = P op
Runs P (send_async op m) = P op
Runs P (edit_async op m) = P op
Runs P _ = Unit

-- A step that names a rule's type names one of the known types, and a value is not empty.
abbrev pub IsSound : Pending → Type 0
IsSound (rule_value typ) = is_in typ rule_types ≡ true
IsSound (rule_target typ value) = (is_in typ rule_types ≡ true) × (is_empty value ≡ false)
IsSound _ = Unit

abbrev pub SoundStep : Option Pending → Type 0
SoundStep none = Unit
SoundStep (some p) = IsSound p

abbrev pub SoundChange : Change → Type 0
SoundChange (become p) = IsSound p
SoundChange _ = Unit

abbrev pub Allows : (Operation → Type 0) → Outcome → Type 0
Allows P (c, effects) = SoundChange c × All (Runs P) effects

abbrev pub AllowsAny : (Operation → Type 0) → Option Outcome → Type 0
AllowsAny P none = Unit
AllowsAny P (some o) = Allows P o

pub record Fine (P : Operation → Type 0) (o : Option Outcome) : Type 0 where
  pub holds : AllowsAny P o

module _ {P : Operation → Type 0} where
  pub Fine-if :
      (b : Bool) {x y : Option Outcome}
      → (b ≡ true → Fine P x)
      → (b ≡ false → Fine P y)
      → Fine P (if b then x else y)
  Fine-if true f g = f refl
  Fine-if false f g = g refl

  pub Fine-none : Fine P none
  Fine-none = record { holds = tt }

  pub Fine-some : (o : Outcome) → Allows P o → Fine P (some o)
  Fine-some o h = record { holds = h }

  pub Fine-refuse : (m : Menu) → Fine P (refuse_with m)
  Fine-refuse m = record { holds = (tt, (tt, tt)) }

  pub Fine-start : {op : Operation} {m : Menu} → P op → Fine P (start op m)
  Fine-start h = record { holds = (tt, (tt, (h, tt))) }

  pub Fine-or_else : {x y : Option Outcome} → Fine P x → Fine P y → Fine P (x or_else y)
  Fine-or_else {x = none} h k = k
  Fine-or_else {x = some o} h k = h

pub ne_of_eqb : (a b : Text) → eqb a b ≡ false → a ≢ b
ne_of_eqb a b h e = cc ((eqb_iff a b).1 e)

module _ (w : World) where
  pub reserved_parts :
      (t : Text) → is_in t reserved ≡ false → (t ≢ codes "local") × (t ≢ codes "smart")
  unfolding is_in
  reserved_parts t h =
      (ne_of_eqb t (codes "local") (ground arith), ne_of_eqb t (codes "smart") (ground arith))

  -- The test lets exactly the targets pass.
  pub valid-IsTarget : (t : Text) → valid_rule_target w t ≡ true → IsTarget w t
  unfolding valid_rule_target is_in
  valid-IsTarget t h = elim (Bool-cases (is_in t (codes "direct" ∷ codes "block" ∷ []))) [
    | inl e ↦ inl (fixed e)
    | inr e ↦
        let (f, g) = and_parts (not (is_in t reserved)) (is_in t (exit_names w)) (rw e at h) in
        let (a, b) = reserved_parts t (ground (arith, f)) in inr (g, a, b)
  ]
    where
      fixed :
          is_in t (codes "direct" ∷ codes "block" ∷ []) ≡ true
          → (t ≡ codes "direct") ⊎ (t ≡ codes "block")
      fixed e = elim (or_parts (eqb t (codes "direct")) _ e) [
        | inl f ↦ inl ((eqb_iff t (codes "direct")).0 f)
        | inr f ↦ inr ((eqb_iff t (codes "block")).0 (ground arith))
      ]

IsCategory-nth :
    (n : ℕ) (es : List (Text × Text)) (c t : Text) → nth n es ≡ some (c, t) → IsCategory c es
IsCategory-nth n [] c t h = cc
IsCategory-nth zero ((k, v) ∷ es) c t h = inl cc
IsCategory-nth (suc n) ((k, v) ∷ es) c t h = inr (IsCategory-nth n es c t h)

pub entry_of-IsCategory :
    (i : Option ℤ) (es : List (Text × Text)) (n : ℕ) (c : Text)
    → entry_of i es ≡ some (n, c)
    → IsCategory c es
unfolding entry_of
entry_of-IsCategory none es n c h = cc
entry_of-IsCategory (some (negsuc k)) es n c h = cc
entry_of-IsCategory (some (pos k)) es n c h = elim (Option-cases (nth k es)) [
  | inl e ↦ cc (rw (e, entry_of) at h)
  | inr (found, e) ↦
      let same : found.0 ≡ c = cc (rw (e, entry_of) at h) in
      subst (λ x. IsCategory x es) same (IsCategory-nth k es found.0 found.1 e)
]
