-- ===== src/TelegramBot/Firewall/Closing.antt =====
-- Which rule tgbot.py deletes to close a port, and when it can delete none.
use gpn.Prelude.{
  ℕ, Bool, true, false, List, [], ◌∷◌, ◌≡◌, ◌≢◌, ◌⊎◌, inl, inr, refl, sym, ap, ◌∙◌, Option, none,
  some, any, All, All-append, Bool-cases, Option-cases, arith, if◌then◌else◌, ◌==◌,
}
use gpn.Prelude.Dict.{Dict}
use gpn.Text.{Text, codes, Unicode}
use gpn.Text.Equality.{eqb, eqb_iff, is_in}
use gpn.Text.Split.{splitlines}
use gpn.TelegramBot.Firewall.{
  Port, find_key, close_port, close_handle, del_rule, op_firewall_del_port_key, entry_for,
}
use gpn.TelegramBot.Firewall.Rules.{
  Match, Expr, Rule, Scope, entries, match_step, match_steps, rule_steps, input_rules, json_ports,
  line_entries, line_ports, find_handle, text_ports, parse_nft_open_ports,
}

abbrev pub IsNoPort : Option Match → Type 0
IsNoPort none = Unit
IsNoPort (some m) = is_in m.protocol (codes "tcp" ∷ codes "udp" ∷ []) ≡ false

-- No match of the rule is one on a port.
abbrev pub HasNoPort : List Expr → Type 0
HasNoPort [] = Unit
HasNoPort (e ∷ es) = IsNoPort e.matching × HasNoPort es

-- The rules before the first that accepts do not accept, and that one names no port.
abbrev pub LeadsWithNoPort : List Rule → Type 0
LeadsWithNoPort [] = Unit
LeadsWithNoPort (r ∷ rs) =
    if any (λ (e : Expr). e.accept) r.expr then HasNoPort r.expr else LeadsWithNoPort rs

-- A port of the list whose key and handle are given.
abbrev pub HasRule : Text → ℕ → List Port → Type 0
HasRule key h [] = ⊥
HasRule key h (p ∷ ps) = ((p.key ≡ key) × (p.handle ≡ some h)) ⊎ HasRule key h ps

-- The port whose key is given has no handle to delete it by, or none has the key.
abbrev pub Unreachable : Text → List Port → Type 0
Unreachable key ports =
    (find_key key ports ≡ none)
    ⊎ ((p : Port) × (find_key key ports ≡ some p) × ((p.handle ≡ none) ⊎ (p.handle ≡ some 0)))

-- Nothing is called, as the key is that of SSH or the port is out of reach; or one rule is deleted:
-- that of an open port with the key, which is not SSH.
abbrev pub IsClosing : List Port → Text → List (List Text) → Type 0
IsClosing ports key calls =
    ((calls ≡ []) × ((key ≡ codes "22/tcp") ⊎ Unreachable key ports))
    ⊎ ((key ≢ codes "22/tcp") × (h : ℕ) × HasRule key h ports × (calls ≡ del_rule h ∷ []))

find_key-HasRule :
    (key : Text) (ps : List Port) (p : Port) (h : ℕ)
    → find_key key ps ≡ some p
    → p.handle ≡ some h
    → HasRule key h ps
unfolding find_key
find_key-HasRule key [] p h e f = cc
find_key-HasRule key (q ∷ ps) p h e f = elim (Bool-cases (eqb q.key key)) [
  | inl g ↦
      let same : q ≡ p = cc (rw g at e) in
      inl ((eqb_iff q.key key).0 g, ap (λ (x : Port). x.handle) same ∙ f)
  | inr g ↦ inr (find_key-HasRule key ps p h (rw g at e) f)
]

ne_key : (key : Text) → eqb key (codes "22/tcp") ≡ false → key ≢ codes "22/tcp"
ne_key key h e = cc ((eqb_iff key (codes "22/tcp")).1 e)

zero_of : (h : ℕ) → (h == 0) ≡ true → h ≡ 0
zero_of h e = ground arith

by_handle :
    (ports : List Port) (ok : Bool) (notes : Dict Text) (key : Text) (p : Port)
    → key ≢ codes "22/tcp"
    → find_key key ports ≡ some p
    → IsClosing ports key (close_handle p.handle ok notes).calls
by_handle ports ok notes key p k f = elim (Option-cases p.handle) [
  | inl g ↦ rw g (inl (refl, inr (inr (p, f, inl g))))
  | inr (h, g) ↦ rw g (elim (Bool-cases (h == 0)) [
    | inl z ↦ rw z (inl (refl, inr (inr (p, f, inr (g ∙ ap (λ x. some x) (zero_of h z))))))
    | inr z ↦ rw z (inr (k, h, find_key-HasRule key ports p h f g, refl))
  ])
]

by_port :
    (ports : List Port) (ok : Bool) (notes : Dict Text) (key : Text) (o : Option Port)
    → key ≢ codes "22/tcp"
    → find_key key ports ≡ o
    → IsClosing ports key (close_port o ok notes).calls
by_port ports ok notes key none k f = inl (refl, inr (inl f))
by_port ports ok notes key (some p) k f = by_handle ports ok notes key p k f

-- To close a port is to delete the one rule of an open port with that very key, which is not the
-- key of SSH. Nothing is called only for SSH, for a key that no open port has, and for a port whose
-- handle is not known.
pub op_firewall_del_port_key-IsClosing :
    (ports : List Port) (ok : Bool) (notes : Dict Text) (key : Text)
    → IsClosing ports key (op_firewall_del_port_key ports ok notes key).calls
unfolding op_firewall_del_port_key
op_firewall_del_port_key-IsClosing ports ok notes key =
    elim (Bool-cases (eqb key (codes "22/tcp"))) [
      | inl e ↦ rw e (inl (refl, inl ((eqb_iff key (codes "22/tcp")).0 e)))
      | inr e ↦ rw e (by_port ports ok notes key (find_key key ports) (ne_key key e) refl)
    ]

match_steps-IsNoPort :
    (listening notes : Dict Text) (h : Option ℕ) (m : Option Match) (s : Scope)
    → IsNoPort m
    → ((match_step listening notes h m s).ports ≡ s.ports)
      × ((match_step listening notes h m s).found ≡ s.found)
unfolding match_step
match_steps-IsNoPort listening notes h none s k = (refl, refl)
match_steps-IsNoPort listening notes h (some m) s k = rw k (refl, refl)

match_steps-HasNoPort :
    (listening notes : Dict Text) (h : Option ℕ) (es : List Expr) (s : Scope)
    → HasNoPort es
    → ((match_steps listening notes h es s).ports ≡ s.ports)
      × ((match_steps listening notes h es s).found ≡ s.found)
unfolding match_steps
match_steps-HasNoPort listening notes h [] s k = (refl, refl)
match_steps-HasNoPort listening notes h (e ∷ es) s k =
    let (a, b) = match_steps-IsNoPort listening notes h e.matching s k.0 in
    let (c, d) =
      match_steps-HasNoPort listening notes h es (match_step listening notes h e.matching s) k.1 in
    (c ∙ a, d ∙ b)

rule_steps-Leads :
    (listening notes : Dict Text) (rs : List Rule) (s : Scope)
    → LeadsWithNoPort rs
    → s.ports ≡ none
    → s.found ≡ []
    → rule_steps listening notes rs s ≡ []
unfolding rule_steps
rule_steps-Leads listening notes [] s k a b = b
rule_steps-Leads listening notes (r ∷ rs) s k a b =
    elim (Bool-cases (any (λ (e : Expr). e.accept) r.expr)) [
      | inl f ↦
          let (c, d) = match_steps-HasNoPort listening notes r.handle r.expr s (rw f at k) in
          rw f (rw (c ∙ a) (d ∙ b))
      | inr f ↦ rw f (rule_steps-Leads listening notes rs s (rw f at k) a b)
    ]

abbrev NoHandle : Port → Type 0
NoHandle p = p.handle ≡ none

entries-NoHandle :
    (listening notes : Dict Text) (proto : Text) (ps : List Text)
    → All NoHandle (entries listening notes none proto ps)
unfolding entry_for
entries-NoHandle listening notes proto [] = tt
entries-NoHandle listening notes proto (p ∷ ps) = (refl, entries-NoHandle listening notes proto ps)

module _ ⦃u : Unicode⦄ (listening notes : Dict Text) where
  line_entries-NoHandle :
      (line : Text) (o : Option (Text × List Text))
      → find_handle listening notes line ≡ none
      → All NoHandle (line_entries listening notes line o)
  line_entries-NoHandle line none h = tt
  line_entries-NoHandle line (some (proto, ps)) h = rw h (entries-NoHandle listening notes proto ps)

  text_ports-NoHandle :
      (ls : List Text)
      → All (λ l. find_handle listening notes l ≡ none) ls
      → All NoHandle (text_ports listening notes ls)
  unfolding text_ports
  text_ports-NoHandle [] h = tt
  text_ports-NoHandle (l ∷ ls) h =
      All-append NoHandle (line_entries listening notes l (line_ports listening notes l))
        (text_ports listening notes ls) (line_entries-NoHandle l (line_ports listening notes l) h.0)
        (text_ports-NoHandle ls h.1)

  find_key-NoHandle :
      (key : Text) (ps : List Port) (p : Port)
      → All NoHandle ps
      → find_key key ps ≡ some p
      → p.handle ≡ none
  unfolding find_key
  find_key-NoHandle key [] p h e = cc
  find_key-NoHandle key (q ∷ ps) p h e = elim (Bool-cases (eqb q.key key)) [
    | inl g ↦ let same : q ≡ p = cc (rw g at e) in sym (ap (λ (x : Port). x.handle) same) ∙ h.0
    | inr g ↦ find_key-NoHandle key ps p h.1 (rw g at e)
  ]

  no_close :
      (ports : List Port) (ok : Bool) (key : Text)
      → All NoHandle ports
      → (op_firewall_del_port_key ports ok notes key).calls ≡ []
  unfolding op_firewall_del_port_key
  no_close ports ok key h = elim (Bool-cases (eqb key (codes "22/tcp"))) [
    | inl e ↦ rw e refl
    | inr e ↦ rw e (elim (Option-cases (find_key key ports)) [
      | inl f ↦ rw f refl
      | inr (p, f) ↦ rw f (rw (find_key-NoHandle key ports p h f) refl)
    ])
  ]

  -- Where the first rule of the chain that accepts names no port, as one for the loopback device,
  -- and no line of the text of the chain shows a handle, no port can be closed: whatever the key
  -- is, nothing is called.
  pub closing_never_works :
      (rules : List Rule) (out : Text) (ok : Bool) (key : Text)
      → LeadsWithNoPort (input_rules listening notes rules)
      → All (λ l. find_handle listening notes l ≡ none) (splitlines out)
      → (op_firewall_del_port_key
          (parse_nft_open_ports listening notes (some rules) (some out))
          ok
          notes
          key).calls
        ≡ []
  unfolding parse_nft_open_ports json_ports
  closing_never_works rules out ok key h k = no_close _ ok key (
      rw
        (rule_steps-Leads listening notes (input_rules listening notes rules)
          (record { ports = none; proto = []; found = [] }) h refl refl)
        (text_ports-NoHandle (splitlines out) k))
