-- ===== src/TelegramBot/Messages/Safety.antt =====
-- What a message to tgbot.py can start: `handle_message` by the step that the chat is in.
use gpn.Prelude.{
  Bool, true, false, ◌∷◌, ◌++◌, ◌≡◌, ◌⊎◌, inl, inr, refl, Option, none, some, All, is_empty,
  Bool-cases, if◌then◌else◌, ==_iff, ◌∙◌, ap, append_assoc,
}
use gpn.Text.{Text, codes, Unicode, lower}
use gpn.Text.Search.{starts_with}
use gpn.Text.Split.{cut}
use gpn.Text.Strip.{strip}
use gpn.Regex.{full_match}
use gpn.ExitConfig.Library.{Library}
use gpn.TelegramBot.Callbacks.Safety.{SoundStep, Allows, Runs}
use gpn.TelegramBot.Input.{Added, added, refused, raised, parse_add_exit_input, split_once}
use gpn.TelegramBot.Messages.{add_port, add_port_parts, protocol, converse, port_re, add_exit}
use gpn.TelegramBot.Input.Names.{IsNewName, HasNewName, parse_add_exit_input-HasNewName}
use gpn.TelegramBot.Session.{
  Pending, add_exit_link, rules_set, rules_add, rules_del, dot_domain, dot_dns_remote,
  dot_dns_local, fw_add, gfwl_add, rule_import_url, gfwl_set_url, fw_note_text, rule_value,
  rule_target, World, exit_names, Operation, Outcome, op_status, op_firewall_status,
  exits_overview_text, op_add_exit, op_set_rules, op_add_rule, op_del_rule, op_set_dot_domain,
  op_set_dns, op_firewall_add_port, op_firewall_set_note, op_gfwlist_add, op_import_ruleset,
  op_gfwl_import_set,
}
use gpn.Regex.Language.{Lang, full_match-Lang}
use gpn.Text.Split.Pieces.{cut-some}
use gpn.TelegramBot.Names.{parse_exit_names}

-- What a message may start: in the step that asks for it, with the text of the message.
module _ ⦃u : Unicode⦄ where
  abbrev pub MayAsk : Option Pending → Text → Operation → Type 0
  MayAsk pending text op_status = Unit
  MayAsk pending text op_firewall_status = Unit
  MayAsk pending text exits_overview_text = Unit
  MayAsk pending text (op_add_exit n c) = (pending ≡ some add_exit_link) × IsNewName n
  MayAsk pending text (op_set_rules t) = (pending ≡ some rules_set) × (strip t ≡ text)
  MayAsk pending text (op_add_rule t) = (pending ≡ some rules_add) × (t ≡ text)
  MayAsk pending text (op_del_rule t) = (pending ≡ some rules_del) × (t ≡ text)
  MayAsk pending text (op_set_dot_domain t) = (pending ≡ some dot_domain) × (t ≡ text)
  MayAsk pending text (op_set_dns k t) =
      ((pending ≡ some dot_dns_remote) × (k ≡ codes "remote") × (t ≡ text))
      ⊎ ((pending ≡ some dot_dns_local) × (k ≡ codes "local") × (t ≡ text))
  MayAsk pending text (op_firewall_add_port p t n) =
      (pending ≡ some fw_add) × ((t ≡ codes "tcp") ⊎ (t ≡ codes "udp"))
  MayAsk pending text (op_firewall_set_note k n) =
      (pending ≡ some (fw_note_text k)) × (n ≡ strip text)
  MayAsk pending text (op_gfwlist_add d) = (pending ≡ some gfwl_add) × (d ≡ strip text)
  MayAsk pending text (op_import_ruleset d t) =
      (pending ≡ some rule_import_url) × (d ≡ strip text) × (t ≡ codes "Proxy")
  MayAsk pending text (op_gfwl_import_set d) = (pending ≡ some gfwl_set_url) × (d ≡ strip text)
  MayAsk pending text _ = ⊥

  -- what the outcome of a step may be
  abbrev pub Asks : Option Pending → Text → Outcome → Type 0
  Asks pending text = Allows (MayAsk pending text)

  add_exit-Asks :
      (lib : Library) (fragment : Text → Option Text) (w : World) (raw text : Text) (a : Added)
      → HasNewName a
      → Asks (some add_exit_link) text (add_exit lib fragment w raw text a)
  add_exit-Asks lib fragment w raw text (added n c) h = (tt, (tt, ((refl, h), tt)))
  add_exit-Asks lib fragment w raw text refused h = (tt, (tt, tt))
  add_exit-Asks lib fragment w raw text raised h = (tt, (tt, tt))

  new_name :
      (lib : Library) (fragment : Text → Option Text) (w : World) (raw : Text)
      → HasNewName (parse_add_exit_input lib fragment (exit_names w) raw)
  unfolding parse_exit_names
  new_name lib fragment w raw = parse_add_exit_input-HasNewName lib fragment _ raw

  -- A text that the expression takes has a "/".
  port_slash : (s : Text) → Lang port_re s → (a : Text) × (b : Text) × (s ≡ a ++ b'/' ∷ b)
  unfolding port_re
  port_slash s (t, u, e, (d, r, f, _, (p, q, g, (c, i, j), _)), _) =
      let slash : c ≡ b'/' = (==_iff c b'/').0 j in
      let front : t ≡ d ++ b'/' ∷ q = rw (f, g, i, slash) refl in
      (d, q ++ u, e ∙ (ap (λ x. x ++ u) front ∙ append_assoc d (b'/' ∷ q) u))

  protocol-port :
      (s : Text)
      → full_match port_re s ≡ true
      → (protocol (cut b'/' s).1 ≡ codes "tcp") ⊎ (protocol (cut b'/' s).1 ≡ codes "udp")
  protocol-port s h =
      let (a, b, e) = port_slash s ((full_match-Lang port_re s).0 h) in
      let (r, f) = cut-some b'/' a b in rw (e, f) (either (starts_with (codes "tcp") r))
    where
      either :
          (x : Bool)
          → ((if x then codes "tcp" else codes "udp") ≡ codes "tcp")
            ⊎ ((if x then codes "tcp" else codes "udp") ≡ codes "udp")
      either true = inl refl
      either false = inr refl

  add_port-Asks :
      (text first : Text) (rest : Option Text)
      → All (Runs (MayAsk (some fw_add) text)) (add_port first rest)
  unfolding add_port
  add_port-Asks text first rest = elim (Bool-cases (full_match port_re (lower (strip first)))) [
    | inl e ↦ rw e (tt, ((refl, protocol-port (lower (strip first)) e), tt))
    | inr e ↦ rw e (tt, tt)
  ]

  add_port_parts-Asks :
      (text : Text) (parts : Option (Text × Option Text))
      → All (Runs (MayAsk (some fw_add) text)) (add_port_parts parts)
  add_port_parts-Asks text none = (tt, tt)
  add_port_parts-Asks text (some (a, b)) = add_port-Asks text a b

  pub converse-Asks :
      (lib : Library) (fragment : Text → Option Text) (w : World) (raw : Text) (p : Option Pending)
      → SoundStep p
      → Asks p (strip raw) (converse lib fragment w raw (strip raw) p)
  unfolding converse
  converse-Asks lib fragment w raw none s = (tt, (tt, tt))
  converse-Asks lib fragment w raw (some add_exit_link) s =
      add_exit-Asks lib fragment w raw (strip raw)
        (parse_add_exit_input lib fragment (exit_names w) raw) (new_name lib fragment w raw)
  converse-Asks lib fragment w raw (some rules_set) s = (tt, (tt, ((refl, refl), tt)))
  converse-Asks lib fragment w raw (some rules_add) s = (tt, (tt, ((refl, refl), tt)))
  converse-Asks lib fragment w raw (some rules_del) s = (tt, ((refl, refl), tt))
  converse-Asks lib fragment w raw (some dot_domain) s = (tt, (tt, ((refl, refl), tt)))
  converse-Asks lib fragment w raw (some dot_dns_remote) s =
      (tt, (tt, (inl (refl, refl, refl), tt)))
  converse-Asks lib fragment w raw (some dot_dns_local) s = (tt, (tt, (inr (refl, refl, refl), tt)))
  converse-Asks lib fragment w raw (some fw_add) s =
      (tt, add_port_parts-Asks (strip raw) (split_once (strip raw)))
  converse-Asks lib fragment w raw (some (fw_note_text key)) s = (tt, ((refl, refl), tt))
  converse-Asks lib fragment w raw (some gfwl_add) s = (tt, (tt, ((refl, refl), tt)))
  converse-Asks lib fragment w raw (some (rule_value typ)) s =
      elim (Bool-cases (is_empty (strip (strip raw)))) [
        | inl e ↦ rw e (tt, (tt, tt))
        | inr e ↦ rw e ((s, e), (tt, tt))
      ]
  converse-Asks lib fragment w raw (some (rule_target typ v)) s = (tt, (tt, tt))
  converse-Asks lib fragment w raw (some rule_import_url) s = (tt, (tt, ((refl, refl, refl), tt)))
  converse-Asks lib fragment w raw (some gfwl_set_url) s = (tt, (tt, ((refl, refl), tt)))
