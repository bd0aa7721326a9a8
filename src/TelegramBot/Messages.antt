-- ===== src/TelegramBot/Messages.antt =====
-- `handle_message` of tgbot.py: commands, and the steps of a conversation.
pub mod Safety
use gpn.Prelude.{
  ℕ, Bool, true, false, not, ◌&&◌, ◌||◌, List, [], ◌∷◌, ◌++◌, Option, none, some, ◌==◌, ℤ, is_empty,
  if◌then◌else◌,
}
use gpn.Text.{Text, codes, Unicode, lower}
use gpn.Text.Equality.{eqb}
use gpn.Text.Number.{digit_value}
use gpn.Text.Search.{starts_with, starts_with_any}
use gpn.Text.Split.{cut, join}
use gpn.Text.Strip.{strip}
use gpn.Regex.{Regex, chars, alt, seq, plus, char, lit, at_end, full_match}
use gpn.ExitConfig.Library.{Library}
use gpn.TelegramBot.Input.{Added, added, refused, raised, parse_add_exit_input, split_once}
use gpn.TelegramBot.Session.{
  Pending, add_exit_link, rules_set, rules_add, rules_del, dot_domain, dot_dns_remote,
  dot_dns_local, fw_add, gfwl_add, rule_import_url, gfwl_set_url, fw_note_text, rule_value,
  rule_target, World, exit_names, no_keyboard, main_menu, rules_menu, exits_menu, dot_menu,
  firewall_menu, gfwlist_menu, rule_target_menu, Operation, op_status, op_firewall_status,
  exits_overview_text, op_add_exit, op_set_rules, op_add_rule, op_del_rule, op_set_dot_domain,
  op_set_dns, op_firewall_add_port, op_firewall_set_note, op_gfwlist_add, op_import_ruleset,
  op_gfwl_import_set, Effect, send, send_id, raise, perform, send_async, Change, keep, clear,
  become, Outcome, Bot, change, Chat, authorized,
}

pub record Message : Type 0 where
  pub chat : Chat
  pub sender : Option ℤ
  pub text : Option Text

abbrev pub text_or_empty : Option Text → Text
text_or_empty none = []
text_or_empty (some t) = t

-- `"%d" % uid` of `None` raises
abbrev pub own_id : Option ℤ → Effect
own_id none = raise
own_id (some uid) = send_id uid

unfoldable pub is_some_digit : Option ℕ → Bool
is_some_digit none = false
is_some_digit (some d) = true

-- a command other than /id and /cancel, behind which `PENDING` is empty
unfoldable pub command : Text → List Effect
unfolding starts_with_any starts_with
command text =
    if starts_with_any (codes "/start" ∷ codes "/menu" ∷ []) text
    then send main_menu ∷ []
    else if starts_with (codes "/status") text
    then perform op_status no_keyboard ∷ []
    else if starts_with (codes "/exits") text
    then send_async exits_overview_text exits_menu ∷ []
    else if starts_with (codes "/rules") text
    then send rules_menu ∷ []
    else if starts_with (codes "/fw") text || starts_with (codes "/firewall") text
    then send_async op_firewall_status firewall_menu ∷ []
    else send no_keyboard ∷ []

module _ ⦃u : Unicode⦄ where
  -- `^(\d+)/(tcp|udp)$`
  unfoldable pub port_re : Regex
  unfolding is_some_digit digit_value
  port_re =
      let proto = alt (lit (codes "tcp")) (lit (codes "udp")) in
      at_end (seq (plus (chars (λ c. is_some_digit (digit_value c)))) (seq (char b'/') proto))

  -- the two groups of a text that the expression matches
  abbrev pub protocol : Option Text → Text
  protocol none = []
  protocol (some s) = if starts_with (codes "tcp") s then codes "tcp" else codes "udp"

  abbrev rest_or_empty : Option Text → Text
  rest_or_empty none = []
  rest_or_empty (some t) = t

  unfoldable pub add_port : Text → Option Text → List Effect
  unfolding lower port_re full_match cut strip
  add_port first rest =
      let port_proto = lower (strip first) in
      let port = (cut b'/' port_proto).0 in
      let proto = protocol (cut b'/' port_proto).1 in
      if not (full_match port_re port_proto)
      then send firewall_menu ∷ []
      else send no_keyboard
        ∷ perform (op_firewall_add_port port proto (rest_or_empty rest)) firewall_menu
        ∷ []

  -- `parts[0]` of no parts raises
  abbrev pub add_port_parts : Option (Text × Option Text) → List Effect
  add_port_parts none = raise ∷ []
  add_port_parts (some (a, b)) = add_port a b

  -- the steps with a state; `raw` is the text of the message as it was sent
  module _ (lib : Library) (fragment : Text → Option Text) (w : World) (raw text : Text) where
    abbrev pub add_exit : Added → Outcome
    add_exit (added name config) =
        (clear, send no_keyboard ∷ send_async (op_add_exit name config) exits_menu ∷ [])
    add_exit refused = (keep, send no_keyboard ∷ [])
    add_exit raised = (keep, raise ∷ [])

    unfoldable pub converse : Option Pending → Outcome
    unfolding parse_add_exit_input split_once add_port
    converse (some add_exit_link) = add_exit (parse_add_exit_input lib fragment (exit_names w) raw)
    converse (some rules_set) =
        (clear, send no_keyboard ∷ send_async (op_set_rules raw) rules_menu ∷ [])
    converse (some rules_add) =
        (clear, send no_keyboard ∷ perform (op_add_rule text) rules_menu ∷ [])
    converse (some rules_del) = (clear, perform (op_del_rule text) rules_menu ∷ [])
    converse (some dot_domain) =
        (clear, send no_keyboard ∷ send_async (op_set_dot_domain text) dot_menu ∷ [])
    converse (some dot_dns_remote) =
        (clear, send no_keyboard ∷ send_async (op_set_dns (codes "remote") text) dot_menu ∷ [])
    converse (some dot_dns_local) =
        (clear, send no_keyboard ∷ send_async (op_set_dns (codes "local") text) dot_menu ∷ [])
    converse (some fw_add) = (clear, add_port_parts (split_once text))
    converse (some (fw_note_text key)) =
        (clear, perform (op_firewall_set_note key (strip text)) firewall_menu ∷ [])
    converse (some gfwl_add) =
        (clear, send no_keyboard ∷ send_async (op_gfwlist_add (strip text)) gfwlist_menu ∷ [])
    converse (some (rule_value typ)) =
        if is_empty (strip text)
        then (keep, send no_keyboard ∷ [])
        else (become (rule_target typ (strip text)), send rule_target_menu ∷ [])
    converse (some (rule_target typ value)) = (clear, send rules_menu ∷ [])
    converse (some rule_import_url) = (
      clear,
      send no_keyboard
          ∷ send_async (op_import_ruleset (strip text) (codes "Proxy")) rules_menu
          ∷ [],
    )
    converse (some gfwl_set_url) =
        (clear, send no_keyboard ∷ send_async (op_gfwl_import_set (strip text)) gfwlist_menu ∷ [])
    converse none = (keep, send no_keyboard ∷ [])

  module _ (lib : Library) (fragment : Text → Option Text) (w : World) where
    -- what the handler does to the chat's state, and its effects
    unfoldable pub message_outcome : Option Pending → Message → Outcome
    message_outcome pending msg =
        let raw = text_or_empty msg.text in
        let text = strip raw in
        if starts_with (codes "/id") text
        then (keep, own_id msg.sender ∷ [])
        else if not (authorized w msg.sender msg.chat)
        then (keep, send no_keyboard ∷ [])
        else if eqb text (codes "/cancel")
        then (clear, send main_menu ∷ [])
        else if starts_with (codes "/") text
        then (clear, command text)
        else converse lib fragment w raw text pending

    unfoldable pub handle_message : Bot → Message → Bot × List Effect
    unfolding message_outcome change
    handle_message b msg =
        let (c, effects) = message_outcome (b.pending msg.chat.id) msg in
        (change c msg.chat.id b, effects)
