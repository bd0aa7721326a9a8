-- ===== src/TelegramBot/Callbacks/Pages.antt =====
-- The branches of `handle_callback` in tgbot.py that show a page or begin a conversation. `none`
-- is a value that no branch of the group takes; `Outcome` is what the branch does.
use gpn.Prelude.{List, [], ◌∷◌, Option, none, some, drop, if◌then◌else◌}
use gpn.Text.{Text, codes}
use gpn.Text.Equality.{eqb}
use gpn.Text.Search.{starts_with}
use gpn.TelegramBot.Session.{
  add_exit_link, rules_set, rules_add, rules_del, dot_domain, dot_dns_remote, dot_dns_local, fw_add,
  gfwl_add, fw_note_text, no_keyboard, main_menu, rules_menu, policy_menu, exits_menu,
  exits_del_menu, dot_menu, services_menu, firewall_menu, firewall_del_menu, firewall_note_menu,
  gfwlist_menu, gfwlist_del_menu, exits_overview_text, op_dot_status, op_show_rules,
  op_force_set_dot_domain, get_port_description, Effect, edit, perform, edit_async, keep, clear,
  become, Outcome,
}

unfoldable pub navigation : Text → Option Outcome
unfolding eqb
navigation d =
    if eqb d (codes "menu:main")
    then some (clear, edit main_menu ∷ [])
    else if eqb d (codes "menu:rules")
    then some (keep, edit rules_menu ∷ [])
    else if eqb d (codes "menu:policy")
    then some (keep, edit policy_menu ∷ [])
    else if eqb d (codes "menu:exits")
    then some (keep, edit no_keyboard ∷ edit_async exits_overview_text exits_menu ∷ [])
    else if eqb d (codes "menu:exits_del")
    then some (keep, edit exits_del_menu ∷ [])
    else if eqb d (codes "menu:dot")
    then some (keep, perform op_dot_status dot_menu ∷ [])
    else if eqb d (codes "menu:logs")
    then some (keep, edit services_menu ∷ [])
    else if eqb d (codes "menu:firewall")
    then some (keep, edit firewall_menu ∷ [])
    else if eqb d (codes "menu:fw_del")
    then some (keep, edit firewall_del_menu ∷ [])
    else if eqb d (codes "menu:fw_note")
    then some (keep, edit firewall_note_menu ∷ [])
    else if eqb d (codes "menu:gfwlist")
    then some (keep, edit gfwlist_menu ∷ [])
    else if eqb d (codes "menu:gfwl_del")
    then some (keep, edit gfwlist_del_menu ∷ [])
    else none

-- `last` is `LAST_FAILED_DOT_DOMAIN.get(chat_id)`
unfoldable pub force_domain : Option Text → List Effect
force_domain none = edit dot_menu ∷ []
force_domain (some []) = edit dot_menu ∷ []
force_domain (some (c ∷ s)) =
    edit no_keyboard ∷ edit_async (op_force_set_dot_domain (c ∷ s)) dot_menu ∷ []

unfoldable pub conversations : Option Text → Text → Option Outcome
unfolding eqb force_domain
conversations last d =
    if eqb d (codes "rules:set")
    then some (become rules_set, edit no_keyboard ∷ [])
    else if eqb d (codes "rules:add")
    then some (become rules_add, edit no_keyboard ∷ [])
    else if eqb d (codes "rules:del")
    then some (become rules_del, perform op_show_rules no_keyboard ∷ [])
    else if eqb d (codes "exit_add")
    then some (become add_exit_link, edit no_keyboard ∷ [])
    else if eqb d (codes "dot:domain")
    then some (become dot_domain, edit no_keyboard ∷ [])
    else if eqb d (codes "dot:dns_remote")
    then some (become dot_dns_remote, edit no_keyboard ∷ [])
    else if eqb d (codes "dot:dns_local")
    then some (become dot_dns_local, edit no_keyboard ∷ [])
    else if eqb d (codes "dot:force_domain")
    then some (keep, force_domain last)
    else none

unfoldable pub port_conversations : Text → Option Outcome
unfolding eqb starts_with
port_conversations d =
    if eqb d (codes "fw:add")
    then some (become fw_add, edit no_keyboard ∷ [])
    else if starts_with (codes "fw_note:") d
    then some (
      become (fw_note_text (drop 8 d)),
      perform (get_port_description (drop 8 d)) no_keyboard ∷ [],
    )
    else if eqb d (codes "gfwl:add")
    then some (become gfwl_add, edit no_keyboard ∷ [])
    else none
