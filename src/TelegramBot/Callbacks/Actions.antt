-- ===== src/TelegramBot/Callbacks/Actions.antt =====
-- The branches of `handle_callback` in tgbot.py that start an operation.
use gpn.Prelude.{
  ℕ, zero, suc, Bool, false, not, ◌&&◌, ◌||◌, List, [], ◌∷◌, ◌++◌, Option, none, some, ◌==◌, leb,
  drop, is_empty, ℤ, pos, if◌then◌else◌,
}
use gpn.Text.{Text, codes, Unicode, is_within}
use gpn.Text.Equality.{eqb, is_in}
use gpn.Text.Number.{int_of}
use gpn.Text.Search.{starts_with}
use gpn.Text.Split.{cut}
use gpn.Regex.{Regex, chars, alt, seq, up_to, char, lit, full_match}
use gpn.TelegramBot.Session.{
  Pending, rule_import_url, gfwl_set_url, rule_value, rule_target, World, exit_names, no_keyboard,
  rules_menu, policy_menu, firewall_menu, firewall_del_menu, gfwlist_menu, gfwlist_del_menu,
  rule_type_menu, final_target_menu, policy_targets_menu, main_menu, back_kb, op_status,
  op_firewall_status, op_show_rules, op_gfwlist_show, op_refresh_rulesets, op_check_exits,
  op_update_rules, op_renew_cert, op_restart_services, op_ios_send, op_add_rule, op_gfwlist_del,
  op_firewall_del_port_key, op_logs, op_set_final, op_set_exit, op_del_exit, op_set_policy, edit,
  raise, perform, edit_async, keep, clear, become, Outcome, valid_rule_target, reserved, rule_types,
  services, categories, Menu, Operation, rules_menu_itself,
}

-- A refusal, and an operation whose answer replaces the page.
abbrev pub refuse_with : Menu → Option Outcome
refuse_with m = some (keep, edit m ∷ [])

abbrev pub start : Operation → Menu → Option Outcome
start op m = some (keep, edit no_keyboard ∷ edit_async op m ∷ [])

-- `[0-9]{1,5}/(?:tcp|udp)`
unfoldable pub port_key_re : Regex
port_key_re =
    let digit = chars (is_within b'0' b'9') in
    seq digit (seq (up_to 4 digit) (seq (char b'/') (alt (lit (codes "tcp")) (lit (codes "udp")))))

abbrev pub is_port : Option ℤ → Bool
is_port (some (pos n)) = leb 1 n && leb n 65535
is_port _ = false

-- the last part of `rsplit(":", 1)`; the flag says that a ":" was met
unfoldable pub after_last : ℕ → Text → Option Text
after_last sep [] = none
after_last sep (c ∷ s) = elim (after_last sep s) [
  | some t ↦ some t
  | none ↦ if c == sep then some s else none
]

abbrev pub last_part : ℕ → Text → Text
last_part sep s = elim (after_last sep s) [ none ↦ s | some t ↦ t ]

-- the entry at an index that is within the list: `pm[idx]`
abbrev pub nth : ℕ → List (Text × Text) → Option (Text × Text)
nth n [] = none
nth zero (e ∷ es) = some e
nth (suc n) (e ∷ es) = nth n es

-- `0 <= idx < len(pm)`, and the index and the category there
unfoldable pub entry_of : Option ℤ → List (Text × Text) → Option (ℕ × Text)
entry_of (some (pos n)) entries = elim (nth n entries) [ none ↦ none | some (c, t) ↦ some (n, c) ]
entry_of _ entries = none

module _ ⦃u : Unicode⦄ where
  unfoldable pub fw_del : Text → Option Outcome
  unfolding full_match port_key_re int_of cut eqb
  fw_del key =
      if not (full_match port_key_re key)
      then refuse_with firewall_del_menu
      else if not (is_port (int_of (cut b'/' key).0))
      then refuse_with firewall_del_menu
      else if eqb key (codes "22/tcp")
      then refuse_with firewall_del_menu
      else start (op_firewall_del_port_key key) firewall_del_menu

  unfoldable pub port_actions : Text → Option Outcome
  unfolding eqb starts_with fw_del
  port_actions d =
      if eqb d (codes "fw:status")
      then start op_firewall_status firewall_menu
      else if starts_with (codes "fw_del:") d
      then fw_del (drop 7 d)
      else none

-- `"%s,%s,%s" % (typ, value, target)`
abbrev pub rule_line : Text → Text → Text → Text
rule_line typ value target = typ ++ (b',' ∷ (value ++ (b',' ∷ target)))

unfoldable pub rule_type : Text → Option Outcome
unfolding is_in
rule_type typ =
    if not (is_in typ rule_types)
    then refuse_with rules_menu
    else some (become (rule_value typ), edit no_keyboard ∷ [])

unfoldable pub add_chosen : World → Text → Text → Text → Option Outcome
add_chosen w typ value target =
    if not (is_in typ rule_types) || is_empty value
    then refuse_with rules_menu
    else if not (valid_rule_target w target)
    then refuse_with rules_menu
    else some (
      clear,
      edit no_keyboard
          ∷ edit_async (op_add_rule (rule_line typ value target)) (back_kb (codes "menu:rules"))
          ∷ [],
    )

unfoldable pub choose_target : World → Option Pending → Text → Option Outcome
unfolding add_chosen after_last
choose_target w (some (rule_target typ value)) d = add_chosen w typ value (last_part b':' d)
choose_target w _ d = refuse_with rules_menu

-- The name `PRESETS` is bound nowhere, so both of its uses raise a `NameError`.
unfoldable pub quick_add : World → Option Pending → Text → Option Outcome
unfolding eqb starts_with rule_type choose_target
quick_add w pending d =
    if eqb d (codes "rules:quick_add")
    then some (keep, edit rule_type_menu ∷ [])
    else if eqb d (codes "rules:import_set")
    then some (become rule_import_url, edit no_keyboard ∷ [])
    else if eqb d (codes "rules:refresh")
    then start op_refresh_rulesets (back_kb (codes "menu:rules"))
    else if eqb d (codes "rules:presets")
    then some (keep, raise ∷ [])
    else if starts_with (codes "preset:") d
    then some (keep, raise ∷ [])
    else if starts_with (codes "rt:") d
    then rule_type (drop 3 d)
    else if starts_with (codes "rta:") d
    then choose_target w pending d
    else none

unfoldable pub gfwlist_actions : Text → Option Outcome
unfolding eqb starts_with
gfwlist_actions d =
    if eqb d (codes "gfwl:import_set")
    then some (become gfwl_set_url, edit no_keyboard ∷ [])
    else if eqb d (codes "gfwl:show")
    then some (keep, perform op_gfwlist_show gfwlist_menu ∷ [])
    else if starts_with (codes "gfwl_del:") d
    then start (op_gfwlist_del (drop 9 d)) gfwlist_del_menu
    else none

unfoldable pub show_logs : Text → Option Outcome
unfolding is_in
show_logs svc =
    if not (is_in svc services)
    then refuse_with (back_kb (codes "menu:logs"))
    else start (op_logs svc) (back_kb (codes "menu:logs"))

unfoldable pub views : Text → Option Outcome
unfolding eqb starts_with show_logs
views d =
    if eqb d (codes "rules:show")
    then some (keep, perform op_show_rules (back_kb (codes "menu:rules")) ∷ [])
    else if eqb d (codes "act:status")
    then some (keep, perform op_status (back_kb (codes "menu:main")) ∷ [])
    else if starts_with (codes "logs:") d
    then show_logs (drop 5 d)
    else if eqb d (codes "exits:check")
    then start op_check_exits (back_kb (codes "menu:exits"))
    else none

unfoldable pub set_final : World → Text → Option Outcome
set_final w target =
    if not (valid_rule_target w target)
    then refuse_with rules_menu
    else start (op_set_final target) rules_menu_itself

unfoldable pub set_exit : World → Text → Option Outcome
unfolding eqb is_in
set_exit w name =
    if not (eqb name (codes "local")) && not (is_in name (exit_names w))
    then refuse_with (back_kb (codes "menu:exits"))
    else start (op_set_exit name) (back_kb (codes "menu:exits"))

unfoldable pub del_exit : World → Text → Option Outcome
unfolding is_in
del_exit w name =
    if is_in name reserved || not (is_in name (exit_names w))
    then refuse_with (back_kb (codes "menu:exits"))
    else start (op_del_exit name) (back_kb (codes "menu:exits"))

unfoldable pub exit_actions : World → Text → Option Outcome
unfolding eqb starts_with set_final set_exit del_exit
exit_actions w d =
    if eqb d (codes "act:update_rules")
    then start op_update_rules (back_kb (codes "menu:main"))
    else if eqb d (codes "act:renew")
    then start op_renew_cert (back_kb (codes "menu:main"))
    else if eqb d (codes "act:restart")
    then start op_restart_services (back_kb (codes "menu:main"))
    else if eqb d (codes "rules:set_final")
    then some (keep, edit final_target_menu ∷ [])
    else if starts_with (codes "fin:") d
    then set_final w (drop 4 d)
    else if eqb d (codes "rules:enable")
    then start (op_set_exit (codes "smart")) (back_kb (codes "menu:rules"))
    else if starts_with (codes "exit:") d
    then set_exit w (drop 5 d)
    else if starts_with (codes "exitdel:") d
    then del_exit w (drop 8 d)
    else if eqb d (codes "act:ios")
    then start op_ios_send main_menu
    else none

module _ ⦃u : Unicode⦄ where
  abbrev pub category_page : Option (ℕ × Text) → Option Outcome
  category_page none = refuse_with policy_menu
  category_page (some (i, cat)) = some (keep, edit (policy_targets_menu i) ∷ [])

  unfoldable pub set_policy : World → Option (ℕ × Text) → Text → Option Outcome
  set_policy w none target = refuse_with policy_menu
  set_policy w (some (i, cat)) target =
      if valid_rule_target w target
      then start (op_set_policy cat target) (back_kb (codes "menu:policy"))
      else refuse_with policy_menu

  -- the text behind "ps:", split at its first ":"
  unfoldable pub set_policy_at : World → Text × Option Text → Option Outcome
  unfolding int_of entry_of set_policy
  set_policy_at w (number, none) = refuse_with policy_menu
  set_policy_at w (number, some target) =
      set_policy w (entry_of (int_of number) (categories w)) target

  unfoldable pub policy_actions : World → Text → Option Outcome
  unfolding starts_with cut int_of entry_of set_policy_at
  policy_actions w d =
      if starts_with (codes "pol:") d
      then category_page (entry_of (int_of (cut b':' (drop 4 d)).0) (categories w))
      else if starts_with (codes "ps:") d
      then set_policy_at w (cut b':' (drop 3 d))
      else none
