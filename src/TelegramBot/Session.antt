-- ===== src/TelegramBot/Session.antt =====
-- The state of tgbot.py and what its two handlers answer: `PENDING`, `LAST_FAILED_DOT_DOMAIN` and
-- `BUSY`, `authorized` and `valid_rule_target`. The texts of the answers are left out; a keyboard
-- is the call that makes it.
use gpn.Prelude.{
  ℕ, Bool, true, false, not, ◌&&◌, ◌||◌, List, [], ◌∷◌, ◌≡◌, Option, none, some, ◌==◌, ℤ, pos,
  negsuc, any, arith, if◌then◌else◌,
}
use gpn.Text.{Text, codes}
use gpn.Text.Equality.{is_in}
use gpn.TelegramBot.Names.{parse_exit_names, policy_map}

-- ids of users and chats
abbrev pub same_id : ℤ → ℤ → Bool
same_id (pos m) (pos n) = m == n
same_id (negsuc m) (negsuc n) = m == n
same_id _ _ = false

pub same_id_refl : (i : ℤ) → same_id i i ≡ true
same_id_refl (pos n) = ground arith
same_id_refl (negsuc n) = ground arith

-- The steps of a conversation: the values of `PENDING`.
pub data Pending : Type 0 where
  add_exit_link rules_set rules_add rules_del dot_domain dot_dns_remote dot_dns_local : Pending
  fw_add gfwl_add rule_import_url gfwl_set_url : Pending
  fw_note_text : Text → Pending
  rule_value : Text → Pending
  rule_target : Text → Text → Pending

-- What the handlers read of the files, and the ids in TG_ADMIN_IDS.
pub record World : Type 0 where
  pub admin_ids : List ℤ
  pub exits : Option (List Text)
  pub wireguard : Option (List Text)
  pub policy : Text

abbrev pub exit_names : World → List Text
exit_names w = parse_exit_names w.exits w.wireguard

-- The functions that make a keyboard. `rules_menu_itself` is that function without a call, which
-- is no keyboard: the job that shows it raises when the answer is encoded, after its operation.
pub data Menu : Type 0 where
  no_keyboard main_menu rules_menu policy_menu exits_menu exits_del_menu dot_menu : Menu
  services_menu rules_menu_itself firewall_menu firewall_del_menu firewall_note_menu gfwlist_menu :
      Menu
  gfwlist_del_menu rule_type_menu rule_target_menu final_target_menu force_dot_domain_kb : Menu
  back_kb : Text → Menu
  policy_targets_menu : ℕ → Menu

-- The operations, with what the handlers give them.
pub data Operation : Type 0 where
  op_status op_firewall_status exits_overview_text op_dot_status op_show_rules : Operation
  op_gfwlist_show op_refresh_rulesets op_check_exits op_update_rules op_renew_cert : Operation
  op_restart_services op_ios_send : Operation
  op_set_rules op_add_rule op_del_rule op_set_dot_domain op_force_set_dot_domain : Text → Operation
  op_gfwlist_add op_gfwlist_del op_gfwl_import_set op_firewall_del_port_key : Text → Operation
  op_logs op_set_final op_set_exit op_del_exit get_port_description : Text → Operation
  op_add_exit op_set_dns op_firewall_set_note op_import_ruleset op_set_policy :
      Text → Text → Operation
  op_firewall_add_port : Text → Text → Text → Operation

-- What a handler does besides its changes of `PENDING`, in order. `perform` runs an operation
-- before the handler goes on, `send_async` and `edit_async` leave it to the pool, and the latter
-- marks the message as busy. `raise` is an exception that leaves the handler.
pub data Effect : Type 0 where
  send edit : Menu → Effect
  send_id : ℤ → Effect
  answer refuse raise : Effect
  perform send_async edit_async : Operation → Menu → Effect

-- What a handler does to `PENDING[chat_id]`.
pub data Change : Type 0 where
  keep clear : Change
  become : Pending → Change

abbrev pub Outcome : Type 0
Outcome = Change × List Effect

pub record Bot : Type 0 where
  pub pending : ℤ → Option Pending
  pub last_failed : ℤ → Option Text
  pub busy : ℤ → ℕ → Bool

unfoldable pub empty_bot : Bot
empty_bot = record {
  pending = λ chat. none;
  last_failed = λ chat. none;
  busy = λ chat message. false;
}

-- `d[k] = v`, or `d.pop(k, None)` for `none`
abbrev pub at_id {ℓ} : {A : Type ℓ} → ℤ → A → (ℤ → A) → ℤ → A
at_id i v f j = if same_id i j then v else f j

unfoldable pub change : Change → ℤ → Bot → Bot
change keep chat b = b
change clear chat b = record b { pending = at_id chat none b.pending }
change (become p) chat b = record b { pending = at_id chat (some p) b.pending }

-- `BUSY.add(key)` and `BUSY.discard(key)`
unfoldable pub set_busy : Bool → ℤ → ℕ → Bot → Bot
set_busy v chat message b = record b {
  busy = λ c m. if same_id chat c && message == m then v else b.busy c m;
}

pub record Chat : Type 0 where
  pub id : ℤ
  pub is_private : Bool

unfoldable pub id_in : Option ℤ → List ℤ → Bool
id_in none ids = false
id_in (some uid) ids = any (same_id uid) ids

unfoldable pub authorized : World → Option ℤ → Chat → Bool
unfolding id_in
authorized w uid chat = if not chat.is_private then false else id_in uid w.admin_ids

abbrev pub reserved : List Text
reserved = codes "local" ∷ codes "smart" ∷ []

unfoldable pub valid_rule_target : World → Text → Bool
unfolding is_in parse_exit_names
valid_rule_target w target =
    is_in target (codes "direct" ∷ codes "block" ∷ [])
    || not (is_in target reserved) && is_in target (exit_names w)

abbrev pub rule_types : List Text
rule_types =
    codes "DOMAIN"
    ∷ codes "DOMAIN-SUFFIX"
    ∷ codes "DOMAIN-KEYWORD"
    ∷ codes "IP-CIDR"
    ∷ codes "IP-CIDR6"
    ∷ codes "GEOSITE"
    ∷ codes "GEOIP"
    ∷ []

abbrev pub services : List Text
services =
    codes "dnsdist"
    ∷ codes "sniproxy"
    ∷ codes "quic-proxy"
    ∷ codes "china-dns-race-proxy"
    ∷ codes "proxy-gateway-ios-profile"
    ∷ codes "proxy-gateway-tgbot"
    ∷ []

abbrev pub categories : World → List (Text × Text)
categories w = policy_map w.policy
