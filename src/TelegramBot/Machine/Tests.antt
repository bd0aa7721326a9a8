-- ===== src/TelegramBot/Machine/Tests.antt =====
-- Updates of an admin and of a stranger, button by button.
use gpn.Prelude.{true, false, List, [], ◌∷◌, ◌≡◌, refl, Option, none, some, pos, All, ℤ, any, arith}
use gpn.Text.{Text, codes, ascii}
use gpn.Text.Search.{starts_with, has}
use gpn.Text.Strip.{strip}
use gpn.Text.Equality.{is_in, eqb}
use gpn.ExitConfig.Library.{Library}
use gpn.TelegramBot.Names.{parse_exit_names}
use gpn.TelegramBot.Session.{
  World, Chat, Bot, authorized, answer, refuse, valid_rule_target, edit_async, op_set_exit, back_kb,
  empty_bot, at_id, perform, rules_menu, edit, no_keyboard, send, rule_target_menu, op_del_rule,
  op_add_rule, rules_del,
}
use gpn.TelegramBot.Callbacks.{Callback, handle_callback, is_async}
use gpn.TelegramBot.Messages.{handle_message, converse}
use gpn.TelegramBot.Machine.{
  handle_update, Reach, next, callback_query, failed_domain, here, op_set_dot_domain, update,
  dot_ends, other_update, set_busy, job_ends,
}
use gpn.TelegramBot.Machine.Safety.{Reach-IsSoundBot, refused_update, Reach-Runs}
use gpn.TelegramBot.Machine.Permits.{IsSoundBot, Permits}
use gpn.TelegramBot.Machine.Busy.{callback_refused, Until, later, none_yet}
use gpn.TelegramBot.Callbacks.Safety.{Runs}
use gpn.TelegramBot.Machine.Loop.{
  Response, Honours, main_loop, next_offset, result, Ascending, main_loop-Ascending, not_ok,
  handle_updates,
}
use gpn.TelegramBot.Machine.Progress.{value_message, quick_updates, quick_add_completes}
use gpn.TelegramBot.Callbacks.Actions.{rule_line}

abbrev no_library : Library
no_library = record {
  urlparse = λ s. none;
  parse_qs = λ q. [];
  unquote = λ s. s;
  urlsafe_b64decode = λ s. none;
  b64decode = λ s. none;
  loads = λ s. none;
  is_address = λ v. false;
  other_is_true = λ s. true;
  other_int = λ s. none;
  other_str = λ s. s;
}

abbrev no_fragment : Text → Option Text
no_fragment s = none

abbrev world : World
world = record {
  admin_ids = pos 7 ∷ [];
  exits = some (codes "us.type" ∷ codes "us.yaml" ∷ []);
  wireguard = none;
  policy = codes "apple direct\n";
}

abbrev chat : Chat
chat = record { id = pos 7; is_private = true }

abbrev button : Option ℤ → Text → Callback
button sender payload = record { chat = chat; message_id = 1; sender = sender; payload = payload }

abbrev admin : Option ℤ
admin = some (pos 7)

abbrev stranger : Option ℤ
stranger = some (pos 8)

-- an exit that exists is chosen, one that does not is refused
exit-us :
    (handle_callback ⦃u = ascii⦄ world empty_bot (button admin (codes "exit:us"))).1
    ≡ answer
      ∷ edit no_keyboard
      ∷ edit_async (op_set_exit (codes "us")) (back_kb (codes "menu:exits"))
      ∷ []
unfolding handle_callback empty_bot parse_exit_names
exit-us = refl

final-smart :
    any is_async (handle_callback ⦃u = ascii⦄ world empty_bot (button admin (codes "fin:smart"))).1
    ≡ false
unfolding handle_callback empty_bot valid_rule_target
final-smart = refl

-- a conversation about the number of a rule
rules_del-two :
    handle_message ⦃u = ascii⦄ no_library no_fragment world
      (record empty_bot { pending = at_id (pos 7) (some rules_del) empty_bot.pending })
      (value_message chat admin (codes "2"))
    ≡ (
      record empty_bot {
        pending = at_id (pos 7) none (at_id (pos 7) (some rules_del) empty_bot.pending);
      },
      perform (op_del_rule (codes "2")) rules_menu ∷ [],
    )
unfolding handle_message empty_bot starts_with strip authorized eqb converse
rules_del-two = refl

refused_update_example :
    (handle_update ⦃u = ascii⦄ no_library no_fragment world empty_bot
      (callback_query (button stranger (codes "exit:us")))).0
    ≡ empty_bot
unfolding authorized
refused_update_example =
    refused_update ⦃u = ascii⦄ no_library no_fragment world empty_bot
      (callback_query (button stranger (codes "exit:us"))) refl

-- two steps: an admin opens a conversation, and a domain fails
abbrev opened : Bot
opened =
    (handle_update ⦃u = ascii⦄ no_library no_fragment world empty_bot
      (callback_query (button admin (codes "rt:DOMAIN")))).0

abbrev failed : Bot
failed = record opened {
  last_failed =
      at_id (pos 7)
        (failed_domain ⦃u = ascii⦄ (op_set_dot_domain ⦃u = ascii⦄ false (codes " A.example. ")))
        opened.last_failed;
}

abbrev run_example : Reach ⦃u = ascii⦄ no_library no_fragment failed
run_example =
    next (next here (update world (callback_query (button admin (codes "rt:DOMAIN")))))
      (dot_ends (pos 7) false (codes " A.example. "))

Reach-IsSoundBot_example : IsSoundBot failed
Reach-IsSoundBot_example = Reach-IsSoundBot ⦃u = ascii⦄ no_library no_fragment run_example

Reach-Runs_example :
    All
      (Runs (Permits ⦃u = ascii⦄ world failed (callback_query (button admin (codes "dot_force")))))
      (handle_update ⦃u = ascii⦄ no_library no_fragment world failed
        (callback_query (button admin (codes "dot_force")))).1
Reach-Runs_example =
    Reach-Runs ⦃u = ascii⦄ no_library no_fragment world failed
      (callback_query (button admin (codes "dot_force"))) run_example

-- a job of the message 1, then a stranger's button, and the end of a job of the message 2
abbrev held : Bot
held = (handle_callback ⦃u = ascii⦄ world empty_bot (button admin (codes "exit:us"))).0

abbrev while_held : Until ⦃u = ascii⦄ no_library no_fragment (pos 7) 1 held (
    set_busy false
      (pos 7)
      2
      (handle_update ⦃u = ascii⦄ no_library no_fragment world held
        (callback_query (button stranger (codes "exit:us")))).0)
while_held =
    later (later none_yet (update world (callback_query (button stranger (codes "exit:us")))) tt)
      (job_ends (pos 7) 2) refl

callback_refused_example :
    let now =
      set_busy false
        (pos 7)
        2
        (handle_update ⦃u = ascii⦄ no_library no_fragment world held
          (callback_query (button stranger (codes "exit:us")))).0 in
    handle_callback ⦃u = ascii⦄
      (record world { exits = none })
      now
      (button admin (codes "menu:main"))
    ≡ (now, refuse ∷ [])
unfolding handle_callback empty_bot parse_exit_names
callback_refused_example =
    callback_refused ⦃u = ascii⦄ no_library no_fragment world empty_bot
      (button admin (codes "exit:us")) (record world { exits = none })
      (set_busy false (pos 7) 2
        (handle_update ⦃u = ascii⦄ no_library no_fragment world held
          (callback_query (button stranger (codes "exit:us")))).0)
      (button admin (codes "menu:main")) refl while_held refl refl

quick_add_completes_example :
    let r =
      handle_updates ⦃u = ascii⦄ no_library no_fragment world empty_bot
        (quick_updates chat admin 1 2 (codes "DOMAIN") (codes "a.com") (codes "us")) in
    (r.0.pending (pos 7) ≡ none)
    × (r.1
        ≡ answer
          ∷ edit no_keyboard
          ∷ send rule_target_menu
          ∷ answer
          ∷ edit no_keyboard
          ∷ edit_async
              (op_add_rule (rule_line (codes "DOMAIN") (codes "a.com") (codes "us")))
              (back_kb (codes "menu:rules"))
          ∷ [])
unfolding authorized empty_bot is_in starts_with strip valid_rule_target has
quick_add_completes_example =
    quick_add_completes ⦃u = ascii⦄ no_library no_fragment world empty_bot chat admin
      (codes "DOMAIN") (codes "a.com") 1 2 (codes "us") refl refl refl refl refl refl refl refl refl

-- an answer with two updates, one that fails, and one with the next update
abbrev responses : List Response
responses =
    result (
      (5, callback_query (button admin (codes "exit:us")))
      ∷ (6, callback_query (button stranger (codes "exit:us")))
      ∷ [])
    ∷ not_ok
    ∷ result ((9, other_update) ∷ [])
    ∷ []

honest : Honours none responses
unfolding next_offset
honest = ((ground arith, (ground arith, tt)), ((ground arith, tt), tt))

main_loop-three :
    (main_loop ⦃u = ascii⦄ no_library no_fragment world none empty_bot responses).requests
    ≡ none ∷ some 7 ∷ some 7 ∷ []
unfolding main_loop
main_loop-three = refl

main_loop-Ascending_example :
    Ascending 0
      (main_loop ⦃u = ascii⦄ no_library no_fragment world none empty_bot responses).handled
unfolding next_offset
main_loop-Ascending_example =
    main_loop-Ascending ⦃u = ascii⦄ no_library no_fragment world responses none empty_bot honest
