-- ===== src/TelegramBot/Machine/Progress.antt =====
-- A conversation of tgbot.py from its start to its end: the quick addition of a rule.
use gpn.Prelude.{
  ℕ, true, false, List, [], ◌∷◌, ◌++◌, ◌≡◌, refl, Option, none, some, ℤ, is_empty, Bool-cases, inl,
  inr, arith, ◌==◌,
}
use gpn.Text.{Text, codes, Unicode}
use gpn.Text.Equality.{eqb, is_in}
use gpn.Text.Search.{starts_with, has}
use gpn.Text.Strip.{strip}
use gpn.ExitConfig.Library.{Library}
use gpn.TelegramBot.Callbacks.{Callback, mark, callback_outcome, handle_callback, dispatch}
use gpn.TelegramBot.Callbacks.Actions.{rule_line, after_last, rule_type, choose_target, add_chosen}
use gpn.TelegramBot.Machine.{Update, message, callback_query, handle_update}
use gpn.TelegramBot.Machine.Loop.{handle_updates}
use gpn.TelegramBot.Messages.{Message, message_outcome, handle_message, converse}
use gpn.TelegramBot.Session.{
  World, op_add_rule, Effect, answer, edit, send, edit_async, no_keyboard, rule_target_menu,
  back_kb, rule_value, rule_target, Bot, Chat, change, at_id, same_id_refl, authorized, set_busy,
  rule_types, valid_rule_target, Pending, Change, Outcome,
}

after_last-none : (sep : ℕ) (s : Text) → has sep s ≡ false → after_last sep s ≡ none
unfolding after_last has
after_last-none sep [] h = refl
after_last-none sep (c ∷ s) h = elim (Bool-cases (c == sep)) [
  | inl e ↦ cc (rw e at h)
  | inr e ↦ rw (after_last-none sep s (rw e at h)) (rw e refl)
]

-- the three updates that add a rule by buttons
abbrev pub type_button : Chat → Option ℤ → ℕ → Text → Callback
type_button chat sender m typ = record {
  chat = chat;
  message_id = m;
  sender = sender;
  payload = codes "rt:" ++ typ;
}

abbrev pub value_message : Chat → Option ℤ → Text → Message
value_message chat sender value = record { chat = chat; sender = sender; text = some value }

abbrev pub target_button : Chat → Option ℤ → ℕ → Text → Callback
target_button chat sender n target = record {
  chat = chat;
  message_id = n;
  sender = sender;
  payload = codes "rta:" ++ target;
}

abbrev pub quick_updates : Chat → Option ℤ → ℕ → ℕ → Text → Text → Text → List Update
quick_updates chat sender m n typ value target =
    callback_query (type_button chat sender m typ)
    ∷ message (value_message chat sender value)
    ∷ callback_query (target_button chat sender n target)
    ∷ []

no_command :
    (v : Text)
    → starts_with (codes "/") v ≡ false
    → (starts_with (codes "/id") v ≡ false) × (eqb v (codes "/cancel") ≡ false)
unfolding starts_with eqb
no_command [] h = (refl, refl)
no_command (c ∷ s) h = (ground (arith, h), ground (arith, h))

module _ ⦃u : Unicode⦄ (w : World) where
  type_chosen :
      (p : Option Pending) (l : Option Text) (typ : Text)
      → is_in typ rule_types ≡ true
      → dispatch w p l (codes "rt:" ++ typ)
        ≡ (Change.become (rule_value typ), edit no_keyboard ∷ [])
  unfolding dispatch rule_type
  type_chosen p l typ h = rw h refl

  target_chosen :
      (l : Option Text) (typ value target : Text)
      → is_in typ rule_types ≡ true
      → is_empty value ≡ false
      → valid_rule_target w target ≡ true
      → has b':' target ≡ false
      → dispatch w (some (rule_target typ value)) l (codes "rta:" ++ target) ≡ (
        Change.clear,
        edit no_keyboard
            ∷ edit_async (op_add_rule (rule_line typ value target)) (back_kb (codes "menu:rules"))
            ∷ [],
      )
  unfolding dispatch choose_target add_chosen after_last
  target_chosen l typ value target h i j k = rw (after_last-none b':' target k) (rw (h, i, j) refl)

  -- a button of an admin, on a message that no job holds
  admitted :
      (b : Bot) (cb : Callback) (o : Outcome)
      → authorized w cb.sender cb.chat ≡ true
      → b.busy cb.chat.id cb.message_id ≡ false
      → dispatch w (b.pending cb.chat.id) (b.last_failed cb.chat.id) cb.payload ≡ o
      → handle_callback w b cb
        ≡ (mark cb.chat.id cb.message_id (answer ∷ o.1) (change o.0 cb.chat.id b), answer ∷ o.1)
  unfolding handle_callback callback_outcome
  admitted b cb o h i e = rw (h, i, e) refl

module _ ⦃u : Unicode⦄ (lib : Library) (fragment : Text → Option Text) (w : World) where
  value_given :
      (chat : Chat) (sender : Option ℤ) (typ value : Text)
      → authorized w sender chat ≡ true
      → starts_with (codes "/") value ≡ false
      → strip value ≡ value
      → is_empty value ≡ false
      → message_outcome lib fragment w (some (rule_value typ)) (value_message chat sender value)
        ≡ (Change.become (rule_target typ value), send rule_target_menu ∷ [])
  unfolding message_outcome converse
  value_given chat sender typ value h i e f =
      rw (e, (no_command value i).0, h, (no_command value i).1, i, e, f) refl

  module _ (b : Bot) (chat : Chat) (sender : Option ℤ) (typ value : Text) where
    abbrev after_type : Bot
    after_type = record b { pending = at_id chat.id (some (rule_value typ)) b.pending }

    abbrev after_value : Bot
    after_value = record b {
      pending = at_id chat.id (some (rule_target typ value)) after_type.pending;
    }

    value_handled :
        authorized w sender chat ≡ true
        → starts_with (codes "/") value ≡ false
        → strip value ≡ value
        → is_empty value ≡ false
        → handle_message lib fragment w after_type (value_message chat sender value)
          ≡ (after_value, send rule_target_menu ∷ [])
    unfolding handle_message change
    value_handled h i e f =
        rw (same_id_refl chat.id) (rw (value_given chat sender typ value h i e f) refl)

    type_handled :
        (m : ℕ)
        → authorized w sender chat ≡ true
        → b.busy chat.id m ≡ false
        → is_in typ rule_types ≡ true
        → handle_callback w b (type_button chat sender m typ)
          ≡ (after_type, answer ∷ edit no_keyboard ∷ [])
    unfolding change
    type_handled m h i t =
        admitted w b (type_button chat sender m typ)
          (Change.become (rule_value typ), edit no_keyboard ∷ []) h i
          (type_chosen w (b.pending chat.id) (b.last_failed chat.id) typ t)

    added_effects : Text → List Effect
    added_effects target =
        edit no_keyboard
        ∷ edit_async (op_add_rule (rule_line typ value target)) (back_kb (codes "menu:rules"))
        ∷ []

    target_handled :
        (n : ℕ) (target : Text)
        → authorized w sender chat ≡ true
        → b.busy chat.id n ≡ false
        → is_in typ rule_types ≡ true
        → is_empty value ≡ false
        → valid_rule_target w target ≡ true
        → has b':' target ≡ false
        → handle_callback w after_value (target_button chat sender n target) ≡ (
          set_busy true chat.id n
              (record after_value { pending = at_id chat.id none after_value.pending }),
          answer ∷ added_effects target,
        )
    unfolding change added_effects
    target_handled n target h i t f v c =
        admitted w after_value (target_button chat sender n target)
          (Change.clear, added_effects target) h i
          (rw (same_id_refl chat.id)
            (target_chosen w (b.last_failed chat.id) typ value target t f v c))

    -- An admin in a private chat chooses a known type of rule, sends a value that is not empty, is
    -- no command and has no white space at its ends, and presses a target that exists and has no
    -- colon, on messages that no job holds. Then the last of the answers starts the addition of that
    -- very rule, and the conversation is over.
    pub quick_add_completes :
        (m n : ℕ) (target : Text)
        → authorized w sender chat ≡ true
        → b.busy chat.id m ≡ false
        → b.busy chat.id n ≡ false
        → is_in typ rule_types ≡ true
        → starts_with (codes "/") value ≡ false
        → strip value ≡ value
        → is_empty value ≡ false
        → valid_rule_target w target ≡ true
        → has b':' target ≡ false
        → let r =
            handle_updates lib fragment w b (quick_updates chat sender m n typ value target) in
          (r.0.pending chat.id ≡ none)
          × (r.1
              ≡ answer
                ∷ edit no_keyboard
                ∷ send rule_target_menu
                ∷ answer
                ∷ edit no_keyboard
                ∷ edit_async
                    (op_add_rule (rule_line typ value target))
                    (back_kb (codes "menu:rules"))
                ∷ [])
    unfolding handle_updates handle_update set_busy added_effects
    quick_add_completes m n target h bm bn t s e f v c = rw (type_handled m h bm t) (
        rw (value_handled h s e f)
          (rw (target_handled n target h bn t f v c) (rw (same_id_refl chat.id) refl, refl)))
