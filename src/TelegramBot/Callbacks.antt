-- ===== src/TelegramBot/Callbacks.antt =====
-- `handle_callback` of tgbot.py: its guards, and its branches in their order.
pub mod Pages
pub mod Actions
pub mod Safety
use gpn.Prelude.{
  ℕ, Bool, true, false, not, ◌||◌, List, [], ◌∷◌, ◌++◌, Option, none, some, ℤ, any, if◌then◌else◌,
}
use gpn.Text.{Text, codes, Unicode}
use gpn.TelegramBot.Session.{
  Pending, World, back_kb, Effect, edit, answer, refuse, edit_async, keep, Outcome, Bot, change,
  set_busy, Chat, authorized,
}
use Pages.{navigation, conversations, port_conversations}
use Actions.{port_actions, quick_add, gfwlist_actions, views, exit_actions, policy_actions}

pub record Callback : Type 0 where
  pub chat : Chat
  pub message_id : ℕ
  pub sender : Option ℤ
  pub payload : Text

infixr 30 ◌or_else◌
abbrev pub ◌or_else◌ : Option Outcome → Option Outcome → Option Outcome
none or_else later = later
(some o) or_else later = some o

abbrev pub is_async : Effect → Bool
is_async (edit_async op m) = true
is_async _ = false

-- the last `else`
abbrev pub or_unknown : Option Outcome → Outcome
or_unknown none = (keep, edit (back_kb (codes "menu:main")) ∷ [])
or_unknown (some o) = o

-- `edit_async` adds the message's key to `BUSY`
abbrev pub mark : ℤ → ℕ → List Effect → Bot → Bot
mark chat message effects b = if any is_async effects then set_busy true chat message b else b

module _ ⦃u : Unicode⦄ (w : World) where
  -- the branches up to the last `else`, which is `none`
  unfoldable pub branches : Option Pending → Option Text → Text → Option Outcome
  unfolding navigation conversations port_conversations port_actions quick_add gfwlist_actions views
      exit_actions policy_actions
  branches pending last d =
      navigation d
      or_else conversations last d
      or_else port_conversations d
      or_else port_actions d
      or_else quick_add w pending d
      or_else gfwlist_actions d
      or_else views d
      or_else exit_actions w d
      or_else policy_actions w d

  unfoldable pub dispatch : Option Pending → Option Text → Text → Outcome
  unfolding branches
  dispatch pending last d = or_unknown (branches pending last d)

  -- the guards, and what the branch does
  unfoldable pub callback_outcome : Bot → Callback → Outcome
  unfolding authorized dispatch
  callback_outcome b cb =
      let (c, effects) = dispatch (b.pending cb.chat.id) (b.last_failed cb.chat.id) cb.payload in
      if not (authorized w cb.sender cb.chat)
      then (keep, refuse ∷ [])
      else if b.busy cb.chat.id cb.message_id
      then (keep, refuse ∷ [])
      else (c, answer ∷ effects)

  unfoldable pub handle_callback : Bot → Callback → Bot × List Effect
  unfolding callback_outcome change set_busy
  handle_callback b cb =
      let (c, effects) = callback_outcome b cb in
      (mark cb.chat.id cb.message_id effects (change c cb.chat.id b), effects)
