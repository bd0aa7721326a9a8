-- ===== src/TelegramBot/Machine/Busy.antt =====
-- A message of tgbot.py that a job holds.
use gpn.Prelude.{
  ℕ, true, false, ◌&&◌, List, [], ◌∷◌, ◌≡◌, refl, ℤ, any, Bool-cases, inl, inr, ==_refl, ◌==◌,
  Option,
}
use gpn.Text.{Text, Unicode}
use gpn.ExitConfig.Library.{Library}
use gpn.TelegramBot.Callbacks.{Callback, mark, is_async, callback_outcome, handle_callback}
use gpn.TelegramBot.Machine.{
  Update, message, callback_query, other_update, handle_update, Step, update, job_ends, dot_ends,
  forced_ends,
}
use gpn.TelegramBot.Messages.{handle_message, message_outcome}
use gpn.TelegramBot.Session.{
  World, Effect, refuse, Bot, Change, keep, clear, become, change, same_id, same_id_refl,
  authorized, set_busy,
}

module _ ⦃u : Unicode⦄ (w : World) where
  busy_refused :
      (b : Bot) (cb : Callback)
      → b.busy cb.chat.id cb.message_id ≡ true
      → handle_callback w b cb ≡ (b, refuse ∷ [])
  unfolding handle_callback callback_outcome change
  busy_refused b cb h = elim (Bool-cases (authorized w cb.sender cb.chat)) [
    | inl e ↦ rw e (rw h refl)
    | inr e ↦ rw e refl
  ]

mark_busy :
    (chat : ℤ) (m : ℕ) (es : List Effect) (b : Bot)
    → any is_async es ≡ true
    → (mark chat m es b).busy chat m ≡ true
unfolding set_busy
mark_busy chat m es b h = rw h (rw (same_id_refl chat, ==_refl m) refl)

-- no change of the conversation and no new mark frees a message
change-busy :
    (c : Change) (chat : ℤ) (b : Bot) (i : ℤ) (m : ℕ)
    → b.busy i m ≡ true
    → (change c chat b).busy i m ≡ true
unfolding change
change-busy keep chat b i m h = h
change-busy clear chat b i m h = h
change-busy (become p) chat b i m h = h

mark-busy :
    (chat : ℤ) (n : ℕ) (es : List Effect) (b : Bot) (i : ℤ) (m : ℕ)
    → b.busy i m ≡ true
    → (mark chat n es b).busy i m ≡ true
unfolding set_busy
mark-busy chat n es b i m h = elim (Bool-cases (any is_async es)) [
  | inr e ↦ rw e h
  | inl e ↦
      rw e (elim (Bool-cases (same_id chat i && n == m)) [ inl f ↦ rw f refl | inr f ↦ rw f h ])
]

module _ ⦃u : Unicode⦄ (lib : Library) (fragment : Text → Option Text) where
  -- The step is not the end of the job on a message.
  abbrev pub Holds : ℤ → ℕ → {b c : Bot} → Step lib fragment b c → Type 0
  Holds i m (job_ends chat n) = (same_id chat i && n == m) ≡ false
  Holds i m _ = Unit

  -- The states behind one, as long as the job on a message has not ended.
  pub data Until (i : ℤ) (m : ℕ) (b : Bot) : Bot → Type 0 where
    none_yet : Until i m b b
    later : {c d : Bot} → Until i m b c → (t : Step lib fragment c d) → Holds i m t → Until i m b d

  handle_update-busy :
      (w : World) (b : Bot) (v : Update) (i : ℤ) (m : ℕ)
      → b.busy i m ≡ true
      → (handle_update lib fragment w b v).0.busy i m ≡ true
  unfolding handle_update handle_message handle_callback
  handle_update-busy w b (message x) i m h =
      change-busy (message_outcome lib fragment w (b.pending x.chat.id) x).0 x.chat.id b i m h
  handle_update-busy w b (callback_query cb) i m h =
      let (c, es) = callback_outcome w b cb in
      mark-busy cb.chat.id cb.message_id es (change c cb.chat.id b) i m
        (change-busy c cb.chat.id b i m h)
  handle_update-busy w b other_update i m h = h

  Step-busy :
      {b c : Bot} (t : Step lib fragment b c) (i : ℤ) (m : ℕ)
      → Holds i m t
      → b.busy i m ≡ true
      → c.busy i m ≡ true
  unfolding set_busy
  Step-busy {b} (update w v) i m k h = handle_update-busy w b v i m h
  Step-busy (job_ends chat n) i m k h = rw k h
  Step-busy (dot_ends chat ok text) i m k h = h
  Step-busy (forced_ends chat) i m k h = h

  Until-busy : {i : ℤ} {m : ℕ} {b c : Bot} → Until i m b c → b.busy i m ≡ true → c.busy i m ≡ true
  Until-busy none_yet h = h
  Until-busy {i = i} {m = m} (later r t k) h = Step-busy t i m k (Until-busy r h)

  -- After a button that starts a job on its message, and after any updates and ends of other jobs,
  -- as long as the job on this message has not ended: every button of the message, whoever presses
  -- it and whatever the files hold by then, is refused, with the state unchanged.
  pub callback_refused :
      (w : World) (b : Bot) (cb : Callback) (later_world : World) (c : Bot) (other : Callback)
      → any is_async (handle_callback w b cb).1 ≡ true
      → Until cb.chat.id cb.message_id (handle_callback w b cb).0 c
      → other.chat.id ≡ cb.chat.id
      → other.message_id ≡ cb.message_id
      → handle_callback later_world c other ≡ (c, refuse ∷ [])
  unfolding handle_callback
  callback_refused w b cb later_world c other h r e f =
      let (d, es) = callback_outcome w b cb in
      let held = Until-busy r (mark_busy cb.chat.id cb.message_id es (change d cb.chat.id b) h) in
      busy_refused later_world c other (rw (e, f) held)
