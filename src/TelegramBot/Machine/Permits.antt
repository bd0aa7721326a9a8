-- ===== src/TelegramBot/Machine/Permits.antt =====
-- What an update of tgbot.py may run, and what holds of the state between the updates.
use gpn.Prelude.{
  ℕ, any, Bool, true, false, List, ◌≡◌, refl, Option, none, some, ℤ, All-mono, if◌then◌else◌,
  Bool-cases, inl, inr,
}
use gpn.Text.{Text, Unicode}
use gpn.Text.Strip.{strip}
use gpn.TelegramBot.Callbacks.{mark, is_async}
use gpn.TelegramBot.Callbacks.Safety.{MayStart, Runs, SoundStep, SoundChange, Allows}
use gpn.TelegramBot.Machine.{is_dot_domain, Update, message, callback_query, other_update}
use gpn.TelegramBot.Messages.{text_or_empty}
use gpn.TelegramBot.Messages.Safety.{MayAsk}
use gpn.TelegramBot.Session.{
  Pending, World, Operation, Effect, Bot, Change, keep, clear, become, Outcome, change, at_id,
  same_id, authorized, set_busy,
}

-- What an update of an admin in a private chat may run, in the state that it finds.
module _ ⦃u : Unicode⦄ where
  abbrev pub Permits : World → Bot → Update → Operation → Type 0
  Permits w b (message m) op =
      (authorized w m.sender m.chat ≡ true)
      × MayAsk (b.pending m.chat.id) (strip (text_or_empty m.text)) op
  Permits w b (callback_query cb) op =
      (authorized w cb.sender cb.chat ≡ true)
      × (b.busy cb.chat.id cb.message_id ≡ false)
      × MayStart w (b.pending cb.chat.id) (b.last_failed cb.chat.id) op
  Permits w b other_update op = ⊥

-- Every chat's step is sound, and a domain that failed is a domain name.
pub record IsSoundBot (b : Bot) : Type 0 where
  pub steps : (chat : ℤ) → SoundStep (b.pending chat)
  pub domains : (chat : ℤ) (d : Text) → b.last_failed chat ≡ some d → is_dot_domain d ≡ true

Runs-mono :
    (P Q : Operation → Type 0)
    → ((op : Operation) → P op → Q op)
    → (e : Effect) → Runs P e
    → Runs Q e
Runs-mono P Q f (Effect.perform op m) h = f op h
Runs-mono P Q f (Effect.send_async op m) h = f op h
Runs-mono P Q f (Effect.edit_async op m) h = f op h
Runs-mono P Q f (Effect.send m) h = tt
Runs-mono P Q f (Effect.edit m) h = tt
Runs-mono P Q f (Effect.send_id i) h = tt
Runs-mono P Q f Effect.answer h = tt
Runs-mono P Q f Effect.refuse h = tt
Runs-mono P Q f Effect.raise h = tt

-- The sender is an admin, in a private chat.
abbrev pub is_authorized : World → Update → Bool
is_authorized w (message m) = authorized w m.sender m.chat
is_authorized w (callback_query cb) = authorized w cb.sender cb.chat
is_authorized w other_update = false

pub at_id-SoundStep :
    (chat : ℤ) (p : Option Pending) (f : ℤ → Option Pending)
    → SoundStep p
    → ((i : ℤ) → SoundStep (f i))
    → (i : ℤ) → SoundStep (at_id chat p f i)
at_id-SoundStep chat p f h s i = elim (Bool-cases (same_id chat i)) [
  | inl e ↦ rw e h
  | inr e ↦ rw e (s i)
]

pub change-IsSoundBot :
    (c : Change) (chat : ℤ) (b : Bot) → SoundChange c → IsSoundBot b → IsSoundBot (change c chat b)
unfolding change
change-IsSoundBot keep chat b h s = s
change-IsSoundBot clear chat b h s = record {
  steps = at_id-SoundStep chat none b.pending tt s.steps;
  domains = s.domains;
}
change-IsSoundBot (become p) chat b h s = record {
  steps = at_id-SoundStep chat (some p) b.pending h s.steps;
  domains = s.domains;
}

pub mark-IsSoundBot :
    (chat : ℤ) (m : ℕ) (es : List Effect) (b : Bot) → IsSoundBot b → IsSoundBot (mark chat m es b)
unfolding set_busy
mark-IsSoundBot chat m es b s = elim (Bool-cases (any is_async es)) [
  | inl e ↦ rw e (record { steps = s.steps; domains = s.domains })
  | inr e ↦ rw e s
]

pub Allows-mono :
    (P Q : Operation → Type 0)
    → ((op : Operation) → P op → Q op)
    → (o : Outcome) → Allows P o
    → Allows Q o
Allows-mono P Q f (c, es) h = (h.0, All-mono (Runs P) (Runs Q) (Runs-mono P Q f) es h.1)

-- `Allows` as a family that does not compute, so that a rule for it fits a branch.
pub record Only (P : Operation → Type 0) (o : Outcome) : Type 0 where
  pub holds : Allows P o

module _ {P : Operation → Type 0} where
  pub Only-if :
      (b : Bool) {x y : Outcome}
      → (b ≡ true → Only P x)
      → (b ≡ false → Only P y)
      → Only P (if b then x else y)
  Only-if true f g = f refl
  Only-if false f g = g refl
