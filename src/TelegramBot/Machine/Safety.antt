-- ===== src/TelegramBot/Machine/Safety.antt =====
-- What updates can do to the bot of tgbot.py, over all runs.
use gpn.Prelude.{
  Every, Every-if, Every-one, Bool, true, false, not, [], ◌∷◌, ◌≡◌, refl, Option, none, some, ℤ,
  All, Bool-cases, inl, inr, arith, subst,
}
use gpn.Text.{Text, codes, Unicode}
use gpn.Text.Equality.{eqb}
use gpn.Text.Search.{starts_with}
use gpn.Text.Strip.{strip}
use gpn.ExitConfig.Library.{Library}
use gpn.TelegramBot.Callbacks.{Callback, callback_outcome, handle_callback, dispatch}
use gpn.TelegramBot.Callbacks.Safety.{MayStart, Runs, Allows, dispatch-Allows}
use gpn.TelegramBot.Machine.{
  is_dot_domain, Update, message, callback_query, other_update, handle_update, Step, update,
  job_ends, dot_ends, forced_ends, Reach, here, next, op_set_dot_domain, failed_domain, rstrip_by,
  is_char, lower,
}
use gpn.TelegramBot.Messages.{
  Message, message_outcome, handle_message, command, converse, text_or_empty, own_id,
}
use gpn.TelegramBot.Messages.Safety.{MayAsk, converse-Asks}
use gpn.TelegramBot.Session.{
  Pending, World, Operation, Bot, clear, Outcome, change, at_id, same_id, authorized, empty_bot,
  set_busy,
}
use gpn.TelegramBot.Machine.Permits.{
  Permits, IsSoundBot, is_authorized, Allows-mono, change-IsSoundBot, mark-IsSoundBot, Only,
  Only-if,
}

module _ ⦃u : Unicode⦄ (lib : Library) (fragment : Text → Option Text) (w : World) where
  command-May : (p : Option Pending) (t text : Text) → Every (Runs (MayAsk p t)) (command text)
  unfolding command
  command-May p t text = search (Every-if, Every-one) depth 20

  own_id-Runs : (i : Option ℤ) (P : Operation → Type 0) → All (Runs P) (own_id i ∷ [])
  own_id-Runs none P = (tt, tt)
  own_id-Runs (some i) P = (tt, tt)

  -- The message's outcome, in a step that is sound.
  message_outcome-Only :
      (b : Bot) (m : Message)
      → IsSoundBot b
      → Only (Permits w b (message m)) (message_outcome lib fragment w (b.pending m.chat.id) m)
  unfolding message_outcome
  message_outcome-Only b m s =
      let p = b.pending m.chat.id in
      let raw = text_or_empty m.text in
      let text = strip raw in
      let asked : (o : Outcome)
          → authorized w m.sender m.chat ≡ true
          → Allows (MayAsk p text) o
          → Only (Permits w b (message m)) o =
        λ o f h. record {
          holds = Allows-mono (MayAsk p text) (Permits w b (message m)) (λ op x. (f, x)) o h;
        } in
      Only-if (starts_with (codes "/id") text)
        (λ e. record { holds = (tt, own_id-Runs m.sender (Permits w b (message m))) })
        λ e.
          Only-if (not (authorized w m.sender m.chat)) (λ f. record { holds = (tt, (tt, tt)) })
            λ f.
              Only-if (eqb text (codes "/cancel")) (λ g. record { holds = (tt, (tt, tt)) })
                λ g.
                  let admin : authorized w m.sender m.chat ≡ true = ground (arith, f) in
                  Only-if (starts_with (codes "/") text)
                    (λ k. asked (clear, command text) admin (tt, (command-May p text text).holds))
                    λ k.
                      asked (converse lib fragment w raw text p) admin
                        (converse-Asks lib fragment w raw p (s.steps m.chat.id))

  callback_outcome-Only :
      (b : Bot) (cb : Callback) → Only (Permits w b (callback_query cb)) (callback_outcome w b cb)
  unfolding callback_outcome
  callback_outcome-Only b cb =
      let p = b.pending cb.chat.id in
      let last = b.last_failed cb.chat.id in
      let o = dispatch w p last cb.payload in
      Only-if (not (authorized w cb.sender cb.chat)) (λ f. record { holds = (tt, (tt, tt)) })
        λ f.
          Only-if (b.busy cb.chat.id cb.message_id) (λ g. record { holds = (tt, (tt, tt)) })
            λ g.
              let h =
                Allows-mono (MayStart w p last) (Permits w b (callback_query cb))
                  (λ op x. (ground (arith, f), g, x)) o (dispatch-Allows w p last cb.payload) in
              record { holds = (h.0, (tt, h.1)) }

  -- The text of an update's effects, and its state.
  handle_update-IsSoundBot :
      (b : Bot) (v : Update) → IsSoundBot b → IsSoundBot (handle_update lib fragment w b v).0
  unfolding handle_update handle_message handle_callback
  handle_update-IsSoundBot b (message m) s =
      change-IsSoundBot (message_outcome lib fragment w (b.pending m.chat.id) m).0 m.chat.id b
        (message_outcome-Only b m s).holds.0 s
  handle_update-IsSoundBot b (callback_query cb) s =
      let (c, es) = callback_outcome w b cb in
      mark-IsSoundBot cb.chat.id cb.message_id es (change c cb.chat.id b)
        (change-IsSoundBot c cb.chat.id b (callback_outcome-Only b cb).holds.0 s)
  handle_update-IsSoundBot b other_update s = s

  handle_update-Runs :
      (b : Bot) (v : Update)
      → IsSoundBot b
      → All (Runs (Permits w b v)) (handle_update lib fragment w b v).1
  unfolding handle_update handle_message handle_callback
  handle_update-Runs b (message m) s = (message_outcome-Only b m s).holds.1
  handle_update-Runs b (callback_query cb) s = (callback_outcome-Only b cb).holds.1
  handle_update-Runs b other_update s = tt

  -- An update of anyone but an admin in a private chat leaves the state as it is.
  pub refused_update :
      (b : Bot) (v : Update) → is_authorized w v ≡ false → (handle_update lib fragment w b v).0 ≡ b
  unfolding handle_update handle_message handle_callback message_outcome callback_outcome change
  refused_update b (message m) h =
      elim (Bool-cases (starts_with (codes "/id") (strip (text_or_empty m.text)))) [
        | inl e ↦ rw e refl
        | inr e ↦ rw (e, h) refl
      ]
  refused_update b (callback_query cb) h = rw h refl
  refused_update b other_update h = refl

module _ ⦃u : Unicode⦄ (lib : Library) (fragment : Text → Option Text) where
  failed_domain-is_dot_domain :
      (ok : Bool) (text d : Text)
      → failed_domain (op_set_dot_domain ok text) ≡ some d
      → is_dot_domain d ≡ true
  unfolding op_set_dot_domain
  failed_domain-is_dot_domain ok text d h =
      let domain = rstrip_by (is_char b'.') (lower (strip text)) in
      elim (Bool-cases (is_dot_domain domain)) [
        | inr e ↦ cc (rw e at h)
        | inl e ↦ elim (Bool-cases ok) [
          | inl f ↦ cc (rw (e, f) at h)
          | inr f ↦
              let same : domain ≡ d = cc (rw (e, f) at h) in
              subst (λ x. is_dot_domain x ≡ true) same e
        ]
      ]

  set_last-IsSoundBot :
      (b : Bot) (chat : ℤ) (o : Option Text)
      → ((d : Text) → o ≡ some d → is_dot_domain d ≡ true)
      → IsSoundBot b
      → IsSoundBot (record b { last_failed = at_id chat o b.last_failed })
  set_last-IsSoundBot b chat o h s = record {
    steps = s.steps;
    domains = λ i d e. elim (Bool-cases (same_id chat i)) [
      | inl f ↦ h d (rw f at e)
      | inr f ↦ s.domains i d (rw f at e)
    ];
  }

  Step-IsSoundBot : {b c : Bot} → Step lib fragment b c → IsSoundBot b → IsSoundBot c
  unfolding set_busy
  Step-IsSoundBot {b} (update w v) s = handle_update-IsSoundBot lib fragment w b v s
  Step-IsSoundBot (job_ends chat m) s = record { steps = s.steps; domains = s.domains }
  Step-IsSoundBot {b} (dot_ends chat ok text) s =
      set_last-IsSoundBot b chat (failed_domain (op_set_dot_domain ok text))
        (failed_domain-is_dot_domain ok text) s
  Step-IsSoundBot {b} (forced_ends chat) s = set_last-IsSoundBot b chat none (λ d e. cc) s

  -- In every state that a run reaches, whatever the updates and the jobs do: a conversation about
  -- a rule holds one of the known types and a value that is not empty, and a domain that may be
  -- forced is one that the pattern for domains takes.
  pub Reach-IsSoundBot : {b : Bot} → Reach lib fragment b → IsSoundBot b
  unfolding empty_bot
  Reach-IsSoundBot here = record { steps = λ i. tt; domains = λ i d e. cc }
  Reach-IsSoundBot (next r t) = Step-IsSoundBot t (Reach-IsSoundBot r)

  -- In every state that a run reaches, an update runs an operation only if an admin sends it in a
  -- private chat, and then only what its step of the conversation asks for, or what the pressed
  -- button may start on a message that no job holds: an exit, target, category, service, port key
  -- or rule that passes the tests.
  pub Reach-Runs :
      (w : World) (b : Bot) (v : Update)
      → Reach lib fragment b
      → All (Runs (Permits w b v)) (handle_update lib fragment w b v).1
  Reach-Runs w b v r = handle_update-Runs lib fragment w b v (Reach-IsSoundBot r)
