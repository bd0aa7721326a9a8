-- ===== src/TelegramBot/Machine.antt =====
-- The bot of tgbot.py as a state machine: an update that one of the two handlers takes, or the end
-- of a job of the pool, which changes `BUSY` or `LAST_FAILED_DOT_DOMAIN`.
pub mod Permits
pub mod Safety
pub mod Busy
pub mod Progress
pub mod Loop
mod Tests
use gpn.Prelude.{
  ℕ, Bool, true, false, not, ◌&&◌, ◌||◌, List, [], ◌∷◌, ◌≡◌, Option, none, some, ◌==◌, leb, ℤ,
  length, if◌then◌else◌,
}
use gpn.Text.{Text, codes, Unicode, lower, is_alnum, is_within}
use gpn.Text.Strip.{strip, rstrip_by, is_char}
use gpn.Regex.{Regex, chars, seq, opt, star, plus, char, at_end, full_match}
use gpn.ExitConfig.Library.{Library}
use gpn.TelegramBot.Session.{World, Effect, Bot, empty_bot, set_busy, at_id, Chat}
use gpn.TelegramBot.Messages.{Message, handle_message}
use gpn.TelegramBot.Callbacks.{Callback, handle_callback}

-- `([A-Za-z0-9]([A-Za-z0-9_-]*[A-Za-z0-9])?\.)+[A-Za-z]{2,}$`
unfoldable pub dot_domain_re : Regex
unfolding is_alnum
dot_domain_re =
    let inner = chars (λ c. is_alnum c || (c == b'_' || c == b'-')) in
    let label = seq (chars is_alnum) (opt (seq (star inner) (chars is_alnum))) in
    let letter = chars (λ c. is_within b'a' b'z' c || is_within b'A' b'Z' c) in
    at_end (seq (plus (seq label (char b'.'))) (seq letter (plus letter)))

-- `DOMAIN_RE.match(s)`: the look-ahead bounds the length, without a last newline
unfoldable pub is_dot_domain : Text → Bool
unfolding dot_domain_re full_match rstrip_by
is_dot_domain s = leb (length (rstrip_by (is_char b'\n') s)) 253 && full_match dot_domain_re s

-- The end of `op_set_dot_domain` and `op_force_set_dot_domain`: the text is no domain, or the
-- management script succeeds or fails with the domain.
pub data DotResult : Type 0 where
  invalid : DotResult
  done failed : Text → DotResult

module _ ⦃u : Unicode⦄ where
  -- the flag is the first result of `run2`
  unfoldable pub op_set_dot_domain : Bool → Text → DotResult
  unfolding strip lower rstrip_by is_dot_domain
  op_set_dot_domain ok text =
      let domain = rstrip_by (is_char b'.') (lower (strip text)) in
      if not (is_dot_domain domain) then invalid else if ok then done domain else failed domain

  -- what the job of the step `dot_domain` leaves in `LAST_FAILED_DOT_DOMAIN`
  abbrev pub failed_domain : DotResult → Option Text
  failed_domain (failed d) = some d
  failed_domain _ = none

-- `handle_message` and `handle_callback` are what the main loop calls.
pub data Update : Type 0 where
  message : Message → Update
  callback_query : Callback → Update
  other_update : Update

module _ ⦃u : Unicode⦄ (lib : Library) (fragment : Text → Option Text) where
  unfoldable pub handle_update : World → Bot → Update → Bot × List Effect
  handle_update w b (message m) = handle_message lib fragment w b m
  handle_update w b (callback_query cb) = handle_callback w b cb
  handle_update w b other_update = (b, [])

  -- What may happen next. The files may differ at each update.
  pub data Step (b : Bot) : Bot → Type 0 where
    update : (w : World) (u : Update) → Step b (handle_update w b u).0
    job_ends : (chat : ℤ) (message_id : ℕ) → Step b (set_busy false chat message_id b)
    dot_ends :
        (chat : ℤ) (ok : Bool) (text : Text)
        → Step b (record b {
          last_failed = at_id chat (failed_domain (op_set_dot_domain ok text)) b.last_failed;
        })
    forced_ends : (chat : ℤ) → Step b (record b { last_failed = at_id chat none b.last_failed })

  -- The states of a run from the start of the program.
  pub data Reach : Bot → Type 0 where
    here : Reach empty_bot
    next : {b c : Bot} → Reach b → Step b c → Reach c
