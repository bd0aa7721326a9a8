-- ===== src/TelegramBot/Machine/Loop.antt =====
-- The main loop of tgbot.py: `main` from its first poll on, over the responses of `getUpdates`.
use gpn.Prelude.{ℕ, ◌+◌, ◌≤◌, List, [], ◌∷◌, ◌++◌, Option, none, some}
use gpn.Text.{Text, Unicode}
use gpn.ExitConfig.Library.{Library}
use gpn.TelegramBot.Machine.{Update, handle_update}
use gpn.TelegramBot.Session.{World, Effect, Bot}

-- `resp`: not `ok`, or the ids and the updates of its `result`
pub data Response : Type 0 where
  not_ok : Response
  result : List (ℕ × Update) → Response

-- `offset` behind the updates of one response
unfoldable pub next_offset : Option ℕ → List (ℕ × Update) → Option ℕ
next_offset offset [] = offset
next_offset offset ((id, v) ∷ us) = next_offset (some (id + 1)) us

-- The offsets of the requests, the ids of the updates that are handled, and the effects.
pub record Run : Type 0 where
  pub requests : List (Option ℕ)
  pub handled : List ℕ
  pub effects : List Effect

abbrev pub ids : List (ℕ × Update) → List ℕ
ids [] = []
ids ((id, v) ∷ us) = id ∷ ids us

module _ ⦃u : Unicode⦄ (lib : Library) (fragment : Text → Option Text) (w : World) where
  -- The updates of one response. An exception of a handler is caught, so the loop goes on.
  unfoldable pub handle_updates : Bot → List Update → Bot × List Effect
  handle_updates b [] = (b, [])
  handle_updates b (v ∷ vs) =
      let (c, es) = handle_update lib fragment w b v in
      let (d, fs) = handle_updates c vs in (d, es ++ fs)

  abbrev pub updates : List (ℕ × Update) → List Update
  updates [] = []
  updates ((id, v) ∷ us) = v ∷ updates us

  -- the loop, as long as there are responses
  unfoldable pub main_loop : Option ℕ → Bot → List Response → Run
  unfolding next_offset
  main_loop offset b [] = record { requests = []; handled = []; effects = [] }
  main_loop offset b (not_ok ∷ rs) =
      let later = main_loop offset b rs in record later { requests = offset ∷ later.requests }
  main_loop offset b (result us ∷ rs) =
      let (c, es) = handle_updates b (updates us) in
      let later = main_loop (next_offset offset us) c rs in
      record {
        requests = offset ∷ later.requests;
        handled = ids us ++ later.handled;
        effects = es ++ later.effects;
      }

-- ids in rising order, from a least one on
abbrev pub Ascending : ℕ → List ℕ → Type 0
Ascending lo [] = Unit
Ascending lo (i ∷ is) = (lo ≤ i) × Ascending (i + 1) is

abbrev pub least : Option ℕ → ℕ
least none = 0
least (some n) = n

-- What Telegram documents of `getUpdates`: the updates of a response are in rising order, from the
-- offset of the request on.
abbrev pub Honours : Option ℕ → List Response → Type 0
Honours offset [] = Unit
Honours offset (not_ok ∷ rs) = Honours offset rs
Honours offset (result us ∷ rs) =
    Ascending (least offset) (ids us) × Honours (next_offset offset us) rs

Ascending-append :
    (offset : Option ℕ) (us : List (ℕ × Update)) (more : List ℕ)
    → Ascending (least offset) (ids us)
    → Ascending (least (next_offset offset us)) more
    → Ascending (least offset) (ids us ++ more)
unfolding next_offset
Ascending-append offset [] more h k = k
Ascending-append offset ((id, v) ∷ us) more h k =
    (h.0, Ascending-append (some (id + 1)) us more h.1 k)

module _ ⦃u : Unicode⦄ (lib : Library) (fragment : Text → Option Text) (w : World) where
  -- If every response has its updates in rising order from the request's offset on, then the ids
  -- of the updates that the loop handles rise strictly, so none is handled twice, whichever
  -- requests fail and whatever the handlers raise.
  pub main_loop-Ascending :
      (rs : List Response) (offset : Option ℕ) (b : Bot)
      → Honours offset rs
      → Ascending (least offset) (main_loop lib fragment w offset b rs).handled
  unfolding main_loop
  main_loop-Ascending [] offset b h = tt
  main_loop-Ascending (not_ok ∷ rs) offset b h = main_loop-Ascending rs offset b h
  main_loop-Ascending (result us ∷ rs) offset b h =
      Ascending-append offset us
        (main_loop lib fragment w (next_offset offset us)
          (handle_updates lib fragment w b (updates lib fragment w us)).0 rs).handled
        h.0
        (main_loop-Ascending rs (next_offset offset us)
          (handle_updates lib fragment w b (updates lib fragment w us)).0 h.1)
