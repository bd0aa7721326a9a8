-- ===== src/TelegramBot/Disk.antt =====
-- How tgbot.py writes a file: `_save_port_notes` and `_write_gfwlist_extra` go on after an
-- `OSError`, and tell the same.
use gpn.Prelude.{ℕ, Option, some, take, []}
use gpn.Prelude.Dict.{Dict}
use gpn.Text.{Text}

-- The file is written; or it stays, as its directory is not made or it does not open; or it is
-- emptied and gets only a first part of the text.
pub data Save : Type 0 where
  complete kept : Save
  torn : ℕ → Save

-- the notes afterwards: `_load_port_notes` gives none where it meets a first part of a JSON text
unfoldable pub save_notes : Save → Dict Text → Dict Text → Dict Text
save_notes complete new old = new
save_notes kept new old = old
save_notes (torn n) new old = []

-- the file afterwards
unfoldable pub save_file : Save → Text → Option Text → Option Text
save_file complete text file = some text
save_file kept text file = file
save_file (torn n) text file = some (take n text)
