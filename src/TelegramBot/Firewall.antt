-- ===== src/TelegramBot/Firewall.antt =====
-- The firewall of tgbot.py: `_parse_nft_open_ports` and the operations on ports and their notes.
pub mod Rules
pub mod Closing
pub mod Notes
mod Tests
use gpn.Prelude.{
  ℕ, suc, Bool, true, false, not, ◌&&◌, ◌||◌, List, [], ◌∷◌, ◌++◌, Option, none, some, ◌==◌, leb, ℤ,
  pos, negsuc, all, is_empty, if◌then◌else◌,
}
use gpn.Prelude.Dict.{Dict, get, put, has_key, key_eq}
use gpn.Text.{Text, codes, Unicode, is_digit}
use gpn.Text.Equality.{eqb, is_in}
use gpn.Text.Decimal.{decimal}
use gpn.Text.Number.{int_of}
use gpn.Text.Strip.{strip}
use gpn.TelegramBot.Disk.{Save, save_notes}

-- An open port. `handle` is the rule's, where it is known.
pub record Port : Type 0 where
  pub handle : Option ℕ
  pub port : Text
  pub proto : Text
  pub key : Text
  pub proc : Text
  pub desc : Text

-- `"%s/%s" % (port, proto)`
abbrev pub key_of : Text → Text → Text
key_of port proto = port ++ (b'/' ∷ proto)

abbrev pub builtin_port_desc : Dict Text
builtin_port_desc =
    (codes "22/tcp", codes "SSH 远程管理")
    ∷ (codes "53/tcp", codes "DNS (dnsdist)")
    ∷ (codes "53/udp", codes "DNS (dnsdist)")
    ∷ (codes "80/tcp", codes "HTTP SNI 透明代理 (sniproxy)")
    ∷ (codes "443/tcp", codes "HTTPS SNI 透明代理 (sniproxy) + QUIC")
    ∷ (codes "443/udp", codes "QUIC 透明代理 (quic-proxy)")
    ∷ (codes "853/tcp", codes "DNS over TLS (dnsdist)")
    ∷ (codes "8111/tcp", codes "iOS 描述文件下载")
    ∷ []

abbrev pub text_or {ℓ} : {A : Type ℓ} → Option A → A → A
text_or none t = t
text_or (some s) t = s

-- `notes` is what `_load_port_notes` gives
unfoldable pub get_port_description : Dict Text → Text → Text
unfolding get
get_port_description notes key = text_or (get key notes) (text_or (get key builtin_port_desc) [])

-- the entry of a port; `listening` is what `_get_listening_ports` gives
unfoldable pub entry_for : Dict Text → Dict Text → Option ℕ → Text → Text → Port
unfolding get_port_description get
entry_for listening notes handle proto port =
    let key = key_of port proto in
    let proc = text_or (get key listening) [] in
    let desc = get_port_description notes key in
    record {
      handle = handle;
      port = port;
      proto = proto;
      key = key;
      proc = proc;
      desc = if is_empty desc && not (is_empty proc) then proc else desc;
    }

-- `_nft_port_exists`
unfoldable pub nft_port_exists : List Port → Text → Text → Bool
unfolding eqb
nft_port_exists [] port proto = false
nft_port_exists (p ∷ ps) port proto =
    eqb p.port port && eqb p.proto proto || nft_port_exists ps port proto

-- What is told, the notes afterwards, and the arguments of the calls of `nft`.
pub data Told : Type 0 where
  bad_port bad_proto already_open failed opened : Told
  forbidden not_found no_handle closed noted cleared : Told

pub record Result : Type 0 where
  pub told : Told
  pub notes : Dict Text
  pub calls : List (List Text)

abbrev pub chain_words : List Text
chain_words = codes "rule" ∷ codes "inet" ∷ codes "filter" ∷ codes "input" ∷ []

module _ ⦃u : Unicode⦄ where
  -- `int(port)` raises where `isdigit` and `int` differ
  abbrev pub port_number : Option ℤ → Option Bool
  port_number none = none
  port_number (some (pos n)) = some (leb 1 n && leb n 65535)
  port_number (some (negsuc n)) = some false

  -- `port.isdigit() and 1 <= int(port) <= 65535`; `none` is an exception
  unfoldable pub is_port_number : Text → Option Bool
  unfolding is_digit int_of
  is_port_number port =
      if not (is_empty port) && all is_digit port then port_number (int_of port) else some false

  -- a note that is not empty is stored without white space at its ends
  unfoldable pub with_note : Save → Text → Text → Dict Text → Dict Text
  unfolding strip put save_notes
  with_note save key note notes =
      if is_empty note then notes else save_notes save (put key (strip note) notes) notes

  abbrev pub add_rule : Text → Text → List Text
  add_rule port proto =
      codes "add" ∷ (chain_words ++ proto ∷ codes "dport" ∷ port ∷ codes "accept" ∷ [])

  -- `ok` is what `nft` answers, and `save` how the notes are written
  abbrev pub checked_port :
      Option Bool → List Port → Bool → Save → Dict Text → Text → Text → Text → Option Result
  checked_port none ports ok save notes port proto note = none
  checked_port (some false) ports ok save notes port proto note =
      some (record { told = bad_port; notes = notes; calls = [] })
  checked_port (some true) ports ok save notes port proto note = some (
      if not (is_in proto (codes "tcp" ∷ codes "udp" ∷ []))
      then record { told = bad_proto; notes = notes; calls = [] }
      else if nft_port_exists ports port proto
      then record { told = already_open; notes = notes; calls = [] }
      else if ok
      then record {
        told = opened;
        notes = with_note save (key_of port proto) note notes;
        calls = add_rule port proto ∷ [];
      }
      else record { told = failed; notes = notes; calls = add_rule port proto ∷ [] })

  unfoldable pub op_firewall_add_port :
      List Port → Bool → Save → Dict Text → Text → Text → Text → Option Result
  unfolding is_port_number is_in nft_port_exists with_note
  op_firewall_add_port ports ok save notes port proto note =
      checked_port (is_port_number port) ports ok save notes port proto note

-- the first port with a key
unfoldable pub find_key : Text → List Port → Option Port
unfolding eqb
find_key key [] = none
find_key key (p ∷ ps) = let later = find_key key ps in if eqb p.key key then some p else later

abbrev pub del_rule : ℕ → List Text
del_rule handle = codes "delete" ∷ (chain_words ++ codes "handle" ∷ decimal handle ∷ [])

-- a handle that is 0 counts as missing
abbrev pub close_handle : Option ℕ → Bool → Dict Text → Result
close_handle none ok notes = record { told = no_handle; notes = notes; calls = [] }
close_handle (some h) ok notes =
    if h == 0
    then record { told = no_handle; notes = notes; calls = [] }
    else record { told = if ok then closed else failed; notes = notes; calls = del_rule h ∷ [] }

abbrev pub close_port : Option Port → Bool → Dict Text → Result
close_port none ok notes = record { told = not_found; notes = notes; calls = [] }
close_port (some p) ok notes = close_handle p.handle ok notes

unfoldable pub op_firewall_del_port_key : List Port → Bool → Dict Text → Text → Result
unfolding eqb find_key decimal
op_firewall_del_port_key ports ok notes key =
    if eqb key (codes "22/tcp")
    then record { told = forbidden; notes = notes; calls = [] }
    else close_port (find_key key ports) ok notes

-- `notes.pop(key, None)`
unfoldable pub remove : Text → Dict Text → Dict Text
unfolding key_eq
remove k [] = []
remove k ((j, v) ∷ d) = let later = remove k d in if key_eq j k then d else (j, v) ∷ later

abbrev pub note_result : Save → Option Port → Dict Text → Text → Text → Result
note_result save none notes key note = record { told = not_found; notes = notes; calls = [] }
note_result save (some p) notes key note =
    if is_empty (strip note)
    then record { told = cleared; notes = save_notes save (remove key notes) notes; calls = [] }
    else record {
      told = noted;
      notes = save_notes save (put key (strip note) notes) notes;
      calls = [];
    }

unfoldable pub op_firewall_set_note : Save → List Port → Dict Text → Text → Text → Result
unfolding find_key strip put remove save_notes
op_firewall_set_note save ports notes key note =
    note_result save (find_key key ports) notes key note
