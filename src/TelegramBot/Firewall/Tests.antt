-- ===== src/TelegramBot/Firewall/Tests.antt =====
-- The ports of a chain, as `nft` gives them.
use gpn.Text.Equality.{is_in}
use gpn.Prelude.{ℕ, true, false, [], ◌∷◌, ◌≡◌, refl, none, some, map}
use gpn.Prelude.Dict.{Dict, get}
use gpn.Text.{Text, codes, ascii}
use gpn.Text.Split.{splitlines}
use gpn.Text.Strip.{strip}
use gpn.TelegramBot.Disk.{complete, torn}
use gpn.TelegramBot.Firewall.{
  noted, Port, op_firewall_del_port_key, op_firewall_set_note, del_rule, op_firewall_add_port,
}
use gpn.TelegramBot.Firewall.Closing.{
  IsClosing, op_firewall_del_port_key-IsClosing, closing_never_works,
}
use gpn.TelegramBot.Firewall.Notes.{
  IsOpeningOr, IsNoted, op_firewall_add_port-IsOpening, op_firewall_set_note-get,
}
use gpn.TelegramBot.Firewall.Rules.{
  is_input, Expr, json_ports, parse_nft_open_ports, other, items, Rule, find_handle,
}

abbrev ssh : Port
ssh = record {
  handle = some 4;
  port = codes "22";
  proto = codes "tcp";
  key = codes "22/tcp";
  proc = [];
  desc = [];
}

abbrev https : Port
https = record ssh { handle = some 9; port = codes "443"; key = codes "443/tcp" }

abbrev notes : Dict Text
notes = (codes "443/tcp", codes "web") ∷ (codes "8111/tcp", codes "profile") ∷ []

del-https :
    (op_firewall_del_port_key (ssh ∷ https ∷ []) true notes (codes "443/tcp")).calls
    ≡ del_rule 9 ∷ []
unfolding op_firewall_del_port_key
del-https = refl

op_firewall_del_port_key-IsClosing_example :
    IsClosing
      (ssh ∷ https ∷ [])
      (codes "443/tcp")
      (op_firewall_del_port_key (ssh ∷ https ∷ []) true notes (codes "443/tcp")).calls
op_firewall_del_port_key-IsClosing_example =
    op_firewall_del_port_key-IsClosing (ssh ∷ https ∷ []) true notes (codes "443/tcp")

op_firewall_add_port-IsOpening_example :
    IsOpeningOr ⦃u = ascii⦄ (ssh ∷ https ∷ []) notes (codes "8080") (codes "tcp") (
      op_firewall_add_port ⦃u = ascii⦄
        (ssh ∷ https ∷ [])
        true
        complete
        notes
        (codes "8080")
        (codes "tcp")
        (codes " api "))
op_firewall_add_port-IsOpening_example =
    op_firewall_add_port-IsOpening ⦃u = ascii⦄ (ssh ∷ https ∷ []) true complete notes (codes "8080")
      (codes "tcp") (codes " api ")

-- a note whose writing breaks off is told as noted
note-lost :
    op_firewall_set_note (torn 5) (ssh ∷ https ∷ []) notes (codes "443/tcp") (codes " shop ")
    ≡ record { told = noted; notes = []; calls = [] }
unfolding op_firewall_set_note
note-lost = refl

op_firewall_set_note-get_example :
    IsNoted complete
      (ssh ∷ https ∷ [])
      notes
      (op_firewall_set_note complete (ssh ∷ https ∷ []) notes (codes "443/tcp") (codes " shop "))
      (codes "443/tcp")
      (strip (codes " shop "))
      (codes "8111/tcp")
unfolding get
op_firewall_set_note-get_example =
    op_firewall_set_note-get complete (ssh ∷ https ∷ []) notes (codes "443/tcp") (codes " shop ")
      (codes "8111/tcp") (refl, (refl, tt)) refl

-- The rules of the project's own chain: the loopback device, then ports of TCP.
abbrev accept : Expr
accept = record { accept = true; matching = none }

abbrev on_loopback : Expr
on_loopback = record {
  accept = false;
  matching = some (record { protocol = []; field = []; right = other });
}

abbrev on_ports : Expr
on_ports = record {
  accept = false;
  matching = some (record {
    protocol = codes "tcp";
    field = codes "dport";
    right = items (some 22 ∷ some 443 ∷ []);
  });
}

abbrev rule : ℕ → Expr → Rule
rule handle e = record {
  family = codes "inet";
  table = codes "filter";
  chain = codes "input";
  handle = some handle;
  expr = e ∷ accept ∷ [];
}

abbrev key_of_port : Port → Text
key_of_port p = p.key

-- each port of the last match is listed twice
ports-twice :
    map key_of_port (json_ports [] [] (some (rule 4 on_ports ∷ [])))
    ≡ codes "22/tcp" ∷ codes "443/tcp" ∷ codes "22/tcp" ∷ codes "443/tcp" ∷ []
unfolding json_ports
ports-twice = refl

ports-text :
    map key_of_port (
      parse_nft_open_ports [] [] ⦃u = ascii⦄
        (some (rule 3 on_loopback ∷ rule 4 on_ports ∷ []))
        (some (codes "\ttcp dport { 22, 443 } accept\n\tudp dport 53 accept\n")))
    ≡ codes "22/tcp" ∷ codes "443/tcp" ∷ codes "53/udp" ∷ []
unfolding parse_nft_open_ports
ports-text = refl

closing_never_works_example :
    (op_firewall_del_port_key
      (parse_nft_open_ports [] [] ⦃u = ascii⦄
        (some (rule 3 on_loopback ∷ rule 4 on_ports ∷ []))
        (some (codes "\ttcp dport { 22, 443 } accept\n")))
      true
      []
      (codes "443/tcp")).calls
    ≡ []
unfolding is_input find_handle splitlines is_in
closing_never_works_example =
    closing_never_works ⦃u = ascii⦄ [] [] (rule 3 on_loopback ∷ rule 4 on_ports ∷ [])
      (codes "\ttcp dport { 22, 443 } accept\n") true (codes "443/tcp") (refl, (tt, tt)) (refl, tt)
