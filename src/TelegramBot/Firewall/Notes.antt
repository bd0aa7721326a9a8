-- ===== src/TelegramBot/Firewall/Notes.antt =====
-- The notes on ports of tgbot.py, and the checks before a port is opened.
use gpn.Prelude.{
  if◌then◌else◌, Bool, true, false, not, ◌&&◌, List, [], ◌∷◌, ◌≡◌, ◌⊎◌, inl, inr, refl, sym, ap,
  ◌∙◌, Option, none, some, all, is_empty, Bool-cases, ℤ, pos, negsuc, leb, ◌≤◌, and_parts, leb→le,
}
use gpn.Prelude.Dict.{Dict, get, key_eq, key_eq_sound, get-put_self, get-put_other, IsUnique, put}
use gpn.Text.{Text, codes, Unicode, is_digit}
use gpn.Text.Equality.{is_in}
use gpn.Text.Number.{int_of}
use gpn.Text.Strip.{strip}
use gpn.TelegramBot.Disk.{Save, complete, kept, torn, save_notes}
use gpn.TelegramBot.Firewall.{
  not_found, cleared, noted, note_result, text_or, builtin_port_desc, Port, Result, find_key,
  get_port_description, nft_port_exists, add_rule, checked_port, port_number, is_port_number,
  op_firewall_add_port, op_firewall_set_note, remove,
}

get-remove_self : (k : Text) (d : Dict Text) → IsUnique d → get k (remove k d) ≡ none
unfolding get remove
get-remove_self k [] h = refl
get-remove_self k ((j, v) ∷ d) h = elim (Bool-cases (key_eq j k)) [
  | inl e ↦ rw e (ap (λ x. get x d) (sym (key_eq_sound j k e)) ∙ h.0)
  | inr e ↦ rw e (rw e (get-remove_self k d h.1))
]

get-remove_other : (i k : Text) (d : Dict Text) → key_eq k i ≡ false → get i (remove k d) ≡ get i d
unfolding get remove
get-remove_other i k [] h = refl
get-remove_other i k ((j, v) ∷ d) h = elim (Bool-cases (key_eq j k)) [
  | inl e ↦ rw e (rw (ap (λ x. key_eq x i) (key_eq_sound j k e) ∙ h) refl)
  | inr e ↦ rw e (elim (Bool-cases (key_eq j i)) [
    | inl f ↦ rw f refl
    | inr f ↦ rw f (get-remove_other i k d h)
  ])
]

-- The description that a port has without a note.
abbrev pub default_description : Text → Text
default_description key = text_or (get key builtin_port_desc) []

-- What the notes of before become, by how the writing ends. A blank note leaves the port with its
-- default description, another one is the port's description, and each other port has the
-- description of before; or the notes stay; or all notes are lost.
abbrev pub IsSaved : Save → Dict Text → Dict Text → Text → Text → Text → Type 0
IsSaved complete notes after key note other =
    (get_port_description after key ≡ (if is_empty note then default_description key else note))
    × (get_port_description after other ≡ get_port_description notes other)
IsSaved kept notes after key note other = after ≡ notes
IsSaved (torn n) notes after key note other = after ≡ []

-- No open port has the key and the notes stay, or they are written.
abbrev pub IsNoted : Save → List Port → Dict Text → Result → Text → Text → Text → Type 0
IsNoted save ports notes r key note other =
    (r.calls ≡ [])
    × (((find_key key ports ≡ none) × (r.told ≡ not_found) × (r.notes ≡ notes))
        ⊎ ((p : Port) × (find_key key ports ≡ some p)
            × (r.told ≡ (if is_empty note then cleared else noted))
            × IsSaved save notes r.notes key note other))

save_notes-IsSaved :
    (save : Save) (notes new : Dict Text) (key note other : Text)
    → IsSaved complete notes new key note other
    → IsSaved save notes (save_notes save new notes) key note other
unfolding save_notes
save_notes-IsSaved complete notes new key note other h = h
save_notes-IsSaved kept notes new key note other h = refl
save_notes-IsSaved (torn n) notes new key note other h = refl

note_result-IsNoted :
    (save : Save) (ports : List Port) (notes : Dict Text) (key note other : Text) (o : Option Port)
    → IsUnique notes
    → key_eq key other ≡ false
    → find_key key ports ≡ o
    → IsNoted save ports notes (note_result save o notes key note) key (strip note) other
unfolding get_port_description
note_result-IsNoted save ports notes key note other none u d e = (refl, inl (e, refl, refl))
note_result-IsNoted save ports notes key note other (some p) u d e =
    elim (Bool-cases (is_empty (strip note))) [
      | inl f ↦ rw f (
        refl,
        inr (
          p,
          e,
          refl,
          save_notes-IsSaved save notes (remove key notes) key (strip note) other (
              rw f (
                rw (get-remove_self key notes u) refl,
                rw (get-remove_other other key notes d) refl,
              )),
        ),
      )
      | inr f ↦ rw f (
        refl,
        inr (
          p,
          e,
          refl,
          save_notes-IsSaved save notes (put key (strip note) notes) key (strip note) other (
              rw f (
                rw (get-put_self key (strip note) notes) refl,
                rw (get-put_other other key (strip note) notes d) refl,
              )),
        ),
      )
    ]

-- For notes in which no key stands twice, and a port other than the given one: the note on a port
-- calls nothing, and is refused, with the notes as before, only where no open port has the key.
-- Else it is told as noted, or as cleared if it is blank, however the writing ends. Where the
-- writing succeeds, the port's description becomes the stripped note, or the default one for a
-- blank note, and the other port's description stays; where the file does not open, all notes stay;
-- and where the writing breaks off, all notes are lost.
pub op_firewall_set_note-get :
    (save : Save) (ports : List Port) (notes : Dict Text) (key note other : Text)
    → IsUnique notes
    → key_eq key other ≡ false
    → IsNoted save ports notes
        (op_firewall_set_note save ports notes key note)
        key
        (strip note)
        other
unfolding op_firewall_set_note
op_firewall_set_note-get save ports notes key note other u d =
    note_result-IsNoted save ports notes key note other (find_key key ports) u d refl

module _ ⦃u : Unicode⦄ where
  -- A number from 1 to 65535.
  abbrev pub InRange : Option ℤ → Type 0
  InRange (some (pos n)) = (1 ≤ n) × (n ≤ 65535)
  InRange _ = ⊥

  port_number-InRange : (o : Option ℤ) → port_number o ≡ some true → InRange o
  port_number-InRange none h = cc
  port_number-InRange (some (negsuc n)) h = cc
  port_number-InRange (some (pos n)) h =
      let both : (leb 1 n && leb n 65535) ≡ true = cc in
      let (a, b) = and_parts (leb 1 n) (leb n 65535) both in (leb→le 1 n a, leb→le n 65535 b)

  is_port_number-InRange : (port : Text) → is_port_number port ≡ some true → InRange (int_of port)
  unfolding is_port_number
  is_port_number-InRange port h = elim (Bool-cases (not (is_empty port) && all is_digit port)) [
    | inl e ↦ port_number-InRange (int_of port) (rw e at h)
    | inr e ↦ cc (rw e at h)
  ]

  -- What stands against a port: it is no number in the range, the protocol is another one, or the
  -- port is open.
  abbrev pub Refused : List Port → Text → Text → Type 0
  Refused ports port proto =
      (is_port_number port ≡ some false)
      ⊎ ((is_in proto (codes "tcp" ∷ codes "udp" ∷ []) ≡ false)
          ⊎ (nft_port_exists ports port proto ≡ true))

  -- Nothing is called, and the notes stay, as something stands against the port; or one rule is
  -- added, for a port that is not open.
  abbrev pub IsOpening : List Port → Dict Text → Text → Text → Result → Type 0
  IsOpening ports notes port proto r =
      ((r.calls ≡ []) × (r.notes ≡ notes) × Refused ports port proto)
      ⊎ ((r.calls ≡ add_rule port proto ∷ [])
          × InRange (int_of port)
          × (is_in proto (codes "tcp" ∷ codes "udp" ∷ []) ≡ true)
          × (nft_port_exists ports port proto ≡ false))

  abbrev pub IsOpeningOr : List Port → Dict Text → Text → Text → Option Result → Type 0
  IsOpeningOr ports notes port proto none = is_port_number port ≡ none
  IsOpeningOr ports notes port proto (some r) = IsOpening ports notes port proto r

  checked_port-IsOpening :
      (o : Option Bool) (ports : List Port) (ok : Bool) (save : Save) (notes : Dict Text)
      → (port proto note : Text) → is_port_number port ≡ o
      → IsOpeningOr ports notes port proto (checked_port o ports ok save notes port proto note)
  checked_port-IsOpening none ports ok save notes port proto note e = e
  checked_port-IsOpening (some false) ports ok save notes port proto note e =
      inl (refl, refl, inl e)
  checked_port-IsOpening (some true) ports ok save notes port proto note e =
      elim (Bool-cases (is_in proto (codes "tcp" ∷ codes "udp" ∷ []))) [
        | inr f ↦ rw f (inl (refl, refl, inr (inl refl)))
        | inl f ↦ rw f (elim (Bool-cases (nft_port_exists ports port proto)) [
          | inl g ↦ rw g (inl (refl, refl, inr (inr refl)))
          | inr g ↦ rw g (elim (Bool-cases ok) [
            | inl k ↦ rw k (inr (refl, is_port_number-InRange port e, refl, refl))
            | inr k ↦ rw k (inr (refl, is_port_number-InRange port e, refl, refl))
          ])
        ])
      ]

  -- To open a port is to add the one rule for it, which happens where it is a number from 1 to
  -- 65535, the protocol is tcp or udp, and the port is not open yet; else nothing is called and the
  -- notes stay. It raises only where the digits are no decimal number.
  pub op_firewall_add_port-IsOpening :
      (ports : List Port) (ok : Bool) (save : Save) (notes : Dict Text) (port proto note : Text)
      → IsOpeningOr ports notes port proto
          (op_firewall_add_port ports ok save notes port proto note)
  unfolding op_firewall_add_port
  op_firewall_add_port-IsOpening ports ok save notes port proto note =
      checked_port-IsOpening (is_port_number port) ports ok save notes port proto note refl
