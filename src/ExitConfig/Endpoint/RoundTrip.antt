-- ===== src/ExitConfig/Endpoint/RoundTrip.antt =====
-- A written host and port are read back.
use gpn.Prelude.{
  ℕ, true, false, ◌||◌, [], ◌∷◌, ◌++◌, none, some, ◌≡◌, ◌∙◌, refl, ap, is_empty, all, All, All-mono,
  All-append, ◌==◌, ==_refl, ℤ, pos, arith, ltb,
}
use gpn.Text.{Text, codes, Unicode, is_space}
use gpn.Text.Decimal.{decimal}
use gpn.Text.Decimal.RoundTrip.{IsDigit, decimal-IsDigit, int_of-decimal}
use gpn.Text.Number.{digit_value, int_of}
use gpn.Text.Search.{starts_with}
use gpn.Text.Search.Counts.{IsNot-has}
use gpn.Text.Split.Pieces.{IsNot}
use gpn.Text.Strip.{strip, Off, strip_by-Off}
use gpn.ExitConfig.Endpoint.{before_path, rcut, is_decimal, split_port, parse_hostport}

-- A character of a host: no white space, no bracket at the front, and none that ends a server.
abbrev pub IsHostChar : ℕ → Type 0
IsHostChar c = (is_space c || c == b'/' || c == b'?' || c == b'#' || c == b'[') ≡ false

-- what strip and the split at a path leave alone
abbrev IsServer : ℕ → Type 0
IsServer c = (c == b'/' || c == b'?' || c == b'#') ≡ false

before_path-IsServer : (s : Text) → All IsServer s → before_path s ≡ s
unfolding before_path
before_path-IsServer [] h = refl
before_path-IsServer (c ∷ s) h = rw h.0 (ap (◌∷◌ c) (before_path-IsServer s h.1))

rcut-IsNot : (sep : ℕ) (s : Text) → All (IsNot sep) s → rcut sep s ≡ none
unfolding rcut
rcut-IsNot sep [] h = refl
rcut-IsNot sep (c ∷ s) h = rw (rcut-IsNot sep s h.1, rcut) (rw h.0 refl)

rcut-last : (sep : ℕ) (a b : Text) → All (IsNot sep) b → rcut sep (a ++ sep ∷ b) ≡ some (a, b)
unfolding rcut
rcut-last sep [] b h = rw (rcut-IsNot sep b h, rcut) (rw (==_refl sep) refl)
rcut-last sep (c ∷ a) b h = rw (rcut-last sep a b h, rcut) refl

IsHostChar-Off : (c : ℕ) → IsHostChar c → Off is_space c
IsHostChar-Off c h = ground arith

IsHostChar-IsServer : (c : ℕ) → IsHostChar c → IsServer c
IsHostChar-IsServer c h = ground arith

IsHostChar-IsNot : (c : ℕ) → IsHostChar c → IsNot b'\n' c
unfolding is_space
IsHostChar-IsNot c h = ground arith

IsDigit-IsHostChar : (c : ℕ) → IsDigit c → IsHostChar c
unfolding is_space
IsDigit-IsHostChar c h = ground arith

IsDigit-IsNot : (c : ℕ) → IsDigit c → IsNot b':' c
IsDigit-IsNot c h = ground arith

starts_with-IsHostChar : (c : ℕ) (s : Text) → IsHostChar c → starts_with (codes "[") (c ∷ s) ≡ false
unfolding starts_with
starts_with-IsHostChar c s h = ground arith

module _ ⦃u : Unicode⦄ where
  is_decimal-IsDigit : (c : ℕ) → IsDigit c → is_decimal c ≡ true
  unfolding digit_value
  is_decimal-IsDigit c h =
      let low : ltb c 128 ≡ true = ground arith in rw (low, is_decimal) (rw (h, is_decimal) refl)

  all-IsDigit : (s : Text) → All IsDigit s → all is_decimal s ≡ true
  all-IsDigit [] h = refl
  all-IsDigit (c ∷ s) h = rw (is_decimal-IsDigit c h.0) (all-IsDigit s h.1)

  is_empty-int_of : (s : Text) (z : ℤ) → int_of s ≡ some z → is_empty s ≡ false
  unfolding int_of
  is_empty-int_of [] z e = cc
  is_empty-int_of (c ∷ s) z e = refl

  split_port-digits :
      (c : ℕ) (host : Text) (p : ℕ)
      → All IsHostChar (c ∷ host)
      → split_port (some (c ∷ host, decimal p)) ≡ some (c ∷ host, pos p)
  unfolding split_port
  split_port-digits c host p h = rw (is_empty-int_of (decimal p) (pos p) (int_of-decimal p)) (
      rw (all-IsDigit (decimal p) (decimal-IsDigit p)) (
        rw (starts_with-IsHostChar c host h.0) (
          rw
            (IsNot-has b'\n' (c ∷ host)
              (All-mono IsHostChar (IsNot b'\n') IsHostChar-IsNot (c ∷ host) h))
            (rw (int_of-decimal p) refl))))

  -- A server written as a host, a colon and a number is read back: the host is not empty, has no
  -- white space and none of "/", "?", "#" and "[", and may hold colons of its own.
  pub parse_hostport-decimal :
      (c : ℕ) (host : Text) (p : ℕ)
      → All IsHostChar (c ∷ host)
      → parse_hostport ((c ∷ host) ++ b':' ∷ decimal p) ≡ some (c ∷ host, pos p)
  unfolding parse_hostport
  parse_hostport-decimal c host p h =
      let whole : Text = (c ∷ host) ++ b':' ∷ decimal p in
      let plain : All IsHostChar whole =
        All-append IsHostChar (c ∷ host) (b':' ∷ decimal p) h
          (refl, All-mono IsDigit IsHostChar IsDigit-IsHostChar (decimal p) (decimal-IsDigit p)) in
      let stripped : strip whole ≡ whole =
        strip_by-Off is_space whole
          (All-mono IsHostChar (Off is_space) IsHostChar-Off whole plain) in
      let cut : before_path whole ≡ whole =
        before_path-IsServer whole (All-mono IsHostChar IsServer IsHostChar-IsServer whole plain) in
      let split : rcut b':' whole ≡ some (c ∷ host, decimal p) =
        rcut-last b':' (c ∷ host) (decimal p)
          (All-mono IsDigit (IsNot b':') IsDigit-IsNot (decimal p) (decimal-IsDigit p)) in
      ap (λ s. split_port (rcut b':' (strip (before_path s)))) stripped
      ∙ (ap (λ s. split_port (rcut b':' (strip s))) cut
          ∙ (ap (λ s. split_port (rcut b':' s)) stripped
              ∙ (ap split_port split ∙ split_port-digits c host p h)))
