-- ===== src/Text/Decimal.antt =====
-- `"%d" % n`.
pub mod RoundTrip
use gpn.Prelude.{ℕ, zero, suc, ◌+◌, ◌/◌, ◌%◌, [], ◌∷◌, ◌++◌, ltb, if◌then◌else◌}
use gpn.Text.Chars.{Text}

-- A number has fewer digits than one more than itself.
unfoldable pub decimal_in : ℕ → ℕ → Text
decimal_in zero n = []
decimal_in (suc fuel) n =
    let front = decimal_in fuel (n / 10) ++ (n % 10 + b'0') ∷ [] in
    if ltb n 10 then (n + b'0') ∷ [] else front

unfoldable pub decimal : ℕ → Text
unfolding decimal_in
decimal n = decimal_in (suc n) n
