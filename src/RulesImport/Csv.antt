-- ===== src/RulesImport/Csv.antt =====
-- `csv_split` of rules-import.py.
pub mod RoundTrip
use gpn.Prelude.{ℕ, Bool, true, false, not, ◌&&◌, List, [], ◌∷◌, ◌++◌, map, ◌==◌, if◌then◌else◌}
use gpn.Text.{Text}
use gpn.Text.Strip.{strip}

-- the loop, with its variables `q` and `cur`; what it appends to `out` is the result
unfoldable pub csv_from : Bool → Text → Text → List Text
csv_from q cur [] = cur ∷ []
csv_from q cur (ch ∷ s) =
    let quoted = csv_from (not q) cur s in
    let next = csv_from q [] s in
    let longer = csv_from q (cur ++ ch ∷ []) s in
    if ch == b'"' then quoted else if ch == b',' && not q then cur ∷ next else longer

unfoldable pub csv_split : Text → List Text
unfolding csv_from strip
csv_split s = map strip (csv_from false [] s)
