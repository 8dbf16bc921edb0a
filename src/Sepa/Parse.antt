-- ===== src/Sepa/Parse.antt =====
-- internal/sepa/parse.go behind the CSV reader: an export is its rows of fields, the header first.
use iban_pizza.Prelude.{
  ℕ, ◌+◌, List, [], ◌∷◌, Option, none, some, if◌then◌else◌, ltb, length, get_or,
}
use iban_pizza.Prelude.Text.{Bytes, codes, is_empty, to_lower, trim_space, remove_byte}
use iban_pizza.Prelude.Assoc.{get, put, bytes_key}
use iban_pizza.Iban.Types.{Result, ok, err}
use iban_pizza.Sepa.Register.{Participant, normalize_bic}

pub data ExportError : Type 0 where
  empty_export no_bic_column no_participants : ExportError

-- `normalise`
unfoldable pub normalise : Bytes → Bytes
normalise s = remove_byte b'_' (remove_byte b'-' (remove_byte 32 (to_lower (trim_space s))))

-- `at`
unfoldable pub at : List Bytes → ℕ → Bytes
at row i = if ltb i (length row) then trim_space (get_or row i []) else []

-- The loop over the header: a later column takes the place of an earlier one of that name.
unfoldable pub columns : ℕ → List Bytes → List (Bytes × ℕ) → List (Bytes × ℕ)
columns i [] col = col
columns i (name ∷ header) col = columns (i + 1) header (put (normalise name) i col)

-- `col[name]`, which is 0 for a missing name
abbrev column_or_zero : Option ℕ → ℕ
column_or_zero none = 0
column_or_zero (some i) = i

-- A field that is read only if the export has its column.
abbrev optional : List Bytes → Option ℕ → Bytes
optional row none = []
optional row (some i) = at row i

unfoldable pub read_row : List (Bytes × ℕ) → ℕ → List Bytes → Participant
read_row col bic_at row = record {
  bic = normalize_bic (at row bic_at);
  name = at row (column_or_zero (get (codes "participantname") col));
  country = at row (column_or_zero (get (codes "country") col));
  city = at row (column_or_zero (get (codes "city") col));
  readiness_date = optional row (get (codes "readinessdate") col);
  leaving_date = optional row (get (codes "schemeleavingdate") col);
  role = optional row (get (codes "role") col);
}

-- The loop over the rows, which passes over a row with no BIC.
unfoldable pub read_rows : List (Bytes × ℕ) → ℕ → List (List Bytes) → List Participant
read_rows col bic_at [] = []
read_rows col bic_at (row ∷ rows) =
    let rest = read_rows col bic_at rows in
    if is_empty (normalize_bic (at row bic_at)) then rest else read_row col bic_at row ∷ rest

abbrev some_participants : List Participant → Result ExportError (List Participant)
some_participants [] = err no_participants
some_participants (p ∷ ps) = ok (p ∷ ps)

unfoldable pub parse_rows :
    List (Bytes × ℕ) → Option ℕ → List (List Bytes) → Result ExportError (List Participant)
parse_rows col none rows = err no_bic_column
parse_rows col (some bic_at) rows = some_participants (read_rows col bic_at rows)

-- `ParseCSV`
unfoldable pub parse_export : List (List Bytes) → Result ExportError (List Participant)
parse_export [] = err empty_export
parse_export (header ∷ rows) =
    let col = columns 0 header [] in parse_rows col (get (codes "bic") col) rows
