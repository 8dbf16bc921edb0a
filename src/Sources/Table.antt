-- ===== src/Sources/Table.antt =====
-- internal/sources/csv.go: the header of a delimited file is searched for, and its columns are found by name.
-- The CSV reader, with its separator, is a parameter.
use iban_pizza.Prelude.{
  ℕ, ◌+◌, Bool, true, false, ◌&&◌, List, [], ◌∷◌, ◌++◌, Option, none, some, if◌then◌else◌, ltb,
  length, get_or,
}
use iban_pizza.Prelude.Text.{Bytes, to_lower, trim_space, remove_byte, contains}
use iban_pizza.Prelude.Assoc.{get, put, bytes_key}
use iban_pizza.Iban.Types.{Result, ok, err}
use iban_pizza.Sources.Encoding.{split_lines}

-- What the parsers of this package return instead of records; `mustIndex` also lists the columns there are.
pub data ParseError (E : Type 0) : Type 0 where
  no_header : List Bytes → ParseError E
  unreadable : E → ParseError E
  no_data_rows no_rows empty_file : ParseError E
  missing_column : List Bytes → ParseError E
  bad_country : ℕ → Bytes → ParseError E
  short_line : ℕ → ℕ → ParseError E

-- `csvTable`
pub record Table : Type 0 where
  pub columns : List (Bytes × ℕ)
  pub rows : List (List Bytes)

-- `normaliseHeader`
unfoldable pub normalise_header : Bytes → Bytes
normalise_header s =
    remove_byte b'.'
      (remove_byte b'_' (remove_byte b'-' (remove_byte 32 (to_lower (trim_space s)))))

-- The loop over `mustContain`, on a line that is normalised.
unfoldable pub contains_all : Bytes → List Bytes → Bool
contains_all lower [] = true
contains_all lower (want ∷ wants) =
    contains lower (normalise_header want) && contains_all lower wants

-- `lines[headerAt:]`, none where no line is a header
unfoldable pub from_header : List Bytes → List Bytes → Option (List Bytes)
from_header wants [] = none
from_header wants (line ∷ lines) =
    let rest = from_header wants lines in
    if contains_all (normalise_header line) wants then some (line ∷ lines) else rest

-- `strings.Join(lines, "\n")`
unfoldable pub join_lines : List Bytes → Bytes
join_lines [] = []
join_lines (line ∷ []) = line
join_lines (line ∷ next ∷ lines) = line ++ b'\n' ∷ join_lines (next ∷ lines)

-- The loop over the header: a later column takes the place of an earlier one of that name.
unfoldable pub name_columns : ℕ → List Bytes → List (Bytes × ℕ) → List (Bytes × ℕ)
name_columns i [] columns = columns
name_columns i (name ∷ header) columns =
    name_columns (i + 1) header (put (normalise_header name) i columns)

-- `index`; none where Go returns 0 and false
abbrev pub or_next : Option ℕ → Option ℕ → Option ℕ
or_next none later = later
or_next (some i) later = some i

unfoldable pub index : Table → List Bytes → Option ℕ
index table [] = none
index table (n ∷ names) = or_next (get (normalise_header n) table.columns) (index table names)

-- The position alone, which is 0 for a missing column.
abbrev pub position : Option ℕ → ℕ
position none = 0
position (some i) = i

-- The position, or the one that a parser takes instead.
abbrev pub position_or : Option ℕ → ℕ → ℕ
position_or none i = i
position_or (some j) i = j

abbrev pub is_found : Option ℕ → Bool
is_found none = false
is_found (some i) = true

-- `field`
unfoldable pub field : List Bytes → ℕ → Bytes
field row i = if ltb i (length row) then trim_space (get_or row i []) else []

module _ {E : Type 0} where
  -- `mustIndex`
  abbrev pub or_missing : List Bytes → Option ℕ → Result (ParseError E) ℕ
  or_missing names none = err (missing_column names)
  or_missing names (some i) = ok i

  unfoldable pub must_index : Table → List Bytes → Result (ParseError E) ℕ
  must_index table names = or_missing names (index table names)

  -- The end of `parseCSV`, from what the reader returns.
  abbrev pub table_of : Result E (List (List Bytes)) → Result (ParseError E) Table
  table_of (err e) = err (unreadable e)
  table_of (ok []) = err no_data_rows
  table_of (ok (header ∷ [])) = err no_data_rows
  table_of (ok (header ∷ row ∷ rows)) =
      ok (record { columns = name_columns 0 header []; rows = row ∷ rows })

  module _ (csv : ℕ → Bytes → Result E (List (List Bytes))) where
    abbrev pub read_table : ℕ → List Bytes → Option (List Bytes) → Result (ParseError E) Table
    read_table sep wants none = err (no_header wants)
    read_table sep wants (some lines) = table_of (csv sep (join_lines lines))

    -- `parseCSV`
    unfoldable pub parse_csv : Bytes → ℕ → List Bytes → Result (ParseError E) Table
    parse_csv text sep wants = read_table sep wants (from_header wants (split_lines text))
