-- ===== src/BankData/Postgres.antt =====
-- bankdata/postgres/postgres.go: `Store`, as the statements that it sends to two tables. PostgreSQL is not modelled: whether
-- it fails a step of `Replace`, its `LIKE` and `ILIKE`, and the collation in which it orders rows, are parameters.
-- The reads are those of a server that answers.
use iban_pizza.Prelude.{
  Bool, ◌&&◌, ◌||◌, List, [], ◌∷◌, ◌++◌, Option, none, some, if◌then◌else◌, length, take,
}
use iban_pizza.Prelude.Text.{Bytes, bytes_eq, is_empty, to_upper, trim_space}
use iban_pizza.Prelude.Assoc.{get, put, delete_where, bytes_key}
use iban_pizza.Prelude.Sort.{sort}
use iban_pizza.Iban.Types.{Result, ok, err, ◌>>=◌}
use iban_pizza.BankData.Types.{
  Bank, Key, bank_key, has_key, normalize_key, SourceInfo, Stats, Query, clamp_limit, source_before,
}
use iban_pizza.BankData.Store.{StoreError, or_not_found, values, keep, is_from}

-- The tables `bank`, by its primary key, and `bank_source`, by name.
pub record Database : Type 0 where
  pub bank : List (Key × Bank)
  pub bank_source : List (Bytes × SourceInfo)

-- `Find`
unfoldable pub find_row : Database → Key → Result StoreError Bank
find_row db key = or_not_found (get (normalize_key key) db.bank)

-- The conditions of `Search`, each left out where the query leaves its text empty. The server's `LIKE`
-- and `ILIKE` of a text and a pattern are parameters.
unfoldable pub matches_row : (Bytes → Bytes → Bool) → (Bytes → Bytes → Bool) → Query → Bank → Bool
matches_row like ilike q b =
    let country = to_upper (trim_space q.country) in
    let bic = to_upper (trim_space q.bic) in
    let name = trim_space q.name in
    (is_empty country || bytes_eq b.country country)
    && (is_empty bic || like b.bic (bic ++ b'%' ∷ []))
    && (is_empty name || ilike b.name (b'%' ∷ name ++ b'%' ∷ []))

-- `Stats`; the order of countries is that of the collation, here that of bytes
unfoldable pub read_stats : Database → Stats
read_stats db = record {
  total_records = length db.bank;
  sources = sort source_before (values db.bank_source);
}

module _ (before : Bank → Bank → Bool) where
  -- `FindByBIC`
  abbrev pub some_found : List Bank → Option (List Bank)
  some_found [] = none
  some_found (b ∷ banks) = some (b ∷ banks)

  unfoldable pub find_rows_by_bic : Database → Bytes → Result StoreError (List Bank)
  find_rows_by_bic db bic = or_not_found (
      some_found
        (sort before (keep (λ b. bytes_eq b.bic (to_upper (trim_space bic))) (values db.bank))))

  -- `Search`
  unfoldable pub search_rows :
      (Bytes → Bytes → Bool) → (Bytes → Bytes → Bool) → Database → Query → List Bank
  search_rows like ilike db q =
      take (clamp_limit q) (sort before (keep (matches_row like ilike q) (values db.bank)))

-- The row that `Replace` writes for a bank.
unfoldable pub row_of : Bytes → Bank → Bank
row_of name b = record b { country = to_upper b.country; source = name }

abbrev pub row_key : Bank → Key
row_key row = record { country = row.country; bank_code = row.bank_code }

unfoldable pub rows_of : Bytes → List Bank → List (Key × Bank)
rows_of name [] = []
rows_of name (b ∷ banks) = (row_key (row_of name b), row_of name b) ∷ rows_of name banks

abbrev pub keys_of : List (Key × Bank) → List Key
keys_of [] = []
keys_of ((k, row) ∷ rows) = k ∷ keys_of rows

-- `DELETE … WHERE (country, bank_code) IN (…)`
unfoldable pub delete_keys : List Key → List (Key × Bank) → List (Key × Bank)
delete_keys keys [] = []
delete_keys keys ((k, row) ∷ m) =
    let rest = delete_keys keys m in if has_key k keys then rest else (k, row) ∷ rest

-- What a transaction can do wrong: the server fails a step, or a row would take a key twice.
pub data TxStep : Type 0 where
  begin clear_source clear_keys copy_rows record_source commit : TxStep

pub data TxError (E : Type 0) : Type 0 where
  step_failed : TxStep → E → TxError E
  duplicate_key : Key → TxError E

module _ {E : Type 0} where
  -- `COPY`, which a key that the table has already fails
  abbrev pub copy_one :
      Key
      → Option Bank
      → Result (TxError E) (List (Key × Bank))
      → Result (TxError E) (List (Key × Bank))
  copy_one k none rest = rest
  copy_one k (some other) rest = err (duplicate_key k)

  unfoldable pub copy_all :
      List (Key × Bank) → List (Key × Bank) → Result (TxError E) (List (Key × Bank))
  copy_all [] m = ok m
  copy_all ((k, row) ∷ rows) m = copy_one k (get k m) (copy_all rows (put k row m))

  module _ (fails : TxStep → Option E) where
    abbrev pub unless_failed : TxStep → Option E → Result (TxError E) (Unit {0})
    unless_failed step none = ok tt
    unless_failed step (some e) = err (step_failed step e)

    abbrev pub sent : TxStep → Result (TxError E) (Unit {0})
    sent step = unless_failed step (fails step)

    -- The statement that is sent only if there are rows.
    abbrev pub cleared :
        List (Key × Bank) → List (Key × Bank) → Result (TxError E) (List (Key × Bank))
    cleared [] m = ok m
    cleared ((k, row) ∷ rows) m =
        sent clear_keys >>= λ done. ok (delete_keys (keys_of ((k, row) ∷ rows)) m)

    -- `Replace`; with an error the transaction is rolled back, and the database stays as it was.
    unfoldable pub replace_rows : Database → SourceInfo → List Bank → Result (TxError E) Database
    replace_rows db info banks = do
      begun ← sent begin
      deleted ← sent clear_source
      rest ← cleared (rows_of info.name banks) (delete_where (is_from info.name) db.bank)
      copying ← sent copy_rows
      bank ← copy_all (rows_of info.name banks) rest
      recorded ← sent record_source
      committed ← sent commit
      ok (record {
        bank = bank;
        bank_source =
            put info.name
              (record info { country = to_upper info.country; record_count = length banks })
              db.bank_source;
      })
