-- ===== src/BankData/Tests.antt =====
-- Runs of the store on a few banks, and of the theorems about it.
use iban_pizza.Prelude.{
  ◌≤◌, true, List, [], ◌∷◌, none, some, if◌then◌else◌, ◌≡◌, refl, arith, all, length, ℕ, Option,
}
use iban_pizza.Prelude.Assoc.{Distinct}
use iban_pizza.Prelude.Sort.{Sorted}
use mathlib.Core.List.{Perm}
use iban_pizza.Prelude.Text.{Bytes, codes, is_empty, to_upper, to_lower, lower, trim_space}
use iban_pizza.Iban.Types.{Result, ok, err}
use iban_pizza.BankData.Types.{
  key_of, Bank, Key, normalize_key, SourceInfo, Query, clamp_limit, max_limit, bank_before, Stats,
  has_key, bank_key,
}
use iban_pizza.BankData.Store.{
  reindex, store_code, Store, StoreError, not_found, new_store, find, find_by_bic, search_banks,
  keep, values, matches_query, put_banks, stats, replace,
}
use iban_pizza.BankData.Snapshot.{
  put_sources, read_lines, Snapshot, read_snapshot, copy_sources, bank_line, blank,
}
use iban_pizza.BankData.Invariant.{IsStore, new_store-IsStore, replace-IsStore}
use iban_pizza.BankData.Found.{under_keys, find-replace, last_for, without}
use iban_pizza.BankData.Index.{find_by_bic-scan, scanned, has_bic}
use iban_pizza.BankData.Reads.{search_banks_sound, search_banks_complete}
use iban_pizza.BankData.Postgres.{
  Database, TxStep, find_row, replace_rows, row_of, rows_of, delete_keys, copy_all, duplicate_key,
}
use iban_pizza.BankData.Agreed.{Agree, is_clean, replace_rows-Agree}
use iban_pizza.BankData.Rebuilt.{into_memory, has_source, has_records, copy_sources-find}
use iban_pizza.BankData.Copied.{banks_of, read_snapshot-IsStore, copy_sources-keep, CopyRun}

abbrev bank_named : Bytes → Bytes → Bank
bank_named code name = record {
  country = codes "DE";
  bank_code = code;
  name = name;
  short_name = [];
  zip = [];
  city = [];
  bic = codes "COBADEFFXXX";
  check_algo = codes "00";
  source = codes "bundesbank";
}

abbrev cologne : Bank
cologne = bank_named (codes "37040044") (codes "Commerzbank")

abbrev berlin : Bank
berlin = bank_named (codes "10040000") (codes "Commerzbank")

abbrev bundesbank : SourceInfo
bundesbank = record {
  country = codes "DE";
  name = codes "bundesbank";
  url = [];
  retrieved_at = 7;
  record_count = 0;
}

abbrev filled : Store
filled = replace new_store bundesbank (cologne ∷ berlin ∷ [])

abbrev cologne_key : Key
cologne_key = record { country = codes "de"; bank_code = codes "37040044 " }

abbrev every_bank : Query
every_bank = record { country = codes "de"; bic = []; name = codes "merz"; limit = 0 }

filled-IsStore : IsStore filled
filled-IsStore = replace-IsStore new_store bundesbank (cologne ∷ berlin ∷ []) new_store-IsStore

replace-IsStore_example : IsStore (replace filled bundesbank (berlin ∷ []))
replace-IsStore_example = replace-IsStore filled bundesbank (berlin ∷ []) filled-IsStore

find-replace_example :
    find (replace filled bundesbank (berlin ∷ [])) cologne_key
    ≡ (elim (last_for (normalize_key cologne_key) (berlin ∷ [])) [
      | none ↦ without bundesbank.name (find filled cologne_key)
      | some b ↦ ok b
    ])
find-replace_example = find-replace filled bundesbank (berlin ∷ []) cologne_key filled-IsStore

find_by_bic-scan_example : find_by_bic filled (codes "cobadeffxxx") ≡ (
    if is_empty (to_upper (trim_space (codes "cobadeffxxx")))
    then err not_found
    else scanned
        (keep (has_bic (to_upper (trim_space (codes "cobadeffxxx")))) (values filled.by_key)))
find_by_bic-scan_example = find_by_bic-scan filled (codes "cobadeffxxx") filled-IsStore

search_banks_sound_example :
    (length (search_banks to_lower filled every_bank) ≤ clamp_limit every_bank)
    × (length (search_banks to_lower filled every_bank) ≤ max_limit)
    × (all (matches_query to_lower every_bank) (search_banks to_lower filled every_bank) ≡ true)
    × Sorted bank_before (search_banks to_lower filled every_bank)
search_banks_sound_example = search_banks_sound to_lower filled every_bank

few_match :
    length (keep (matches_query to_lower every_bank) (values filled.by_key))
    ≤ clamp_limit every_bank
unfolding store_code to_lower lower
few_match = omega arith

search_banks_complete_example :
    Perm
      (search_banks to_lower filled every_bank)
      (keep (matches_query to_lower every_bank) (values filled.by_key))
search_banks_complete_example = search_banks_complete to_lower filled every_bank few_match

abbrev saved : Snapshot
saved = record {
  version = 1;
  sources = bundesbank ∷ [];
  lines = bank_line berlin ∷ blank ∷ bank_line cologne ∷ [];
}

abbrev reloaded : Store
reloaded =
    let by_key = put_banks (berlin ∷ cologne ∷ []) [] in
    record { by_key = by_key; by_bic = reindex by_key; sources = put_sources (bundesbank ∷ []) [] }

read_saved : read_snapshot saved ≡ ok reloaded
unfolding read_snapshot read_lines put_banks
read_saved = refl

read_snapshot-IsStore_example :
    IsStore reloaded × (reloaded.by_key ≡ put_banks (banks_of saved.lines) [])
read_snapshot-IsStore_example = read_snapshot-IsStore saved reloaded read_saved

abbrev store_into : Store → SourceInfo → List Bank → Result StoreError Store
store_into to info banks = ok (replace to info banks)

copy_sources-keep_example :
    let r = copy_sources store_into filled new_store in
    CopyRun store_into filled (stats filled).sources new_store r.0 r.1 r.2
copy_sources-keep_example = copy_sources-keep store_into filled new_store

recorded : all (has_records filled) (stats filled).sources ≡ true
unfolding store_code
recorded = refl

copy_sources-find_example :
    (to : Store) × (copied : List SourceInfo) × (copy_sources (into_memory {E = ℕ}) filled new_store
      ≡ (to, copied, none))
    × IsStore to
    × ((key : Key)
        → find to key ≡ (elim (find filled key) [
          | err e ↦ err e
          | ok b ↦ if has_source (stats filled).sources b.source then ok b else err not_found
        ]))
copy_sources-find_example = copy_sources-find filled filled-IsStore recorded

abbrev statistics : Stats
statistics = record {
  total_records = 2;
  sources = bundesbank ∷ record bundesbank { retrieved_at = 3 } ∷ [];
}

-- A database with the records of `filled`.
abbrev filled_rows : Database
filled_rows = record { bank = under_keys (cologne ∷ berlin ∷ []); bank_source = [] }

always_up : TxStep → Option ℕ
always_up step = none

up : (step : TxStep) → always_up step ≡ none
unfolding always_up
up step = refl

filled-Agree : Agree filled_rows filled
unfolding store_code
filled-Agree = ((refl, (refl, tt)), λ k. refl)

berlin_clean : all (is_clean (codes "bundesbank")) (berlin ∷ []) ≡ true
unfolding store_code
berlin_clean = refl

berlin_alone : Distinct ⦃e = bank_key⦄ (under_keys (berlin ∷ []))
unfolding store_code
berlin_alone = (refl, tt)

replace_rows-Agree_example :
    (db' : Database) × (replace_rows always_up filled_rows bundesbank (berlin ∷ []) ≡ ok db')
    × Agree db' (replace filled bundesbank (berlin ∷ []))
    × ((key : Key) → find_row db' key ≡ find (replace filled bundesbank (berlin ∷ [])) key)
replace_rows-Agree_example =
    replace_rows-Agree always_up up filled_rows filled bundesbank (berlin ∷ []) berlin_clean
      berlin_alone filled-IsStore filled-Agree

-- Twice the same key in one file: `COPY` fails, where the store in memory keeps the later bank.
copied_twice :
    replace_rows always_up filled_rows bundesbank (berlin ∷ berlin ∷ [])
    ≡ err (duplicate_key (normalize_key (key_of berlin)))
unfolding store_code replace_rows row_of rows_of delete_keys has_key copy_all always_up
copied_twice = refl
