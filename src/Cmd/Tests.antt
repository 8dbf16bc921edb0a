-- ===== src/Cmd/Tests.antt =====
-- Runs of the commands, and of the theorem about the import.
use iban_pizza.Prelude.{ℕ, true, false, List, [], ◌∷◌, Option, none, some, ◌≡◌, refl}
use iban_pizza.Prelude.Text.{
  Bytes, codes, bytes_eq, bytes_lt, is_space, trim_left, trim_space, to_upper, to_lower, upper,
  lower, remove_byte, has_prefix, contains,
}
use iban_pizza.Prelude.Assoc.{get, put}
use iban_pizza.Prelude.Sort.{insert, sort}
use iban_pizza.Iban.Types.{Result, ok, err}
use iban_pizza.BankData.Types.{
  bank_key, Key, normalize_key, has_key, Stats, SourceInfo, oldest_retrieval, oldest_from,
}
use iban_pizza.BankData.Store.{Store, new_store, store_code, find}
use iban_pizza.BankData.Invariant.{IsStore, new_store-IsStore}
use iban_pizza.BankData.Found.{under_keys, without}
use iban_pizza.Sources.Encoding.{
  first_byte, decode_from, decode_utf8, valid_utf8, trim_bom, decode_auto, unify_ends,
  split_at_ends, drop_last_empty, split_lines,
}
use iban_pizza.Sources.Table.{
  Table, normalise_header, contains_all, from_header, join_lines, name_columns, index, field,
  must_index, parse_csv,
}
use iban_pizza.Sources.Rows.{row_loop}
use iban_pizza.Sources.Generic.{
  Columns, generic_name, header_of, count_byte, detect_separator, columns_of, country_for, bank_of,
  judge_row, generic_rows, parse_generic,
}
use iban_pizza.Sources.Import.{IsTable}
use iban_pizza.Sources.Source.{Source, all_sources, oenb, bundesbank, Fetched, update}
use iban_pizza.Sources.Fetch.{not_reached}
use iban_pizza.Sources.Updated.{replace_in}
use iban_pizza.Api.Reports.{handle_health, configured, some_old}
use iban_pizza.Cmd.Snapshot.{
  split_origins, trimmed_parts, stale_warning, import_snapshot, load_from,
}
use iban_pizza.Cmd.Import.{ImportFlags, parse_format, check_countries, read_import, run_import}
use iban_pizza.Cmd.Imported.{import_rows, new_or, run_import-find}
use iban_pizza.Cmd.Update.{
  split_commas, select_loop, select_sources, no_source, update_loop, UpdateFlags, some_failed,
  run_update,
}

-- All that the commands compute with.
unfoldable command_code : Unit {0}
unfolding get put insert sort bytes_eq bytes_lt is_space trim_left trim_space to_upper to_lower
    upper lower remove_byte has_prefix contains normalize_key has_key first_byte decode_from
    decode_utf8 valid_utf8 trim_bom decode_auto unify_ends split_at_ends drop_last_empty split_lines
    normalise_header contains_all from_header join_lines name_columns index field must_index
    parse_csv row_loop header_of count_byte detect_separator columns_of country_for bank_of
    judge_row generic_rows parse_generic all_sources update parse_format check_countries read_import
    run_import split_commas select_loop select_sources update_loop run_update
command_code = tt

-- A reader that is given the one file of these tests.
two_rows : ℕ → Bytes → Result ℕ (List (List Bytes))
two_rows sep text = ok (
    (codes "bankCode" ∷ codes "name" ∷ [])
    ∷ (codes "100" ∷ codes "First" ∷ [])
    ∷ (codes "100" ∷ codes "Second" ∷ [])
    ∷ [])

abbrev bank_file : Bytes
bank_file = codes "bankCode;name\n100;First\n100;Second\n"

abbrev flags : ImportFlags
flags = record {
  country = codes "fr";
  file = codes "f.csv";
  source = [];
  format = codes "generic";
  dry_run = false;
  write_snapshot = false;
}

never_saved : Store → Option ℕ
never_saved s = some 0

after_import : Store
after_import =
    (run_import two_rows [] (replace_in {F = ℕ}) never_saved flags (ok bank_file) 7 new_store
      none).0

import_done :
    run_import two_rows [] (replace_in {F = ℕ}) never_saved flags (ok bank_file) 7 new_store none
    ≡ (after_import, none)
unfolding command_code store_code two_rows after_import
import_done = refl

run_import-find_example :
    IsStore after_import
    × (raw : Bytes) × (table : Table) × (col : Columns) × (◌≡◌ {A = Result ℕ Bytes}
        (ok bank_file)
        (ok raw))
    × IsTable two_rows raw table col
    × ((key : Key)
        → find after_import key
          ≡ new_or
              (without generic_name (find new_store key))
              (get (normalize_key key) (under_keys (import_rows flags col table))))
run_import-find_example =
    run_import-find two_rows [] never_saved flags (ok bank_file) 7 new_store after_import
      new_store-IsStore refl refl import_done

-- Two sources that cannot be reached: both count as failed, and the store stays as it was.
unreached : Fetched ℕ
unreached = record { contents = err (not_reached 0); url = [] }

registry : List (Bytes × Source ℕ)
registry = (codes "DE", bundesbank unreached) ∷ (codes "AT", oenb two_rows unreached) ∷ []

abbrev every_source : UpdateFlags
every_source = record { countries = []; dry_run = false; write_snapshot = false; schemes = false }

update_failed :
    run_update
      (replace_in {F = ℕ})
      replace_in
      never_saved
      true
      (λ n. n)
      registry
      every_source
      new_store
      none
    ≡ (new_store, some (some_failed 2 2))
unfolding command_code store_code registry unreached two_rows
update_failed = refl

unknown_selected : select_sources registry (codes "de, xx") ≡ err (no_source (codes "XX"))
unfolding command_code registry unreached two_rows
unknown_selected = refl

abbrev one_info : SourceInfo
one_info = record {
  country = codes "DE";
  name = codes "d";
  url = [];
  retrieved_at = 10;
  record_count = 1;
}

abbrev one_source : Stats
one_source = record { total_records = 1; sources = one_info ∷ [] }

-- With the limit 0 the warning speaks of data that health does not call stale, as its limit is then 120 days.
warned_early : stale_warning 100 0 one_source ≡ some one_info
unfolding stale_warning oldest_retrieval oldest_from
warned_early = refl

healthy_still : (handle_health [] 0 100 (configured 1 0) (ok one_source)).1.is_stale ≡ false
unfolding configured handle_health some_old
healthy_still = refl

two_origins :
    split_origins (codes " https://a, ,https://b") ≡ codes "https://a" ∷ codes "https://b" ∷ []
unfolding split_origins trimmed_parts split_commas trim_space trim_left is_space
two_origins = refl

-- A dry run copies nothing.
dry_import :
    (import_snapshot
      (replace_in {F = ℕ})
      never_saved
      true
      (λ file. err 1)
      (ok new_store)
      (codes "embedded")
      true
      new_store
      none)
    ≡ (new_store, [], none)
unfolding import_snapshot load_from bytes_eq
dry_import = refl
