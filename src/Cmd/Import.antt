-- ===== src/Cmd/Import.antt =====
-- cmd/iban-pizza/import.go: `runImport` behind its flags and its log. The file, its time, the opening of the store and the
-- writing of a snapshot are parameters.
use iban_pizza.Prelude.{
  ℕ, Bool, true, false, not, ◌&&◌, ◌||◌, List, [], ◌∷◌, ◌++◌, Option, none, some, if◌then◌else◌,
  ◌==◌, length,
}
use iban_pizza.Prelude.Text.{Bytes, codes, is_empty, bytes_eq, to_upper, trim_space}
use iban_pizza.Iban.Types.{Result, ok, err, ◌>>=◌}
use iban_pizza.BankData.Types.{Bank, SourceInfo}
use iban_pizza.Sources.Table.{ParseError}
use iban_pizza.Sources.Generic.{source_or_generic, parse_generic}
use iban_pizza.Sources.Source.{Source, parse_file}

-- The flags
pub record ImportFlags : Type 0 where
  pub country : Bytes
  pub file : Bytes
  pub source : Bytes
  pub format : Bytes
  pub dry_run : Bool
  pub write_snapshot : Bool

pub data ImportError (E F : Type 0) : Type 0 where
  flags_required : ImportError E F
  bad_code : Bytes → ImportError E F
  unreadable : E → ImportError E F
  empty_file : ImportError E F
  bad_format : Bytes → ImportError E F
  not_parsed : ParseError E → ImportError E F
  foreign_record : Bytes → ImportError E F
  not_opened not_stored not_written : F → ImportError E F

module _ {E F : Type 0} (csv : ℕ → Bytes → Result E (List (List Bytes)))
    (registry : List (Bytes × Source E)) where
  abbrev pub parsed {ℓ} : {A : Type ℓ} → Result (ParseError E) A → Result (ImportError E F) A
  parsed (err e) = err (not_parsed e)
  parsed (ok a) = ok a

  abbrev pub with_name :
      Bytes → Result (ImportError E F) (List Bank) → Result (ImportError E F) (List Bank × Bytes)
  with_name name (err e) = err e
  with_name name (ok banks) = ok (banks, name)

  -- The switch over the format
  unfoldable pub parse_format :
      ImportFlags → Bytes → Bytes → Result (ImportError E F) (List Bank × Bytes)
  parse_format flags cc raw =
      if bytes_eq flags.format (codes "auto")
      then parsed (parse_file csv registry cc flags.source raw)
      else if bytes_eq flags.format (codes "generic")
      then with_name (source_or_generic flags.source)
          (parsed (parse_generic csv cc flags.source raw))
      else err (bad_format flags.format)

  -- The loop that refuses records of other countries
  unfoldable pub check_countries : Bytes → Bytes → List Bank → Result (ImportError E F) (Unit {0})
  check_countries cc format [] = ok tt
  check_countries cc format (b ∷ banks) =
      let rest = check_countries cc format banks in
      if not (bytes_eq b.country cc) && not (bytes_eq format (codes "generic"))
      then err (foreign_record b.country)
      else rest

  abbrev pub of_file : Result E Bytes → Result (ImportError E F) Bytes
  of_file (err e) = err (unreadable e)
  of_file (ok []) = err empty_file
  of_file (ok (c ∷ raw)) = ok (c ∷ raw)

  abbrev pub check_named :
      Bytes → Bytes → List Bank × Bytes → Result (ImportError E F) (List Bank × Bytes)
  check_named cc format named = check_countries cc format named.0 >>= λ checked. ok named

  abbrev pub of_raw : ImportFlags → Bytes → Bytes → Result (ImportError E F) (List Bank × Bytes)
  of_raw flags cc raw = parse_format flags cc raw >>= check_named cc flags.format

  abbrev pub of_contents :
      ImportFlags → Bytes → Result E Bytes → Result (ImportError E F) (List Bank × Bytes)
  of_contents flags cc contents = of_file contents >>= of_raw flags cc

  abbrev pub of_code :
      ImportFlags → Bytes → Result E Bytes → Result (ImportError E F) (List Bank × Bytes)
  of_code flags cc contents =
      if length cc == 2 then of_contents flags cc contents else err (bad_code flags.country)

  -- What is to be stored: the banks and the name to record.
  unfoldable pub read_import :
      ImportFlags → Result E Bytes → Result (ImportError E F) (List Bank × Bytes)
  read_import flags contents =
      if is_empty flags.country || is_empty flags.file
      then err flags_required
      else of_code flags (to_upper (trim_space flags.country)) contents

  module _ {W : Type 0} (replace : W → SourceInfo → List Bank → Result F W)
      (save : W → Option F) where
    -- The end of `runImport`: the store that is written to, and the error.
    abbrev pub saved : Bool → W → Option F → W × Option (ImportError E F)
    saved false w e = (w, none)
    saved true w none = (w, none)
    saved true w (some e) = (w, some (not_written e))

    abbrev pub stored : ImportFlags → W → Result F W → W × Option (ImportError E F)
    stored flags w (err e) = (w, some (not_stored e))
    stored flags w (ok w') = saved flags.write_snapshot w' (save w')

    abbrev pub import_info : ImportFlags → ℕ → List Bank → Bytes → SourceInfo
    import_info flags file_time banks name = record {
      country = to_upper (trim_space flags.country);
      name = name;
      url = codes "file://" ++ flags.file;
      retrieved_at = file_time;
      record_count = length banks;
    }

    -- With the store as it is when it is opened; `failed` is the error of opening it.
    abbrev pub write_import :
        ImportFlags
        → ℕ
        → W
        → Option F
        → Result (ImportError E F) (List Bank × Bytes)
        → W × Option (ImportError E F)
    write_import flags file_time w failed (err e) = (w, some e)
    write_import flags file_time w (some e) (ok (banks, name)) =
        if flags.dry_run then (w, none) else (w, some (not_opened e))
    write_import flags file_time w none (ok (banks, name)) =
        if flags.dry_run
        then (w, none)
        else stored flags w (replace w (import_info flags file_time banks name) banks)

    -- `runImport`
    unfoldable pub run_import :
        ImportFlags → Result E Bytes → ℕ → W → Option F → W × Option (ImportError E F)
    run_import flags contents file_time w failed =
        write_import flags file_time w failed (read_import flags contents)
