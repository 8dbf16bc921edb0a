-- ===== src/Cmd/Snapshot.antt =====
-- cmd/iban-pizza/import.go, snapshot.go and serve.go, behind flags and log: the import of a snapshot, the writing of one, the warning
-- about old data, and the list of allowed origins.
use iban_pizza.Prelude.{
  ℕ, ◌-◌, Bool, true, false, List, [], ◌∷◌, Option, none, some, if◌then◌else◌, ltb, ◌==◌,
}
use iban_pizza.Prelude.Text.{Bytes, codes, bytes_eq, is_empty, trim_space}
use iban_pizza.Iban.Types.{Result, ok, err}
use iban_pizza.BankData.Types.{Bank, SourceInfo, Stats, oldest_retrieval}
use iban_pizza.BankData.Store.{Store}
use iban_pizza.BankData.Snapshot.{CopyError, copy_sources}
use iban_pizza.Cmd.Update.{split_commas}

pub data SnapshotError (F : Type 0) : Type 0 where
  not_loaded not_opened not_written : F → SnapshotError F
  not_copied : CopyError F → SnapshotError F
  no_stats : F → SnapshotError F
  empty_snapshot : SnapshotError F

-- The choice of the snapshot to import.
unfoldable pub load_from :
    {F : Type 0} → (Bytes → Result F Store) → Result F Store → Bytes → Result F Store
load_from load_file embedded from =
    if bytes_eq from (codes "embedded") then embedded else load_file from

module _ {F W : Type 0} (replace : W → SourceInfo → List Bank → Result F W) (save : W → Option F)
    (write_snapshot : Bool) where
  -- The end of `importSnapshot`, with the target and the sources that were copied.
  abbrev pub after_write :
      W → List SourceInfo → Option F → W × List SourceInfo × Option (SnapshotError F)
  after_write w copied none = (w, copied, none)
  after_write w copied (some e) = (w, copied, some (not_written e))

  abbrev pub after_copy :
      W × List SourceInfo × Option (CopyError F) → W × List SourceInfo × Option (SnapshotError F)
  after_copy (w, copied, some e) = (w, copied, some (not_copied e))
  after_copy (w, copied, none) = after_write w copied (if write_snapshot then save w else none)

  abbrev pub copy_opened :
      Bool → W → Option F → Store → W × List SourceInfo × Option (SnapshotError F)
  copy_opened true w failed s = (w, [], none)
  copy_opened false w (some e) s = (w, [], some (not_opened e))
  copy_opened false w none s = after_copy (copy_sources replace s w)

  -- `importSnapshot`, with the target as it is when it is opened; `failed` is the error of opening it.
  abbrev pub import_loaded :
      Bool → W → Option F → Result F Store → W × List SourceInfo × Option (SnapshotError F)
  import_loaded dry_run w failed (err e) = (w, [], some (not_loaded e))
  import_loaded dry_run w failed (ok s) = copy_opened dry_run w failed s

  unfoldable pub import_snapshot :
      (Bytes → Result F Store)
      → Result F Store
      → Bytes
      → Bool
      → W
      → Option F
      → W × List SourceInfo × Option (SnapshotError F)
  import_snapshot load_file embedded from dry_run w failed =
      import_loaded dry_run w failed (load_from load_file embedded from)

-- `runSnapshot` behind the opening of its store: the error, if there is one; `saved` is that of the writing
abbrev pub not_written_of : {F : Type 0} → Option F → Option (SnapshotError F)
not_written_of none = none
not_written_of (some e) = some (not_written e)

unfoldable pub run_snapshot : {F : Type 0} → Result F Stats → Option F → Option (SnapshotError F)
run_snapshot (err e) saved = some (no_stats e)
run_snapshot (ok stats) saved =
    if stats.total_records == 0 then some empty_snapshot else not_written_of saved

-- The warning of `runServe`: the source that is too old.
abbrev pub if_old : ℕ → ℕ → Option SourceInfo → Option SourceInfo
if_old now stale_after none = none
if_old now stale_after (some o) = if ltb stale_after (now - o.retrieved_at) then some o else none

unfoldable pub stale_warning : ℕ → ℕ → Stats → Option SourceInfo
stale_warning now stale_after stats = if_old now stale_after (oldest_retrieval stats)

-- `splitOrigins`
unfoldable pub trimmed_parts : List Bytes → List Bytes
trimmed_parts [] = []
trimmed_parts (part ∷ parts) =
    let rest = trimmed_parts parts in
    if is_empty (trim_space part) then rest else trim_space part ∷ rest

unfoldable pub split_origins : Bytes → List Bytes
split_origins s = if is_empty (trim_space s) then [] else trimmed_parts (split_commas s)
