-- ===== src/BankData/Snapshot.antt =====
-- bankdata/snapshot.go: reading a decoded snapshot and `CopySources`. The bytes of a snapshot (gzip and
-- JSON) are read by libraries; here a snapshot is its header and its lines, each empty, a bank, or
-- not readable.
use iban_pizza.Prelude.{
  ℕ, ◌+◌, not, List, [], ◌∷◌, ◌++◌, Option, none, some, ◌==◌, if◌then◌else◌, length, map,
}
use iban_pizza.Prelude.Text.{Bytes}
use iban_pizza.Prelude.Assoc.{get, put, bytes_key}
use iban_pizza.Iban.Types.{Result, ok, err, ◌>>=◌}
use iban_pizza.BankData.Types.{Bank, Key, bank_key, key_of, normalize_key, SourceInfo}
use iban_pizza.BankData.Store.{Store, stats, all_banks, listed, reindex}

abbrev pub snapshot_version : ℕ
snapshot_version = 1

pub data Line : Type 0 where
  blank : Line
  bank_line : Bank → Line
  bad_line : Line

pub record Snapshot : Type 0 where
  pub version : ℕ
  pub sources : List SourceInfo
  pub lines : List Line

pub data SnapshotError : Type 0 where
  unsupported_version : ℕ → SnapshotError
  bad_record : ℕ → SnapshotError

-- The loop of `ReadSnapshot`; `line` is the number of the line before.
unfoldable pub read_lines :
    ℕ → List Line → List (Key × Bank) → Result SnapshotError (List (Key × Bank))
read_lines line [] m = ok m
read_lines line (blank ∷ lines) m = read_lines (line + 1) lines m
read_lines line (bank_line b ∷ lines) m =
    read_lines (line + 1) lines (put (normalize_key (key_of b)) b m)
read_lines line (bad_line ∷ lines) m = err (bad_record (line + 1))

unfoldable pub put_sources : List SourceInfo → List (Bytes × SourceInfo) → List (Bytes × SourceInfo)
put_sources [] m = m
put_sources (src ∷ rest) m = put_sources rest (put src.name src m)

-- `ReadSnapshot`
unfoldable pub read_snapshot : Snapshot → Result SnapshotError Store
read_snapshot snap =
    if not (snap.version == snapshot_version) then err (unsupported_version snap.version) else do
      by_key ← read_lines 1 snap.lines []
      ok (record {
        by_key = by_key;
        by_bic = reindex by_key;
        sources = put_sources snap.sources [];
      })

-- What `WriteSnapshot` writes of a store in memory: its sources and all its records.
unfoldable pub write_snapshot : Store → Snapshot
write_snapshot s = record {
  version = snapshot_version;
  sources = (stats s).sources;
  lines = map bank_line (all_banks s);
}

pub data CopyError (E : Type 0) : Type 0 where
  no_records : Bytes → CopyError E
  store_failed : Bytes → E → CopyError E

-- The map of `CopySources` from a source's name to its records, in the order of `All`.
unfoldable pub by_source : List Bank → List (Bytes × List Bank) → List (Bytes × List Bank)
by_source [] m = m
by_source (b ∷ banks) m = by_source banks (put b.source (listed (get b.source m) ++ b ∷ []) m)

-- A target of the copy: `Writer` of the source, whose `Replace` returns the new state or an error.
module _ {W E : Type 0} (replace : W → SourceInfo → List Bank → Result E W) where
  -- The loop of `CopySources`, over the records of each source name: the target, the sources copied so
  -- far, and the error that ended it.
  unfoldable pub copy_loop :
      (Bytes → List Bank)
      → List SourceInfo
      → W
      → List SourceInfo
      → W × List SourceInfo × Option (CopyError E)
  copy_loop records [] to copied = (to, copied, none)
  copy_loop records (info ∷ rest) to copied = elim (records info.name) [
    | [] ↦ (to, copied, some (no_records info.name))
    | b ∷ banks ↦ elim (replace to info (b ∷ banks)) [
      | err e ↦ (to, copied, some (store_failed info.name e))
      | ok to' ↦
          copy_loop records rest to'
            (copied ++ record info { record_count = length (b ∷ banks) } ∷ [])
    ]
  ]

  -- `CopySources`
  unfoldable pub copy_sources : Store → W → W × List SourceInfo × Option (CopyError E)
  copy_sources from to =
      let records = by_source (all_banks from) [] in
      copy_loop (λ name. listed (get name records)) (stats from).sources to []
