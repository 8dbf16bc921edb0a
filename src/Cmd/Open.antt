-- ===== src/Cmd/Open.antt =====
-- cmd/iban-pizza/main.go: `openRepository` and `openWritableStore`. The database, the snapshot file and the snapshot in the
-- binary are parameters; none for the last where there is none.
use iban_pizza.Prelude.{[], ◌∷◌, Option, none, some}
use iban_pizza.Prelude.Text.{Bytes}
use iban_pizza.Iban.Types.{Result, ok, err}
use iban_pizza.BankData.Store.{Store, new_store}

-- `dataSource`
pub record DataSource : Type 0 where
  pub file : Bytes
  pub database_url : Bytes

pub data OpenError (F : Type 0) : Type 0 where
  not_connected : F → OpenError F
  not_loaded : F → OpenError F
  no_snapshot : OpenError F

-- A store that is open: the database, or one in memory.
pub data Opened (W : Type 0) : Type 0 where
  database : W → Opened W
  memory : Store → Opened W

module _ {F W : Type 0} (connect : Bytes → Result F W) (load_file : Bytes → Result F Store)
    (embedded : Option (Result F Store)) where
  abbrev pub connected : Result F W → Result (OpenError F) (Opened W)
  connected (err e) = err (not_connected e)
  connected (ok w) = ok (database w)

  abbrev pub loaded : Result F Store → Result (OpenError F) (Opened W)
  loaded (err e) = err (not_loaded e)
  loaded (ok s) = ok (memory s)

  abbrev pub loaded_from : Option (Result F Store) → Result (OpenError F) (Opened W)
  loaded_from none = err no_snapshot
  loaded_from (some r) = loaded r

  -- `openRepository`, by the URL and the file
  abbrev pub open_by : Bytes → Bytes → Result (OpenError F) (Opened W)
  open_by [] [] = loaded_from embedded
  open_by [] (c ∷ file) = loaded (load_file (c ∷ file))
  open_by (c ∷ url) file = connected (connect (c ∷ url))

  unfoldable pub open_repository : DataSource → Result (OpenError F) (Opened W)
  open_repository d = open_by d.database_url d.file

  -- A store to start from, empty where it cannot be loaded.
  abbrev pub or_new : Result F Store → Store
  or_new (err e) = new_store
  or_new (ok s) = s

  abbrev pub or_new_from : Option (Result F Store) → Store
  or_new_from none = new_store
  or_new_from (some r) = or_new r

  -- `openWritableStore`
  abbrev pub open_writable_by : Bytes → Bytes → Result (OpenError F) (Opened W)
  open_writable_by [] [] = ok (memory (or_new_from embedded))
  open_writable_by [] (c ∷ file) = ok (memory (or_new (load_file (c ∷ file))))
  open_writable_by (c ∷ url) file = connected (connect (c ∷ url))

  unfoldable pub open_writable_store : DataSource → Result (OpenError F) (Opened W)
  open_writable_store d = open_writable_by d.database_url d.file
