-- ===== src/Cmd/Update.antt =====
-- cmd/iban-pizza/update.go: `runUpdate` behind its flags and its log. The clock, the opening of the store and the writing
-- of files are parameters.
use iban_pizza.Prelude.{
  ℕ, suc, Bool, true, false, not, ◌&&◌, List, [], ◌∷◌, Option, none, some, if◌then◌else◌, ltb, ◌==◌,
  length,
}
use iban_pizza.Prelude.Text.{Bytes, is_empty, to_upper, trim_space}
use iban_pizza.Prelude.Assoc.{get, bytes_key}
use iban_pizza.Iban.Types.{Result, ok, err, ◌>>=◌}
use iban_pizza.BankData.Types.{Bank, SourceInfo}
use iban_pizza.BankData.Store.{Store, new_store}
use iban_pizza.Sepa.Register.{Scheme, Participant, all_schemes}
use iban_pizza.Sepa.Load.{LoadError, of_fetched}
use iban_pizza.Sources.Encoding.{push_front}
use iban_pizza.Sources.Source.{Source, all_sources, UpdateError, update}

-- `strings.Split(only, ",")`
unfoldable pub split_commas : Bytes → List Bytes
split_commas [] = [] ∷ []
split_commas (c ∷ s) =
    let rest = split_commas s in if c == b',' then [] ∷ rest else push_front c rest

pub data SelectError : Type 0 where
  no_source : Bytes → SelectError
  none_selected : SelectError

module _ {E : Type 0} where
  abbrev pub add_selected :
      Bytes
      → Option (Source E)
      → Result SelectError (List (Source E))
      → Result SelectError (List (Source E))
  add_selected code none rest = err (no_source code)
  add_selected code (some s) (err e) = err e
  add_selected code (some s) (ok sources) = ok (s ∷ sources)

  -- The loop of `selectSources`
  unfoldable pub select_loop :
      List (Bytes × Source E) → List Bytes → Result SelectError (List (Source E))
  select_loop registry [] = ok []
  select_loop registry (code ∷ codes) =
      let rest = select_loop registry codes in
      let c = to_upper (trim_space code) in
      if is_empty c then rest else add_selected c (get c registry) rest

  abbrev pub some_selected : List (Source E) → Result SelectError (List (Source E))
  some_selected [] = err none_selected
  some_selected (s ∷ sources) = ok (s ∷ sources)

  -- `selectSources`
  unfoldable pub select_sources :
      List (Bytes × Source E) → Bytes → Result SelectError (List (Source E))
  select_sources registry only =
      if is_empty (trim_space only)
      then ok (all_sources registry)
      else select_loop registry (split_commas only) >>= some_selected

  module _ (csv : Bytes → Result E (List (List Bytes))) where
    -- One round of `updateSchemes`: an export is kept as it was fetched, if it can be parsed.
    abbrev pub with_export :
        Scheme
        → Result E Bytes
        → Result (LoadError E) (List Participant)
        → List (Scheme × Bytes)
        → List (Scheme × Bytes)
    with_export s (ok text) (ok participants) rest = (s, text) ∷ rest
    with_export s (ok text) (err e) rest = rest
    with_export s (err e) parsed rest = rest

    unfoldable pub fetch_schemes : (Scheme → Result E Bytes) → List Scheme → List (Scheme × Bytes)
    fetch_schemes fetch [] = []
    fetch_schemes fetch (s ∷ schemes) =
        let rest = fetch_schemes fetch schemes in
        with_export s (fetch s) (of_fetched csv s (fetch s)) rest

    abbrev pub save_schemes : Bool → (List (Scheme × Bytes) → Bool) → List (Scheme × Bytes) → Bool
    save_schemes dry_run save [] = false
    save_schemes dry_run save (f ∷ files) = if dry_run then true else save (f ∷ files)

    -- `updateSchemes`: whether it returns without an error
    unfoldable pub update_schemes :
        (Scheme → Result E Bytes) → Bool → (List (Scheme × Bytes) → Bool) → Bool
    update_schemes fetch dry_run save = save_schemes dry_run save (fetch_schemes fetch all_schemes)

  -- The loop of `runUpdate`: the store and the number of failed sources, from the clock of each round.
  abbrev pub count_failed : {F : Type 0} → Option (UpdateError E F) → ℕ → ℕ
  count_failed none failed = failed
  count_failed (some e) failed = suc failed

  unfoldable pub update_loop :
      {F W : Type 0}
      → (W → SourceInfo → List Bank → Result F W)
      → (ℕ → ℕ)
      → ℕ
      → List (Source E)
      → W
      → ℕ
      → W × ℕ
  update_loop replace clock n [] w failed = (w, failed)
  update_loop replace clock n (s ∷ sources) w failed =
      let done = update replace s (clock n) w in
      update_loop replace clock (suc n) sources done.0 (count_failed done.1.error failed)

-- The flags
pub record UpdateFlags : Type 0 where
  pub countries : Bytes
  pub dry_run : Bool
  pub write_snapshot : Bool
  pub schemes : Bool

pub data RunError (F : Type 0) : Type 0 where
  not_selected : SelectError → RunError F
  not_opened not_written : F → RunError F
  some_failed : ℕ → ℕ → RunError F

abbrev pub with_schemes : UpdateFlags → Bool → ℕ → ℕ
with_schemes flags schemes_updated failed =
    if flags.schemes && not schemes_updated then suc failed else failed

module _ {F : Type 0} where
  abbrev pub ended : ℕ → ℕ → Option (RunError F)
  ended total failed = if ltb 0 failed then some (some_failed failed total) else none

  abbrev pub after_save : ℕ → ℕ → Option F → Option (RunError F)
  after_save total failed none = ended total failed
  after_save total failed (some e) = some (not_written e)

  -- The end of `runUpdate`, behind the loops.
  abbrev pub finished :
      {W : Type 0} → (W → Option F) → UpdateFlags → Bool → ℕ → W × ℕ → W × Option (RunError F)
  finished save flags schemes_updated total (w, failed) =
      if flags.write_snapshot && not flags.dry_run
      then (w, after_save total (with_schemes flags schemes_updated failed) (save w))
      else (w, ended total (with_schemes flags schemes_updated failed))

module _ {E F W : Type 0} (replace : W → SourceInfo → List Bank → Result F W)
    (scratch : Store → SourceInfo → List Bank → Result F Store) (save : W → Option F)
    (schemes_updated : Bool) (clock : ℕ → ℕ) where
  -- A dry run writes to a store of its own, which is dropped.
  abbrev pub run_selected : UpdateFlags → List (Source E) → W → W × Option (RunError F)
  run_selected flags sources w =
      if flags.dry_run
      then finished save flags schemes_updated (length sources)
          (w, (update_loop scratch clock 0 sources new_store 0).1)
      else finished save flags schemes_updated (length sources)
          (update_loop replace clock 0 sources w 0)

  abbrev pub run_opened :
      UpdateFlags → W → Option F → Result SelectError (List (Source E)) → W × Option (RunError F)
  run_opened flags w failed (err e) = (w, some (not_selected e))
  run_opened flags w (some e) (ok sources) = (w, some (not_opened e))
  run_opened flags w none (ok sources) = run_selected flags sources w

  -- `runUpdate`, with the store as it is when it is opened; `failed` is the error of opening it.
  unfoldable pub run_update :
      List (Bytes × Source E) → UpdateFlags → W → Option F → W × Option (RunError F)
  run_update registry flags w failed =
      run_opened flags w failed (select_sources registry flags.countries)
