-- ===== src/Cmd/Imported.antt =====
-- What the store in memory finds after an import.
use iban_pizza.Prelude.{
  ℕ, ◌==◌, Bool, true, false, ◌||◌, List, [], ◌∷◌, Option, none, some, length, all, ◌≡◌, refl, sym,
  ap, ◌∙◌, subst, arith, Bool-cases, inl, inr,
}
use iban_pizza.Prelude.Text.{Bytes, codes, is_empty, bytes_eq, to_upper, trim_space}
use iban_pizza.Prelude.Assoc.{get, Distinct}
use iban_pizza.Iban.Types.{Result, ok, err, bind_passed}
use iban_pizza.BankData.Types.{Bank, Key, bank_key, key_of, key_eq_iff, normalize_key, SourceInfo}
use iban_pizza.BankData.Store.{StoreError, Store, find, replace}
use iban_pizza.BankData.Invariant.{IsStore, replace-IsStore}
use iban_pizza.BankData.Found.{under_keys, last_for, without, find-replace}
use iban_pizza.Sources.Table.{ParseError, Table}
use iban_pizza.Sources.Generic.{Columns, source_or_generic, parse_generic}
use iban_pizza.Sources.Import.{IsTable, complete_banks, parse_generic-rows}
use iban_pizza.Sources.Source.{Source}
use iban_pizza.Sources.Updated.{replace_in}
use iban_pizza.Cmd.Import.{
  ImportFlags, ImportError, parsed, with_name, parse_format, check_countries, check_named, of_raw,
  of_contents, of_file, read_import, saved, import_info, write_import, run_import,
}

-- Where no key stands twice, the last bank with a key is the first.
last_for-get :
    (k : Key) (banks : List Bank)
    → Distinct (under_keys banks)
    → last_for k banks ≡ get k (under_keys banks)
unfolding last_for get
last_for-get k [] d = refl
last_for-get k (b ∷ banks) d =
    ground (arith, last_for-get k banks d.1, key_eq_iff (normalize_key (key_of b)) k, d.0)

-- What is found: the new bank, or else what was there.
abbrev pub new_or : Result StoreError Bank → Option Bank → Result StoreError Bank
new_or old none = old
new_or old (some b) = ok b

found_first :
    (store : Store) (info : SourceInfo) (banks full : List Bank) (key : Key)
    → IsStore store
    → Distinct (under_keys banks)
    → get (normalize_key key) (under_keys banks) ≡ get (normalize_key key) (under_keys full)
    → find (replace store info banks) key
      ≡ new_or (without info.name (find store key)) (get (normalize_key key) (under_keys full))
found_first store info banks full key h d first =
    find-replace store info banks key h
    ∙ ap (new_or (without info.name (find store key)))
        (last_for-get (normalize_key key) banks d ∙ first)

-- The rows of a generic import that have a bank code and a name, as banks.
abbrev pub import_rows : ImportFlags → Columns → Table → List Bank
import_rows flags col table =
    complete_banks (to_upper (trim_space (to_upper (trim_space flags.country))))
      (source_or_generic flags.source) col table.rows

module _ {E : Type 0} (csv : ℕ → Bytes → Result E (List (List Bytes))) where
  -- A generic import that is read.
  abbrev pub IsGeneric : ImportFlags → Result E Bytes → List Bank × Bytes → Type 0
  IsGeneric flags contents (banks, name) =
      (raw : Bytes) × (contents ≡ ok raw)
      × (parse_generic csv (to_upper (trim_space flags.country)) flags.source raw ≡ ok banks)
      × (name ≡ source_or_generic flags.source)

module _ {E F : Type 0} (csv : ℕ → Bytes → Result E (List (List Bytes)))
    (registry : List (Bytes × Source E)) where
  of_file_passed :
      (contents : Result E Bytes) (raw : Bytes)
      → of_file {F = F} csv registry contents ≡ ok raw
      → contents ≡ ok raw
  of_file_passed (err e) raw h = absurd (cc)
  of_file_passed (ok []) raw h = absurd (cc)
  of_file_passed (ok (c ∷ text)) raw h = let same : c ∷ text ≡ raw = cc in ap ok same

  named_passed :
      (s : Bytes) (r : Result (ParseError E) (List Bank)) (banks : List Bank) (name : Bytes)
      → with_name {F = F} csv registry s (parsed csv registry r) ≡ ok (banks, name)
      → (r ≡ ok banks) × (name ≡ s)
  named_passed s (err e) banks name h = absurd (cc)
  named_passed s (ok all) banks name h =
      let same : ◌≡◌ {A = List Bank × Bytes} (all, s) (banks, name) = cc in
      (ap (λ t. ok (t.0)) same, sym (ap (λ t. t.1) same))

  generic_passed :
      (flags : ImportFlags) (cc raw : Bytes) (banks : List Bank) (name : Bytes)
      → flags.format ≡ codes "generic"
      → parse_format {F = F} csv registry flags cc raw ≡ ok (banks, name)
      → (parse_generic csv cc flags.source raw ≡ ok banks) × (name ≡ source_or_generic flags.source)
  unfolding parse_format bytes_eq
  generic_passed flags cc raw banks name g h =
      named_passed (source_or_generic flags.source) (parse_generic csv cc flags.source raw) banks
        name (rw g at h)

  of_contents_passed :
      (flags : ImportFlags) (cc : Bytes) (contents : Result E Bytes) (banks : List Bank)
      (name : Bytes)
      → of_contents {F = F} csv registry flags cc contents ≡ ok (banks, name)
      → (raw : Bytes) × (contents ≡ ok raw)
        × (parse_format {F = F} csv registry flags cc raw ≡ ok (banks, name))
  of_contents_passed flags cc contents banks name h =
      let (raw, read, h1) =
        bind_passed (of_file csv registry contents) (of_raw csv registry flags cc) h in
      let (named, good, h2) =
        bind_passed (parse_format csv registry flags cc raw)
          (check_named csv registry cc flags.format) h1 in
      let (checked, all, same) =
        bind_passed (check_countries csv registry cc flags.format named.0) (λ checked. ok named)
          h2 in
      (raw, of_file_passed contents raw read, good ∙ same)

  read_import_passed :
      (flags : ImportFlags) (contents : Result E Bytes) (banks : List Bank) (name : Bytes)
      → read_import {F = F} csv registry flags contents ≡ ok (banks, name)
      → of_contents {F = F} csv registry flags (to_upper (trim_space flags.country)) contents
        ≡ ok (banks, name)
  unfolding read_import
  read_import_passed flags contents banks name h =
      elim (Bool-cases (is_empty flags.country || is_empty flags.file)) [
        | inl missing ↦ absurd (ground (arith, rw missing at h))
        | inr given ↦ elim (Bool-cases (length (to_upper (trim_space flags.country)) == 2)) [
          | inl two ↦ rw (given, two) at h
          | inr other ↦ absurd (ground (arith, rw (given, other) at h))
        ]
      ]

  saved_passed :
      {W : Type 0} (replace : W → SourceInfo → List Bank → Result F W) (save : W → Option F)
      (asked : Bool) (w w' : W) (e : Option F)
      → saved csv registry replace save asked w e ≡ (w', none)
      → w ≡ w'
  saved_passed replace save false w w' e h = ap (λ t. t.0) h
  saved_passed replace save true w w' none h = ap (λ t. t.0) h
  saved_passed replace save true w w' (some e) h = ap (λ t. t.0) h

  -- The store after an import into memory that was no dry run and had no error.
  written_passed :
      (save : Store → Option F) (flags : ImportFlags) (file_time : ℕ) (store store' : Store)
      (r : Result (ImportError E F) (List Bank × Bytes))
      → flags.dry_run ≡ false
      → write_import csv registry replace_in save flags file_time store none r ≡ (store', none)
      → (banks : List Bank) × (name : Bytes) × (r ≡ ok (banks, name))
        × (replace store (import_info csv registry replace_in save flags file_time banks name) banks
            ≡ store')
  written_passed save flags file_time store store' (err e) wet h =
      absurd (let clash : some e ≡ none = ap (λ t. t.1) h in cc)
  written_passed save flags file_time store store' (ok (banks, name)) wet h =
      let info = import_info csv registry (replace_in {F = F}) save flags file_time banks name in
      (
        banks,
        name,
        refl,
        saved_passed replace_in save flags.write_snapshot (replace store info banks) store'
            (save (replace store info banks)) (rw wet at h),
      )

  -- A generic import into the store in memory, if this keeps its invariant, the import is no dry run and it ends without
  -- an error: the file could be read as a table with its columns; the store keeps its invariant; a key
  -- finds the bank of the first row that has the key, a bank code and a name; and any other key finds what it found
  -- before, unless that was a record of the imported source, which is gone.
  pub run_import-find :
      (save : Store → Option F) (flags : ImportFlags) (contents : Result E Bytes) (file_time : ℕ)
      (store store' : Store)
      → IsStore store
      → flags.format ≡ codes "generic"
      → flags.dry_run ≡ false
      → run_import csv registry replace_in save flags contents file_time store none ≡ (store', none)
      → IsStore store'
        × (raw : Bytes) × (table : Table) × (col : Columns) × (contents ≡ ok raw)
        × IsTable csv raw table col
        × ((key : Key)
            → find store' key
              ≡ new_or
                  (without (source_or_generic flags.source) (find store key))
                  (get (normalize_key key) (under_keys (import_rows flags col table))))
  unfolding run_import
  run_import-find save flags contents file_time store store' h generic wet done =
      let (banks, name, read, same) =
        written_passed save flags file_time store store' (read_import csv registry flags contents)
          wet done in
      let (raw, contents_read, parsed) =
        of_contents_passed flags (to_upper (trim_space flags.country)) contents banks name
          (read_import_passed flags contents banks name read) in
      let (rows, named) =
        generic_passed flags (to_upper (trim_space flags.country)) raw banks name generic parsed in
      let (table, col, is_table, good, distinct, first) =
        parse_generic-rows csv (to_upper (trim_space flags.country)) flags.source raw banks rows in
      let info = import_info csv registry (replace_in {F = F}) save flags file_time banks name in
      (
        subst (λ t. IsStore t) same (replace-IsStore store info banks h),
        raw,
        table,
        col,
        contents_read,
        is_table,
        λ key.
            subst
              (λ (t : Store).
                find t key
                ≡ new_or (without (source_or_generic flags.source) (find store key))
                    (get (normalize_key key) (under_keys (import_rows flags col table))))
              same
              (subst
                (λ n.
                  find (replace store info banks) key
                  ≡ new_or (without n (find store key))
                      (get (normalize_key key) (under_keys (import_rows flags col table))))
                named
                (found_first store info banks (import_rows flags col table) key h distinct
                  (first (normalize_key key)))),
      )
