-- ===== src/Sepa/Load.antt =====
-- internal/sepa/load.go: `Download` over a fetcher, and `LoadDir` over the files of a directory. The
-- fetcher, the reader of CSV texts and the directory are parameters.
use iban_pizza.Prelude.{◌++◌, ℕ, ◌+◌, ◌==◌, ltb, List, [], ◌∷◌, Option, none, some, if◌then◌else◌}
use iban_pizza.Prelude.Text.{
  Bytes, bytes_eq, is_space, trim_left, trim_space, to_upper, to_lower, remove_byte, upper, lower,
}
use iban_pizza.Prelude.Assoc.{get, put}
use iban_pizza.Iban.Types.{Result, ok, err}
use iban_pizza.Sepa.Register.{
  normalize_bic, add_loop, Scheme, Registry, Participant, new_registry, set_as_of, add, all_schemes,
}
use iban_pizza.Sepa.Parse.{
  normalise, at, columns, read_row, read_rows, parse_rows, ExportError, parse_export,
}

-- The errors: of the fetcher or the file system, of the reader of CSV texts, and of `ParseCSV`.
pub data LoadError (E : Type 0) : Type 0 where
  not_fetched not_read : Scheme → E → LoadError E
  not_parsed : Scheme → ExportError → LoadError E
  nothing_found : LoadError E

-- A file of the directory: it may be missing or unreadable, and has a text and perhaps a time.
pub data File (E : Type 0) : Type 0 where
  missing : File E
  unreadable : E → File E
  stored : Bytes → Option ℕ → File E

-- `newest`, moved on by the time of a file if it is later; none is the zero time.
abbrev pub later : Option ℕ → Option ℕ → Option ℕ
later newest none = newest
later none (some t) = some t
later (some u) (some t) = if ltb u t then some t else some u

-- `found == 0`, and the registry with its time otherwise
abbrev pub loaded : {E : Type 0} → ℕ → Option ℕ → Registry → Result (LoadError E) Registry
loaded found newest r = if found == 0 then err nothing_found else ok (record r { as_of = newest })

module _ {E : Type 0} (csv : Bytes → Result E (List (List Bytes))) where
  abbrev pub of_export :
      Scheme → Result ExportError (List Participant) → Result (LoadError E) (List Participant)
  of_export s (err e) = err (not_parsed s e)
  of_export s (ok ps) = ok ps

  abbrev pub of_rows :
      Scheme → Result E (List (List Bytes)) → Result (LoadError E) (List Participant)
  of_rows s (err e) = err (not_read s e)
  of_rows s (ok rows) = of_export s (parse_export rows)

  -- A text that is fetched, and then goes through `ParseCSV`.
  unfoldable pub of_fetched : Scheme → Result E Bytes → Result (LoadError E) (List Participant)
  of_fetched s (err e) = err (not_fetched s e)
  of_fetched s (ok text) = of_rows s (csv text)

  -- One round of `Download`, which goes on after an error.
  abbrev pub after_scheme :
      Scheme
      → Result (LoadError E) (List Participant)
      → Registry × List (LoadError E)
      → Registry × List (LoadError E)
  after_scheme s (err e) (r, errs) = (r, errs ++ e ∷ [])
  after_scheme s (ok ps) (r, errs) = (add r s ps, errs)

  unfoldable pub download_loop :
      (Scheme → Result E Bytes)
      → List Scheme
      → Registry × List (LoadError E)
      → Registry × List (LoadError E)
  download_loop fetch [] state = state
  download_loop fetch (s ∷ schemes) state =
      download_loop fetch schemes (after_scheme s (of_fetched s (fetch s)) state)

  -- `Download`, at a time
  unfoldable pub download : (Scheme → Result E Bytes) → ℕ → Registry × List (LoadError E)
  download fetch now =
      let (r, errs) = download_loop fetch all_schemes (new_registry, []) in (set_as_of r now, errs)

  -- The rest of a round of `LoadDir`, once a text has been read and parsed.
  abbrev pub go_on :
      Result (LoadError E) (List Participant)
      → (List Participant → Result (LoadError E) Registry)
      → Result (LoadError E) Registry
  go_on (err e) next = err e
  go_on (ok ps) next = next ps

  -- One round of `LoadDir`, which passes over a missing file and returns at any other error.
  abbrev pub with_file :
      Scheme
      → File E
      → Result (LoadError E) Registry
      → (List Participant → Option ℕ → Result (LoadError E) Registry)
      → Result (LoadError E) Registry
  with_file s missing skip next = skip
  with_file s (unreadable e) skip next = err (not_fetched s e)
  with_file s (stored text t) skip next = go_on (of_rows s (csv text)) (λ ps. next ps t)

  unfoldable pub load_loop :
      (Scheme → File E) → List Scheme → ℕ → Option ℕ → Registry → Result (LoadError E) Registry
  load_loop dir [] found newest r = loaded found newest r
  load_loop dir (s ∷ schemes) found newest r =
      with_file s (dir s) (load_loop dir schemes found newest r)
        (λ ps t. load_loop dir schemes (found + 1) (later newest t) (add r s ps))

  -- `LoadDir`
  unfoldable pub load_dir : (Scheme → File E) → Result (LoadError E) Registry
  load_dir dir = load_loop dir all_schemes 0 none new_registry

-- All that the loaders compute with, for the tests.
unfoldable pub load_code : Unit {0}
unfolding get put bytes_eq is_space trim_left trim_space to_upper to_lower remove_byte upper lower
    normalise at columns read_row read_rows parse_rows parse_export normalize_bic add_loop add
    of_fetched download_loop download load_loop load_dir
load_code = tt
