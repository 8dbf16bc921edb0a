-- ===== src/Sources/Source.antt =====
-- internal/sources/source.go, and `ParseFile` of generic.go: the registered sources, and the update of one.
-- A source is what the interface `Source` asks for; the three of the program are built of their parsers.
use iban_pizza.Prelude.{Bool, ℕ, List, [], ◌∷◌, Option, none, some, length}
use iban_pizza.Prelude.Text.{Bytes, codes, bytes_lt, to_upper, trim_space}
use iban_pizza.Prelude.Assoc.{get, put, bytes_key}
use iban_pizza.Prelude.Sort.{sort}
use iban_pizza.Iban.Types.{Result, ok, err, ◌>>=◌}
use iban_pizza.BankData.Types.{Bank, SourceInfo}
use iban_pizza.BankData.Store.{values}
use iban_pizza.Sources.Table.{ParseError}
use iban_pizza.Sources.Generic.{source_or_generic, parse_generic}
use iban_pizza.Sources.National.{
  oenb_name, cnb_name, bundesbank_name, oenb_parse, cnb_parse, bundesbank_parse,
}
use iban_pizza.Sources.Fetch.{FetchError, Response, get_url, resolve_link}

-- What `Fetch` returns: the bytes or an error, and the URL with either.
pub record Fetched (E : Type 0) : Type 0 where
  pub contents : Result (FetchError E) Bytes
  pub url : Bytes

-- `Source`; a source fetches through a client, here by itself.
pub record Source (E : Type 0) : Type 0 where
  pub country : Bytes
  pub name : Bytes
  pub fetched : Fetched E
  pub parse_source : Bytes → Result (ParseError E) (List Bank)

-- The assignment of a source to every bank
unfoldable pub set_source : Bytes → List Bank → List Bank
set_source source [] = []
set_source source (b ∷ banks) = record b { source = source } ∷ set_source source banks

-- The renaming of what a parser returned, with the name that goes with it.
abbrev pub renamed : Bytes → Bytes → List Bank → List Bank × Bytes
renamed name [] banks = (banks, name)
renamed name (c ∷ source) banks = (set_source (c ∷ source) banks, c ∷ source)

module _ {E : Type 0} where
  -- `Register`; none where it panics
  abbrev pub add_source :
      Source E → List (Bytes × Source E) → Option (Source E) → Option (List (Bytes × Source E))
  add_source s registry (some other) = none
  add_source s registry none = some (put s.country s registry)

  unfoldable pub register : Source E → List (Bytes × Source E) → Option (List (Bytes × Source E))
  register s registry = add_source s registry (get s.country registry)

  -- The calls of `Register` before the program starts
  abbrev pub after_registered :
      Option (List (Bytes × Source E)) → List (Source E) → Option (List (Bytes × Source E))
  after_registered registry [] = registry
  after_registered none (s ∷ sources) = none
  after_registered (some registry) (s ∷ sources) = after_registered (register s registry) sources

  -- `All`
  abbrev pub country_before : Source E → Source E → Bool
  country_before a b = bytes_lt a.country b.country

  unfoldable pub all_sources : List (Bytes × Source E) → List (Source E)
  all_sources registry = sort country_before (values registry)

  -- `Countries`
  abbrev pub codes_of : List (Bytes × Source E) → List Bytes
  codes_of [] = []
  codes_of ((code, s) ∷ registry) = code ∷ codes_of registry

  unfoldable pub countries : List (Bytes × Source E) → List Bytes
  countries registry = sort bytes_lt (codes_of registry)

  module _ (http : Bytes → Result E (Response E)) where
    -- `OeNB.Fetch` and `CNB.Fetch`
    unfoldable pub fetch_at : Bytes → Fetched E
    fetch_at url = record { contents = get_url http url; url = url }

    module _ (find_link : Bytes → Option Bytes) (resolve : Bytes → Bytes → Result E Bytes) where
      -- `Bundesbank.Fetch`
      abbrev pub fetch_resolved : Result (FetchError E) Bytes → Fetched E
      fetch_resolved (err e) = record { contents = err e; url = [] }
      fetch_resolved (ok url) = fetch_at url

      unfoldable pub fetch_linked : Bytes → Fetched E
      fetch_linked page = fetch_resolved (resolve_link http find_link resolve page)

  abbrev pub bundesbank : Fetched E → Source E
  bundesbank fetched = record {
    country = codes "DE";
    name = bundesbank_name;
    fetched = fetched;
    parse_source = bundesbank_parse;
  }

  module _ (csv : ℕ → Bytes → Result E (List (List Bytes))) where
    -- `OeNB`, `CNB` and `Bundesbank`, with what they fetch
    abbrev pub oenb : Fetched E → Source E
    oenb fetched = record {
      country = codes "AT";
      name = oenb_name;
      fetched = fetched;
      parse_source = oenb_parse csv;
    }

    abbrev pub cnb : Fetched E → Source E
    cnb fetched = record {
      country = codes "CZ";
      name = cnb_name;
      fetched = fetched;
      parse_source = cnb_parse csv;
    }

    abbrev pub parse_for :
        Bytes → Bytes → Bytes → Option (Source E) → Result (ParseError E) (List Bank × Bytes)
    parse_for country source file none = do
      banks ← parse_generic csv country source file
      ok (banks, source_or_generic source)
    parse_for country source file (some s) = do
      banks ← s.parse_source file
      ok (renamed s.name source banks)

    -- `ParseFile`: the banks, and the name to record
    unfoldable pub parse_file :
        List (Bytes × Source E) → Bytes → Bytes → Bytes → Result (ParseError E) (List Bank × Bytes)
    parse_file registry country source file =
        let cc = to_upper (trim_space country) in parse_for cc source file (get cc registry)

-- The errors of `Update`, which `Result.Err` holds
pub data UpdateError (E W : Type 0) : Type 0 where
  not_fetched : FetchError E → UpdateError E W
  not_parsed : ParseError E → UpdateError E W
  no_records : UpdateError E W
  not_stored : W → UpdateError E W

-- `Result`
pub record Outcome (E W : Type 0) : Type 0 where
  pub country : Bytes
  pub source : Bytes
  pub url : Bytes
  pub records : ℕ
  pub retrieved_at : ℕ
  pub error : Option (UpdateError E W)

module _ {E F W : Type 0} (replace : W → SourceInfo → List Bank → Result F W) where
  abbrev pub outcome : Source E → ℕ → ℕ → Option (UpdateError E F) → Outcome E F
  outcome s now records error = record {
    country = s.country;
    source = s.name;
    url = s.fetched.url;
    records = records;
    retrieved_at = now;
    error = error;
  }

  abbrev pub info_of : Source E → ℕ → List Bank → SourceInfo
  info_of s now banks = record {
    country = s.country;
    name = s.name;
    url = s.fetched.url;
    retrieved_at = now;
    record_count = length banks;
  }

  abbrev pub after_replace : Source E → ℕ → List Bank → W → Result F W → W × Outcome E F
  after_replace s now banks w (err e) = (w, outcome s now (length banks) (some (not_stored e)))
  after_replace s now banks w (ok w') = (w', outcome s now (length banks) none)

  abbrev pub after_parse : Source E → ℕ → W → Result (ParseError E) (List Bank) → W × Outcome E F
  after_parse s now w (err e) = (w, outcome s now 0 (some (not_parsed e)))
  after_parse s now w (ok []) = (w, outcome s now 0 (some no_records))
  after_parse s now w (ok (b ∷ banks)) =
      after_replace s now (b ∷ banks) w (replace w (info_of s now (b ∷ banks)) (b ∷ banks))

  abbrev pub after_fetch : Source E → ℕ → W → Result (FetchError E) Bytes → W × Outcome E F
  after_fetch s now w (err e) = (w, outcome s now 0 (some (not_fetched e)))
  after_fetch s now w (ok raw) = after_parse s now w (s.parse_source raw)

  -- `Update`, at a time: the store behind it and its result. A store whose `Replace` fails is left as
  -- it was.
  unfoldable pub update : Source E → ℕ → W → W × Outcome E F
  update s now w = after_fetch s now w s.fetched.contents
