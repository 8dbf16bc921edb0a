-- ===== src/Lib.antt =====
-- A model of iban-pizza, a service that validates IBANs and looks up the banks behind them, with the
-- theorems that make its core correct.
--
-- The parts of the program, and how they interact:
--   * `iban/` (Iban): `Parse` normalises a text and checks it against the country table, `Validate`
--     takes the remainder modulo 97, `Calculate` builds an IBAN and parses what it built.
--   * `internal/checkdigit/` (CheckDigit): the check digit methods of the Bundesbank, keyed by the method
--     identifier that a bank record carries. A method is applied only if it is on the list of those
--     confirmed by test numbers.
--   * `bankdata/` (BankData): bank records in a store in memory with an index by BIC; snapshots; the
--     copy of all sources from a store to any other.
--   * `internal/sepa/` (Sepa): the EPC register, which tells for a BIC which payment schemes its bank
--     has joined. `Download` and `LoadDir` fill it with the exports of the schemes.
--   * `internal/sources/` (Sources): the registers of Austria, the Czech Republic and Germany and a generic
--     format: fetching, decoding, parsing, and the update of any store by a source, which leaves the store
--     alone unless everything before it succeeds.
--   * `bankdata/postgres/` (BankData/Postgres): the same store in PostgreSQL.
--   * `internal/logo/` (Logo): the brand of a bank and the mark that is drawn for it.
--   * `cmd/iban-pizza/` (Cmd): the commands that open a store, import a file into it and update it.
--   * `internal/api/` (Api): the answers of the two versions of the interface, which read the packages
--     above other than the sources and the commands; the rate limiter in front of them, and the reports
--     of health and data.
--
-- The files and what they model:
--   Prelude            shared names; Prelude/Text has Go's strings, Assoc its maps, Sort its sorting
--   Iban/Types         the types of `iban/`; errors are values that carry the arguments of the message
--   Iban/Structure     `iban/registry.go`: isDigit, isUpper, accepts, extract, expandStructure
--   Iban/RegistryData  `iban/registry_data.go`: the table of countries
--   Iban/Parse         `iban/iban.go`: Normalize, Lookup, checkStructure, Parse, the accessors, Formatted
--   Iban/Checksum      `iban/iban.go`: mod97 and Validate
--   Iban/Calculate     `iban/calculate.go`: padTo and Calculate
--   CheckDigit/Sums, Methods, Validate    `internal/checkdigit/checkdigit.go` and `methods.go`
--   BankData/Types     `bankdata/bankdata.go`: records, keys, queries, statistics
--   BankData/Store     `bankdata/memory.go`: Find, FindByBIC, Search, Stats, Replace, reindexBIC; All
--   BankData/Snapshot  `bankdata/snapshot.go`: ReadSnapshot and WriteSnapshot behind gzip and JSON,
--                      CopySources
--   BankData/Postgres  `bankdata/postgres/postgres.go`: Find, FindByBIC, Search, Stats, Replace
--   Sepa/Register      `internal/sepa/sepa.go`: Add, Lookup, Known, Len, Counts
--   Sepa/Parse         `internal/sepa/parse.go`: ParseCSV behind the CSV reader
--   Sepa/Load          `internal/sepa/load.go`: Download and LoadDir
--   Sources/Encoding   `internal/sources/encoding.go`: DecodeLatin1, DecodeAuto, SplitLines, runeSlice
--   Sources/Table      `internal/sources/csv.go`: parseCSV behind the CSV reader, index, field
--   Sources/Rows       the loop over rows that all parsers of `internal/sources/` have
--   Sources/Generic    `internal/sources/generic.go`: ParseGeneric, detectSeparator
--   Sources/National   `internal/sources/at.go`, `cz.go`, `de.go`: the three parsers
--   Sources/Fetch      `internal/sources/fetch.go`: Get and ResolveLink behind the HTTP client
--   Sources/Source     `internal/sources/source.go`: Register, All, Countries, Update; ParseFile of
--                      `generic.go`
--   Api/Repo           the repository that the handlers read through, which the store of BankData fills
--   Api/V1             `internal/api/v1.go`: validateV1, calculateV1 and what they call
--   Api/Answer, V2     `internal/api/v2.go`: the types of an answer; validateV2 and what it calls
--   Api/Limiter        `internal/api/middleware.go`: the limiter's allow, and sequences of its calls
--   Api/Banks          `internal/api/v2.go`: the handlers of banks, logos and countries
--   Api/Client         `internal/api/middleware.go`: clientIP and withCORS
--   Api/Reports        `internal/api/health.go`: handleHealth, handleReady, handleV2Data; of `server.go` the
--                      limit that New sets
--   Logo/Brand         `internal/logo/logo.go` and `brands.go`
--   Logo/Monogram      `internal/logo/monogram.go`: initials, pickColour, escapeXML
--   Cmd/Open           `cmd/iban-pizza/main.go`: openRepository, openWritableStore
--   Cmd/Import         `cmd/iban-pizza/import.go`: runImport of a file
--   Cmd/Update         `cmd/iban-pizza/update.go`: runUpdate, selectSources, updateSchemes
--   Cmd/Snapshot       `cmd/iban-pizza/import.go`: importSnapshot; runSnapshot; of `serve.go` the warning about
--                      old data and splitOrigins
-- The other modules of a part prove, and its `Tests` runs the definitions and the theorems.
--
-- How Go is modelled:
--   * A string is the list of its bytes. `ToUpper`, `ToLower` and `TrimSpace` are those of ASCII texts,
--     but for the names that a search compares.
--   * A map is an association list. Go visits a map in no fixed order; the model visits it in the order
--     of the list, and the store sorts what it returns, as the program does. Two banks that tie in
--     that order may stand either way in the program.
--   * `mod97` is a uint32: its wrap-around is written out, also in `98 - mod97`.
--   * A time is a natural number; a store or registry operation under its lock is one step.
--   * Fuel: the expansion of a pattern and the groups of `Formatted` take the length of the text, of
--     which each round takes at least one byte; a pattern that outlived it would give an error of its
--     own. The remainder loop has one round for each character.
--
-- Parameters of the model, as they are not code of the repository: the fetcher, the reader of CSV texts
-- and the directory that `Download` and `LoadDir` read; what a server answers to `Get`, the search for
-- a link in a page and the resolution of a URL; the target of `CopySources` and of `Update`; which
-- step of its `Replace` PostgreSQL fails, its `LIKE` and `ILIKE`, and the order of its collation; the lower
-- case of a name that is searched, and what package `unicode` tells of a character; the resolver of
-- artwork, the reading of a number, the headers of a request and the split of an address; the clock, the files and the snapshot in the binary that the commands read, and
-- how they write a snapshot; the length of a minute, an hour and a day in units of time.
--
-- Not modelled: routing, the form of HTTP requests and answers, the text of an SVG, the pages and the
-- other middleware of `internal/api/`, the flags, the log and the server of the commands, the
-- connection to PostgreSQL, and file I/O.

pub mod Prelude
pub mod Iban
pub mod CheckDigit
pub mod BankData
pub mod Sepa
pub mod Sources
pub mod Logo
pub mod Api
pub mod Cmd
