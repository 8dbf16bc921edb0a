-- ===== src/Sources/Named.antt =====
-- The source name that `ParseFile` returns for the records it returns.
use iban_pizza.Prelude.{
  ℕ, Bool, true, List, [], ◌∷◌, Option, none, some, all, ◌≡◌, refl, subst, arith, Bool-cases, inl,
  inr, &&-both, some_injective,
}
use iban_pizza.Prelude.Text.{Bytes, codes, bytes_eq, bytes_eq_iff, to_upper, trim_space}
use iban_pizza.Prelude.Assoc.{put, get, bytes_key}
use iban_pizza.Iban.Types.{Result, ok, bind_passed}
use iban_pizza.BankData.Types.{Bank}
use iban_pizza.BankData.Store.{is_from}
use iban_pizza.Sources.Table.{ParseError}
use iban_pizza.Sources.Generic.{source_or_generic, parse_generic}
use iban_pizza.Sources.Import.{is_import, parse_generic-rows}
use iban_pizza.Sources.Source.{
  Source, Fetched, register, after_registered, oenb, cnb, bundesbank, set_source, renamed,
  parse_for, parse_file,
}
use iban_pizza.Sources.Kept.{is_record, IsNamed, oenb-IsNamed, cnb-IsNamed, bundesbank-IsNamed}

all_weaken :
    (p q : Bank → Bool)
    → ((b : Bank) → p b ≡ true → q b ≡ true)
    → (banks : List Bank) → all p banks ≡ true
    → all q banks ≡ true
all_weaken p q weaker [] h = refl
all_weaken p q weaker (b ∷ banks) h =
    let (good, rest) = &&-both (p b) (all p banks) h in
    rw (weaker b good, all_weaken p q weaker banks rest)

set_source-is_from :
    (source : Bytes) (banks : List Bank) → all (is_from source) (set_source source banks) ≡ true
unfolding set_source
set_source-is_from source [] = refl
set_source-is_from source (b ∷ banks) =
    ground (arith, bytes_eq_iff source source, set_source-is_from source banks)

renamed-is_from :
    (name source : Bytes) (banks : List Bank)
    → all (is_from name) banks ≡ true
    → all (is_from (renamed name source banks).1) (renamed name source banks).0 ≡ true
renamed-is_from name [] banks h = h
renamed-is_from name (c ∷ source) banks h = set_source-is_from (c ∷ source) banks

is_import-is_from :
    (source : Bytes) (b : Bank) → is_import source b ≡ true → is_from source b ≡ true
is_import-is_from source b h = ground (arith, h)

is_record-is_from :
    (country name : Bytes) (b : Bank) → is_record country name b ≡ true → is_from name b ≡ true
is_record-is_from country name b h = ground (arith, h)

module _ {E : Type 0} where
  module _ (csv : ℕ → Bytes → Result E (List (List Bytes))) where
    -- Every registered source writes its own name.
    abbrev AllNamed : List (Bytes × Source E) → Type 0
    AllNamed registry = (country : Bytes) (s : Source E) → get country registry ≡ some s → IsNamed s

    returned :
        (read banks : List Bank) (s name : Bytes)
        → ◌≡◌ {A = Result (ParseError E) (List Bank × Bytes)} (ok (read, s)) (ok (banks, name))
        → ◌≡◌ {A = List Bank × Bytes} (read, s) (banks, name)
    returned read banks s name h = cc

    parse_for-is_from :
        (country source file : Bytes) (found : Option (Source E))
        → ((s : Source E) → found ≡ some s → IsNamed s)
        → (banks : List Bank) (name : Bytes)
        → parse_for csv country source file found ≡ ok (banks, name)
        → all (is_from name) banks ≡ true
    parse_for-is_from country source file none named banks name h =
        let s = source_or_generic source in
        let (read, parsed, same) =
          bind_passed (parse_generic csv country source file) (λ read. ok (read, s)) h in
        let (table, col, found, good, distinct, first) =
          parse_generic-rows csv country source file read parsed in
        subst (λ (r : List Bank × Bytes). all (is_from r.1) r.0 ≡ true)
          (returned read banks s name same)
          (all_weaken (is_import s) (is_from s) (λ b. is_import-is_from s b) read good)
    parse_for-is_from country source file (some s) named banks name h =
        let (read, parsed, same) =
          bind_passed (s.parse_source file) (λ read. ok (renamed s.name source read)) h in
        subst (λ (r : List Bank × Bytes). all (is_from r.1) r.0 ≡ true)
          (returned (renamed s.name source read).0 banks (renamed s.name source read).1 name same)
          (renamed-is_from s.name source read (
            all_weaken (is_record s.country s.name) (is_from s.name)
              (λ b. is_record-is_from s.country s.name b) read (named s refl file read parsed)))

    -- The sources that the program registers, each with what it fetches.
    abbrev pub program_sources : Fetched E → Fetched E → Fetched E → List (Source E)
    program_sources at cz de = oenb csv at ∷ cnb csv cz ∷ bundesbank de ∷ []

    none-AllNamed : AllNamed []
    unfolding get
    none-AllNamed country s h = absurd (cc)

    more-AllNamed :
        (c : Bytes) (s : Source E) (registry : List (Bytes × Source E))
        → IsNamed s
        → AllNamed registry
        → AllNamed ((c, s) ∷ registry)
    unfolding get
    more-AllNamed c s registry named rest country t h = elim (Bool-cases (bytes_eq c country)) [
      | inl here ↦
          let same : s ≡ t = some_injective s t (rw here at h) in subst (λ t. IsNamed t) same named
      | inr later ↦ rest country t (rw later at h)
    ]

    registered-AllNamed :
        (at cz de : Fetched E) (registry : List (Bytes × Source E))
        → after_registered (some []) (program_sources at cz de) ≡ some registry
        → AllNamed registry
    unfolding get put register bytes_eq
    registered-AllNamed at cz de registry h =
        subst (λ m. AllNamed m)
          (some_injective
            ((codes "AT", oenb csv at)
              ∷ (codes "CZ", cnb csv cz)
              ∷ (codes "DE", bundesbank de)
              ∷ [])
            registry h)
          (more-AllNamed (codes "AT") (oenb csv at)
            ((codes "CZ", cnb csv cz) ∷ (codes "DE", bundesbank de) ∷ []) (oenb-IsNamed csv at)
            (more-AllNamed (codes "CZ") (cnb csv cz) ((codes "DE", bundesbank de) ∷ [])
              (cnb-IsNamed csv cz)
              (more-AllNamed (codes "DE") (bundesbank de) [] (bundesbank-IsNamed de)
                none-AllNamed)))

    -- With the sources that the program registers, which it does without a panic, every bank that
    -- `ParseFile` returns carries the source name that it returns with the banks, be it parsed by a
    -- registered source or as a generic import, and whether a source name was asked for or not.
    pub parse_file-is_from :
        (at cz de : Fetched E) (registry : List (Bytes × Source E)) (country source file : Bytes)
        (banks : List Bank) (name : Bytes)
        → after_registered (some []) (program_sources at cz de) ≡ some registry
        → parse_file csv registry country source file ≡ ok (banks, name)
        → all (is_from name) banks ≡ true
    unfolding parse_file
    parse_file-is_from at cz de registry country source file banks name started parsed =
        parse_for-is_from (to_upper (trim_space country)) source file
          (get (to_upper (trim_space country)) registry)
          (registered-AllNamed at cz de registry started (to_upper (trim_space country))) banks name
          parsed
