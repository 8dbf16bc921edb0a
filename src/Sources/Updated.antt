-- ===== src/Sources/Updated.antt =====
-- What `Update` does to a store, and what it reports.
use iban_pizza.Prelude.{ℕ, List, [], ◌∷◌, none, some, length, ◌≡◌, ◌⊎◌, inl, inr, refl, sym, subst}
use iban_pizza.Prelude.Text.{Bytes}
use iban_pizza.Iban.Types.{Result, ok, err}
use iban_pizza.BankData.Types.{Bank, SourceInfo, Key, normalize_key}
use iban_pizza.BankData.Store.{Store, find, replace}
use iban_pizza.BankData.Invariant.{IsStore, replace-IsStore}
use iban_pizza.BankData.Found.{find-replace, last_for, without}
use iban_pizza.Sources.Table.{ParseError}
use iban_pizza.Sources.Fetch.{FetchError}
use iban_pizza.Sources.Source.{
  Source, UpdateError, not_stored, not_parsed, not_fetched, no_records, Outcome, info_of,
  after_replace, after_parse, after_fetch, update,
}

module _ {E F W : Type 0} (put_source : W → SourceInfo → List Bank → Result F W) where
  -- A refresh that took place: what was fetched was parsed to at least one bank, and `Replace` was called once,
  -- with all of them.
  pub record IsRefresh (s : Source E) (now : ℕ) (w w' : W) (res : Outcome E F) : Type 0 where
    pub raw : Bytes
    pub first : Bank
    pub rest : List Bank
    pub fetches : s.fetched.contents ≡ ok raw
    pub parses : s.parse_source raw ≡ ok (first ∷ rest)
    pub replaces : put_source w (info_of put_source s now (first ∷ rest)) (first ∷ rest) ≡ ok w'
    pub records : res.records ≡ length (first ∷ rest)

  -- What an update leaves behind.
  abbrev pub IsOutcome : Source E → ℕ → W → W × Outcome E F → Type 0
  IsOutcome s now w (w', res) =
      ((res.error ≡ none) × IsRefresh s now w w' res)
      ⊎ ((e : UpdateError E F) × (res.error ≡ some e) × (w' ≡ w))

  after_replace-IsOutcome :
      (s : Source E) (now : ℕ) (w : W) (raw : Bytes) (b : Bank) (banks : List Bank) (r : Result F W)
      → s.fetched.contents ≡ ok raw
      → s.parse_source raw ≡ ok (b ∷ banks)
      → put_source w (info_of put_source s now (b ∷ banks)) (b ∷ banks) ≡ r
      → IsOutcome s now w (after_replace put_source s now (b ∷ banks) w r)
  after_replace-IsOutcome s now w raw b banks (err e) fetches parses replaces =
      inr (not_stored e, refl, refl)
  after_replace-IsOutcome s now w raw b banks (ok w') fetches parses replaces = inl (
    refl,
    record {
      raw = raw;
      first = b;
      rest = banks;
      fetches = fetches;
      parses = parses;
      replaces = replaces;
      records = refl;
    },
  )

  after_parse-IsOutcome :
      (s : Source E) (now : ℕ) (w : W) (raw : Bytes) (r : Result (ParseError E) (List Bank))
      → s.fetched.contents ≡ ok raw
      → s.parse_source raw ≡ r
      → IsOutcome s now w (after_parse put_source s now w r)
  after_parse-IsOutcome s now w raw (err e) fetches parses = inr (not_parsed e, refl, refl)
  after_parse-IsOutcome s now w raw (ok []) fetches parses = inr (no_records, refl, refl)
  after_parse-IsOutcome s now w raw (ok (b ∷ banks)) fetches parses =
      after_replace-IsOutcome s now w raw b banks
        (put_source w (info_of put_source s now (b ∷ banks)) (b ∷ banks)) fetches parses refl

  after_fetch-IsOutcome :
      (s : Source E) (now : ℕ) (w : W) (r : Result (FetchError E) Bytes)
      → s.fetched.contents ≡ r
      → IsOutcome s now w (after_fetch put_source s now w r)
  after_fetch-IsOutcome s now w (err e) fetches = inr (not_fetched e, refl, refl)
  after_fetch-IsOutcome s now w (ok raw) fetches =
      after_parse-IsOutcome s now w raw (s.parse_source raw) fetches refl

  -- An update without an error has fetched a file, parsed it to at least one bank, and replaced the source by all of
  -- these, whose number it reports; an update with any error, a failed fetch, a failed parse, an empty
  -- file or a failed `Replace`, leaves the store as it was.
  pub update-IsOutcome :
      (s : Source E) (now : ℕ) (w : W) → IsOutcome s now w (update put_source s now w)
  unfolding update
  update-IsOutcome s now w = after_fetch-IsOutcome s now w s.fetched.contents refl

-- The store in memory as a target, which never fails.
abbrev pub replace_in : {F : Type 0} → Store → SourceInfo → List Bank → Result F Store
replace_in s info banks = ok (replace s info banks)

-- What an update makes of the store in memory: it is as it was, with an error; or the new banks are in it, and
-- nothing else has changed but that the old records of the source are gone.
module _ {E : Type 0} (s : Source E) (store : Store) where
  abbrev pub IsNew : Store → Type 0
  IsNew store' =
      (raw : Bytes) × (banks : List Bank) × (s.fetched.contents ≡ ok raw)
      × (s.parse_source raw ≡ ok banks)
      × ((key : Key)
          → find store' key ≡ (elim (last_for (normalize_key key) banks) [
            | none ↦ without s.name (find store key)
            | some b ↦ ok b
          ]))

module _ {E F : Type 0} (s : Source E) (store : Store) where
  abbrev pub IsUpdated : Store × Outcome E F → Type 0
  IsUpdated (store', res) =
      IsStore store'
      × (((e : UpdateError E F) × (res.error ≡ some e) × (store' ≡ store))
          ⊎ ((res.error ≡ none) × IsNew s store store'))

  replaced : (a b : Store) → ◌≡◌ {A = Result F Store} (ok a) (ok b) → a ≡ b
  replaced a b h = cc

  refresh-IsUpdated :
      (now : ℕ) (store' : Store) (res : Outcome E F)
      → IsStore store
      → IsOutcome replace_in s now store (store', res)
      → IsUpdated (store', res)
  refresh-IsUpdated now store' res h (inr (e, reported, same)) =
      (subst (λ t. IsStore t) (sym same) h, inl (e, reported, same))
  refresh-IsUpdated now store' res h (inl (fine, r)) =
      let banks = r.first ∷ r.rest in
      let info = info_of (replace_in {F = F}) s now banks in
      let same = replaced (replace store info banks) store' r.replaces in
      (
        subst (λ t. IsStore t) same (replace-IsStore store info banks h),
        inr (
          fine,
          subst (λ t. IsNew s store t) same
              (r.raw, banks, r.fetches, r.parses, λ key. find-replace store info banks key h),
        ),
      )

  -- If the store in memory keeps its invariant, it keeps it through an update, whether or not this succeeds. With an
  -- error the store is as it was. Without one a key finds the last of the parsed banks that has it, and
  -- any other key finds what it found before, unless that was a record of the source, which is gone.
  pub update-IsUpdated : (now : ℕ) → IsStore store → IsUpdated (update replace_in s now store)
  update-IsUpdated now h =
      let (store', res) = update (replace_in {F = F}) s now store in
      refresh-IsUpdated now store' res h (update-IsOutcome replace_in s now store)
