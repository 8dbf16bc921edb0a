-- ===== src/Sepa/Tests.antt =====
-- Runs of the register on two small exports, and of the theorems about it.
use iban_pizza.Prelude.{ℕ, true, List, [], ◌∷◌, none, some, if◌then◌else◌, ◌≡◌, ◌↔◌, refl}
use iban_pizza.Prelude.Text.{Bytes, codes}
use iban_pizza.Prelude.Assoc.{get}
use iban_pizza.Iban.Types.{Result, ok, err}
use iban_pizza.Sepa.Register.{
  Scheme, sct, vop, scheme_eq, Registry, Participant, new_registry, add, entry, membership, unknown,
  not_participant,
}
use iban_pizza.Sepa.Load.{load_code, File, missing, stored, of_fetched, download, load_dir}
use iban_pizza.Sepa.Added.{last_row, member_of, entry-add}
use iban_pizza.Sepa.Answers.{
  present, IsRegistry, new_registry-IsRegistry, add-IsRegistry, membership-unknown,
}
use iban_pizza.Sepa.Loaded.{entry_after, entry-download, download-IsRegistry}

abbrev ing : Bytes
ing = codes "INGDDEFFXXX"

abbrev ing_row : Participant
ing_row = record {
  bic = codes "ingddeffxxx";
  name = codes "ING-DiBa";
  country = codes "DE";
  city = [];
  readiness_date = [];
  leaving_date = [];
  role = [];
}

abbrev one_row : Registry
one_row = add new_registry sct (ing_row ∷ [])

none_yet : (bic : Bytes) → entry new_registry sct bic ≡ none
unfolding get
none_yet bic = refl

one_row-IsRegistry : IsRegistry one_row
one_row-IsRegistry = add-IsRegistry new_registry sct (ing_row ∷ []) new_registry-IsRegistry none_yet

entry-add_example :
    entry (add one_row vop (ing_row ∷ [])) sct ing
    ≡ (if scheme_eq vop sct then member_of (last_row ing (ing_row ∷ [])) else entry one_row sct ing)
entry-add_example = entry-add one_row vop sct (ing_row ∷ []) ing

membership-unknown_example :
    (((membership one_row ing vop).status ≡ unknown) ↔ ((t : Scheme) → entry one_row t ing ≡ none))
    × (((membership one_row ing vop).status ≡ not_participant) ↔ (
        (entry one_row vop ing ≡ none) × ((t : Scheme) × (present (entry one_row t ing) ≡ true))))
membership-unknown_example = membership-unknown one_row ing vop one_row-IsRegistry

-- An export with the one field of a row, and its reader: every text is that export.
abbrev rows : Bytes → Result ℕ (List (List Bytes))
rows text = ok ((codes "BIC" ∷ []) ∷ (text ∷ []) ∷ [])

-- A fetcher that fails but for one scheme, and a directory with the file of that scheme only.
abbrev fetch : Scheme → Result ℕ Bytes
fetch s = if scheme_eq s sct then ok ing else err 404

abbrev directory : Scheme → File ℕ
directory s = if scheme_eq s sct then stored ing (some 9) else missing

fetched_one : entry (download rows fetch 12).0 vop ing ≡ none
unfolding load_code
fetched_one = refl

-- The scheme that failed is answered as one that the bank has not joined.
missing_scheme : (membership (download rows fetch 12).0 ing vop).status ≡ not_participant
unfolding load_code membership
missing_scheme = refl

entry-download_example :
    entry (download rows fetch 12).0 sct ing
    ≡ entry_after ing (of_fetched rows sct (fetch sct)) none
entry-download_example = entry-download rows fetch 12 sct ing

download-IsRegistry_example : IsRegistry (download rows fetch 12).0
download-IsRegistry_example = download-IsRegistry rows fetch 12

abbrev from_directory : Registry
from_directory =
    record (add new_registry sct (
      record {
        bic = ing;
        name = ing;
        country = ing;
        city = ing;
        readiness_date = [];
        leaving_date = [];
        role = [];
      }
      ∷ [])) { as_of = some 9 }

loaded_one : load_dir rows directory ≡ ok from_directory
unfolding load_code
loaded_one = refl
