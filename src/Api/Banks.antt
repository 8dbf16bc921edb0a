-- ===== src/Api/Banks.antt =====
-- internal/api/v2.go: the handlers of banks, logos and countries, behind the form of a request. The reading of a number is a parameter,
-- where a negative number counts as 0.
use iban_pizza.Prelude.{
  ℕ, Bool, false, not, ◌&&◌, ◌||◌, List, [], ◌∷◌, Option, none, some, if◌then◌else◌, leb, ◌==◌,
  length, map,
}
use iban_pizza.Prelude.Text.{Bytes, bytes_eq, bytes_lt, is_empty, to_upper}
use iban_pizza.Prelude.Sort.{insert}
use mathlib.Core.List.{reverse}
use iban_pizza.Iban.Types.{Result, ok, err, Country}
use iban_pizza.Iban.RegistryData.{registry}
use iban_pizza.BankData.Types.{Bank, Query, SourceInfo, Stats}
use iban_pizza.BankData.Store.{values}
use iban_pizza.Logo.Brand.{Service, Logo, logo_for}
use iban_pizza.Logo.Monogram.{Unicode, Monogram, new_monogram}
use iban_pizza.Api.Repo.{Repo, RepoError, no_record}

-- `BankView`
pub record BankView : Type 0 where
  pub country : Bytes
  pub bank_code : Bytes
  pub name : Bytes
  pub short_name : Bytes
  pub zip : Bytes
  pub city : Bytes
  pub bic : Bytes
  pub source : Bytes
  pub logo : Logo

-- `bankView`
unfoldable pub bank_view : Service → Bank → BankView
bank_view logos b = record {
  country = b.country;
  bank_code = b.bank_code;
  name = b.name;
  short_name = b.short_name;
  zip = b.zip;
  city = b.city;
  bic = b.bic;
  source = b.source;
  logo = logo_for logos b.country b.bank_code b.bic;
}

pub data BanksError : Type 0 where
  bad_limit search_failed : BanksError

-- `findPathBank`
unfoldable pub find_path_bank : Repo → Bytes → Bytes → Result RepoError Bank
find_path_bank repo country code =
    let cc = to_upper country in
    if not (length cc == 2) || is_empty code || not (leb (length code) 32)
    then err no_record
    else repo.find_bank (record { country = cc; bank_code = code })

-- `handleV2Bank`; none where there is no such bank
abbrev pub view_found : Service → Result RepoError Bank → Option BankView
view_found logos (err e) = none
view_found logos (ok b) = some (bank_view logos b)

unfoldable pub handle_v2_bank : Repo → Service → Bytes → Bytes → Option BankView
handle_v2_bank repo logos country code = view_found logos (find_path_bank repo country code)

module _ (atoi : Bytes → Option ℕ) where
  -- The limit of a query, which is 0 if it is not given.
  abbrev pub read_limit : Bytes → Option ℕ
  read_limit [] = some 0
  read_limit (c ∷ v) = atoi (c ∷ v)

  abbrev pub of_search : Service → Result RepoError (List Bank) → Result BanksError (List BankView)
  of_search logos (err e) = err search_failed
  of_search logos (ok banks) = ok (map (bank_view logos) banks)

  abbrev pub with_limit :
      (Query → Result RepoError (List Bank))
      → Service
      → Bytes
      → Bytes
      → Bytes
      → Option ℕ
      → Result BanksError (List BankView)
  with_limit search logos country bic name none = err bad_limit
  with_limit search logos country bic name (some n) =
      of_search logos (search (record { country = country; bic = bic; name = name; limit = n }))

  -- `handleV2Banks`, from the texts of its query
  unfoldable pub handle_v2_banks :
      (Query → Result RepoError (List Bank))
      → Service
      → Bytes
      → Bytes
      → Bytes
      → Bytes
      → Result BanksError (List BankView)
  handle_v2_banks search logos country bic name limit =
      with_limit search logos country bic name (read_limit limit)

  -- `handleV2Logo`: the size and the monogram
  abbrev pub size_or_default : Option ℕ → ℕ
  size_or_default none = 128
  size_or_default (some n) = if leb 16 n && leb n 512 then n else 128

  unfoldable pub logo_size : Bytes → ℕ
  logo_size [] = 128
  logo_size (c ∷ v) = size_or_default (atoi (c ∷ v))

  abbrev pub logo_of : Unicode → Bytes → Result RepoError Bank → Option (ℕ × Monogram)
  logo_of u size (err e) = none
  logo_of u size (ok b) = some (logo_size size, new_monogram u b.name b.bic)

  unfoldable pub handle_v2_logo : Repo → Unicode → Bytes → Bytes → Bytes → Option (ℕ × Monogram)
  handle_v2_logo repo u country code size = logo_of u size (find_path_bank repo country code)

-- `v2Country`
pub record V2Country : Type 0 where
  pub code : Bytes
  pub name : Bytes
  pub iban_length : ℕ
  pub bban : Bytes
  pub has_bank_data : Bool

-- `loaded[code]`
unfoldable pub is_loaded : Bytes → List SourceInfo → Bool
is_loaded code [] = false
is_loaded code (src ∷ rest) = bytes_eq src.country code || is_loaded code rest

abbrev pub loaded_sources : Result RepoError Stats → List SourceInfo
loaded_sources (err e) = []
loaded_sources (ok stats) = stats.sources

unfoldable pub country_view : List SourceInfo → Country → V2Country
country_view sources c = record {
  code = c.code;
  name = c.name;
  iban_length = c.length;
  bban = c.bban;
  has_bank_data = is_loaded c.code sources;
}

-- `sortCountries`: the countries before the next one stand in order, here from the last one back; it is exchanged with those
-- that come after it.
abbrev pub comes_later : V2Country → V2Country → Bool
comes_later d c = bytes_lt c.code d.code

unfoldable pub sink_all : List V2Country → List V2Country → List V2Country
sink_all sorted [] = sorted
sink_all sorted (c ∷ rest) = sink_all (insert comes_later c sorted) rest

unfoldable pub sort_countries : List V2Country → List V2Country
sort_countries c = reverse (sink_all [] c)

-- `handleV2Countries`
unfoldable pub handle_v2_countries : Result RepoError Stats → List V2Country
handle_v2_countries stats =
    sort_countries (map (country_view (loaded_sources stats)) (values registry))
