-- ===== src/Logo/Brand.antt =====
-- internal/logo/logo.go and brands.go: which brand a BIC belongs to, and the logo of a bank. The resolver of real artwork is a
-- parameter, none where none is configured.
use iban_pizza.Prelude.{
  Bool, true, false, List, [], ◌∷◌, ◌++◌, Option, none, some, if◌then◌else◌, ltb, length, take,
}
use iban_pizza.Prelude.Text.{Bytes, codes, to_upper, trim_space, remove_byte}
use iban_pizza.Prelude.Assoc.{get, bytes_key}

-- `defaultBrands`
abbrev pub default_brands : List (Bytes × Bytes)
default_brands =
    (codes "DEUT", codes "Deutsche Bank")
    ∷ (codes "COBA", codes "Commerzbank")
    ∷ (codes "DRES", codes "Commerzbank")
    ∷ (codes "HYVE", codes "UniCredit Bank")
    ∷ (codes "PBNK", codes "Postbank")
    ∷ (codes "INGD", codes "ING")
    ∷ (codes "MARK", codes "Deutsche Bundesbank")
    ∷ (codes "DGZF", codes "DekaBank")
    ∷ (codes "NTSB", codes "N26")
    ∷ (codes "AARB", codes "Aareal Bank")
    ∷ (codes "DAAE", codes "apoBank")
    ∷ (codes "SCFB", codes "Openbank")
    ∷ (codes "OLBO", codes "Oldenburgische Landesbank")
    ∷ (codes "BFSW", codes "SozialBank")
    ∷ (codes "TRDA", codes "Tradegate")
    ∷ (codes "BEVO", codes "Berliner Volksbank")
    ∷ (codes "BNPA", codes "BNP Paribas")
    ∷ (codes "SOGE", codes "Societe Generale")
    ∷ (codes "CHAS", codes "J.P. Morgan")
    ∷ (codes "GIBA", codes "Erste Bank")
    ∷ (codes "BKAU", codes "UniCredit Bank Austria")
    ∷ (codes "RZBA", codes "Raiffeisen Bank International")
    ∷ (codes "OBKL", codes "Oberbank")
    ∷ (codes "NABA", codes "Oesterreichische Nationalbank")
    ∷ (codes "BAWA", codes "BAWAG")
    ∷ (codes "UBSW", codes "UBS")
    ∷ (codes "POFI", codes "PostFinance")
    ∷ (codes "BLFL", codes "Liechtensteinische Landesbank")
    ∷ (codes "BLKB", codes "Basellandschaftliche Kantonalbank")
    ∷ []

-- `sharedSpaces`
abbrev pub shared_spaces : List (Bytes × Bytes)
shared_spaces =
    (codes "GENO", codes "German cooperative banks")
    ∷ (codes "WELA", codes "savings banks, Landesbank space")
    ∷ (codes "NOLA", codes "savings banks, Landesbank space")
    ∷ (codes "BYLA", codes "savings banks, Landesbank space")
    ∷ (codes "SOLA", codes "savings banks, Landesbank space")
    ∷ (codes "HELA", codes "savings banks, Landesbank space")
    ∷ (codes "MALA", codes "savings banks, Landesbank space")
    ∷ (codes "BRLA", codes "savings banks, Landesbank space")
    ∷ []

-- `InstitutionPrefix`
abbrev four_of : Bytes → Bytes
four_of bic = if ltb (length bic) 4 then [] else take 4 bic

unfoldable pub institution_prefix : Bytes → Bytes
institution_prefix bic = four_of (to_upper (remove_byte 32 (trim_space bic)))

-- `IsSharedSpace`
abbrev is_known : Option Bytes → Bool
is_known none = false
is_known (some name) = true

unfoldable pub is_shared_space : Bytes → Bool
is_shared_space bic = is_known (get (institution_prefix bic) shared_spaces)

-- `Service`; the resolver takes a BIC and a brand
pub record Service : Type 0 where
  pub base_url : Bytes
  pub brands : List (Bytes × Bytes)
  pub resolver : Option (Bytes → Bytes → Option Bytes)

-- `Brand`, by the prefix
abbrev pub brand_by : List (Bytes × Bytes) → Bytes → Option Bytes
brand_by brands [] = none
brand_by brands (c ∷ prefix) =
    if is_shared_space (c ∷ prefix) then none else get (c ∷ prefix) brands

unfoldable pub brand_of : Service → Bytes → Option Bytes
brand_of s bic = brand_by s.brands (institution_prefix bic)

-- `Kind`
pub data Kind : Type 0 where
  monogram_kind brand_kind : Kind

-- `Logo`
pub record Logo : Type 0 where
  pub kind : Kind
  pub brand : Option Bytes
  pub url : Bytes

-- What the resolver has for a bank with a brand.
abbrev pub resolved : Option (Bytes → Bytes → Option Bytes) → Bytes → Option Bytes → Option Bytes
resolved none bic brand = none
resolved (some r) bic none = none
resolved (some r) bic (some brand) = r bic brand

abbrev pub logo_with : Option Bytes → Bytes → Option Bytes → Logo
logo_with brand own none = record { kind = monogram_kind; brand = brand; url = own }
logo_with brand own (some url) = record { kind = brand_kind; brand = brand; url = url }

-- The endpoint that renders a monogram
unfoldable pub monogram_url : Bytes → Bytes → Bytes → Bytes
monogram_url base country bank_code =
    base ++ (codes "/v2/banks/" ++ (country ++ (codes "/" ++ (bank_code ++ codes "/logo.svg"))))

-- `For`; the name is not used
unfoldable pub logo_for : Service → Bytes → Bytes → Bytes → Logo
logo_for s country bank_code bic =
    logo_with (brand_of s bic) (monogram_url s.base_url country bank_code)
      (resolved s.resolver bic (brand_of s bic))
