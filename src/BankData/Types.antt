-- ===== src/BankData/Types.antt =====
-- bankdata/bankdata.go. A time is a number of time units since some origin.
use iban_pizza.Prelude.{
  ℕ, Bool, true, ◌&&◌, not, false, ◌||◌, List, [], ◌∷◌, Option, none, some, ltb, ◌==◌,
  if◌then◌else◌, ◌≡◌, ◌↔◌, arith,
}
use iban_pizza.Prelude.Text.{Bytes, bytes_eq, bytes_eq_iff, bytes_lt, to_upper, trim_space}
use iban_pizza.Prelude.Assoc.{Eq}

pub record Bank : Type 0 where
  pub country : Bytes
  pub bank_code : Bytes
  pub name : Bytes
  pub short_name : Bytes
  pub zip : Bytes
  pub city : Bytes
  pub bic : Bytes
  pub check_algo : Bytes
  pub source : Bytes

pub record Key : Type 0 where
  pub country : Bytes
  pub bank_code : Bytes

-- `Bank.Key` and `Key.Normalize`
abbrev pub key_of : Bank → Key
key_of b = record { country = b.country; bank_code = b.bank_code }

unfoldable pub normalize_key : Key → Key
normalize_key k = record {
  country = to_upper (trim_space k.country);
  bank_code = trim_space k.bank_code;
}

abbrev pub key_eq : Key → Key → Bool
key_eq a b = bytes_eq a.country b.country && bytes_eq a.bank_code b.bank_code

pub key_eq_iff : (a b : Key) → (key_eq a b ≡ true) ↔ (a ≡ b)
key_eq_iff a b =
    ground (arith, bytes_eq_iff a.country b.country, bytes_eq_iff a.bank_code b.bank_code)

instance abbrev pub bank_key : Eq Key
bank_key = record { eqb = key_eq; eqb_iff = key_eq_iff }

-- Whether a key stands in a list.
unfoldable pub has_key : Key → List Key → Bool
has_key k [] = false
has_key k (j ∷ seen) = key_eq j k || has_key k seen

pub record SourceInfo : Type 0 where
  pub country : Bytes
  pub name : Bytes
  pub url : Bytes
  pub retrieved_at : ℕ
  pub record_count : ℕ

pub record Stats : Type 0 where
  pub total_records : ℕ
  pub sources : List SourceInfo

-- The loop of `OldestRetrieval`
unfoldable pub oldest_from : SourceInfo → List SourceInfo → SourceInfo
oldest_from oldest [] = oldest
oldest_from oldest (src ∷ rest) =
    oldest_from (if ltb src.retrieved_at oldest.retrieved_at then src else oldest) rest

unfoldable pub oldest_retrieval : Stats → Option SourceInfo
unfolding oldest_from
oldest_retrieval s = elim s.sources [ [] ↦ none | first ∷ rest ↦ some (oldest_from first rest) ]

-- A limit that is negative in Go counts as 0 here: both give the default.
pub record Query : Type 0 where
  pub country : Bytes
  pub bic : Bytes
  pub name : Bytes
  pub limit : ℕ

abbrev default_limit : ℕ
default_limit = 100

abbrev pub max_limit : ℕ
max_limit = 1000

-- `clampLimit`
unfoldable pub clamp_limit : Query → ℕ
clamp_limit q =
    if q.limit == 0 then default_limit else if ltb max_limit q.limit then max_limit else q.limit

-- The order of the lists that the store returns: by country, then by bank code.
unfoldable pub bank_before : Bank → Bank → Bool
bank_before a b =
    if not (bytes_eq a.country b.country)
    then bytes_lt a.country b.country
    else bytes_lt a.bank_code b.bank_code

unfoldable pub source_before : SourceInfo → SourceInfo → Bool
source_before a b = bytes_lt a.country b.country
