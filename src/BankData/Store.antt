-- ===== src/BankData/Store.antt =====
-- bankdata/memory.go: `MemoryStore`. Its maps are lists of entries; the program goes through them in an
-- unspecified order, here in that of the list. Each operation runs under the store's lock, as one step.
use iban_pizza.Prelude.{
  ℕ, Bool, ◌&&◌, ◌||◌, List, [], ◌∷◌, ◌++◌, Option, none, some, if◌then◌else◌, length, take,
}
use iban_pizza.Prelude.Text.{
  bytes_lt, Bytes, bytes_eq, is_empty, to_upper, trim_space, has_prefix, contains,
}
use iban_pizza.Prelude.Assoc.{get, put, delete_where, bytes_key}
use iban_pizza.Prelude.Sort.{insert, sort}
use iban_pizza.Iban.Types.{Result, ok, err}
use iban_pizza.BankData.Types.{
  Bank, Key, bank_key, key_of, normalize_key, SourceInfo, Stats, Query, clamp_limit, bank_before,
  source_before,
}

-- `ErrNotFound`
pub data StoreError : Type 0 where
  not_found : StoreError

pub record Store : Type 0 where
  pub by_key : List (Key × Bank)
  pub by_bic : List (Bytes × List Bank)
  pub sources : List (Bytes × SourceInfo)

-- `NewMemoryStore`
abbrev pub new_store : Store
new_store = record { by_key = []; by_bic = []; sources = [] }

abbrev pub or_not_found {ℓ} : {A : Type ℓ} → Option A → Result StoreError A
or_not_found none = err not_found
or_not_found (some a) = ok a

-- `Find`
unfoldable pub find : Store → Key → Result StoreError Bank
find s key = or_not_found (get (normalize_key key) s.by_key)

-- `FindByBIC`
unfoldable pub find_by_bic : Store → Bytes → Result StoreError (List Bank)
find_by_bic s bic = or_not_found (get (to_upper (trim_space bic)) s.by_bic)

-- The values of a map.
abbrev pub values {ℓ κ} : {K : Type ℓ} {V : Type κ} → List (K × V) → List V
values [] = []
values ((k, v) ∷ m) = v ∷ values m

-- The tests of `Search`, each passed over where the query leaves its text empty. Names have letters of all
-- alphabets, so `strings.ToLower`, which folds by the tables of package `unicode`, is a parameter.
unfoldable pub matches_query : (Bytes → Bytes) → Query → Bank → Bool
matches_query to_lower q b =
    let country = to_upper (trim_space q.country) in
    let bic = to_upper (trim_space q.bic) in
    let name = to_lower (trim_space q.name) in
    (is_empty country || bytes_eq b.country country)
    && (is_empty bic || has_prefix b.bic bic)
    && (is_empty name || contains (to_lower b.name) name)

-- A loop that keeps what passes a test.
unfoldable pub keep {ℓ} : {A : Type ℓ} → (A → Bool) → List A → List A
keep p [] = []
keep p (a ∷ l) = let rest = keep p l in if p a then a ∷ rest else rest

-- `Search`
unfoldable pub search_banks : (Bytes → Bytes) → Store → Query → List Bank
search_banks to_lower s q =
    take (clamp_limit q) (sort bank_before (keep (matches_query to_lower q) (values s.by_key)))

-- `Stats`
unfoldable pub stats : Store → Stats
stats s = record {
  total_records = length s.by_key;
  sources = sort source_before (values s.sources);
}

-- `All`
unfoldable pub all_banks : Store → List Bank
all_banks s = sort bank_before (values s.by_key)

-- A list of a map, which is nil where there is none.
abbrev pub listed {ℓ} : {A : Type ℓ} → Option (List A) → List A
listed none = []
listed (some l) = l

-- The first loop of `reindexBIC`: every bank with a BIC goes to the end of its list.
unfoldable pub file_bank : Bank → List (Bytes × List Bank) → List (Bytes × List Bank)
file_bank b index =
    if is_empty b.bic then index else put b.bic (listed (get b.bic index) ++ b ∷ []) index

unfoldable pub file_banks : List Bank → List (Bytes × List Bank) → List (Bytes × List Bank)
file_banks [] index = index
file_banks (b ∷ banks) index = file_banks banks (file_bank b index)

-- The second loop: every list is sorted.
unfoldable pub sort_lists : List (Bytes × List Bank) → List (Bytes × List Bank)
sort_lists [] = []
sort_lists ((bic, banks) ∷ index) = (bic, sort bank_before banks) ∷ sort_lists index

-- `reindexBIC`
unfoldable pub reindex : List (Key × Bank) → List (Bytes × List Bank)
reindex by_key = sort_lists (file_banks (values by_key) [])

-- The loop that stores the banks under their normalised keys.
unfoldable pub put_banks : List Bank → List (Key × Bank) → List (Key × Bank)
put_banks [] m = m
put_banks (b ∷ banks) m = put_banks banks (put (normalize_key (key_of b)) b m)

abbrev pub is_from : Bytes → Bank → Bool
is_from name b = bytes_eq b.source name

unfoldable pub count_from : Bytes → List (Key × Bank) → ℕ
count_from name m = length (keep (is_from name) (values m))

-- `Replace`; in memory it never fails.
unfoldable pub replace : Store → SourceInfo → List Bank → Store
replace s info banks =
    let by_key = put_banks banks (delete_where (is_from info.name) s.by_key) in
    record {
      by_key = by_key;
      by_bic = reindex by_key;
      sources =
          put info.name (record info { record_count = count_from info.name by_key }) s.sources;
    }

-- `Len`
abbrev pub len : Store → ℕ
len s = length s.by_key

-- All that the operations compute with, for the tests.
unfoldable pub store_code : Unit {0}
unfolding get put delete_where sort insert to_upper trim_space bytes_eq bytes_lt has_prefix contains
    normalize_key clamp_limit bank_before source_before find find_by_bic matches_query keep
    search_banks stats all_banks file_bank file_banks sort_lists reindex put_banks count_from
    replace
store_code = tt
