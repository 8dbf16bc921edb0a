-- ===== src/BankData/Agreed.antt =====
-- The two stores after `Replace`: PostgreSQL and memory.
use iban_pizza.Prelude.{
  Bool, true, false, ◌&&◌, List, [], ◌∷◌, Option, none, if◌then◌else◌, all, length, ◌≡◌, refl, sym,
  ap, ◌∙◌, arith, Bool-cases, inl, inr, &&-both,
}
use iban_pizza.Prelude.Text.{Bytes, bytes_eq, bytes_eq_iff, to_upper, trim_space}
use iban_pizza.Prelude.Assoc.{
  bytes_key, get, put, delete_where, Distinct, get-put, get-delete_where, delete_where-Distinct,
}
use iban_pizza.Iban.Types.{ok}
use iban_pizza.BankData.Types.{
  Bank, Key, bank_key, key_of, key_eq_iff, has_key, normalize_key, SourceInfo,
}
use iban_pizza.BankData.Store.{Store, find, replace, put_banks, is_from}
use iban_pizza.BankData.Invariant.{put_banks-Distinct, IsStore}
use iban_pizza.BankData.Found.{under_keys, last_for, get-put_banks}
use iban_pizza.BankData.Postgres.{
  commit, record_source, copy_rows, clear_source, begin, Database, find_row, row_of, row_key,
  rows_of, keys_of, delete_keys, copy_all, TxStep, clear_keys, cleared, replace_rows,
}

-- A record as the parsers write it: of the source, with a country in capitals and no space around the country and the
-- bank code.
abbrev pub is_clean : Bytes → Bank → Bool
is_clean name b =
    is_from name b
    && bytes_eq (to_upper b.country) b.country
    && bytes_eq (to_upper (trim_space b.country)) b.country
    && bytes_eq (trim_space b.bank_code) b.bank_code

clean_row : (name : Bytes) (b : Bank) → is_clean name b ≡ true → row_of name b ≡ b
unfolding row_of
clean_row name b h =
    ground (arith, h, bytes_eq_iff b.source name, bytes_eq_iff (to_upper b.country) b.country)

clean_key :
    (name : Bytes) (b : Bank) → is_clean name b ≡ true → row_key b ≡ normalize_key (key_of b)
unfolding normalize_key
clean_key name b h = ground (
  arith,
  h,
  bytes_eq_iff (to_upper (trim_space b.country)) b.country,
  bytes_eq_iff (trim_space b.bank_code) b.bank_code,
)

rows_of-under_keys :
    (name : Bytes) (banks : List Bank)
    → all (is_clean name) banks ≡ true
    → rows_of name banks ≡ under_keys banks
unfolding rows_of normalize_key
rows_of-under_keys name [] h = refl
rows_of-under_keys name (b ∷ banks) h =
    let (clean, rest) = &&-both (is_clean name b) (all (is_clean name) banks) h in
    rw (clean_row name b clean, clean_key name b clean, rows_of-under_keys name banks rest) refl

get-delete_keys :
    (keys : List Key) (k : Key) (m : List (Key × Bank))
    → get k (delete_keys keys m) ≡ (if has_key k keys then none else get k m)
unfolding get delete_keys
get-delete_keys keys k [] = ground arith
get-delete_keys keys k ((j, b) ∷ m) = elim (Bool-cases (has_key j keys)) [
  | inl gone ↦ rw gone (get-delete_keys keys k m ∙ ground (arith, gone, key_eq_iff j k))
  | inr kept ↦ rw kept (ground (arith, kept, key_eq_iff j k, get-delete_keys keys k m))
]

absent_key : (k : Key) (m : List (Key × Bank)) → get k m ≡ none → has_key k (keys_of m) ≡ false
unfolding get has_key
absent_key k [] h = refl
absent_key k ((j, b) ∷ m) h = ground (arith, h, absent_key k m)

last_for-has_key :
    (k : Key) (banks : List Bank)
    → last_for k banks ≡ none
    → has_key k (keys_of (under_keys banks)) ≡ false
unfolding last_for has_key
last_for-has_key k [] h = refl
last_for-has_key k (b ∷ banks) h = ground (arith, h, last_for-has_key k banks)

-- No key of some rows stands in a table.
abbrev NoneIn : List (Key × Bank) → List (Key × Bank) → Type 0
NoneIn rows m = (k : Key) → has_key k (keys_of rows) ≡ true → get k m ≡ none

first_among : (k : Key) (keys : List Key) → has_key k (k ∷ keys) ≡ true
unfolding has_key
first_among k keys = ground (arith, key_eq_iff k k)

later_among : (k j : Key) (keys : List Key) → has_key k keys ≡ true → has_key k (j ∷ keys) ≡ true
unfolding has_key
later_among k j keys h = ground (arith, h)

-- What is free for the rows after the first one, once this has been put.
still_free :
    (b : Bank) (rows m : List (Key × Bank)) (k : Key)
    → get (normalize_key (key_of b)) rows ≡ none
    → has_key k (keys_of rows) ≡ true
    → get k m ≡ none
    → get k (put (normalize_key (key_of b)) b m) ≡ none
still_free b rows m k absent among free =
    let j = normalize_key (key_of b) in
    ground (arith, get-put j k b m, key_eq_iff j k, absent_key j rows absent, among, free)

copy_all-put_banks :
    {E : Type 0} (banks : List Bank) (m : List (Key × Bank))
    → Distinct (under_keys banks)
    → NoneIn (under_keys banks) m
    → copy_all {E = E} (under_keys banks) m ≡ ok (put_banks banks m)
unfolding copy_all put_banks
copy_all-put_banks [] m d free = refl
copy_all-put_banks (b ∷ banks) m d free =
    let j = normalize_key (key_of b) in
    let rows = under_keys banks in
    rw (free j (first_among j (keys_of rows))) (
      copy_all-put_banks banks (put j b m) d.1 (λ k among.
        still_free b rows m k d.0 among (free k (later_among k j (keys_of rows) among))))

delete_keys_none : (m : List (Key × Bank)) → delete_keys [] m ≡ m
unfolding delete_keys has_key
delete_keys_none [] = refl
delete_keys_none ((k, b) ∷ m) = ap (λ t. (k, b) ∷ t) (delete_keys_none m)

delete_keys-NoneIn : (rows m : List (Key × Bank)) → NoneIn rows (delete_keys (keys_of rows) m)
delete_keys-NoneIn rows m k among = get-delete_keys (keys_of rows) k m ∙ rw among refl

delete_keys-Distinct :
    (keys : List Key) (m : List (Key × Bank)) → Distinct m → Distinct (delete_keys keys m)
unfolding delete_keys
delete_keys-Distinct keys [] d = tt
delete_keys-Distinct keys ((j, b) ∷ m) d = elim (Bool-cases (has_key j keys)) [
  | inl gone ↦ rw gone (delete_keys-Distinct keys m d.1)
  | inr kept ↦
      rw kept (get-delete_keys keys j m ∙ rw (kept, d.0) refl, delete_keys-Distinct keys m d.1)
]

-- The two stores have the same records under the same keys, and the table has each key once.
abbrev pub Agree : Database → Store → Type 0
Agree db s = Distinct db.bank × ((k : Key) → get k db.bank ≡ get k s.by_key)

module _ {E : Type 0} (fails : TxStep → Option E) (up : (step : TxStep) → fails step ≡ none) where
  cleared-delete_keys :
      (rows m : List (Key × Bank)) → cleared fails rows m ≡ ok (delete_keys (keys_of rows) m)
  unfolding delete_keys has_key
  cleared-delete_keys [] m = ap ok (sym (delete_keys_none m))
  cleared-delete_keys ((k, b) ∷ rows) m = rw (up clear_keys) refl

  -- The tables after the transaction, where no step fails.
  replace_rows_passed :
      (db : Database) (info : SourceInfo) (banks : List Bank)
      → all (is_clean info.name) banks ≡ true
      → Distinct (under_keys banks)
      → (db' : Database) × (replace_rows fails db info banks ≡ ok db')
        × (db'.bank
            ≡ put_banks banks (
                delete_keys
                  (keys_of (under_keys banks))
                  (delete_where (is_from info.name) db.bank)))
  unfolding replace_rows
  replace_rows_passed db info banks clean d =
      let rows = under_keys banks in
      let old = delete_where (is_from info.name) db.bank in
      let free = delete_keys (keys_of rows) old in
      (
        record {
          bank = put_banks banks free;
          bank_source =
              put info.name
                (record info { country = to_upper info.country; record_count = length banks })
                db.bank_source;
        },
        rw
            (
              up begin,
              up clear_source,
              rows_of-under_keys info.name banks clean,
              cleared-delete_keys rows old,
              up copy_rows,
              copy_all-put_banks {E = E} banks free d (delete_keys-NoneIn rows old),
              up record_source,
              up commit,
            )
            refl,
        refl,
      )

  -- With the same records, the two stores have the same after it.
  found_alike :
      (name : Bytes) (banks : List Bank) (m n : List (Key × Bank)) (k : Key)
      → Distinct m
      → Distinct n
      → get k m ≡ get k n
      → get k (
          put_banks banks
            (delete_keys (keys_of (under_keys banks)) (delete_where (is_from name) m)))
        ≡ get k (put_banks banks (delete_where (is_from name) n))
  found_alike name banks m n k dm dn same =
      let keys = keys_of (under_keys banks) in
      ground (
        arith,
        get-put_banks k banks (delete_keys keys (delete_where (is_from name) m)),
        get-put_banks k banks (delete_where (is_from name) n),
        get-delete_keys keys k (delete_where (is_from name) m),
        get-delete_where (is_from name) k m dm,
        get-delete_where (is_from name) k n dn,
        last_for-has_key k banks,
        same,
      )

  -- If the server fails no step, the store in memory keeps its invariant, and the two stores have the same
  -- records, each key once, then `Replace` of PostgreSQL succeeds on banks of different keys that are of
  -- the source, with countries in capitals and no space around country and bank code; afterwards the
  -- two stores have the same records again, and `Find` answers alike for every key.
  pub replace_rows-Agree :
      (db : Database) (s : Store) (info : SourceInfo) (banks : List Bank)
      → all (is_clean info.name) banks ≡ true
      → Distinct (under_keys banks)
      → IsStore s
      → Agree db s
      → (db' : Database) × (replace_rows fails db info banks ≡ ok db')
        × Agree db' (replace s info banks)
        × ((key : Key) → find_row db' key ≡ find (replace s info banks) key)
  unfolding find find_row replace
  replace_rows-Agree db s info banks clean d h agree =
      let (db', done, exact) = replace_rows_passed db info banks clean d in
      let rows = keys_of (under_keys banks) in
      let distinct : Distinct db'.bank = rw exact (
        put_banks-Distinct banks (delete_keys rows (delete_where (is_from info.name) db.bank)) (
          delete_keys-Distinct rows (delete_where (is_from info.name) db.bank)
            (delete_where-Distinct (is_from info.name) db.bank agree.0))) in
      let same : (k : Key) → get k db'.bank ≡ get k (replace s info banks).by_key = λ k.
        rw exact (found_alike info.name banks db.bank s.by_key k agree.0 h.distinct (agree.1 k)) in
      (db', done, (distinct, same), λ key. rw (same (normalize_key key)) refl)
