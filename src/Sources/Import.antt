-- ===== src/Sources/Import.antt =====
-- What `ParseGeneric` returns.
use iban_pizza.Prelude.{
  ℕ, ◌+◌, ◌==◌, Bool, true, false, not, ◌&&◌, ◌||◌, List, [], ◌∷◌, none, if◌then◌else◌, length, all,
  ◌≡◌, refl, sym, ap, subst, arith, Bool-cases, inl, inr, ◌⊎◌,
}
use iban_pizza.Prelude.Text.{Bytes, codes, is_empty, bytes_eq, bytes_eq_iff, to_upper, trim_space}
use iban_pizza.Prelude.Assoc.{get, Distinct}
use iban_pizza.Iban.Types.{Result, ok, err, bind_passed, ◌>>=◌}
use iban_pizza.BankData.Found.{under_keys}
use iban_pizza.BankData.Types.{
  has_key, Bank, Key, bank_key, key_of, key_eq, key_eq_iff, normalize_key,
}
use iban_pizza.Sources.Encoding.{decode_auto}
use iban_pizza.Sources.Table.{ParseError, Table, parse_csv}
use iban_pizza.Sources.Rows.{Row, kept, append_to, row_loop}
use iban_pizza.Sources.Generic.{
  Columns, columns_of, bank_of, judge_row, see_key, generic_rows, some_rows, source_or_generic,
  detect_separator, parse_generic,
}

abbrev pub lacks_part : Bank → Bool
lacks_part b = is_empty b.bank_code || is_empty b.name

-- The banks of all rows that have a bank code and a name.
unfoldable pub complete_banks : Bytes → Bytes → Columns → List (List Bytes) → List Bank
complete_banks country source col [] = []
complete_banks country source col (row ∷ rows) =
    let b = bank_of country source col row in
    let rest = complete_banks country source col rows in if lacks_part b then rest else b ∷ rest

-- A record with a code, a name, a country of two bytes, and a given source.
abbrev pub is_import : Bytes → Bank → Bool
is_import source b = not (lacks_part b) && length b.country == 2 && bytes_eq b.source source

has_key-key_eq : (j k : Key) (seen : List Key) → key_eq j k ≡ true → has_key j seen ≡ has_key k seen
has_key-key_eq j k seen same = ap (λ i. has_key i seen) ((key_eq_iff j k).0 same)

-- What a loop makes of the banks of its complete rows, from the keys seen before.
abbrev pub IsRead : Bytes → List Key → List Bank → List Bank → Type 0
IsRead source seen full out =
    (all (is_import source) out ≡ true)
    × Distinct (under_keys out)
    × ((k : Key)
        → get k (under_keys out) ≡ (if has_key k seen then none else get k (under_keys full)))

module _ (source : Bytes) (seen : List Key) (b : Bank) (full out : List Bank) where
  read_again :
      has_key (normalize_key (key_of b)) seen ≡ true
      → IsRead source seen full out
      → IsRead source seen (b ∷ full) out
  unfolding get has_key
  read_again again h = (
    h.0,
    h.1,
    λ k. ground (arith, h.2 k, has_key-key_eq (normalize_key (key_of b)) k seen, again),
  )

  read_fresh :
      has_key (normalize_key (key_of b)) seen ≡ false
      → is_import source b ≡ true
      → IsRead source (normalize_key (key_of b) ∷ seen) full out
      → IsRead source seen (b ∷ full) (b ∷ out)
  unfolding get has_key
  read_fresh fresh good h = (
    rw (good, h.0),
    (
      ground (
        arith,
        h.2 (normalize_key (key_of b)),
        key_eq_iff (normalize_key (key_of b)) (normalize_key (key_of b)),
      ),
      h.1,
    ),
    λ k. ground (arith, h.2 k, has_key-key_eq (normalize_key (key_of b)) k seen, fresh),
  )

module _ {E : Type 0} where
  ok_injective :
      (a b : List Bank) → ◌≡◌ {A = Result (ParseError E) (List Bank)} (ok a) (ok b) → a ≡ b
  ok_injective a b h = cc

  append_kept :
      (b : Bank) (rest : Result (ParseError E) (List Bank)) (out : List Bank)
      → append_to (kept b) rest ≡ ok out
      → (banks : List Bank) × (rest ≡ ok banks) × (b ∷ banks ≡ out)
  append_kept b (err e) out h = absurd (cc)
  append_kept b (ok banks) out h = (banks, refl, cc)

  module _ (country source : Bytes) (col : Columns) where
    abbrev judge : List Key → ℕ → List Bytes → Row E
    judge = judge_row country source col

    module _ (row : List Bytes) (rows : List (List Bytes)) (seen : List Key) (n : ℕ)
        (out : List Bank) (h : row_loop judge see_key seen n (row ∷ rows) ≡ ok out)
        (read : (seen : List Key) (out : List Bank)
          → row_loop judge see_key seen (n + 1) rows ≡ ok out
          → IsRead source seen (complete_banks country source col rows) out) where
      abbrev next_bank : Bank
      next_bank = bank_of country source col row

      abbrev next_seen : Bool
      next_seen = has_key (normalize_key (key_of next_bank)) seen

      abbrev Next : Type 0
      Next = IsRead source seen (complete_banks country source col (row ∷ rows)) out

      abbrev rest_banks : List Bank
      rest_banks = complete_banks country source col rows

      lacking :
          lacks_part next_bank ≡ true → complete_banks country source col (row ∷ rows) ≡ rest_banks
      unfolding complete_banks
      lacking lacks = rw lacks refl

      having :
          lacks_part next_bank ≡ false
          → complete_banks country source col (row ∷ rows) ≡ next_bank ∷ rest_banks
      unfolding complete_banks
      having full = rw full refl

      imported :
          lacks_part next_bank ≡ false
          → (length next_bank.country == 2) ≡ true
          → is_import source next_bank ≡ true
      unfolding bank_of
      imported full two = ground (arith, full, two, bytes_eq_iff source source)

      next_by_key :
          lacks_part next_bank ≡ false
          → (length next_bank.country == 2) ≡ true
          → (next_seen ≡ true) ⊎ (next_seen ≡ false)
          → Next
      unfolding row_loop judge_row
      next_by_key full two (inl again) =
          subst (λ full. IsRead source seen full out) (sym (having full))
            (read_again source seen next_bank rest_banks out again
              (read seen out (rw (full, two, again) at h)))
      next_by_key full two (inr fresh) =
          let (banks, rest, same) =
            append_kept next_bank
              (row_loop judge see_key (normalize_key (key_of next_bank) ∷ seen) (n + 1) rows) out
              (rw (full, two, fresh) at h) in
          subst (λ full. IsRead source seen full out) (sym (having full))
            (subst (λ out. IsRead source seen (next_bank ∷ rest_banks) out) same
              (read_fresh source seen next_bank rest_banks banks fresh (imported full two)
                (read (normalize_key (key_of next_bank) ∷ seen) banks rest)))

      next_by_country :
          lacks_part next_bank ≡ false
          → ((length next_bank.country == 2) ≡ true) ⊎ ((length next_bank.country == 2) ≡ false)
          → Next
      unfolding row_loop judge_row
      next_by_country full (inl two) = next_by_key full two (Bool-cases next_seen)
      next_by_country full (inr long) = absurd (ground (arith, rw (full, long) at h))

      next_row : (lacks_part next_bank ≡ true) ⊎ (lacks_part next_bank ≡ false) → Next
      unfolding row_loop judge_row
      next_row (inl lacks) =
          subst (λ full. IsRead source seen full out) (sym (lacking lacks))
            (read seen out (rw lacks at h))
      next_row (inr full) = next_by_country full (Bool-cases (length next_bank.country == 2))

    read_rows :
        (rows : List (List Bytes)) (seen : List Key) (n : ℕ) (out : List Bank)
        → row_loop judge see_key seen n rows ≡ ok out
        → IsRead source seen (complete_banks country source col rows) out
    unfolding row_loop complete_banks get
    read_rows [] seen n out h =
        subst (λ out. IsRead source seen [] out) (ok_injective [] out h)
          (refl, tt, λ k. ground (arith, has_key k seen))
    read_rows (row ∷ rows) seen n out h =
        next_row row rows seen n out h (λ s. read_rows rows s (n + 1))
          (Bool-cases (lacks_part (bank_of country source col row)))

  some_rows_passed : (banks out : List Bank) → some_rows {E = E} banks ≡ ok out → banks ≡ out
  some_rows_passed [] out h = absurd (cc)
  some_rows_passed (b ∷ banks) out h = ok_injective (b ∷ banks) out h

  module _ (csv : ℕ → Bytes → Result E (List (List Bytes))) where
    -- The table and the columns that `ParseGeneric` reads, where it succeeds.
    abbrev pub IsTable : Bytes → Table → Columns → Type 0
    IsTable file table col =
        (parse_csv csv (decode_auto file) (detect_separator (decode_auto file))
            (codes "bankcode" ∷ codes "name" ∷ [])
          ≡ ok table)
        × (columns_of {E = E} table ≡ ok col)

    -- If `ParseGeneric` returns banks, then each has a bank code, a name, a country of two bytes and the
    -- source that was asked for, or else that of a generic import; no two have the same normalised key;
    -- and under each normalised key stands the first row of the table that has this key, a bank code and
    -- a name, so that no such row is lost but to an earlier one of its key.
    pub parse_generic-rows :
        (country source file : Bytes) (banks : List Bank)
        → parse_generic csv country source file ≡ ok banks
        → (table : Table) × (col : Columns) × IsTable file table col
          × (all (is_import (source_or_generic source)) banks ≡ true)
          × Distinct (under_keys banks)
          × ((k : Key)
              → get k (under_keys banks)
                ≡ get k (
                    under_keys (
                      complete_banks
                        (to_upper (trim_space country))
                        (source_or_generic source)
                        col
                        table.rows)))
    unfolding parse_generic generic_rows has_key
    parse_generic-rows country source file banks h =
        let cc = to_upper (trim_space country) in
        let s = source_or_generic source in
        let (table, read, h1) =
          bind_passed
            (parse_csv csv (decode_auto file) (detect_separator (decode_auto file))
              (codes "bankcode" ∷ codes "name" ∷ []))
            (λ table. columns_of table >>= λ col. generic_rows cc s col table.rows >>= some_rows)
            h in
        let (col, found, h2) =
          bind_passed (columns_of table) (λ col. generic_rows cc s col table.rows >>= some_rows)
            h1 in
        let (all, rows, h3) = bind_passed (generic_rows cc s col table.rows) some_rows h2 in
        let (good, distinct, first) =
          subst (λ out. IsRead s [] (complete_banks cc s col table.rows) out)
            (some_rows_passed all banks h3) (read_rows cc s col table.rows [] 0 all rows) in
        (table, col, (read, found), good, distinct, first)
