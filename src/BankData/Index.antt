-- ===== src/BankData/Index.antt =====
-- The BIC index answers as a pass over all records would.
use iban_pizza.Prelude.{
  Bool, true, false, List, [], ◌∷◌, ◌++◌, Option, none, some, if◌then◌else◌, ◌≡◌, refl, ap, ◌∙◌,
  arith, Bool-cases, inl, inr, append_assoc,
}
use iban_pizza.Prelude.Text.{Bytes, bytes_eq, bytes_eq_iff, is_empty, to_upper, trim_space}
use iban_pizza.Prelude.Assoc.{get, put, get-put, bytes_key}
use iban_pizza.Prelude.Sort.{sort}
use iban_pizza.Iban.Types.{Result, ok, err}
use iban_pizza.BankData.Types.{Bank, bank_before}
use iban_pizza.BankData.Store.{
  listed, Store, StoreError, not_found, or_not_found, find_by_bic, values, keep, file_bank,
  file_banks, sort_lists, reindex,
}
use iban_pizza.BankData.Invariant.{IsStore}

-- The list that a BIC has in the index, with more banks at its end.
abbrev filed : Option (List Bank) → List Bank → Option (List Bank)
filed o [] = o
filed o (b ∷ banks) = some (listed o ++ b ∷ banks)

abbrev pub has_bic : Bytes → Bank → Bool
has_bic bic b = bytes_eq b.bic bic

get-put-listed :
    (bic k : Bytes) (b : Bank) (index : List (Bytes × List Bank))
    → is_empty bic ≡ false
    → get bic (if is_empty k then index else put k (listed (get k index) ++ b ∷ []) index)
      ≡ (if bytes_eq k bic then some (listed (get bic index) ++ b ∷ []) else get bic index)
get-put-listed bic k b index h = elim (Bool-cases (bytes_eq k bic)) [
  | inl same ↦
      rw ((bytes_eq_iff k bic).0 same, h) (get-put bic bic (listed (get bic index) ++ b ∷ []) index)
  | inr other ↦ ground (arith, get-put k bic (listed (get k index) ++ b ∷ []) index, other)
]

get-file_bank :
    (bic : Bytes) (b : Bank) (index : List (Bytes × List Bank))
    → is_empty bic ≡ false
    → get bic (file_bank b index)
      ≡ (if has_bic bic b then some (listed (get bic index) ++ b ∷ []) else get bic index)
unfolding file_bank
get-file_bank bic b index h = get-put-listed bic b.bic b index h

filed-filed :
    (o : Option (List Bank)) (b : Bank) (banks : List Bank)
    → filed (some (listed o ++ b ∷ [])) banks ≡ filed o (b ∷ banks)
filed-filed o b [] = refl
filed-filed o b (c ∷ banks) = ap some (append_assoc (listed o) (b ∷ []) (c ∷ banks))

get-file_banks :
    (bic : Bytes) (banks : List Bank) (index : List (Bytes × List Bank))
    → is_empty bic ≡ false
    → get bic (file_banks banks index) ≡ filed (get bic index) (keep (has_bic bic) banks)
unfolding file_banks keep
get-file_banks bic [] index h = refl
get-file_banks bic (b ∷ banks) index h =
    get-file_banks bic banks (file_bank b index) h
    ∙ ap (λ o. filed o (keep (has_bic bic) banks)) (get-file_bank bic b index h)
    ∙ either (has_bic bic b)
  where
    either :
        (t : Bool)
        → filed
            (if t then some (listed (get bic index) ++ b ∷ []) else get bic index)
            (keep (has_bic bic) banks)
          ≡ filed
              (get bic index)
              (if t then b ∷ keep (has_bic bic) banks else keep (has_bic bic) banks)
    either true = filed-filed (get bic index) b (keep (has_bic bic) banks)
    either false = refl

-- The empty BIC is never filed.
get-file_banks_empty :
    (banks : List Bank) (index : List (Bytes × List Bank))
    → get [] (file_banks banks index) ≡ get [] index
unfolding file_banks file_bank
get-file_banks_empty [] index = refl
get-file_banks_empty (b ∷ banks) index = get-file_banks_empty banks (file_bank b index) ∙ one
  where
    one : get [] (file_bank b index) ≡ get [] index
    one =
        ground (
          arith,
          get-put b.bic [] (listed (get b.bic index) ++ b ∷ []) index,
          bytes_eq_iff b.bic [],
        )

sorted_list : Option (List Bank) → Option (List Bank)
sorted_list none = none
sorted_list (some banks) = some (sort bank_before banks)

get-sort_lists :
    (bic : Bytes) (index : List (Bytes × List Bank))
    → get bic (sort_lists index) ≡ sorted_list (get bic index)
unfolding sort_lists get sorted_list
get-sort_lists bic [] = refl
get-sort_lists bic ((k, banks) ∷ index) = ground (arith, get-sort_lists bic index)

-- What a pass over all records finds.
abbrev pub scanned : List Bank → Result StoreError (List Bank)
scanned [] = err not_found
scanned (b ∷ banks) = ok (sort bank_before (b ∷ banks))

-- In a store that keeps the invariant, `FindByBIC` answers from its index as a pass over all records
-- would: the sorted list of the banks with that BIC, and `ErrNotFound` where there is none or the
-- BIC is empty.
pub find_by_bic-scan :
    (s : Store) (bic : Bytes)
    → IsStore s
    → find_by_bic s bic ≡ (
        if is_empty (to_upper (trim_space bic))
        then err not_found
        else scanned (keep (has_bic (to_upper (trim_space bic))) (values s.by_key)))
unfolding find_by_bic reindex sorted_list get
find_by_bic-scan s bic h = from_index (to_upper (trim_space bic))
  where
    listed_scan :
        (banks : List Bank) → or_not_found (sorted_list (filed none banks)) ≡ scanned banks
    listed_scan [] = refl
    listed_scan (b ∷ banks) = refl

    from_index :
        (t : Bytes)
        → or_not_found (get t s.by_bic)
          ≡ (if is_empty t then err not_found else scanned (keep (has_bic t) (values s.by_key)))
    from_index [] =
        ap (λ m. or_not_found (get [] m)) h.indexed
        ∙ ap or_not_found (get-sort_lists [] (file_banks (values s.by_key) []))
        ∙ ap (λ o. or_not_found (sorted_list o)) (get-file_banks_empty (values s.by_key) [])
    from_index (c ∷ t) =
        ap (λ m. or_not_found (get (c ∷ t) m)) h.indexed
        ∙ ap or_not_found (get-sort_lists (c ∷ t) (file_banks (values s.by_key) []))
        ∙ ap (λ o. or_not_found (sorted_list o)) (get-file_banks (c ∷ t) (values s.by_key) [] refl)
        ∙ listed_scan (keep (has_bic (c ∷ t)) (values s.by_key))
