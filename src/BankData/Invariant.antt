-- ===== src/BankData/Invariant.antt =====
-- What holds of every store that the operations build.
use iban_pizza.Prelude.{Bool, List, [], ◌∷◌, ◌≡◌, refl, Bool-cases, inl, inr}
use iban_pizza.Prelude.Assoc.{put, delete_where, Distinct, put-Distinct, delete_where-Distinct}
use iban_pizza.BankData.Types.{Bank, Key, bank_key, key_of, key_eq, normalize_key, SourceInfo}
use iban_pizza.BankData.Store.{
  Store, new_store, replace, put_banks, is_from, reindex, sort_lists, file_banks,
}

-- Every entry stands under the normalised key of its bank.
abbrev pub Keyed : List (Key × Bank) → Type 0
Keyed [] = Unit
Keyed ((k, b) ∷ m) = (k ≡ normalize_key (key_of b)) × Keyed m

pub record IsStore (s : Store) : Type 0 where
  pub distinct : Distinct s.by_key
  pub keyed : Keyed s.by_key
  pub indexed : s.by_bic ≡ reindex s.by_key

put-Keyed :
    (b : Bank) (m : List (Key × Bank)) → Keyed m → Keyed (put (normalize_key (key_of b)) b m)
unfolding put
put-Keyed b [] h = (refl, tt)
put-Keyed b ((j, w) ∷ m) h = elim (Bool-cases (key_eq j (normalize_key (key_of b)))) [
  | inl same ↦ rw same (refl, h.1)
  | inr other ↦ rw other (h.0, put-Keyed b m h.1)
]

delete_where-Keyed : (p : Bank → Bool) (m : List (Key × Bank)) → Keyed m → Keyed (delete_where p m)
unfolding delete_where
delete_where-Keyed p [] h = tt
delete_where-Keyed p ((j, w) ∷ m) h = elim (Bool-cases (p w)) [
  | inl gone ↦ rw gone (delete_where-Keyed p m h.1)
  | inr kept ↦ rw kept (h.0, delete_where-Keyed p m h.1)
]

pub put_banks-Distinct :
    (banks : List Bank) (m : List (Key × Bank)) → Distinct m → Distinct (put_banks banks m)
unfolding put_banks
put_banks-Distinct [] m d = d
put_banks-Distinct (b ∷ banks) m d =
    put_banks-Distinct banks (put (normalize_key (key_of b)) b m)
      (put-Distinct (normalize_key (key_of b)) b m d)

pub put_banks-Keyed :
    (banks : List Bank) (m : List (Key × Bank)) → Keyed m → Keyed (put_banks banks m)
unfolding put_banks
put_banks-Keyed [] m h = h
put_banks-Keyed (b ∷ banks) m h =
    put_banks-Keyed banks (put (normalize_key (key_of b)) b m) (put-Keyed b m h)

pub new_store-IsStore : IsStore new_store
unfolding reindex sort_lists file_banks
new_store-IsStore = record { distinct = tt; keyed = tt; indexed = refl }

-- `Replace` keeps the invariant: no key twice, every bank under its own normalised key, and the BIC
-- index that of the records.
pub replace-IsStore :
    (s : Store) (info : SourceInfo) (banks : List Bank) → IsStore s → IsStore (replace s info banks)
unfolding replace
replace-IsStore s info banks h = record {
  distinct =
      put_banks-Distinct banks (delete_where (is_from info.name) s.by_key)
        (delete_where-Distinct (is_from info.name) s.by_key h.distinct);
  keyed =
      put_banks-Keyed banks (delete_where (is_from info.name) s.by_key)
        (delete_where-Keyed (is_from info.name) s.by_key h.keyed);
  indexed = refl;
}
