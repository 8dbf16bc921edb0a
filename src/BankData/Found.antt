-- ===== src/BankData/Found.antt =====
-- What `Find` returns before and after a `Replace`.
use iban_pizza.Prelude.{List, [], ◌∷◌, Option, none, some, if◌then◌else◌, ◌≡◌, refl, arith}
use iban_pizza.Prelude.Text.{Bytes}
use iban_pizza.Prelude.Assoc.{get, put, delete_where, get-put, get-delete_where}
use iban_pizza.Iban.Types.{Result, ok, err}
use iban_pizza.BankData.Types.{Bank, Key, bank_key, key_of, key_eq, normalize_key, SourceInfo}
use iban_pizza.BankData.Store.{Store, StoreError, not_found, find, replace, put_banks, is_from}
use iban_pizza.BankData.Invariant.{IsStore}

-- Banks under their normalised keys, as a store holds them.
abbrev pub under_keys : List Bank → List (Key × Bank)
under_keys [] = []
under_keys (b ∷ banks) = (normalize_key (key_of b), b) ∷ under_keys banks

-- The last of some banks that has a key.
unfoldable pub last_for : Key → List Bank → Option Bank
last_for k [] = none
last_for k (b ∷ banks) = elim (last_for k banks) [
  | none ↦ if key_eq (normalize_key (key_of b)) k then some b else none
  | some c ↦ some c
]

pub get-put_banks :
    (k : Key) (banks : List Bank) (m : List (Key × Bank))
    → get k (put_banks banks m) ≡ (elim (last_for k banks) [ none ↦ get k m | some b ↦ some b ])
unfolding put_banks last_for
get-put_banks k [] m = refl
get-put_banks k (b ∷ banks) m = ground (
  arith,
  get-put_banks k banks (put (normalize_key (key_of b)) b m),
  get-put (normalize_key (key_of b)) k b m,
)

-- A store that does not have the records of a source.
abbrev pub without : Bytes → Result StoreError Bank → Result StoreError Bank
without name (err e) = err e
without name (ok b) = if is_from name b then err not_found else ok b

-- In a store that keeps the invariant, after `Replace`: a key that the new banks have finds the last
-- of them with it; any other key finds what it found before, unless that was a record of the
-- replaced source, which is gone.
pub find-replace :
    (s : Store) (info : SourceInfo) (banks : List Bank) (key : Key)
    → IsStore s
    → find (replace s info banks) key ≡ (elim (last_for (normalize_key key) banks) [
      | none ↦ without info.name (find s key)
      | some b ↦ ok b
    ])
unfolding find replace
find-replace s info banks key h =
    let k = normalize_key key in
    ground (
      arith,
      get-put_banks k banks (delete_where (is_from info.name) s.by_key),
      get-delete_where (is_from info.name) k s.by_key h.distinct,
    )
