-- ===== src/Api/Repo.antt =====
-- bankdata/bankdata.go: the `Repository` interface that the handlers read through, as far as they use it.
use iban_pizza.Prelude.{ℕ}
use iban_pizza.Iban.Types.{Result, ok, err}
use iban_pizza.BankData.Types.{Bank, Key, Stats}
use iban_pizza.BankData.Store.{Store, StoreError, find, stats}

-- `ErrNotFound`, or any other failure of the repository.
pub data RepoError : Type 0 where
  no_record failed : RepoError

-- `Find` and `Stats` of `Repository`.
pub record Repo : Type 0 where
  pub find_bank : Key → Result RepoError Bank
  pub read_stats : Result RepoError Stats

abbrev pub from_store : Result StoreError Bank → Result RepoError Bank
from_store (err e) = err no_record
from_store (ok b) = ok b

-- The store in memory as a repository, which fails in no other way.
abbrev pub store_repo : Store → Repo
store_repo s = record { find_bank = λ key. from_store (find s key); read_stats = ok (stats s) }

-- `maxV1Input`
abbrev pub max_input : ℕ
max_input = 64
