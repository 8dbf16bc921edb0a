-- ===== src/Api/Tests.antt =====
-- Runs of the interface over an empty store, and of the theorems about it.
use iban_pizza.Prelude.{
  ℕ, ◌+◌, true, false, List, [], ◌∷◌, none, some, leb, if◌then◌else◌, ◌≡◌, ◌↔◌, refl, arith,
}
use iban_pizza.Prelude.Text.{Bytes, codes, bytes_eq, trim_space, trim_left, is_space}
use iban_pizza.Prelude.Assoc.{get, Distinct, bytes_key}
use iban_pizza.Iban.Types.{ok, Iban}
use iban_pizza.Iban.Parse.{parse, country_code_of}
use iban_pizza.BankData.Store.{new_store}
use iban_pizza.Api.Repo.{Repo, store_repo}
use iban_pizza.Api.V1.{bank_code_lengths, validate_v1}
use iban_pizza.Api.Legacy.{IsKnownBank, validate_v1-valid}
use iban_pizza.Api.V2.{validate_v2}
use iban_pizza.Api.Verdicts.{IsUnknownBank, IsWrongAccount, validate_v2-valid}
use iban_pizza.Api.Limiter.{Limiter, allow, serve, limiter_code}
use iban_pizza.Api.Bounded.{asked, admitted, serve-admitted}
use iban_pizza.Api.Alive.{serve-alive}
use iban_pizza.BankData.Types.{Stats}
use iban_pizza.Api.Reports.{stale, some_old, handle_health, DataReport, handle_v2_data}
use iban_pizza.Api.Stale.{IsOverdue, some_stale, stale_iff}
use iban_pizza.Api.Client.{cors, is_allowed, client_ip, before_comma}
use iban_pizza.Api.Banks.{logo_size}
use iban_pizza.Iban.Checksum as Checksum

abbrev empty_repo : Repo
empty_repo = store_repo new_store

abbrev good : Bytes
good = codes "DE89 3704 0044 0532 0130 00"

validate_v2-valid_example : ((validate_v2 empty_repo none good).valid ≡ true) ↔ (
    (i : Iban) × (parse good ≡ ok i)
    × (Checksum.validate i ≡ ok tt)
    × (IsUnknownBank empty_repo i → ⊥)
    × (IsWrongAccount empty_repo i → ⊥))
validate_v2-valid_example = validate_v2-valid empty_repo none good

abbrev ann : Bytes
ann = codes "10.0.0.1"

abbrev bob : Bytes
bob = codes "10.0.0.2"

abbrev counting : Limiter
counting = record {
  per_min = 2;
  windows = (ann, record { count = 1; start = 100 }) ∷ [];
  last = 100;
}

abbrev requests : List (Bytes × ℕ)
requests = (ann, 110) ∷ (bob, 120) ∷ (ann, 130) ∷ []

served : (serve 60 counting requests).0 ≡ true ∷ true ∷ false ∷ []
unfolding limiter_code
served = refl

one_window : Distinct counting.windows
unfolding limiter_code
one_window = (refl, tt)

ann_window : get ann counting.windows ≡ some (record { count = 1; start = 100 })
unfolding limiter_code
ann_window = refl

serve-admitted_example :
    1 + admitted ann requests (serve 60 counting requests).0
    ≡ (if leb 2 (1 + asked ann requests) then 2 else 1 + asked ann requests)
serve-admitted_example =
    serve-admitted 60 ann requests counting (record { count = 1; start = 100 }) one_window
      ann_window (omega arith) (refl, (refl, (refl, tt)))

validate_v1-valid_example : ((validate_v1 empty_repo good true true).valid ≡ true) ↔ (
    (i : Iban) × (parse good ≡ ok i)
    × (Checksum.validate i ≡ ok tt)
    × (true ≡ true → IsKnownBank empty_repo i (get (country_code_of i) bank_code_lengths)))
validate_v1-valid_example = validate_v1-valid empty_repo good true true

serve-alive_example : (allow 60 (serve 60 counting requests).1 ann 191).0 ≡ true
serve-alive_example = serve-alive 60 130 191 counting requests ann refl refl (omega arith)

abbrev two_sources : Stats
two_sources = record {
  total_records = 5;
  sources =
      record {
        country = codes "AT";
        name = codes "a";
        url = [];
        retrieved_at = 90;
        record_count = 2;
      }
      ∷ record {
        country = codes "DE";
        name = codes "d";
        url = [];
        retrieved_at = 10;
        record_count = 3;
      }
      ∷ [];
}

-- One of the two sources is old, although the other was just retrieved.
one_old : (handle_health [] 0 100 50 (ok two_sources)).1.status ≡ stale
unfolding handle_health some_old
one_old = refl

stale_iff_example :
    (((handle_health [] 0 100 50 (ok two_sources)).1.is_stale ≡ true)
      ↔ IsOverdue 100 50 two_sources)
    × (((handle_health [] 0 100 50 (ok two_sources)).1.status ≡ stale)
        ↔ IsOverdue 100 50 two_sources)
    × (report : DataReport) × (handle_v2_data 7 100 50 none (ok two_sources) ≡ some report)
    × (report.is_stale ≡ (handle_health [] 0 100 50 (ok two_sources)).1.is_stale)
    × (some_stale report.sources ≡ (handle_health [] 0 100 50 (ok two_sources)).1.is_stale)
stale_iff_example = stale_iff [] 0 100 50 7 none two_sources

abbrev origins : List Bytes
origins = codes "https://a" ∷ codes "https://b" ∷ []

granted : (cors origins (codes "https://b") (codes "GET")).allow_origin ≡ some (codes "https://b")
unfolding cors is_allowed bytes_eq
granted = refl

forwarded :
    client_ip (λ name. codes " 10.0.0.7 , 10.0.0.1") (λ remote. none) (codes "X-Real-IP") []
    ≡ codes "10.0.0.7"
unfolding client_ip before_comma trim_space trim_left is_space
forwarded = refl

other_size : logo_size (λ v. some 513) (codes "513") ≡ 128
unfolding logo_size
other_size = refl
