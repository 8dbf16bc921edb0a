-- ===== src/Api/Reports.antt =====
-- internal/api/health.go: the health and readiness of the service, and the report of its data. A time
-- and an age stay numbers, where the program prints texts.
use iban_pizza.Prelude.{
  ℕ, ◌-◌, ◌*◌, ◌/◌, Bool, true, false, ◌||◌, List, [], ◌∷◌, Option, none, some, if◌then◌else◌, ltb,
  ◌==◌,
}
use iban_pizza.Prelude.Text.{Bytes}
use iban_pizza.Iban.Types.{Result, ok, err}
use iban_pizza.BankData.Types.{SourceInfo, Stats}
use iban_pizza.Sepa.Register.{Scheme, Registry, len, counts}
use iban_pizza.Api.Repo.{RepoError}

-- `Status` of `Health`
pub data HealthStatus : Type 0 where
  up degraded stale : HealthStatus

-- `Health`
pub record Health : Type 0 where
  pub status : HealthStatus
  pub version : Bytes
  pub uptime : ℕ
  pub records : ℕ
  pub is_stale : Bool

-- `DefaultStaleAfter`, for the length of an hour, and the limit that `New` puts in place of 0
abbrev pub default_stale_after : ℕ → ℕ
default_stale_after hour = 120 * 24 * hour

unfoldable pub configured : ℕ → ℕ → ℕ
configured hour stale_after = if stale_after == 0 then default_stale_after hour else stale_after

-- `now.Sub(src.RetrievedAt) > s.cfg.StaleAfter`; a time after `now` is never stale, as in Go where no age is
-- negative and above the limit.
abbrev pub is_old : ℕ → ℕ → SourceInfo → Bool
is_old now stale_after src = ltb stale_after (now - src.retrieved_at)

-- The loop of `handleHealth`
unfoldable pub some_old : ℕ → ℕ → List SourceInfo → Bool
some_old now stale_after [] = false
some_old now stale_after (src ∷ rest) =
    let later = some_old now stale_after rest in if is_old now stale_after src then true else later

-- `handleHealth`: the code of the answer and its body, of a service that was started at a time
abbrev pub health_of : Health → ℕ → ℕ → Result RepoError Stats → ℕ × Health
health_of h now stale_after (err e) = (500, record h { status = degraded })
health_of h now stale_after (ok stats) =
    if some_old now stale_after stats.sources
    then (200, record h { status = stale; records = stats.total_records; is_stale = true })
    else (200, record h { records = stats.total_records })

unfoldable pub handle_health : Bytes → ℕ → ℕ → ℕ → Result RepoError Stats → ℕ × Health
handle_health version started now stale_after stats =
    health_of
      (record {
        status = up;
        version = version;
        uptime = now - started;
        records = 0;
        is_stale = false;
      })
      now stale_after stats

-- `handleReady`
pub data Readiness : Type 0 where
  unavailable no_data : Readiness
  ready : ℕ → Readiness

unfoldable pub handle_ready : Result RepoError Stats → ℕ × Readiness
handle_ready (err e) = (503, unavailable)
handle_ready (ok stats) =
    if stats.total_records == 0 then (503, no_data) else (200, ready stats.total_records)

-- `DataSource`
pub record DataSource : Type 0 where
  pub country : Bytes
  pub name : Bytes
  pub url : Bytes
  pub retrieved_at : ℕ
  pub age_days : ℕ
  pub records : ℕ
  pub is_stale : Bool

-- `DataSchemes`
pub record DataSchemes : Type 0 where
  pub loaded : Bool
  pub institutions : ℕ
  pub as_of : Option ℕ
  pub participants : List (Scheme × ℕ)

-- `DataReport`
pub record DataReport : Type 0 where
  pub records : ℕ
  pub countries : List Bytes
  pub is_stale : Bool
  pub stale_after : ℕ
  pub sources : List DataSource
  pub schemes : DataSchemes

-- What the report tells of the schemes.
abbrev pub schemes_of : Option Registry → DataSchemes
schemes_of none = record { loaded = false; institutions = 0; as_of = none; participants = [] }
schemes_of (some r) = record {
  loaded = true;
  institutions = len r;
  as_of = r.as_of;
  participants = counts r.by_scheme;
}

module _ (day : ℕ) where
  -- The loop of `handleV2Data`: what it adds to the report so far.
  abbrev pub with_source : ℕ → SourceInfo → DataReport → DataReport
  with_source now src report = record report {
    is_stale = is_old now report.stale_after src || report.is_stale;
    countries = src.country ∷ report.countries;
    sources =
        record {
          country = src.country;
          name = src.name;
          url = src.url;
          retrieved_at = src.retrieved_at;
          age_days = (now - src.retrieved_at) / day;
          records = src.record_count;
          is_stale = is_old now report.stale_after src;
        }
        ∷ report.sources;
  }

  unfoldable pub with_sources : ℕ → List SourceInfo → DataReport → DataReport
  with_sources now [] report = report
  with_sources now (src ∷ rest) report = with_source now src (with_sources now rest report)

  abbrev pub report_of : ℕ → ℕ → Option Registry → Result RepoError Stats → Option DataReport
  report_of now stale_after schemes (err e) = none
  report_of now stale_after schemes (ok stats) = some (
      with_sources now stats.sources (record {
        records = stats.total_records;
        countries = [];
        is_stale = false;
        stale_after = stale_after;
        sources = [];
        schemes = schemes_of schemes;
      }))

  -- `handleV2Data`; none where the data store is not available
  unfoldable pub handle_v2_data :
      ℕ → ℕ → Option Registry → Result RepoError Stats → Option DataReport
  handle_v2_data now stale_after schemes stats = report_of now stale_after schemes stats
