-- ===== src/Api/Stale.antt =====
-- When the service calls its data stale.
use iban_pizza.Prelude.{
  ℕ, ◌-◌, ◌<◌, Bool, true, false, ◌||◌, List, [], ◌∷◌, Option, none, some, ◌≡◌, ◌↔◌, refl, sym, ◌∙◌,
  subst, arith, Bool-cases, inl, inr, some_injective,
}
use iban_pizza.Prelude.Text.{Bytes}
use iban_pizza.Iban.Types.{ok}
use iban_pizza.BankData.Types.{SourceInfo, Stats, oldest_retrieval}
use iban_pizza.BankData.Oldest.{IsAmong, none_before, oldest_retrieval-least}
use iban_pizza.Sepa.Register.{Registry}
use iban_pizza.Api.Reports.{
  stale, some_old, handle_health, DataSource, DataReport, schemes_of, with_sources, handle_v2_data,
}

-- Whether a row of the report is stale.
abbrev pub some_stale : List DataSource → Bool
some_stale [] = false
some_stale (row ∷ rows) = row.is_stale || some_stale rows

some_old-none_before :
    (now stale_after t : ℕ) (sources : List SourceInfo)
    → none_before t sources ≡ true
    → some_old now stale_after sources ≡ true
    → stale_after < now - t
unfolding some_old
some_old-none_before now stale_after t [] h old = absurd (cc)
some_old-none_before now stale_after t (src ∷ rest) h old =
    ground (arith, h, old, some_old-none_before now stale_after t rest)

some_old-IsAmong :
    (now stale_after : ℕ) (o : SourceInfo) (sources : List SourceInfo)
    → IsAmong o sources
    → stale_after < now - o.retrieved_at
    → some_old now stale_after sources ≡ true
unfolding some_old
some_old-IsAmong now stale_after o [] among old = absurd among
some_old-IsAmong now stale_after o (src ∷ rest) (inl here) old =
    let h : stale_after < now - src.retrieved_at = rw (← here) old in ground (arith, h)
some_old-IsAmong now stale_after o (src ∷ rest) (inr later) old =
    ground (arith, some_old-IsAmong now stale_after o rest later old)

-- The oldest source is too old.
abbrev pub IsOverdue : ℕ → ℕ → Stats → Type 0
IsOverdue now stale_after stats =
    (o : SourceInfo) × (oldest_retrieval stats ≡ some o) × (stale_after < now - o.retrieved_at)

absent_overdue :
    (now stale_after : ℕ) (stats : Stats)
    → oldest_retrieval stats ≡ none
    → IsOverdue now stale_after stats
    → ⊥
absent_overdue now stale_after stats absent (o, found, old) =
    let clash : none ≡ some o = sym absent ∙ found in cc

found_overdue :
    (now stale_after : ℕ) (stats : Stats) (o : SourceInfo)
    → oldest_retrieval stats ≡ some o
    → IsAmong o stats.sources
    → IsOverdue now stale_after stats
    → some_old now stale_after stats.sources ≡ true
found_overdue now stale_after stats o found among (p, also, old) =
    let same : p ≡ o = some_injective p o (sym also ∙ found) in
    some_old-IsAmong now stale_after o stats.sources among
      (subst (λ (q : SourceInfo). stale_after < now - q.retrieved_at) same old)

none_old :
    (now stale_after : ℕ) (sources : List SourceInfo)
    → sources ≡ []
    → some_old now stale_after sources ≡ true
    → ⊥
unfolding some_old
none_old now stale_after [] empty old = cc
none_old now stale_after (src ∷ rest) empty old = cc

some_old_iff :
    (now stale_after : ℕ) (stats : Stats)
    → (some_old now stale_after stats.sources ≡ true) ↔ IsOverdue now stale_after stats
some_old_iff now stale_after stats = elim (oldest_retrieval-least stats) [
  | inl (absent, empty) ↦ (
    λ old. absurd (none_old now stale_after stats.sources empty old),
    λ overdue. absurd (absent_overdue now stale_after stats absent overdue),
  )
  | inr (o, found, among, least) ↦ (
    λ old. (o, found, some_old-none_before now stale_after o.retrieved_at stats.sources least old),
    found_overdue now stale_after stats o found among,
  )
]

module _ (day now : ℕ) where
  with_sources-stale_after :
      (sources : List SourceInfo) (report : DataReport)
      → (with_sources day now sources report).stale_after ≡ report.stale_after
  unfolding with_sources
  with_sources-stale_after [] report = refl
  with_sources-stale_after (src ∷ rest) report = with_sources-stale_after rest report

  with_sources-is_stale :
      (sources : List SourceInfo) (report : DataReport)
      → (with_sources day now sources report).is_stale
        ≡ (some_old now report.stale_after sources || report.is_stale)
  unfolding with_sources some_old
  with_sources-is_stale [] report = refl
  with_sources-is_stale (src ∷ rest) report =
      rw (with_sources-stale_after rest report, with_sources-is_stale rest report) (ground arith)

  with_sources-some_stale :
      (sources : List SourceInfo) (report : DataReport)
      → some_stale (with_sources day now sources report).sources
        ≡ (some_old now report.stale_after sources || some_stale report.sources)
  unfolding with_sources some_old
  with_sources-some_stale [] report = refl
  with_sources-some_stale (src ∷ rest) report =
      rw (with_sources-stale_after rest report, with_sources-some_stale rest report) (ground arith)

health-is_stale :
    (version : Bytes) (started now stale_after : ℕ) (stats : Stats)
    → (handle_health version started now stale_after (ok stats)).1.is_stale
      ≡ some_old now stale_after stats.sources
unfolding handle_health
health-is_stale version started now stale_after stats =
    elim (Bool-cases (some_old now stale_after stats.sources)) [
      | inl old ↦ rw old refl
      | inr fresh ↦ rw fresh refl
    ]

health-status :
    (version : Bytes) (started now stale_after : ℕ) (stats : Stats)
    → ((handle_health version started now stale_after (ok stats)).1.status ≡ stale)
      ↔ (some_old now stale_after stats.sources ≡ true)
unfolding handle_health
health-status version started now stale_after stats =
    elim (Bool-cases (some_old now stale_after stats.sources)) [
      | inl old ↦ rw old (λ h. refl, λ h. refl)
      | inr fresh ↦ rw fresh (λ h. absurd (cc), λ h. absurd (cc))
    ]

-- The health answer calls the data stale, in its mark and in its status, exactly if the source that was retrieved
-- first is older than the limit; the data report calls them stale in the same cases, which are those in
-- which it marks some source as stale.
pub stale_iff :
    (version : Bytes) (started now stale_after day : ℕ) (schemes : Option Registry) (stats : Stats)
    → let h = (handle_health version started now stale_after (ok stats)).1 in
      ((h.is_stale ≡ true) ↔ IsOverdue now stale_after stats)
      × ((h.status ≡ stale) ↔ IsOverdue now stale_after stats)
      × (report : DataReport) × (handle_v2_data day now stale_after schemes (ok stats)
          ≡ some report)
      × (report.is_stale ≡ h.is_stale)
      × (some_stale report.sources ≡ h.is_stale)
unfolding handle_v2_data
stale_iff version started now stale_after day schemes stats =
    let mark = health-is_stale version started now stale_after stats in
    let status = health-status version started now stale_after stats in
    let (there, back) = some_old_iff now stale_after stats in
    let empty : DataReport = record {
      records = stats.total_records;
      countries = [];
      is_stale = false;
      stale_after = stale_after;
      sources = [];
      schemes = schemes_of schemes;
    } in
    (
      (λ h. there (sym mark ∙ h), λ overdue. mark ∙ back overdue),
      (λ h. there (status.0 h), λ overdue. status.1 (back overdue)),
      with_sources day now stats.sources empty,
      refl,
      with_sources-is_stale day now stats.sources empty ∙ ground arith ∙ sym mark,
      with_sources-some_stale day now stats.sources empty ∙ ground arith ∙ sym mark,
    )
