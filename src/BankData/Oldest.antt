-- ===== src/BankData/Oldest.antt =====
-- The source that decides whether the data count as stale.
use iban_pizza.Prelude.{
  ap, if◌then◌else◌, Bool, ℕ, ◌≤◌, true, false, List, [], ◌∷◌, none, some, leb, ltb, ◌≡◌, ◌⊎◌, inl,
  inr, refl, sym, subst, arith, all, Bool-cases,
}
use iban_pizza.BankData.Types.{SourceInfo, Stats, oldest_from, oldest_retrieval}

-- Whether a source stands in a list.
abbrev pub IsAmong : SourceInfo → List SourceInfo → Type 0
IsAmong o [] = ⊥
IsAmong o (src ∷ rest) = (o ≡ src) ⊎ IsAmong o rest

-- No source of a list was retrieved before a time.
abbrev pub none_before : ℕ → List SourceInfo → Bool
none_before t sources = all (λ src. leb t src.retrieved_at) sources

none_before_mono :
    (t u : ℕ) (sources : List SourceInfo)
    → t ≤ u
    → none_before u sources ≡ true
    → none_before t sources ≡ true
none_before_mono t u [] le h = refl
none_before_mono t u (src ∷ rest) le h = ground (arith, le, h, none_before_mono t u rest le)

past_older :
    (first src : SourceInfo) (rest : List SourceInfo)
    → ltb src.retrieved_at first.retrieved_at ≡ true
    → oldest_from first (src ∷ rest) ≡ oldest_from src rest
unfolding oldest_from
past_older first src rest older = ap (λ b. oldest_from (if b then src else first) rest) older

past_newer :
    (first src : SourceInfo) (rest : List SourceInfo)
    → ltb src.retrieved_at first.retrieved_at ≡ false
    → oldest_from first (src ∷ rest) ≡ oldest_from first rest
unfolding oldest_from
past_newer first src rest newer = ap (λ b. oldest_from (if b then src else first) rest) newer

oldest_from-le :
    (first : SourceInfo) (rest : List SourceInfo)
    → (oldest_from first rest).retrieved_at ≤ first.retrieved_at
oldest_from-le first [] = unfold oldest_from in omega arith
oldest_from-le first (src ∷ rest) = elim (Bool-cases (ltb src.retrieved_at first.retrieved_at)) [
  | inl older ↦
      rw (past_older first src rest older) (ground (arith, older, oldest_from-le src rest))
  | inr newer ↦ rw (past_newer first src rest newer) (oldest_from-le first rest)
]

oldest_from-none_before :
    (first : SourceInfo) (rest : List SourceInfo)
    → none_before (oldest_from first rest).retrieved_at (first ∷ rest) ≡ true
oldest_from-none_before first [] = unfold oldest_from in ground arith
oldest_from-none_before first (src ∷ rest) =
    elim (Bool-cases (ltb src.retrieved_at first.retrieved_at)) [
      | inl older ↦
          subst (λ (o : SourceInfo). none_before o.retrieved_at (first ∷ src ∷ rest) ≡ true)
            (sym (past_older first src rest older))
            (ground (arith, older, oldest_from-le src rest, oldest_from-none_before src rest))
      | inr newer ↦
          subst (λ (o : SourceInfo). none_before o.retrieved_at (first ∷ src ∷ rest) ≡ true)
            (sym (past_newer first src rest newer))
            (ground (arith, newer, oldest_from-le first rest, oldest_from-none_before first rest))
    ]

oldest_from-IsAmong :
    (first : SourceInfo) (rest : List SourceInfo) → IsAmong (oldest_from first rest) (first ∷ rest)
oldest_from-IsAmong first [] = unfold oldest_from in inl refl
oldest_from-IsAmong first (src ∷ rest) =
    elim (Bool-cases (ltb src.retrieved_at first.retrieved_at)) [
      | inl older ↦
          subst (λ (o : SourceInfo). IsAmong o (first ∷ src ∷ rest))
            (sym (past_older first src rest older)) (inr (oldest_from-IsAmong src rest))
      | inr newer ↦
          subst (λ (o : SourceInfo). IsAmong o (first ∷ src ∷ rest))
            (sym (past_newer first src rest newer)) (skip (oldest_from-IsAmong first rest))
    ]
  where
    skip : {o : SourceInfo} → IsAmong o (first ∷ rest) → IsAmong o (first ∷ src ∷ rest)
    skip (inl here) = inl here
    skip (inr later) = inr (inr later)

-- `OldestRetrieval` fails exactly if there are no sources; otherwise it returns one of them, and none of
-- them was retrieved before it.
pub oldest_retrieval-least :
    (s : Stats)
    → ((oldest_retrieval s ≡ none) × (s.sources ≡ []))
      ⊎ ((o : SourceInfo) × (oldest_retrieval s ≡ some o)
          × IsAmong o s.sources
          × (none_before o.retrieved_at s.sources ≡ true))
unfolding oldest_retrieval
oldest_retrieval-least s = by_sources s.sources
  where
    by_sources :
        (sources : List SourceInfo)
        → (((elim sources [ [] ↦ none | first ∷ rest ↦ some (oldest_from first rest) ]) ≡ none)
            × (sources ≡ []))
          ⊎ ((o : SourceInfo) × ((elim sources [
            | [] ↦ none
            | first ∷ rest ↦ some (oldest_from first rest)
          ])
                ≡ some o)
              × IsAmong o sources
              × (none_before o.retrieved_at sources ≡ true))
    by_sources [] = inl (refl, refl)
    by_sources (first ∷ rest) = inr (
      oldest_from first rest,
      refl,
      oldest_from-IsAmong first rest,
      oldest_from-none_before first rest,
    )
