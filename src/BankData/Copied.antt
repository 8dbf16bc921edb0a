-- ===== src/BankData/Copied.antt =====
-- What a snapshot read back, and a copy between stores, hold.
use iban_pizza.Prelude.{
  ◌==◌, ℕ, ◌<◌, length, Option, none, some, ◌+◌, false, List, [], ◌∷◌, ◌++◌, if◌then◌else◌, ◌≡◌,
  refl, sym, ◌∙◌, arith, Bool-cases, inl, inr, subst, append-nil, append_assoc,
}
use iban_pizza.Prelude.Text.{Bytes, bytes_eq, bytes_eq_iff}
use iban_pizza.Prelude.Assoc.{get, put, get-put, bytes_key, Distinct}
use iban_pizza.Iban.Types.{Result, ok, err, bind_passed}
use iban_pizza.BankData.Types.{Bank, Key, bank_key, key_of, normalize_key, SourceInfo}
use iban_pizza.BankData.Store.{Store, listed, keep, is_from, put_banks, reindex, all_banks, stats}
use iban_pizza.BankData.Snapshot.{
  snapshot_version, put_sources, Snapshot, SnapshotError, Line, blank, bank_line, bad_line,
  CopyError, no_records, store_failed, read_lines, read_snapshot, by_source, copy_loop,
  copy_sources,
}
use iban_pizza.BankData.Invariant.{IsStore, Keyed, put_banks-Distinct, put_banks-Keyed}

-- The banks of the lines.
unfoldable pub banks_of : List Line → List Bank
banks_of [] = []
banks_of (bank_line b ∷ lines) = b ∷ banks_of lines
banks_of (blank ∷ lines) = banks_of lines
banks_of (bad_line ∷ lines) = banks_of lines

read_lines-put_banks :
    (line : ℕ) (lines : List Line) (m r : List (Key × Bank))
    → read_lines line lines m ≡ ok r
    → r ≡ put_banks (banks_of lines) m
unfolding read_lines banks_of put_banks
read_lines-put_banks line [] m r h = ground arith
read_lines-put_banks line (blank ∷ lines) m r h = read_lines-put_banks (line + 1) lines m r h
read_lines-put_banks line (bank_line b ∷ lines) m r h =
    read_lines-put_banks (line + 1) lines (put (normalize_key (key_of b)) b m) r h
read_lines-put_banks line (bad_line ∷ lines) m r h = absurd (cc)

built_store : Snapshot → List (Key × Bank) → Store
built_store snap m = record {
  by_key = m;
  by_bic = reindex m;
  sources = put_sources snap.sources [];
}

read_snapshot_passed :
    (snap : Snapshot) (s : Store)
    → read_snapshot snap ≡ ok s
    → (m : List (Key × Bank)) × (read_lines 1 snap.lines [] ≡ ok m) × (built_store snap m ≡ s)
unfolding read_snapshot built_store
read_snapshot_passed snap s h = elim (Bool-cases (snap.version == snapshot_version)) [
  | inl known ↦
      let (m, lines, built) =
        bind_passed (read_lines 1 snap.lines []) (λ m. ok (built_store snap m)) (rw known at h) in
      (m, lines, same_store (built_store snap m) s built)
  | inr unknown ↦ absurd (refused unknown)
]
  where
    same_store : (a b : Store) → ◌≡◌ {A = Result SnapshotError Store} (ok a) (ok b) → a ≡ b
    same_store a b e = cc

    refused : (snap.version == snapshot_version) ≡ false → ⊥
    refused unknown = ground (arith, h, unknown)

-- A snapshot that is read gives a store in which no key stands twice, every bank stands under its own
-- key and the BIC index is that of the records; its records are those of all its lines, a later one
-- taking the place of an earlier one with its key.
pub read_snapshot-IsStore :
    (snap : Snapshot) (s : Store)
    → read_snapshot snap ≡ ok s
    → IsStore s × (s.by_key ≡ put_banks (banks_of snap.lines) [])
unfolding built_store
read_snapshot-IsStore snap s h =
    let (m, lines, built) = read_snapshot_passed snap s h in
    let exact = read_lines-put_banks 1 snap.lines [] m lines in
    let distinct : Distinct m = rw exact (put_banks-Distinct (banks_of snap.lines) [] tt) in
    let keyed : Keyed m = rw exact (put_banks-Keyed (banks_of snap.lines) [] tt) in
    subst (λ (t : Store). IsStore t × (t.by_key ≡ put_banks (banks_of snap.lines) [])) built
      (record { distinct = distinct; keyed = keyed; indexed = refl }, exact)

get-by_source :
    (name : Bytes) (banks : List Bank) (m : List (Bytes × List Bank))
    → listed (get name (by_source banks m)) ≡ listed (get name m) ++ keep (is_from name) banks
unfolding by_source keep
get-by_source name [] m = sym (append-nil (listed (get name m)))
get-by_source name (b ∷ banks) m =
    get-by_source name banks (put b.source (listed (get b.source m) ++ b ∷ []) m) ∙ added b.source
  where
    added :
        (source : Bytes)
        → listed (get name (put source (listed (get source m) ++ b ∷ []) m))
            ++ keep (is_from name) banks
          ≡ listed (get name m)
            ++ (if bytes_eq source name
                then b ∷ keep (is_from name) banks
                else keep (is_from name) banks)
    added source = elim (Bool-cases (bytes_eq source name)) [
      | inl same ↦
          rw
            (
              get-put source name (listed (get source m) ++ b ∷ []) m,
              same,
              (bytes_eq_iff source name).0 same,
            )
            (append_assoc (listed (get name m)) (b ∷ []) (keep (is_from name) banks))
      | inr other ↦ rw (get-put source name (listed (get source m) ++ b ∷ []) m, other) refl
    ]

-- The records of a source, in the order of `All`.
abbrev pub records_of : Store → SourceInfo → List Bank
records_of from info = keep (is_from info.name) (all_banks from)

-- The rounds of a copy from a store into a target, one for each source in their order: the target takes the
-- records of its name in the order of `All`, until a source has none or
-- the target refuses them.
module _ {W E : Type 0} (replace : W → SourceInfo → List Bank → Result E W) (from : Store) where
  pub data CopyRun : List SourceInfo → W → W → List SourceInfo → Option (CopyError E) → Type 0 where
    all_copied : {w : W} → CopyRun [] w w [] none
    one_copied :
        {info : SourceInfo} {rest copied : List SourceInfo} {w w' w'' : W}
        {failed : Option (CopyError E)}
        → 0 < length (records_of from info)
        → replace w info (records_of from info) ≡ ok w'
        → CopyRun rest w' w'' copied failed
        → CopyRun
            (info ∷ rest)
            w
            w''
            (record info { record_count = length (records_of from info) } ∷ copied)
            failed
    none_found :
        {info : SourceInfo} {rest : List SourceInfo} {w : W}
        → records_of from info ≡ []
        → CopyRun (info ∷ rest) w w [] (some (no_records info.name))
    refused :
        {info : SourceInfo} {rest : List SourceInfo} {w : W} {e : E}
        → 0 < length (records_of from info)
        → replace w info (records_of from info) ≡ err e
        → CopyRun (info ∷ rest) w w [] (some (store_failed info.name e))

  -- What the loop adds to the sources copied before.
  abbrev RunFrom :
      List SourceInfo → W → List SourceInfo → W × List SourceInfo × Option (CopyError E) → Type 0
  RunFrom sources w before (w', copied, failed) =
      (more : List SourceInfo) × (copied ≡ before ++ more) × CopyRun sources w w' more failed

  module _ (records : Bytes → List Bank)
      (same : (info : SourceInfo) → records info.name ≡ records_of from info) where
    module _ (info : SourceInfo) (rest : List SourceInfo) (w : W) (before : List SourceInfo)
        (next : (w' : W) (before : List SourceInfo)
          → RunFrom rest w' before (copy_loop replace records rest w' before)) where
      stored-RunFrom :
          (banks : List Bank) (r : Result E W)
          → records_of from info ≡ banks
          → 0 < length banks
          → replace w info banks ≡ r
          → RunFrom (info ∷ rest) w before (elim r [
            | err e ↦ (w, before, some (store_failed info.name e))
            | ok w' ↦
                copy_loop replace records rest w'
                  (before ++ record info { record_count = length banks } ∷ [])
          ])
      stored-RunFrom banks (err e) found some_bank stored =
          ([], sym (append-nil before), refused (rw found some_bank) (rw found stored))
      stored-RunFrom banks (ok w') found some_bank stored =
          let counted = record info { record_count = length banks } in
          let ended = copy_loop replace records rest w' (before ++ counted ∷ []) in
          let (more, added, run) = next w' (before ++ counted ∷ []) in
          (
            counted ∷ more,
            added ∙ append_assoc before (counted ∷ []) more,
            subst
                (λ (bs : List Bank).
                  CopyRun (info ∷ rest) w ended.0 (record info { record_count = length bs } ∷ more)
                    ended.2)
                found (one_copied (rw found some_bank) (rw found stored) run),
          )

      round-RunFrom :
          (banks : List Bank)
          → records_of from info ≡ banks
          → RunFrom (info ∷ rest) w before (elim banks [
            | [] ↦ (w, before, some (no_records info.name))
            | b ∷ bs ↦ elim (replace w info (b ∷ bs)) [
              | err e ↦ (w, before, some (store_failed info.name e))
              | ok w' ↦
                  copy_loop replace records rest w'
                    (before ++ record info { record_count = length (b ∷ bs) } ∷ [])
            ]
          ])
      round-RunFrom [] found = ([], sym (append-nil before), none_found found)
      round-RunFrom (b ∷ bs) found =
          stored-RunFrom (b ∷ bs) (replace w info (b ∷ bs)) found (omega arith) refl

    copy_loop-RunFrom :
        (sources : List SourceInfo) (w : W) (before : List SourceInfo)
        → RunFrom sources w before (copy_loop replace records sources w before)
    unfolding copy_loop
    copy_loop-RunFrom [] w before = ([], sym (append-nil before), all_copied)
    copy_loop-RunFrom (info ∷ rest) w before =
        round-RunFrom info rest w before (copy_loop-RunFrom rest) (records info.name)
          (sym (same info))

  -- A copy runs over the sources in the order of their countries that is given: for each source, the target's
  -- `Replace` is called with exactly the records of that source, in the order of `All`, on what the calls
  -- before have made of the target. It ends with the first source that has no records or that the target
  -- refuses, and reports, with their counts, the sources that the target took.
  pub copy_sources-keep :
      (to : W) → let r = copy_sources replace from to in CopyRun (stats from).sources to r.0 r.1 r.2
  unfolding copy_sources get
  copy_sources-keep to =
      let records : Bytes → List Bank = λ name. listed (get name (by_source (all_banks from) [])) in
      let (more, added, run) =
        copy_loop-RunFrom records (λ info. get-by_source info.name (all_banks from) [])
          (stats from).sources to [] in
      subst
        (λ copied.
          CopyRun (stats from).sources to (copy_loop replace records (stats from).sources to []).0
            copied (copy_loop replace records (stats from).sources to []).2)
        (sym added) run
