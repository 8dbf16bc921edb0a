-- ===== src/BankData/Rebuilt.antt =====
-- What a store in memory holds after a copy of another one.
use iban_pizza.Prelude.{
  Bool, true, false, ◌||◌, List, [], ◌∷◌, Option, none, some, if◌then◌else◌, ◌≡◌, refl, sym, ◌∙◌,
  ap, ltb, length, all, &&-both, arith, Bool-cases, inl, inr, subst,
}
use iban_pizza.Prelude.Text.{Bytes, bytes_eq}
use iban_pizza.Prelude.Assoc.{get, delete_where, get-delete_where, Distinct}
use iban_pizza.Prelude.Sort.{sort, insert}
use iban_pizza.Iban.Types.{Result, ok, err}
use iban_pizza.BankData.Types.{
  bank_before, Bank, Key, bank_key, key_of, key_eq_iff, normalize_key, SourceInfo,
}
use iban_pizza.BankData.Store.{
  Store, not_found, new_store, find, replace, values, keep, is_from, all_banks, stats,
}
use iban_pizza.BankData.Snapshot.{CopyError, copy_sources}
use iban_pizza.BankData.Invariant.{IsStore, Keyed, replace-IsStore, new_store-IsStore}
use iban_pizza.BankData.Found.{last_for, get-put_banks}
use iban_pizza.BankData.Copied.{
  records_of, CopyRun, one_copied, all_copied, none_found, refused, copy_sources-keep,
}

abbrev only {ℓ} : {A : Type ℓ} → (A → Bool) → Option A → Option A
only p none = none
only p (some a) = if p a then some a else none

last_for_tail :
    (k : Key) (c : Bank) (l : List Bank) → last_for k (c ∷ l) ≡ none → last_for k l ≡ none
unfolding last_for
last_for_tail k c l h = ground (arith, h)

module _ (p : Bank → Bool) where
  last_for-insert :
      (less : Bank → Bank → Bool) (k : Key) (b : Bank) (l : List Bank)
      → last_for (normalize_key (key_of b)) l ≡ none
      → last_for k (keep p (insert less b l)) ≡ last_for k (keep p (b ∷ l))
  unfolding last_for keep insert
  last_for-insert less k b [] h = refl
  last_for-insert less k b (c ∷ l) h = elim (Bool-cases (less c b)) [
    | inl after ↦ rw after (
        ground (
          arith,
          h,
          last_for-insert less k b l (last_for_tail (normalize_key (key_of b)) c l h),
          key_eq_iff (normalize_key (key_of b)) k,
          key_eq_iff (normalize_key (key_of c)) k,
          key_eq_iff (normalize_key (key_of c)) (normalize_key (key_of b)),
        ))
    | inr before ↦ rw before refl
  ]

keep_all : (l : List Bank) → keep (λ b. true) l ≡ l
unfolding keep
keep_all [] = refl
keep_all (b ∷ l) = ap (λ rest. b ∷ rest) (keep_all l)

-- The records that pass a test, in whatever order they are sorted, have under a key what the map has there, if it
-- passes.
last_for-sorted :
    (p : Bank → Bool) (k : Key) (m : List (Key × Bank))
    → Keyed m
    → Distinct m
    → last_for k (keep p (sort bank_before (values m))) ≡ only p (get k m)
unfolding last_for keep get sort
last_for-sorted p k [] h d = refl
last_for-sorted p k ((j, b) ∷ m) h d =
    let sorted = sort bank_before (values m) in
    let free : get (normalize_key (key_of b)) m ≡ none = rw (← h.0) d.0 in
    let absent : last_for (normalize_key (key_of b)) sorted ≡ none =
      ap (last_for (normalize_key (key_of b))) (sym (keep_all sorted))
      ∙ last_for-sorted (λ c. true) (normalize_key (key_of b)) m h.1 d.1
      ∙ ap (only (λ c. true)) free in
    last_for-insert p bank_before k b sorted absent
    ∙ ground (arith, last_for-sorted p k m h.1 d.1, h.0, d.0, key_eq_iff j k)

-- What is left of a finding where only some sources are kept.
abbrev from_sources : (Bytes → Bool) → Option Bank → Option Bank
from_sources p o = only (λ b. p b.source) o

-- One `Replace` by the records of a source.
replaced_source :
    (from w : Store) (info : SourceInfo) (p : Bytes → Bool) (k : Key)
    → IsStore from
    → IsStore w
    → get k w.by_key ≡ from_sources p (get k from.by_key)
    → get k (replace w info (records_of from info)).by_key
      ≡ from_sources (λ name. bytes_eq name info.name || p name) (get k from.by_key)
unfolding replace all_banks
replaced_source from w info p k hf hw same = ground (
  arith,
  same,
  get-put_banks k (records_of from info) (delete_where (is_from info.name) w.by_key),
  get-delete_where (is_from info.name) k w.by_key hw.distinct,
  last_for-sorted (is_from info.name) k from.by_key hf.keyed hf.distinct,
)

-- Whether some source has a name.
abbrev pub has_source : List SourceInfo → Bytes → Bool
has_source [] name = false
has_source (info ∷ rest) name = bytes_eq name info.name || has_source rest name

-- Whether a store has a record of a source.
abbrev pub has_records : Store → SourceInfo → Bool
has_records from info = ltb 0 (length (records_of from info))

without_records : (l : List Bank) → l ≡ [] → ltb 0 (length l) ≡ true → ⊥
without_records [] gone full = cc
without_records (b ∷ l) gone full = cc

regrouped :
    (info : SourceInfo) (rest : List SourceInfo) (p : Bytes → Bool) (o : Option Bank)
    → from_sources (λ name. has_source rest name || (bytes_eq name info.name || p name)) o
      ≡ from_sources (λ name. has_source (info ∷ rest) name || p name) o
regrouped info rest p none = refl
regrouped info rest p (some b) = ground arith

-- The copy into a store in memory, whose `Replace` never fails.
module _ {E : Type 0} where
  abbrev pub into_memory : Store → SourceInfo → List Bank → Result E Store
  into_memory w info banks = ok (replace w info banks)

  stored_store : (w w' : Store) → ◌≡◌ {A = Result E Store} (ok w) (ok w') → w ≡ w'
  stored_store w w' h = cc

  copied_sources :
      (from : Store) {sources copied : List SourceInfo} {w w' : Store} (p : Bytes → Bool) (k : Key)
      → IsStore from
      → IsStore w
      → get k w.by_key ≡ from_sources p (get k from.by_key)
      → CopyRun into_memory from sources w w' copied none
      → IsStore w'
        × (get k w'.by_key
            ≡ from_sources (λ name. has_source sources name || p name) (get k from.by_key))
  copied_sources from p k hf hw same all_copied = (hw, same)
  copied_sources from p k hf hw same (one_copied {info = info} {rest = rest} some_bank stored run) =
      let now = stored_store _ _ stored in
      let (kept, found) =
        copied_sources from (λ name. bytes_eq name info.name || p name) k hf
          (subst IsStore now (replace-IsStore _ info (records_of from info) hw))
          (rw (← now) (replaced_source from _ info p k hf hw same)) run in
      (kept, found ∙ regrouped info rest p (get k from.by_key))

  no_failure :
      {from : Store} {sources copied : List SourceInfo} {w w' : Store}
      {failed : Option (CopyError E)}
      → all (has_records from) sources ≡ true
      → CopyRun into_memory from sources w w' copied failed
      → failed ≡ none
  no_failure full all_copied = refl
  no_failure {from = from} full (one_copied {info = info} {rest = rest} some_bank stored run) =
      no_failure (&&-both (has_records from info) (all (has_records from) rest) full).1 run
  no_failure {from = from} full (none_found {info = info} {rest = rest} gone) = absurd (
      without_records (records_of from info) gone
        (&&-both (has_records from info) (all (has_records from) rest) full).0)
  no_failure full (refused some_bank stored) = absurd (cc)

  -- In a store that keeps the invariant and has records of every source that it lists: its copy into an empty
  -- store in memory ends without an error, the new store keeps the invariant too, and every key finds in it
  -- what it finds in the old one, if the old one lists the source of that record; otherwise it finds nothing.
  pub copy_sources-find :
      (from : Store)
      → IsStore from
      → all (has_records from) (stats from).sources ≡ true
      → (to : Store) × (copied : List SourceInfo) × (copy_sources into_memory from new_store
          ≡ (to, copied, none))
        × IsStore to
        × ((key : Key)
            → find to key ≡ (elim (find from key) [
              | err e ↦ err e
              | ok b ↦ if has_source (stats from).sources b.source then ok b else err not_found
            ]))
  unfolding find get
  copy_sources-find from h full =
      let r = copy_sources into_memory from new_store in
      let ran : CopyRun into_memory from (stats from).sources new_store r.0 r.1 r.2 =
        copy_sources-keep into_memory from new_store in
      let ended = no_failure full ran in
      let run =
        subst (λ f. CopyRun into_memory from (stats from).sources new_store r.0 r.1 f) ended ran in
      let at_key = λ (k : Key).
        copied_sources from (λ name. false) k h new_store-IsStore (nothing_yet (get k from.by_key))
          run in
      (
        r.0,
        r.1,
        ap (λ f. (r.0, r.1, f)) ended,
        (at_key (record { country = []; bank_code = [] })).0,
        λ key. ground (arith, (at_key (normalize_key key)).1),
      )
    where
      nothing_yet : (o : Option Bank) → none ≡ from_sources (λ name. false) o
      nothing_yet none = refl
      nothing_yet (some b) = refl
