-- ===== src/Sepa/Loaded.antt =====
-- What `Download` and `LoadDir` leave in the registry.
use iban_pizza.Prelude.{
  ℕ, ◌+◌, Bool, true, false, ◌||◌, List, [], ◌∷◌, Option, none, some, if◌then◌else◌, ◌≡◌, refl,
  subst, arith, Bool-cases, inl, inr,
}
use iban_pizza.Prelude.Text.{Bytes}
use iban_pizza.Prelude.Assoc.{get}
use iban_pizza.Iban.Types.{Result, ok, err}
use iban_pizza.Sepa.Register.{
  Scheme, scheme_eq, scheme_eq_iff, Membership, Participant, Registry, new_registry, add, entry,
  all_schemes,
}
use iban_pizza.Sepa.Load.{
  with_file, go_on, LoadError, File, missing, unreadable, stored, later, loaded, of_rows,
  of_fetched, after_scheme, download_loop, download, load_loop, load_dir,
}
use iban_pizza.Sepa.Added.{last_row, member_of, entry-add}
use iban_pizza.Sepa.Answers.{IsRegistry, new_registry-IsRegistry, add-IsRegistry}

-- The entry of a BIC for a scheme after what came for that scheme, from the entry before.
abbrev pub entry_after :
    {E : Type 0}
    → Bytes
    → Result (LoadError E) (List Participant)
    → Option Membership
    → Option Membership
entry_after bic (err e) old = old
entry_after bic (ok ps) old = member_of (last_row bic ps)

-- Whether a scheme is among some.
unfoldable pub among : Scheme → List Scheme → Bool
among s [] = false
among s (t ∷ ts) = scheme_eq t s || among s ts

-- The schemes that still have no entry, and those that stand once in a list.
abbrev Fresh : Registry → List Scheme → Type 0
Fresh r [] = Unit
Fresh r (s ∷ ss) = ((bic : Bytes) → entry r s bic ≡ none) × Fresh r ss

abbrev Apart : Scheme → List Scheme → Type 0
Apart s [] = Unit
Apart s (t ∷ ts) = (scheme_eq s t ≡ false) × Apart s ts

abbrev AllApart : List Scheme → Type 0
AllApart [] = Unit
AllApart (s ∷ ss) = Apart s ss × AllApart ss

add-Fresh :
    (r : Registry) (s : Scheme) (ps : List Participant) (ss : List Scheme)
    → Apart s ss
    → Fresh r ss
    → Fresh (add r s ps) ss
add-Fresh r s ps [] a f = tt
add-Fresh r s ps (t ∷ ts) a f =
    (λ bic. rw (entry-add r s t ps bic, a.0) (f.0 bic), add-Fresh r s ps ts a.1 f.1)

new_registry-Fresh : Fresh new_registry all_schemes
unfolding get
new_registry-Fresh =
    (λ bic. refl, (λ bic. refl, (λ bic. refl, (λ bic. refl, (λ bic. refl, (λ bic. refl, tt))))))

all_schemes-AllApart : AllApart all_schemes
all_schemes-AllApart = (
  (refl, (refl, (refl, (refl, (refl, tt))))),
  (
    (refl, (refl, (refl, (refl, tt)))),
    ((refl, (refl, (refl, tt))), ((refl, (refl, tt)), ((refl, tt), (tt, tt)))),
  ),
)

among-all_schemes : (s : Scheme) → among s all_schemes ≡ true
unfolding among
among-all_schemes s = ground arith

-- The time of a registry has no part in it.
timed : (r : Registry) (t : Option ℕ) → IsRegistry r → IsRegistry (record r { as_of = t })
timed r t h = record { covers = h.covers; witnesses = h.witnesses; stated = h.stated }

loaded-ok :
    {E : Type 0} (found : ℕ) (newest : Option ℕ) (r made : Registry)
    → loaded {E = E} found newest r ≡ ok made
    → record r { as_of = newest } ≡ made
loaded-ok found newest r made run = ground arith

go_on-ok :
    {E : Type 0} (csv : Bytes → Result E (List (List Bytes)))
    (read : Result (LoadError E) (List Participant))
    (next : List Participant → Result (LoadError E) Registry) (made : Registry)
    → go_on csv read next ≡ ok made
    → (ps : List Participant) × (next ps ≡ ok made)
go_on-ok csv (err e) next made run = ground arith
go_on-ok csv (ok ps) next made run = (ps, run)

twice :
    {E : Type 0} (again : Bool) (bic : Bytes) (came : Result (LoadError E) (List Participant))
    (old : Option Membership)
    → (if again then entry_after bic came (entry_after bic came old) else entry_after bic came old)
      ≡ entry_after bic came old
twice again bic came old = ground arith

module _ {E : Type 0} (csv : Bytes → Result E (List (List Bytes))) where
  entry-after_scheme :
      (r : Registry) (errs : List (LoadError E)) (t s : Scheme) (bic : Bytes)
      (came : Result (LoadError E) (List Participant))
      → entry (after_scheme csv t came (r, errs)).0 s bic
        ≡ (if scheme_eq t s then entry_after bic came (entry r s bic) else entry r s bic)
  entry-after_scheme r errs t s bic (err e) = elim (Bool-cases (scheme_eq t s)) [
    | inl same ↦ rw same
    | inr apart ↦ rw apart
  ]
  entry-after_scheme r errs t s bic (ok ps) = entry-add r t s ps bic

  entry-download_loop :
      (fetch : Scheme → Result E Bytes) (ss : List Scheme) (s : Scheme) (bic : Bytes)
      (state : Registry × List (LoadError E))
      → entry (download_loop csv fetch ss state).0 s bic ≡ (
          if among s ss
          then entry_after bic (of_fetched csv s (fetch s)) (entry state.0 s bic)
          else entry state.0 s bic)
  unfolding download_loop among
  entry-download_loop fetch [] s bic state = refl
  entry-download_loop fetch (t ∷ ss) s bic (r, errs) =
      rw
        (
          entry-download_loop fetch ss s bic
              (after_scheme csv t (of_fetched csv t (fetch t)) (r, errs)),
          entry-after_scheme r errs t s bic (of_fetched csv t (fetch t)),
        )
        (elim (Bool-cases (scheme_eq t s)) [
          | inl same ↦
              rw (same, (scheme_eq_iff t s).0 same)
                (twice (among s ss) bic (of_fetched csv s (fetch s)) (entry r s bic))
          | inr apart ↦ rw apart
        ])

  -- After `Download`, a scheme whose export is fetched, read and parsed has the entries of its rows, the
  -- last row of each BIC, and any other scheme has none, whatever happened to the others.
  pub entry-download :
      (fetch : Scheme → Result E Bytes) (now : ℕ) (s : Scheme) (bic : Bytes)
      → entry (download csv fetch now).0 s bic ≡ entry_after bic (of_fetched csv s (fetch s)) none
  unfolding download get
  entry-download fetch now s bic =
      rw (entry-download_loop fetch all_schemes s bic (new_registry, []), among-all_schemes s)

  after_scheme-Kept :
      (s : Scheme) (ss : List Scheme) (came : Result (LoadError E) (List Participant))
      (state : Registry × List (LoadError E))
      → Apart s ss
      → IsRegistry state.0
      → Fresh state.0 (s ∷ ss)
      → IsRegistry (after_scheme csv s came state).0 × Fresh (after_scheme csv s came state).0 ss
  after_scheme-Kept s ss (err e) (r, errs) a h f = (h, f.1)
  after_scheme-Kept s ss (ok ps) (r, errs) a h f =
      (add-IsRegistry r s ps h f.0, add-Fresh r s ps ss a f.1)

  download_loop-IsRegistry :
      (fetch : Scheme → Result E Bytes) (ss : List Scheme) (state : Registry × List (LoadError E))
      → AllApart ss
      → IsRegistry state.0
      → Fresh state.0 ss
      → IsRegistry (download_loop csv fetch ss state).0
  unfolding download_loop
  download_loop-IsRegistry fetch [] state a h f = h
  download_loop-IsRegistry fetch (s ∷ ss) state a h f =
      let (kept, fresh) = after_scheme-Kept s ss (of_fetched csv s (fetch s)) state a.0 h f in
      download_loop-IsRegistry fetch ss (after_scheme csv s (of_fetched csv s (fetch s)) state) a.1
        kept fresh

  -- Whatever the fetcher returns, `Download` builds a registry whose known BICs are exactly those with an
  -- entry, and whose entries have the status `participant` or `left`.
  pub download-IsRegistry :
      (fetch : Scheme → Result E Bytes) (now : ℕ) → IsRegistry (download csv fetch now).0
  unfolding download
  download-IsRegistry fetch now =
      timed (download_loop csv fetch all_schemes (new_registry, [])).0 (some now) (
        download_loop-IsRegistry fetch all_schemes (new_registry, []) all_schemes-AllApart
          new_registry-IsRegistry new_registry-Fresh)

  -- A round of `LoadDir` that ends well went on in one of two ways.
  with_file-ok :
      {B : Type 0} (s : Scheme) (file : File E) (skip : Result (LoadError E) Registry)
      (next : List Participant → Option ℕ → Result (LoadError E) Registry) (made : Registry)
      → with_file csv s file skip next ≡ ok made
      → (skip ≡ ok made → B)
      → ((ps : List Participant) (t : Option ℕ) → next ps t ≡ ok made → B)
      → B
  with_file-ok s missing skip next made run on_skip on_next = on_skip run
  with_file-ok s (unreadable e) skip next made run on_skip on_next = ground arith
  with_file-ok s (stored text t) skip next made run on_skip on_next =
      let (ps, read) = go_on-ok csv (of_rows csv s (csv text)) (λ ps. next ps t) made run in
      on_next ps t read

  load_loop-IsRegistry :
      (dir : Scheme → File E) (ss : List Scheme) (found : ℕ) (newest : Option ℕ) (r made : Registry)
      → AllApart ss
      → IsRegistry r
      → Fresh r ss
      → load_loop csv dir ss found newest r ≡ ok made
      → IsRegistry made
  unfolding load_loop
  load_loop-IsRegistry dir [] found newest r made a h f run =
      subst IsRegistry (loaded-ok found newest r made run) (timed r newest h)
  load_loop-IsRegistry dir (s ∷ ss) found newest r made a h f run =
      with_file-ok s (dir s) (load_loop csv dir ss found newest r)
        (λ ps t. load_loop csv dir ss (found + 1) (later newest t) (add r s ps)) made run
        (load_loop-IsRegistry dir ss found newest r made a.1 h f.1)
        (λ ps t.
          load_loop-IsRegistry dir ss (found + 1) (later newest t) (add r s ps) made a.1
            (add-IsRegistry r s ps h f.0) (add-Fresh r s ps ss a.0 f.1))

  -- A registry that `LoadDir` returns, whatever the directory holds, has as known BICs exactly those
  -- with an entry, and its entries have the status `participant` or `left`.
  pub load_dir-IsRegistry :
      (dir : Scheme → File E) (made : Registry) → load_dir csv dir ≡ ok made → IsRegistry made
  unfolding load_dir
  load_dir-IsRegistry dir made run =
      load_loop-IsRegistry dir all_schemes 0 none new_registry made all_schemes-AllApart
        new_registry-IsRegistry new_registry-Fresh run
