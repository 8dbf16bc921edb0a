-- ===== src/Sepa/Answers.antt =====
-- A registry whose known BICs are those that its schemes list, how `Add` and the loaders keep it so, and
-- what `Lookup` then answers.
use iban_pizza.Prelude.{
  ◌⊎◌, Bool, true, false, List, Option, none, some, if◌then◌else◌, ◌≡◌, ◌↔◌, refl, sym, subst,
  arith, Bool-cases, inl, inr,
}
use iban_pizza.Prelude.Text.{Bytes}
use iban_pizza.Prelude.Assoc.{get, bytes_key}
use iban_pizza.Sepa.Register.{
  sct, sct_inst, sdd_core, sdd_b2b, oct_inst, vop, lookup_loop, lookup, answer, Scheme, scheme_key,
  scheme_eq, scheme_eq_iff, Membership, Participant, Registry, new_registry, normalize_bic, add,
  entry, is_known, membership, participant, not_participant, left, unknown,
}
use iban_pizza.Sepa.Added.{last_row, known_after, member_of, entry-add, is_known-add}

abbrev pub present {ℓ} : {A : Type ℓ} → Option A → Bool
present none = false
present (some a) = true

-- A BIC is known exactly if some scheme has an entry for it, and no entry has the status `unknown` or
-- `not_participant`.
pub record IsRegistry (r : Registry) : Type 0 where
  pub covers : (s : Scheme) (bic : Bytes) → present (entry r s bic) ≡ true → is_known r bic ≡ true
  pub witnesses :
      (bic : Bytes) → is_known r bic ≡ true → (s : Scheme) × (present (entry r s bic) ≡ true)
  pub stated :
      (s : Scheme) (bic : Bytes) (m : Membership)
      → entry r s bic ≡ some m
      → (m.status ≡ participant) ⊎ (m.status ≡ left)

pub new_registry-IsRegistry : IsRegistry new_registry
unfolding get
new_registry-IsRegistry = record {
  covers = λ s bic h. ground arith;
  witnesses = λ bic h. ground arith;
  stated = λ s bic m h. ground arith;
}

covers_case :
    (l : Option Participant) (same known : Bool) (old : Option Membership)
    → (present old ≡ true → known ≡ true)
    → present (if same then member_of l else old) ≡ true
    → known_after l known ≡ true
covers_case (some p) same known old h g = refl
covers_case none true known old h g = ground arith
covers_case none false known old h g = h g

add-covers :
    (r : Registry) (scheme : Scheme) (ps : List Participant)
    → IsRegistry r
    → (s : Scheme) (bic : Bytes) → present (entry (add r scheme ps) s bic) ≡ true
    → is_known (add r scheme ps) bic ≡ true
add-covers r scheme ps h s bic =
    rw (entry-add r scheme s ps bic, is_known-add r scheme ps bic)
      (covers_case (last_row bic ps) (scheme_eq scheme s) (is_known r bic) (entry r s bic)
        (h.covers s bic))

not_absent : {A B : Type 0} (o : Option A) → o ≡ none → present o ≡ true → B
not_absent o gone there = ground arith

-- An old entry is not one of a scheme that had none.
not_fresh :
    (r : Registry) (scheme s : Scheme) (bic : Bytes) (l : Option Participant)
    → entry r scheme bic ≡ none
    → present (entry r s bic) ≡ true
    → present (if scheme_eq scheme s then member_of l else entry r s bic) ≡ true
not_fresh r scheme s bic l fresh old = elim (Bool-cases (scheme_eq scheme s)) [
  | inl same ↦
      not_absent (entry r scheme bic) fresh
        (subst (λ z. present (entry r z bic) ≡ true) (sym ((scheme_eq_iff scheme s).0 same)) old)
  | inr apart ↦ rw apart old
]

witness_case :
    (r : Registry) (scheme : Scheme) (bic : Bytes) (l : Option Participant)
    → IsRegistry r
    → entry r scheme bic ≡ none
    → known_after l (is_known r bic) ≡ true
    → (s : Scheme) × (present (if scheme_eq scheme s then member_of l else entry r s bic) ≡ true)
witness_case r scheme bic (some p) h fresh g =
    (scheme, rw ((scheme_eq_iff scheme scheme).1 refl) refl)
witness_case r scheme bic none h fresh g =
    let (s, old) = h.witnesses bic g in (s, not_fresh r scheme s bic none fresh old)

add-witnesses :
    (r : Registry) (scheme : Scheme) (ps : List Participant)
    → IsRegistry r
    → ((bic : Bytes) → entry r scheme bic ≡ none)
    → (bic : Bytes) → is_known (add r scheme ps) bic ≡ true
    → (s : Scheme) × (present (entry (add r scheme ps) s bic) ≡ true)
add-witnesses r scheme ps h fresh bic known =
    let (s, found) =
      witness_case r scheme bic (last_row bic ps) h (fresh bic)
        (rw (is_known-add r scheme ps bic) at known) in
    (s, rw (entry-add r scheme s ps bic) found)

stated_case :
    (l : Option Participant) (same : Bool) (old : Option Membership) (m : Membership)
    → (old ≡ some m → (m.status ≡ participant) ⊎ (m.status ≡ left))
    → (if same then member_of l else old) ≡ some m
    → (m.status ≡ participant) ⊎ (m.status ≡ left)
stated_case l false old m h g = h g
stated_case none true old m h g = ground arith
stated_case (some p) true old m h g = ground arith

-- `Add` for a scheme that has no entries yet keeps the registry one whose known BICs are exactly those
-- with an entry, and whose entries have the status `participant` or `left`.
pub add-IsRegistry :
    (r : Registry) (scheme : Scheme) (ps : List Participant)
    → IsRegistry r
    → ((bic : Bytes) → entry r scheme bic ≡ none)
    → IsRegistry (add r scheme ps)
add-IsRegistry r scheme ps h fresh = record {
  covers = add-covers r scheme ps h;
  witnesses = add-witnesses r scheme ps h fresh;
  stated = λ s bic m g.
      stated_case (last_row bic ps) (scheme_eq scheme s) (entry r s bic) m (h.stated s bic m)
        (rw (entry-add r scheme s ps bic) at g);
}

abbrev Stated : Option Membership → Type 0
Stated o = (m : Membership) → o ≡ some m → (m.status ≡ participant) ⊎ (m.status ≡ left)

answer-unknown :
    (o : Option Membership) (known : Bool)
    → Stated o
    → ((answer o known).status ≡ unknown) ↔ ((o ≡ none) × (known ≡ false))
answer-unknown none known h = ground arith
answer-unknown (some m) known h = ground (arith, h m refl)

answer-not_participant :
    (o : Option Membership) (known : Bool)
    → Stated o
    → ((answer o known).status ≡ not_participant) ↔ ((o ≡ none) × (known ≡ true))
answer-not_participant none known h = ground arith
answer-not_participant (some m) known h = ground (arith, h m refl)

is_absent : {A : Type 0} (o : Option A) → (present o ≡ true → ⊥) → o ≡ none
is_absent none h = refl
is_absent (some a) h = absurd (h refl)

refuted : (b : Bool) → (b ≡ true → ⊥) → b ≡ false
refuted b h = ground arith

contrary : {B : Type 0} (b : Bool) → b ≡ true → b ≡ false → B
contrary b held refused = ground arith

-- The answer `unknown` is given exactly where no scheme has an entry.
unknown_iff :
    (r : Registry) (bic : Bytes) (s : Scheme)
    → IsRegistry r
    → ((membership r bic s).status ≡ unknown) ↔ ((t : Scheme) → entry r t bic ≡ none)
unfolding membership
unknown_iff r bic s h =
    let (to, back) = answer-unknown (entry r s bic) (is_known r bic) (h.stated s bic) in
    (
      λ asked t.
          is_absent (entry r t bic)
            (λ there. contrary (is_known r bic) (h.covers t bic there) (to asked).1),
      λ nowhere. back (
        nowhere s,
        refuted (is_known r bic) (λ known.
            let (t, there) = h.witnesses bic known in not_absent (entry r t bic) (nowhere t) there),
      ),
    )

-- In a registry whose known BICs are exactly those with an entry, and whose entries have the status
-- `participant` or `left`, a round of `Lookup` answers `not_participant` for a scheme exactly if it
-- has no entry for the BIC and some scheme has one.
membership-not_participant :
    (r : Registry) (bic : Bytes) (s : Scheme)
    → IsRegistry r
    → ((membership r bic s).status ≡ not_participant)
      ↔ ((entry r s bic ≡ none) × ((t : Scheme) × (present (entry r t bic) ≡ true)))
unfolding membership
membership-not_participant r bic s h =
    let (to, back) = answer-not_participant (entry r s bic) (is_known r bic) (h.stated s bic) in
    (
      λ asked. ((to asked).0, h.witnesses bic (to asked).1),
      λ given. back (given.0, h.covers given.1.0 bic given.1.1),
    )

-- In a registry whose known BICs are exactly those with an entry, and whose entries have the status
-- `participant` or `left`, a round of `Lookup` answers `unknown` for a scheme exactly if no scheme
-- has an entry for the BIC, and `not_participant` exactly if it has no entry itself and some scheme has one.
pub membership-unknown :
    (r : Registry) (bic : Bytes) (s : Scheme)
    → IsRegistry r
    → (((membership r bic s).status ≡ unknown) ↔ ((t : Scheme) → entry r t bic ≡ none))
      × (((membership r bic s).status ≡ not_participant)
          ↔ ((entry r s bic ≡ none) × ((t : Scheme) × (present (entry r t bic) ≡ true))))
membership-unknown r bic s h = (unknown_iff r bic s h, membership-not_participant r bic s h)

-- `Lookup` answers for every scheme, with the membership of the normalised BIC.
lookup-membership :
    (r : Registry) (bic : Bytes) (s : Scheme)
    → get s (lookup r bic) ≡ some (membership r (normalize_bic bic) s)
unfolding lookup lookup_loop get
lookup-membership r bic sct = refl
lookup-membership r bic sct_inst = refl
lookup-membership r bic sdd_core = refl
lookup-membership r bic sdd_b2b = refl
lookup-membership r bic oct_inst = refl
lookup-membership r bic vop = refl
