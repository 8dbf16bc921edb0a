-- ===== src/Sepa/Added.antt =====
-- What `Add` does to the entries of a registry and to the BICs it knows.
use iban_pizza.Prelude.{
  inr, inl, Bool-cases, Bool, true, not, ◌&&◌, List, [], ◌∷◌, Option, none, some, if◌then◌else◌,
  ◌≡◌, refl, arith,
}
use iban_pizza.Prelude.Text.{Bytes, bytes_eq, is_empty}
use iban_pizza.Prelude.Assoc.{get, put, get-put, bytes_key}
use iban_pizza.Sepa.Register.{
  Scheme, scheme_key, scheme_eq, Members, Membership, Participant, Registry, membership_of,
  normalize_bic, add_loop, add, entry, is_known,
}

-- Whether a row is one that `Add` files under a BIC.
abbrev pub names : Participant → Bytes → Bool
names p bic = not (is_empty (normalize_bic p.bic)) && bytes_eq (normalize_bic p.bic) bic

-- The last row of a BIC.
unfoldable pub last_row : Bytes → List Participant → Option Participant
last_row bic [] = none
last_row bic (p ∷ ps) = elim (last_row bic ps) [
  | none ↦ if names p bic then some p else none
  | some q ↦ some q
]

abbrev or_else {ℓ} : {A : Type ℓ} → Option A → Option A → Option A
or_else none other = other
or_else (some a) other = some a

abbrev pub member_of : Option Participant → Option Membership
member_of none = none
member_of (some p) = some (membership_of p)

abbrev known_of : Option Participant → Option Bool
known_of none = none
known_of (some p) = some true

or_else-none : {A : Type 0} (x : Option A) → or_else x none ≡ x
or_else-none none = refl
or_else-none (some a) = refl

add_loop-members :
    (bic : Bytes) (ps : List Participant) (m : Members) (known : List (Bytes × Bool))
    → get bic (add_loop ps m known).0 ≡ or_else (member_of (last_row bic ps)) (get bic m)
unfolding add_loop last_row
add_loop-members bic [] m known = refl
add_loop-members bic (p ∷ ps) m known =
    let key = normalize_bic p.bic in
    ground (
      arith,
      add_loop-members bic ps (if is_empty key then m else put key (membership_of p) m)
          (if is_empty key then known else put key true known),
      get-put key bic (membership_of p) m,
    )

add_loop-known :
    (bic : Bytes) (ps : List Participant) (m : Members) (known : List (Bytes × Bool))
    → get bic (add_loop ps m known).1 ≡ or_else (known_of (last_row bic ps)) (get bic known)
unfolding add_loop last_row
add_loop-known bic [] m known = refl
add_loop-known bic (p ∷ ps) m known =
    let key = normalize_bic p.bic in
    ground (
      arith,
      add_loop-known bic ps (if is_empty key then m else put key (membership_of p) m)
          (if is_empty key then known else put key true known),
      get-put key bic true known,
    )

-- After `Add`, the scheme has for each BIC the membership of the last row that names it and no other
-- entries, and the other schemes have what they had.
pub entry-add :
    (r : Registry) (scheme other : Scheme) (ps : List Participant) (bic : Bytes)
    → entry (add r scheme ps) other bic
      ≡ (if scheme_eq scheme other then member_of (last_row bic ps) else entry r other bic)
unfolding add get
entry-add r scheme other ps bic =
    let m = (add_loop ps [] r.known).0 in
    elim (Bool-cases (scheme_eq scheme other)) [
      | inl same ↦
          rw (get-put scheme other m r.by_scheme, same, add_loop-members bic ps [] r.known)
            (or_else-none (member_of (last_row bic ps)))
      | inr apart ↦ rw (get-put scheme other m r.by_scheme, apart)
    ]

-- Whether a BIC is known after `Add`, from the last row that names it.
abbrev pub known_after : Option Participant → Bool → Bool
known_after none known = known
known_after (some p) known = true

pub is_known-add :
    (r : Registry) (scheme : Scheme) (ps : List Participant) (bic : Bytes)
    → is_known (add r scheme ps) bic ≡ known_after (last_row bic ps) (is_known r bic)
unfolding add
is_known-add r scheme ps bic = ground (arith, add_loop-known bic ps [] r.known)
