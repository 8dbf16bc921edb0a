-- ===== src/Sepa/Register.antt =====
-- internal/sepa/sepa.go: schemes, memberships and the registry.
use iban_pizza.Prelude.{
  ℕ, Bool, true, false, List, [], ◌∷◌, Option, none, some, ◌==◌, if◌then◌else◌, ◌≡◌, ◌↔◌, arith,
  length,
}
use iban_pizza.Prelude.Text.{Bytes, codes, is_empty, to_upper, trim_space, remove_byte}
use iban_pizza.Prelude.Assoc.{Eq, get, put, bytes_key}
use iban_pizza.BankData.Store.{listed}

pub data Scheme : Type 0 where
  sct sct_inst sdd_core sdd_b2b oct_inst vop : Scheme

-- `AllSchemes`
abbrev pub all_schemes : List Scheme
all_schemes = sct ∷ sct_inst ∷ sdd_core ∷ sdd_b2b ∷ oct_inst ∷ vop ∷ []

-- `Scheme.file`, the base name of an export
pub file : Scheme → Bytes
file sct = codes "sct"
file sct_inst = codes "sct_inst"
file sdd_core = codes "sdd_core"
file sdd_b2b = codes "sdd_b2b"
file oct_inst = codes "oct_inst"
file vop = codes "vop"

abbrev pub scheme_number : Scheme → ℕ
scheme_number sct = 0
scheme_number sct_inst = 1
scheme_number sdd_core = 2
scheme_number sdd_b2b = 3
scheme_number oct_inst = 4
scheme_number vop = 5

abbrev pub scheme_eq : Scheme → Scheme → Bool
scheme_eq a b = scheme_number a == scheme_number b

pub scheme_eq_iff : (a b : Scheme) → (scheme_eq a b ≡ true) ↔ (a ≡ b)
scheme_eq_iff a b = ground arith

instance abbrev pub scheme_key : Eq Scheme
scheme_key = record { eqb = scheme_eq; eqb_iff = scheme_eq_iff }

pub data Status : Type 0 where
  participant not_participant left unknown : Status

pub record Membership : Type 0 where
  pub status : Status
  pub readiness_date : Bytes
  pub leaving_date : Bytes
  pub role : Bytes

pub record Participant : Type 0 where
  pub bic : Bytes
  pub name : Bytes
  pub country : Bytes
  pub city : Bytes
  pub readiness_date : Bytes
  pub leaving_date : Bytes
  pub role : Bytes

abbrev pub Members : Type 0
Members = List (Bytes × Membership)

-- `known` maps a BIC to true; `as_of` is the retrieval time, with none for the zero time.
pub record Registry : Type 0 where
  pub by_scheme : List (Scheme × Members)
  pub known : List (Bytes × Bool)
  pub as_of : Option ℕ

abbrev pub new_registry : Registry
new_registry = record { by_scheme = []; known = []; as_of = none }

abbrev pub set_as_of : Registry → ℕ → Registry
set_as_of r t = record r { as_of = some t }

-- `NormalizeBIC`
unfoldable pub normalize_bic : Bytes → Bytes
normalize_bic bic = to_upper (remove_byte 32 (trim_space bic))

abbrev pub membership_of : Participant → Membership
membership_of p = record {
  status = if is_empty p.leaving_date then participant else left;
  readiness_date = p.readiness_date;
  leaving_date = p.leaving_date;
  role = p.role;
}

-- The loop of `Add`, over the members of the scheme and the known BICs.
unfoldable pub add_loop :
    List Participant → Members → List (Bytes × Bool) → Members × List (Bytes × Bool)
add_loop [] m known = (m, known)
add_loop (p ∷ ps) m known =
    let bic = normalize_bic p.bic in
    add_loop ps (if is_empty bic then m else put bic (membership_of p) m)
      (if is_empty bic then known else put bic true known)

-- `Add`
unfoldable pub add : Registry → Scheme → List Participant → Registry
add r scheme ps =
    let (m, known) = add_loop ps [] r.known in
    record r { by_scheme = put scheme m r.by_scheme; known = known }

-- `r.bySchemeBIC[scheme][bic]`, where a map that is missing is empty
abbrev pub entry : Registry → Scheme → Bytes → Option Membership
entry r scheme bic = get bic (listed (get scheme r.by_scheme))

-- `r.known[bic]`
abbrev pub is_known : Registry → Bytes → Bool
is_known r bic = elim (get bic r.known) [ none ↦ false | some b ↦ b ]

abbrev pub bare : Status → Membership
bare s = record { status = s; readiness_date = []; leaving_date = []; role = [] }

-- One round of the loop of `Lookup`, from the entry and whether the BIC is known.
abbrev pub answer : Option Membership → Bool → Membership
answer (some m) known = m
answer none true = bare not_participant
answer none false = bare unknown

unfoldable pub membership : Registry → Bytes → Scheme → Membership
membership r bic scheme = answer (entry r scheme bic) (is_known r bic)

unfoldable pub lookup_loop : Registry → Bytes → List Scheme → List (Scheme × Membership)
lookup_loop r bic [] = []
lookup_loop r bic (s ∷ schemes) = (s, membership r bic s) ∷ lookup_loop r bic schemes

-- `Lookup`, `Known` and `Len`
unfoldable pub lookup : Registry → Bytes → List (Scheme × Membership)
lookup r bic = lookup_loop r (normalize_bic bic) all_schemes

unfoldable pub known_bic : Registry → Bytes → Bool
known_bic r bic = is_known r (normalize_bic bic)

abbrev pub len : Registry → ℕ
len r = length r.known

-- `Counts`
unfoldable pub counts : List (Scheme × Members) → List (Scheme × ℕ)
counts [] = []
counts ((s, m) ∷ rest) = (s, length m) ∷ counts rest
