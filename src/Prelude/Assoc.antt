-- ===== src/Prelude/Assoc.antt =====
-- Go maps as association lists, over keys with a Boolean equality. A key stands in a map once.

use mathlib.Core.Path.{◌∙◌, ◌≡◌, refl}
use mathlib.Core.Bool.{Bool, true, false}
use mathlib.Core.List.{List, [], ◌∷◌}
use mathlib.Core.Logic.{◌↔◌, inl, inr}
use mathlib.Core.Option.{Option, none, some}
use native.Mathlib.Omega.{arith}
use iban_pizza.Prelude.Tests.{if◌then◌else◌, Bool-cases}
use iban_pizza.Prelude.Text.{Bytes, bytes_eq, bytes_eq_iff}

pub record Eq {ℓ} (K : Type ℓ) : Type ℓ where
  pub eqb : K → K → Bool
  pub eqb_iff : (a b : K) → (eqb a b ≡ true) ↔ (a ≡ b)

instance abbrev pub bytes_key : Eq Bytes
bytes_key = record { eqb = bytes_eq; eqb_iff = bytes_eq_iff }

module _ {ℓ κ} {K : Type ℓ} {V : Type κ} ⦃e : Eq K⦄ where
  -- `m[k]`
  unfoldable pub get : K → List (K × V) → Option V
  get k [] = none
  get k ((j, v) ∷ m) = if e.eqb j k then some v else get k m

  -- `m[k] = v`
  unfoldable pub put : K → V → List (K × V) → List (K × V)
  put k v [] = (k, v) ∷ []
  put k v ((j, w) ∷ m) = if e.eqb j k then (k, v) ∷ m else (j, w) ∷ put k v m

  -- the loop that deletes the entries whose value passes a test
  unfoldable pub delete_where : (V → Bool) → List (K × V) → List (K × V)
  delete_where p [] = []
  delete_where p ((j, w) ∷ m) = let rest = delete_where p m in if p w then rest else (j, w) ∷ rest

  -- No key stands in the list twice.
  abbrev pub Distinct : List (K × V) → Type κ
  Distinct [] = Unit
  Distinct ((j, w) ∷ m) = (get j m ≡ none) × Distinct m

  pub get-put :
      (k j : K) (v : V) (m : List (K × V))
      → get j (put k v m) ≡ (if e.eqb k j then some v else get j m)
  unfolding get put
  get-put k j v [] = refl
  get-put k j v ((i, w) ∷ m) =
      ground (arith, e.eqb_iff k j, e.eqb_iff i k, e.eqb_iff i j, get-put k j v m)

  absent_put :
      (k i : K) (v : V) (m : List (K × V))
      → e.eqb i k ≡ false
      → get i m ≡ none
      → get i (put k v m) ≡ none
  absent_put k i v m other absent = ground (arith, get-put k i v m, e.eqb_iff i k, e.eqb_iff k i)

  pub put-Distinct : (k : K) (v : V) (m : List (K × V)) → Distinct m → Distinct (put k v m)
  unfolding put get
  put-Distinct k v [] d = (refl, tt)
  put-Distinct k v ((i, w) ∷ m) d = elim (Bool-cases (e.eqb i k)) [
    | inl same ↦ rw same (rw (← (e.eqb_iff i k).0 same) d.0, d.1)
    | inr other ↦ rw other (absent_put k i v m other d.0, put-Distinct k v m d.1)
  ]

  pub get-delete_where :
      (p : V → Bool) (k : K) (m : List (K × V))
      → Distinct m
      → get k (delete_where p m)
        ≡ (elim (get k m) [ none ↦ none | some v ↦ if p v then none else some v ])
  unfolding get delete_where
  get-delete_where p k [] d = refl
  get-delete_where p k ((i, w) ∷ m) d = elim (Bool-cases (e.eqb i k)) [
    | inl same ↦
        let absent : get k m ≡ none = rw (← (e.eqb_iff i k).0 same) d.0 in
        ground (arith, get-delete_where p k m d.1, absent, same)
    | inr other ↦ ground (arith, get-delete_where p k m d.1, other)
  ]

  pub delete_where-Distinct :
      (p : V → Bool) (m : List (K × V)) → Distinct m → Distinct (delete_where p m)
  unfolding delete_where
  delete_where-Distinct p [] d = tt
  delete_where-Distinct p ((i, w) ∷ m) d = elim (Bool-cases (p w)) [
    | inl gone ↦ rw gone (delete_where-Distinct p m d.1)
    | inr kept ↦ rw kept (get-delete_where p i m d.1 ∙ rw (d.0), delete_where-Distinct p m d.1)
  ]
