-- ===== src/Prelude/Sort.antt =====
-- `sort.Slice` as insertion sort. Where no two elements are equal under the order, every sort
-- returns the same list.

use mathlib.Core.Path.{◌≡◌}
use mathlib.Core.Bool.{Bool, true, false}
use mathlib.Core.List.{List, [], ◌∷◌, Perm}
use mathlib.Core.List.Perm
use mathlib.Core.Logic.{inl, inr}
use iban_pizza.Prelude.Tests.{if◌then◌else◌, Bool-cases}

module _ {ℓ} {A : Type ℓ} (less : A → A → Bool) where
  unfoldable pub insert : A → List A → List A
  insert a [] = a ∷ []
  insert a (b ∷ l) = let rest = insert a l in if less b a then b ∷ rest else a ∷ b ∷ l

  unfoldable pub sort : List A → List A
  unfolding insert
  sort [] = []
  sort (a ∷ l) = insert a (sort l)

  -- No element is above the next.
  abbrev pub Sorted : List A → Type 0
  Sorted [] = Unit
  Sorted (a ∷ []) = Unit
  Sorted (a ∷ b ∷ l) = (less b a ≡ false) × Sorted (b ∷ l)

  insert-perm : (a : A) (l : List A) → Perm (insert a l) (a ∷ l)
  unfolding insert
  insert-perm a [] = Perm.refl (a ∷ [])
  insert-perm a (b ∷ l) = elim (Bool-cases (less b a)) [
    | inl after ↦ rw after (Perm.trans (Perm.cons b (insert-perm a l)) (Perm.swap a b l))
    | inr before ↦ rw before (Perm.refl (a ∷ b ∷ l))
  ]

  pub sort-perm : (l : List A) → Perm (sort l) l
  unfolding sort
  sort-perm [] = Perm.refl []
  sort-perm (a ∷ l) = Perm.trans (insert-perm a (sort l)) (Perm.cons a (sort-perm l))

  module _ (asym : (a b : A) → less a b ≡ true → less b a ≡ false) where
    insert-Sorted : (a : A) (l : List A) → Sorted l → Sorted (insert a l)
    unfolding insert
    insert-Sorted a [] s = tt
    insert-Sorted a (b ∷ []) s = elim (Bool-cases (less b a)) [
      | inl after ↦ rw after (asym b a after, tt)
      | inr before ↦ rw before (before, tt)
    ]
    insert-Sorted a (b ∷ c ∷ l) s = elim (Bool-cases (less b a)) [
      | inl after ↦
          let rest = insert-Sorted a (c ∷ l) s.1 in
          elim (Bool-cases (less c a)) [
            | inl further ↦ rw (after, further) (s.0, rw further at rest)
            | inr here ↦ rw (after, here) (asym b a after, (here, s.1))
          ]
      | inr before ↦ rw before (before, s)
    ]

    pub sort-Sorted : (l : List A) → Sorted (sort l)
    unfolding sort
    sort-Sorted [] = tt
    sort-Sorted (a ∷ l) = insert-Sorted a (sort l) (sort-Sorted l)
