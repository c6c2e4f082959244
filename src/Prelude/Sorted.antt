-- ===== src/Prelude/Sorted.antt =====
-- What `std::sort`, `std::adjacent_find`, `std::set_difference`, `std::set_intersection` and
-- `std::find_if` do, and how they meet on sorted ranges. Keys are compared; elements carry them.
use mathlib.Core.Path.{◌≡◌}
use mathlib.Core.Bool.{Bool, true, false, ◌&&◌, ◌||◌, not}
use mathlib.Core.Option.{Option, none, some}
use mathlib.Core.List.{List, [], ◌∷◌}
use arataga.Prelude.Tests.{if◌then◌else◌}
use arataga.Prelude.Lists.{All}
use arataga.Prelude.Order.{Order, ◌<?◌}

-- Neither is before the other.
abbrev pub same {ℓ} : {K : Type ℓ} ⦃o : Order K⦄ → K → K → Bool
same k j = not (k <? j) && not (j <? k)

module _ {ℓ κ} {A : Type ℓ} {K : Type κ} ⦃o : Order K⦄ where
  abbrev pub insert : (A → K) → A → List A → List A
  insert key x [] = x ∷ []
  insert key x (y ∷ ys) =
      let rest = insert key x ys in if key y <? key x then y ∷ rest else x ∷ y ∷ ys

  -- `std::sort`
  abbrev pub sort : (A → K) → List A → List A
  sort key [] = []
  sort key (x ∷ xs) = insert key x (sort key xs)

  -- `std::adjacent_find`
  abbrev pub adjacent_find : (A → K) → List A → Option A
  adjacent_find key [] = none
  adjacent_find key (x ∷ []) = none
  adjacent_find key (x ∷ y ∷ ys) =
      let rest = adjacent_find key (y ∷ ys) in if same (key x) (key y) then some x else rest

  -- `std::find_if`
  abbrev pub find_key : (A → K) → K → List A → Option A
  find_key key k [] = none
  find_key key k (x ∷ xs) = let rest = find_key key k xs in if same (key x) k then some x else rest

  abbrev pub has_key : (A → K) → K → List A → Bool
  has_key key k [] = false
  has_key key k (x ∷ xs) = same (key x) k || has_key key k xs

  -- Sorted, without two elements that compare equal.
  abbrev pub IsSorted : (A → K) → List A → Type 0
  IsSorted key [] = Unit
  IsSorted key (x ∷ xs) = All (λ y. (key x <? key y) ≡ true) xs × IsSorted key xs

abbrev pub filter {ℓ} : {A : Type ℓ} → (A → Bool) → List A → List A
filter t [] = []
filter t (x ∷ xs) = let rest = filter t xs in if t x then x ∷ rest else rest

module _ {ℓ κ μ} {A : Type ℓ} {B : Type κ} {K : Type μ} ⦃o : Order K⦄ where
  abbrev pub set_difference : (A → K) → (B → K) → List A → List B → List A
  set_difference f g (x ∷ xs) (y ∷ ys) = elim (f x <? g y) [
    | true ↦ x ∷ set_difference f g xs (y ∷ ys)
    | false ↦ elim (g y <? f x) [
      | true ↦ set_difference f g (x ∷ xs) ys
      | false ↦ set_difference f g xs ys
    ]
  ]
  set_difference f g xs ys = xs

  abbrev pub set_intersection : (A → K) → (B → K) → List A → List B → List A
  set_intersection f g (x ∷ xs) (y ∷ ys) = elim (f x <? g y) [
    | true ↦ set_intersection f g xs (y ∷ ys)
    | false ↦ elim (g y <? f x) [
      | true ↦ set_intersection f g (x ∷ xs) ys
      | false ↦ x ∷ set_intersection f g xs ys
    ]
  ]
  set_intersection f g xs ys = []
