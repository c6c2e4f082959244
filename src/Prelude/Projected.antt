-- ===== src/Prelude/Projected.antt =====
-- Sorting and the operations on sorted ranges, where the elements are compared by a part of them.
use mathlib.Core.Path.{◌≡◌, refl, ap, ◌∙◌}
use mathlib.Core.Bool.{true}
use mathlib.Core.List.{List, [], ◌∷◌, map}
use native.Mathlib.Omega.{arith}
use arataga.Prelude.Lists.{All}
use arataga.Prelude.Order.{Order, ◌<?◌}
use arataga.Prelude.Sorted.{insert, sort, IsSorted, set_difference, set_intersection}

module _ {ℓ κ μ} {A : Type ℓ} {B : Type κ} {K : Type μ} ⦃o : Order K⦄ (part : A → B)
    (key : B → K) where
  map-insert :
      (x : A) (xs : List A)
      → map part (insert (λ y. key (part y)) x xs) ≡ insert key (part x) (map part xs)
  map-insert x [] = refl
  map-insert x (y ∷ ys) = ground (arith, map-insert x ys)

  pub map-sort : (xs : List A) → map part (sort (λ y. key (part y)) xs) ≡ sort key (map part xs)
  map-sort [] = refl
  map-sort (x ∷ xs) =
      map-insert x (sort (λ y. key (part y)) xs) ∙ ap (insert key (part x)) (map-sort xs)

  All-map :
      (k : K) (xs : List A)
      → All (λ y. (k <? key y) ≡ true) (map part xs)
      → All (λ x. (k <? key (part x)) ≡ true) xs
  All-map k [] h = tt
  All-map k (x ∷ xs) (p, h) = (p, All-map k xs h)

  pub IsSorted-map : (xs : List A) → IsSorted key (map part xs) → IsSorted (λ x. key (part x)) xs
  IsSorted-map [] s = tt
  IsSorted-map (x ∷ xs) (b, s) = (All-map (key (part x)) xs b, IsSorted-map xs s)

module _ {ℓ κ μ} {A : Type ℓ} {B : Type κ} {K : Type μ} ⦃o : Order K⦄ (part : A → B)
    (key : B → K) where
  pub map-set_intersection :
      (xs : List A) (ys : List B)
      → map part (set_intersection (λ x. key (part x)) key xs ys)
        ≡ set_intersection key key (map part xs) ys
  map-set_intersection [] [] = refl
  map-set_intersection [] (y ∷ ys) = refl
  map-set_intersection (x ∷ xs) [] = refl
  map-set_intersection (x ∷ xs) (y ∷ ys) = ground (
    arith,
    map-set_intersection xs (y ∷ ys),
    map-set_intersection (x ∷ xs) ys,
    map-set_intersection xs ys,
  )

  pub set_difference-map :
      (ys : List B) (xs : List A)
      → set_difference key (λ x. key (part x)) ys xs ≡ set_difference key key ys (map part xs)
  set_difference-map [] [] = refl
  set_difference-map [] (x ∷ xs) = refl
  set_difference-map (y ∷ ys) [] = refl
  set_difference-map (y ∷ ys) (x ∷ xs) = ground (
    arith,
    set_difference-map ys (x ∷ xs),
    set_difference-map (y ∷ ys) xs,
    set_difference-map ys xs,
  )
