-- ===== src/Prelude/Duplicates.antt =====
-- `std::sort` with `std::adjacent_find`: sorted, and without duplicates where none is found.
use mathlib.Core.Path.{◌≡◌, refl, sym, ◌∙◌}
use mathlib.Core.Logic.{inl, inr}
use mathlib.Core.Bool.{Bool, true, false, ◌||◌}
use mathlib.Core.Option.{none, some}
use mathlib.Core.List.{List, [], ◌∷◌}
use native.Mathlib.Omega.{arith}
use arataga.Prelude.Tests.{Bool-cases}
use arataga.Prelude.Order.{Order, ◌<?◌}
use arataga.Prelude.Sorted.{insert, sort, adjacent_find, has_key, IsSorted}
use arataga.Prelude.Sorting.{All-map_lem}
use arataga.Prelude.Sets.{has_key-below}

module _ {ℓ κ} {A : Type ℓ} {K : Type κ} ⦃o : Order K⦄ (key : A → K) where
  -- Two elements compare equal.
  abbrev pub has_duplicates : List A → Bool
  has_duplicates [] = false
  has_duplicates (x ∷ xs) = has_key key (key x) xs || has_duplicates xs

  has_key-insert :
      (k : K) (x : A) (xs : List A) → has_key key k (insert key x xs) ≡ has_key key k (x ∷ xs)
  has_key-insert k x [] = refl
  has_key-insert k x (y ∷ ys) = ground (arith, has_key-insert k x ys)

  has_duplicates-insert :
      (x : A) (xs : List A) → has_duplicates (insert key x xs) ≡ has_duplicates (x ∷ xs)
  has_duplicates-insert x [] = refl
  has_duplicates-insert x (y ∷ ys) =
      ground (arith, has_duplicates-insert x ys, has_key-insert (key y) x ys)

  has_key-sort : (k : K) (xs : List A) → has_key key k (sort key xs) ≡ has_key key k xs
  has_key-sort k [] = refl
  has_key-sort k (x ∷ xs) = has_key-insert k x (sort key xs) ∙ ground (arith, has_key-sort k xs)

  has_duplicates-sort : (xs : List A) → has_duplicates (sort key xs) ≡ has_duplicates xs
  has_duplicates-sort [] = refl
  has_duplicates-sort (x ∷ xs) =
      has_duplicates-insert x (sort key xs)
      ∙ ground (arith, has_duplicates-sort xs, has_key-sort (key x) xs)

  -- No element is below its predecessor.
  abbrev Ascending : List A → Type 0
  Ascending [] = Unit
  Ascending (x ∷ []) = Unit
  Ascending (x ∷ y ∷ ys) = ((key y <? key x) ≡ false) × Ascending (y ∷ ys)

  asym : (x y : A) → (key x <? key y) ≡ true → (key y <? key x) ≡ false
  asym x y h = ground (arith, o.trans (key x) (key y) (key x), o.irrefl (key x))

  insert-Ascending : (x : A) (xs : List A) → Ascending xs → Ascending (insert key x xs)
  insert-Ascending x [] h = tt
  insert-Ascending x (y ∷ []) h = elim (Bool-cases (key y <? key x)) [
    | inl e ↦ rw e (asym y x e, tt)
    | inr e ↦ rw e (e, tt)
  ]
  insert-Ascending x (y ∷ z ∷ zs) (p, h) = elim (Bool-cases (key y <? key x)) [
    | inr e ↦ rw e (e, (p, h))
    | inl e ↦
        let rest = insert-Ascending x (z ∷ zs) h in
        rw e (elim (Bool-cases (key z <? key x)) [
          | inl d ↦ rw d (p, rw d at rest)
          | inr d ↦ rw d (asym y x e, (d, h))
        ])
  ]

  sort-Ascending : (xs : List A) → Ascending (sort key xs)
  sort-Ascending [] = tt
  sort-Ascending (x ∷ xs) = insert-Ascending x (sort key xs) (sort-Ascending xs)

  unfound-IsSorted : (xs : List A) → Ascending xs → adjacent_find key xs ≡ none → IsSorted key xs
  unfound-IsSorted [] h e = tt
  unfound-IsSorted (x ∷ []) h e = (tt, tt)
  unfound-IsSorted (x ∷ y ∷ ys) (p, h) e =
      let d = unfound-IsSorted (y ∷ ys) h (ground arith) in
      let q : (key x <? key y) ≡ true = ground arith in
      ((q, All-map_lem _ _ (λ z. o.trans (key x) (key y) (key z) q) ys d.0), d)

  IsSorted-has_duplicates : (xs : List A) → IsSorted key xs → has_duplicates xs ≡ false
  IsSorted-has_duplicates [] s = refl
  IsSorted-has_duplicates (x ∷ xs) (b, s) =
      ground (arith, has_key-below key key (key x) xs b, IsSorted-has_duplicates xs s)

  found-has_duplicates :
      (xs : List A) (a : A) → adjacent_find key xs ≡ some a → has_duplicates xs ≡ true
  found-has_duplicates [] a e = ground arith
  found-has_duplicates (x ∷ []) a e = ground arith
  found-has_duplicates (x ∷ y ∷ ys) a e = ground (arith, found-has_duplicates (y ∷ ys) a)

  pub unique_sort :
      (xs : List A)
      → adjacent_find key (sort key xs) ≡ none
      → IsSorted key (sort key xs) × (has_duplicates xs ≡ false)
  unique_sort xs e =
      let s = unfound-IsSorted (sort key xs) (sort-Ascending xs) e in
      (s, sym (has_duplicates-sort xs) ∙ IsSorted-has_duplicates (sort key xs) s)

  pub doubled_sort :
      (xs : List A) (a : A) → adjacent_find key (sort key xs) ≡ some a → has_duplicates xs ≡ true
  doubled_sort xs a e = sym (has_duplicates-sort xs) ∙ found-has_duplicates (sort key xs) a e
