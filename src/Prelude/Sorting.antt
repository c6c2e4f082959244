-- ===== src/Prelude/Sorting.antt =====
-- What `sort` keeps: the number of elements of a kind, what holds of all elements, and which
-- element is found first under a key.
use Prim.Native.Nat.{ℕ, suc, ◌+◌}
use mathlib.Core.Path.{◌≡◌, refl, ap, ◌∙◌}
use mathlib.Core.Logic.{inl, inr}
use mathlib.Core.Bool.{Bool, true}
use mathlib.Core.List.{List, [], ◌∷◌, ◌++◌}
use native.Mathlib.Omega.{arith}
use arataga.Prelude.Tests.{if◌then◌else◌, Bool-cases}
use arataga.Prelude.Lists.{All, length}
use arataga.Prelude.Order.{Order, ◌<?◌}
use arataga.Prelude.Sorted.{insert, sort, find_key}

abbrev pub count_if {ℓ} : {A : Type ℓ} → (A → Bool) → List A → ℕ
count_if t [] = 0
count_if t (x ∷ xs) = (if t x then 1 else 0) + count_if t xs

module _ {ℓ} {A : Type ℓ} where
  pub count_if-append :
      (t : A → Bool) (xs ys : List A) → count_if t (xs ++ ys) ≡ count_if t xs + count_if t ys
  count_if-append t [] ys = omega arith
  count_if-append t (x ∷ xs) ys = omega (arith, count_if-append t xs ys)

  pub All-append {κ} : (P : A → Type κ) (xs ys : List A) → All P xs → All P ys → All P (xs ++ ys)
  All-append P [] ys h k = k
  All-append P (x ∷ xs) ys (p, h) k = (p, All-append P xs ys h k)

  pub All-map_lem {κ} :
      (P : A → Type κ) (Q : A → Type κ)
      → ((x : A) → P x → Q x)
      → (xs : List A) → All P xs
      → All Q xs
  All-map_lem P Q f [] h = h
  All-map_lem P Q f (x ∷ xs) (p, h) = (f x p, All-map_lem P Q f xs h)

module _ {ℓ κ} {A : Type ℓ} {K : Type κ} ⦃o : Order K⦄ (key : A → K) where
  count_if-insert :
      (t : A → Bool) (x : A) (xs : List A) → count_if t (insert key x xs) ≡ count_if t (x ∷ xs)
  count_if-insert t x [] = refl
  count_if-insert t x (y ∷ ys) = ground (arith, count_if-insert t x ys)

  pub count_if-sort : (t : A → Bool) (xs : List A) → count_if t (sort key xs) ≡ count_if t xs
  count_if-sort t [] = refl
  count_if-sort t (x ∷ xs) = omega (arith, count_if-insert t x (sort key xs), count_if-sort t xs)

  length-insert : (x : A) (xs : List A) → length (insert key x xs) ≡ suc (length xs)
  length-insert x [] = refl
  length-insert x (y ∷ ys) = ground (arith, length-insert x ys)

  pub length-sort : (xs : List A) → length (sort key xs) ≡ length xs
  length-sort [] = refl
  length-sort (x ∷ xs) = length-insert x (sort key xs) ∙ ap suc (length-sort xs)

  All-insert {μ} : (P : A → Type μ) (x : A) (xs : List A) → P x → All P xs → All P (insert key x xs)
  All-insert P x [] p h = (p, h)
  All-insert P x (y ∷ ys) p (q, h) = elim (Bool-cases (key y <? key x)) [
    | inl e ↦ rw e (q, All-insert P x ys p h)
    | inr e ↦ rw e (p, (q, h))
  ]

  pub All-sort {μ} : (P : A → Type μ) (xs : List A) → All P xs → All P (sort key xs)
  All-sort P [] h = h
  All-sort P (x ∷ xs) (p, h) = All-insert P x (sort key xs) p (All-sort P xs h)

  find_key-insert :
      (k : K) (x : A) (xs : List A) → find_key key k (insert key x xs) ≡ find_key key k (x ∷ xs)
  find_key-insert k x [] = refl
  find_key-insert k x (y ∷ ys) =
      ground
        (arith, find_key-insert k x ys, o.connected (key x) k, o.connected (key y) k, o.irrefl k)

  pub find_key-sort : (k : K) (xs : List A) → find_key key k (sort key xs) ≡ find_key key k xs
  find_key-sort k [] = refl
  find_key-sort k (x ∷ xs) = find_key-insert k x (sort key xs) ∙ ground (arith, find_key-sort k xs)

  -- Two insertions in either order, where the keys differ.
  insert-insert :
      (x y : A) (xs : List A)
      → (key x <? key y) ≡ true
      → insert key y (insert key x xs) ≡ insert key x (insert key y xs)
  insert-insert x y [] h = ground (arith, o.trans (key x) (key y) (key x), o.irrefl (key x))
  insert-insert x y (z ∷ zs) h = ground (
    arith,
    insert-insert x y zs,
    o.trans (key x) (key y) (key x),
    o.irrefl (key x),
    o.trans (key z) (key x) (key y),
  )

  -- An element below all others comes first.
  pub insert_least :
      (x : A) (xs : List A) → All (λ y. (key x <? key y) ≡ true) xs → insert key x xs ≡ x ∷ xs
  insert_least x [] h = refl
  insert_least x (y ∷ ys) h = ground (arith, o.trans (key x) (key y) (key x), o.irrefl (key x))

  pub sort_least_middle :
      (x : A) (xs ys : List A)
      → All (λ y. (key x <? key y) ≡ true) xs
      → sort key (xs ++ (x ∷ ys)) ≡ insert key x (sort key (xs ++ ys))
  sort_least_middle x [] ys h = refl
  sort_least_middle x (z ∷ zs) ys (p, h) =
      ap (insert key z) (sort_least_middle x zs ys h) ∙ insert-insert x z (sort key (zs ++ ys)) p

  pub sort_least :
      (x : A) (xs ys : List A)
      → sort key xs ≡ ys
      → All (λ y. (key x <? key y) ≡ true) ys
      → sort key (x ∷ xs) ≡ x ∷ ys
  sort_least x xs ys e h = ap (insert key x) e ∙ insert_least x ys h
