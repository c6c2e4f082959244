-- ===== src/Prelude/Sets.antt =====
-- `set_difference` and `set_intersection`: they part their first range, on sorted ranges they
-- filter it, and together they make up a sorted second range.
use Prim.Native.Nat.{◌+◌}
use mathlib.Core.Path.{◌≡◌, refl, ap, sym, subst, ◌∙◌}
use mathlib.Core.Logic.{◌⊎◌, inl, inr}
use mathlib.Core.Bool.{Bool, true, false, not}
use mathlib.Core.List.{List, [], ◌∷◌, ◌++◌}
use native.Mathlib.Omega.{arith}
use arataga.Prelude.Tests.{Bool-cases}
use arataga.Prelude.Lists.{All, length}
use arataga.Prelude.Order.{Order, ◌<?◌}
use arataga.Prelude.Sorted.{
  insert, sort, has_key, IsSorted, filter, set_difference, set_intersection,
}
use arataga.Prelude.Sorting.{count_if, All-map_lem, insert_least, sort_least, sort_least_middle}

module _ {ℓ κ μ} {A : Type ℓ} {B : Type κ} {K : Type μ} ⦃o : Order K⦄ (f : A → K) (g : B → K) where
  pub count_if-parts :
      (t : A → Bool) (xs : List A) (ys : List B)
      → count_if t (set_difference f g xs ys) + count_if t (set_intersection f g xs ys)
        ≡ count_if t xs
  count_if-parts t [] [] = refl
  count_if-parts t [] (y ∷ ys) = refl
  count_if-parts t (x ∷ xs) [] = omega arith
  count_if-parts t (x ∷ xs) (y ∷ ys) =
      ground
        (arith, count_if-parts t xs (y ∷ ys), count_if-parts t (x ∷ xs) ys, count_if-parts t xs ys)

  pub length-parts :
      (xs : List A) (ys : List B)
      → length (set_difference f g xs ys) + length (set_intersection f g xs ys) ≡ length xs
  length-parts [] [] = refl
  length-parts [] (y ∷ ys) = refl
  length-parts (x ∷ xs) [] = omega arith
  length-parts (x ∷ xs) (y ∷ ys) =
      ground (arith, length-parts xs (y ∷ ys), length-parts (x ∷ xs) ys, length-parts xs ys)

  -- The rounds of the two loops, by the comparisons.
  module _ (x : A) (xs : List A) (y : B) (ys : List B) where
    difference_first :
        (f x <? g y) ≡ true
        → set_difference f g (x ∷ xs) (y ∷ ys) ≡ x ∷ set_difference f g xs (y ∷ ys)
    difference_first e = ground arith

    difference_second :
        (f x <? g y) ≡ false
        → (g y <? f x) ≡ true
        → set_difference f g (x ∷ xs) (y ∷ ys) ≡ set_difference f g (x ∷ xs) ys
    difference_second e d = ground arith

    difference_both :
        (f x <? g y) ≡ false
        → (g y <? f x) ≡ false
        → set_difference f g (x ∷ xs) (y ∷ ys) ≡ set_difference f g xs ys
    difference_both e d = ground arith

    intersection_first :
        (f x <? g y) ≡ true
        → set_intersection f g (x ∷ xs) (y ∷ ys) ≡ set_intersection f g xs (y ∷ ys)
    intersection_first e = ground arith

    intersection_second :
        (f x <? g y) ≡ false
        → (g y <? f x) ≡ true
        → set_intersection f g (x ∷ xs) (y ∷ ys) ≡ set_intersection f g (x ∷ xs) ys
    intersection_second e d = ground arith

    intersection_both :
        (f x <? g y) ≡ false
        → (g y <? f x) ≡ false
        → set_intersection f g (x ∷ xs) (y ∷ ys) ≡ x ∷ set_intersection f g xs ys
    intersection_both e d = ground arith

    -- To split on the comparisons of a round.
    rounds :
        ((f x <? g y) ≡ true)
        ⊎ (((f x <? g y) ≡ false) × ((g y <? f x) ≡ true))
        ⊎ (((f x <? g y) ≡ false) × ((g y <? f x) ≡ false))
    rounds = elim (Bool-cases (f x <? g y)) [
      | inl e ↦ inl e
      | inr e ↦ elim (Bool-cases (g y <? f x)) [
        | inl d ↦ inr (inl (e, d))
        | inr d ↦ inr (inr (e, d))
      ]
    ]

  pub All-set_intersection {ν} :
      (P : A → Type ν) (xs : List A) (ys : List B) → All P xs → All P (set_intersection f g xs ys)
  All-set_intersection P [] [] h = tt
  All-set_intersection P [] (y ∷ ys) h = tt
  All-set_intersection P (x ∷ xs) [] h = tt
  All-set_intersection P (x ∷ xs) (y ∷ ys) (p, h) = elim (rounds x xs y ys) [
    | inl e ↦
        subst (All P) (sym (intersection_first x xs y ys e)) (All-set_intersection P xs (y ∷ ys) h)
    | inr (inl (e, d)) ↦
        subst (All P) (sym (intersection_second x xs y ys e d))
          (All-set_intersection P (x ∷ xs) ys (p, h))
    | inr (inr (e, d)) ↦
        subst (All P) (sym (intersection_both x xs y ys e d)) (p, All-set_intersection P xs ys h)
  ]

  -- A key below all keys of a range is none of them.
  pub has_key-below :
      (k : K) (ys : List B) → All (λ y. (k <? g y) ≡ true) ys → has_key g k ys ≡ false
  has_key-below k [] h = refl
  has_key-below k (y ∷ ys) h = ground (arith, has_key-below k ys)

  below_trans :
      (k : K) (y : B) (ys : List B)
      → (k <? g y) ≡ true
      → All (λ z. (g y <? g z) ≡ true) ys
      → All (λ z. (k <? g z) ≡ true) ys
  below_trans k y ys h = All-map_lem _ _ (λ z. o.trans k (g y) (g z) h) ys

  -- Which elements of the first range the second has.
  abbrev pub shared : List B → A → Bool
  shared ys x = has_key g (f x) ys

  -- An element below the first range is not missed in the second.
  filter_above :
      (t : Bool → Bool) (y : B) (xs : List A) (ys : List B)
      → All (λ x. (g y <? f x) ≡ true) xs
      → filter (λ x. t (shared (y ∷ ys) x)) xs ≡ filter (λ x. t (shared ys x)) xs
  filter_above t y [] ys h = refl
  filter_above t y (x ∷ xs) ys (p, h) = ground (arith, filter_above t y xs ys h)

  above_trans :
      (y : B) (x : A) (xs : List A)
      → (g y <? f x) ≡ true
      → All (λ z. (f x <? f z) ≡ true) xs
      → All (λ z. (g y <? f z) ≡ true) xs
  above_trans y x xs h = All-map_lem _ _ (λ z. o.trans (g y) (f x) (f z) h) xs

  keep_all : (xs : List A) → xs ≡ filter (λ x. not (shared [] x)) xs
  keep_all [] = refl
  keep_all (x ∷ xs) = ap (λ l. x ∷ l) (keep_all xs)

  drop_all : (xs : List A) → [] ≡ filter (shared []) xs
  drop_all [] = refl
  drop_all (x ∷ xs) = drop_all xs

  equal_above :
      (y : B) (x : A) (xs : List A)
      → f x ≡ g y
      → All (λ z. (f x <? f z) ≡ true) xs
      → All (λ z. (g y <? f z) ≡ true) xs
  equal_above y x xs e h = subst (λ k. All (λ z. (k <? f z) ≡ true) xs) e h

  pub set_difference-filter :
      (xs : List A) (ys : List B)
      → IsSorted f xs
      → IsSorted g ys
      → set_difference f g xs ys ≡ filter (λ x. not (shared ys x)) xs
  set_difference-filter [] [] s r = refl
  set_difference-filter [] (y ∷ ys) s r = refl
  set_difference-filter (x ∷ xs) [] (b, s) r = ap (λ l. x ∷ l) (keep_all xs)
  set_difference-filter (x ∷ xs) (y ∷ ys) (b, s) (c, r) = elim (rounds x xs y ys) [
    | inl e ↦
        difference_first x xs y ys e
        ∙ ground (
          arith,
          set_difference-filter xs (y ∷ ys) s (c, r),
          has_key-below (f x) ys (below_trans (f x) y ys e c),
        )
    | inr (inl (e, d)) ↦
        difference_second x xs y ys e d
        ∙ set_difference-filter (x ∷ xs) ys (b, s) r
        ∙ sym (filter_above not y (x ∷ xs) ys (d, above_trans y x xs d b))
    | inr (inr (e, d)) ↦
        difference_both x xs y ys e d
        ∙ set_difference-filter xs ys s r
        ∙ sym (filter_above not y xs ys (equal_above y x xs (o.connected (f x) (g y) e d) b))
        ∙ ground arith
  ]

  pub set_intersection-filter :
      (xs : List A) (ys : List B)
      → IsSorted f xs
      → IsSorted g ys
      → set_intersection f g xs ys ≡ filter (shared ys) xs
  set_intersection-filter [] [] s r = refl
  set_intersection-filter [] (y ∷ ys) s r = refl
  set_intersection-filter (x ∷ xs) [] (b, s) r = drop_all xs
  set_intersection-filter (x ∷ xs) (y ∷ ys) (b, s) (c, r) = elim (rounds x xs y ys) [
    | inl e ↦
        intersection_first x xs y ys e
        ∙ ground (
          arith,
          set_intersection-filter xs (y ∷ ys) s (c, r),
          has_key-below (f x) ys (below_trans (f x) y ys e c),
        )
    | inr (inl (e, d)) ↦
        intersection_second x xs y ys e d
        ∙ set_intersection-filter (x ∷ xs) ys (b, s) r
        ∙ sym (filter_above (λ t. t) y (x ∷ xs) ys (d, above_trans y x xs d b))
    | inr (inr (e, d)) ↦
        intersection_both x xs y ys e d
        ∙ ap (λ l. x ∷ l)
            (set_intersection-filter xs ys s r
              ∙ sym (
                  filter_above (λ t. t) y xs ys
                    (equal_above y x xs (o.connected (f x) (g y) e d) b)))
        ∙ ground arith
  ]

-- A range with some of its elements left out.
data Part {ℓ} {A : Type ℓ} : List A → List A → Type ℓ where
  over : Part [] []
  kept : {x : A} {xs ys : List A} → Part xs ys → Part (x ∷ xs) (x ∷ ys)
  left : {x : A} {xs ys : List A} → Part xs ys → Part xs (x ∷ ys)

module _ {ℓ} {A : Type ℓ} where
  Part-none : (ys : List A) → Part [] ys
  Part-none [] = Part.over
  Part-none (y ∷ ys) = Part.left (Part-none ys)

  All-Part {κ} : (P : A → Type κ) {xs ys : List A} → Part xs ys → All P ys → All P xs
  All-Part P Part.over h = tt
  All-Part P (Part.kept d) (p, h) = (p, All-Part P d h)
  All-Part P (Part.left d) (p, h) = All-Part P d h

module _ {ℓ κ} {A : Type ℓ} {K : Type κ} {J : Type κ} ⦃o : Order K⦄ ⦃p : Order J⦄ (f : A → K)
    (by : A → J) where
  set_intersection-Part :
      ((x y : A) → f x ≡ f y → x ≡ y) → (xs ys : List A) → Part (set_intersection f f xs ys) ys
  set_intersection-Part inj [] [] = Part.over
  set_intersection-Part inj [] (y ∷ ys) = Part-none (y ∷ ys)
  set_intersection-Part inj (x ∷ xs) [] = Part.over
  set_intersection-Part inj (x ∷ xs) (y ∷ ys) = elim (rounds f f x xs y ys) [
    | inl e ↦
        subst (λ l. Part l (y ∷ ys)) (sym (intersection_first f f x xs y ys e))
          (set_intersection-Part inj xs (y ∷ ys))
    | inr (inl (e, d)) ↦
        subst (λ l. Part l (y ∷ ys)) (sym (intersection_second f f x xs y ys e d))
          (Part.left (set_intersection-Part inj (x ∷ xs) ys))
    | inr (inr (e, d)) ↦
        subst (λ l. Part l (y ∷ ys)) (sym (intersection_both f f x xs y ys e d))
          (subst (λ z. Part (z ∷ set_intersection f f xs ys) (y ∷ ys))
            (sym (inj x y (o.connected (f x) (f y) e d)))
            (Part.kept (set_intersection-Part inj xs ys)))
  ]

  difference_below :
      (y : A) (ys xs : List A)
      → All (λ z. (f y <? f z) ≡ true) xs
      → set_difference f f (y ∷ ys) xs ≡ y ∷ set_difference f f ys xs
  difference_below y [] [] h = refl
  difference_below y (z ∷ ys) [] h = refl
  difference_below y ys (x ∷ xs) (q, h) = difference_first f f y ys x xs q

  sort-Part :
      ((x y : A) → (by x <? by y) ≡ true → (f x <? f y) ≡ true)
      → {xs ys : List A} → Part xs ys
      → IsSorted by ys
      → sort by (xs ++ set_difference f f ys xs) ≡ ys
  sort-Part mono Part.over s = refl
  sort-Part mono (Part.kept {x = x} {xs = xs} {ys = ys} d) (b, s) =
      ap (λ l. sort by (x ∷ (xs ++ l)))
        (difference_both f f x ys x xs (o.irrefl (f x)) (o.irrefl (f x)))
      ∙ sort_least by x (xs ++ set_difference f f ys xs) ys (sort-Part mono d s) b
  sort-Part mono (Part.left {x = y} {xs = xs} {ys = ys} d) (b, s) =
      let above = All-Part (λ z. (by y <? by z) ≡ true) d b in
      ap (λ l. sort by (xs ++ l))
        (difference_below y ys xs (All-map_lem _ _ (λ z. mono y z) xs above))
      ∙ sort_least_middle by y xs (set_difference f f ys xs) above
      ∙ ap (insert by y) (sort-Part mono d s)
      ∙ insert_least by y ys b

  -- With the elements of a sorted range that another has, those that it lacks make it up again.
  pub sort-parts :
      ((x y : A) → (by x <? by y) ≡ true → (f x <? f y) ≡ true)
      → ((x y : A) → f x ≡ f y → x ≡ y)
      → (xs ys : List A) → IsSorted by ys
      → sort by (set_intersection f f xs ys ++ set_difference f f ys (set_intersection f f xs ys))
        ≡ ys
  sort-parts mono inj xs ys s = sort-Part mono (set_intersection-Part inj xs ys) s
