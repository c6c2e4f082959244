-- ===== src/Prelude/Map.antt =====
-- `std::map` as an association list: `find`, `emplace`, `erase` and a change in place.
use mathlib.Core.Path.{◌≡◌, refl}
use mathlib.Core.Option.{Option, none, some}
use mathlib.Core.List.{List, [], ◌∷◌, map}
use native.Mathlib.Omega.{arith}
use arataga.Prelude.Tests.{if◌then◌else◌}
use arataga.Prelude.Eq.{Eq, ◌=?◌}

module _ {ℓ κ} {K : Type ℓ} {V : Type κ} ⦃e : Eq K⦄ where
  unfoldable pub lookup : K → List (K × V) → Option V
  lookup k [] = none
  lookup k ((j, v) ∷ m) = if j =? k then some v else lookup k m

  -- An element whose key is present is left as it is.
  unfoldable pub emplace : K → V → List (K × V) → List (K × V)
  emplace k v [] = (k, v) ∷ []
  emplace k v ((j, w) ∷ m) = if j =? k then (j, w) ∷ m else (j, w) ∷ emplace k v m

  unfoldable pub erase : K → List (K × V) → List (K × V)
  erase k [] = []
  erase k ((j, w) ∷ m) = let rest = erase k m in if j =? k then rest else (j, w) ∷ rest

  -- A change of the element that an iterator to `k` names.
  unfoldable pub update : K → (V → V) → List (K × V) → List (K × V)
  update k f [] = []
  update k f ((j, w) ∷ m) = if j =? k then (j, f w) ∷ m else (j, w) ∷ update k f m

  pub lookup-emplace :
      (k j : K) (v : V) (m : List (K × V))
      → lookup j (emplace k v m)
        ≡ elim (lookup j m) [ some w ↦ some w | none ↦ if k =? j then some v else none ]
  unfolding lookup emplace
  lookup-emplace k j v [] = ground arith
  lookup-emplace k j v ((i, w) ∷ m) =
      ground (arith, e.beq_iff k j, e.beq_iff i k, e.beq_iff i j, lookup-emplace k j v m)

  pub lookup-erase :
      (k j : K) (m : List (K × V)) → lookup j (erase k m) ≡ (if k =? j then none else lookup j m)
  unfolding lookup erase
  lookup-erase k j [] = ground arith
  lookup-erase k j ((i, w) ∷ m) =
      ground (arith, e.beq_iff k j, e.beq_iff i k, e.beq_iff i j, lookup-erase k j m)

  pub lookup-update :
      (k j : K) (f : V → V) (m : List (K × V))
      → lookup j (update k f m)
        ≡ elim (lookup j m) [ none ↦ none | some w ↦ some (if k =? j then f w else w) ]
  unfolding lookup update
  lookup-update k j f [] = refl
  lookup-update k j f ((i, w) ∷ m) =
      ground (arith, e.beq_iff k j, e.beq_iff i k, e.beq_iff i j, lookup-update k j f m)

  pub update-update :
      (k : K) (f g : V → V) (m : List (K × V))
      → update k f (update k g m) ≡ update k (λ v. f (g v)) m
  unfolding update
  update-update k f g [] = refl
  update-update k f g ((i, w) ∷ m) = ground (arith, update-update k f g m)

  -- Two changes that agree on the element at the key agree on the map.
  pub update_congr :
      (k : K) (f g : V → V) (v : V) (m : List (K × V))
      → lookup k m ≡ some v
      → f v ≡ g v
      → update k f m ≡ update k g m
  unfolding update lookup
  update_congr k f g v [] h e = refl
  update_congr k f g v ((i, w) ∷ m) h e = ground (arith, update_congr k f g v m)

  pub lookup-update_self :
      (k : K) (f : V → V) {v : V} (m : List (K × V))
      → lookup k m ≡ some v
      → lookup k (update k f m) ≡ some (f v)
  lookup-update_self k f m h = ground (arith, lookup-update k k f m, e.beq_iff k k)

  -- A change of every element, as a loop over the map makes it.
  pub lookup-map :
      (k : K) (f : V → V) (m : List (K × V))
      → lookup k (map (λ kv. (kv.0, f kv.1)) m)
        ≡ elim (lookup k m) [ none ↦ none | some v ↦ some (f v) ]
  unfolding lookup
  lookup-map k f [] = refl
  lookup-map k f ((i, w) ∷ m) = ground (arith, lookup-map k f m)

  pub lookup-emplace_absent :
      (k : K) (v : V) (m : List (K × V)) → lookup k m ≡ none → lookup k (emplace k v m) ≡ some v
  lookup-emplace_absent k v m h = ground (arith, lookup-emplace k k v m, e.beq_iff k k)

  pub lookup-map_absent :
      (k : K) (f : V → V) (m : List (K × V))
      → lookup k m ≡ none
      → lookup k (map (λ kv. (kv.0, f kv.1)) m) ≡ none
  lookup-map_absent k f m h = ground (arith, lookup-map k f m)

  pub lookup-map_found :
      (k : K) (f : V → V) {v : V} (m : List (K × V))
      → lookup k m ≡ some v
      → lookup k (map (λ kv. (kv.0, f kv.1)) m) ≡ some (f v)
  lookup-map_found k f m h = ground (arith, lookup-map k f m)
