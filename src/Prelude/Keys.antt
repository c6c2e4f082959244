-- ===== src/Prelude/Keys.antt =====
-- The keys of an association list, each once.
use Prim.Native.Nat.{ℕ, ◌+◌}
use mathlib.Core.Path.{◌≡◌, refl}
use mathlib.Core.Option.{none, some}
use mathlib.Core.List.{List, [], ◌∷◌, ◌++◌, map}
use native.Mathlib.Omega.{arith}
use arataga.Prelude.Tests.{if◌then◌else◌}
use arataga.Prelude.Eq.{Eq, ◌=?◌}
use arataga.Prelude.Map.{
  lookup, emplace, erase, update, lookup-erase, lookup-emplace, lookup-update,
}

module _ {ℓ κ} {K : Type ℓ} {V : Type κ} where
  abbrev pub keys : List (K × V) → List K
  keys m = map (λ kv. kv.0) m

  -- The sum of a measure over the elements.
  abbrev pub total : (V → ℕ) → List (K × V) → ℕ
  total f [] = 0
  total f ((k, v) ∷ m) = f v + total f m

abbrev pub without {ℓ} : {K : Type ℓ} ⦃e : Eq K⦄ → K → List K → List K
without k [] = []
without k (j ∷ ks) = let rest = without k ks in if j =? k then rest else j ∷ rest

module _ {ℓ κ} {K : Type ℓ} {V : Type κ} ⦃e : Eq K⦄ where
  abbrev pub Unique : List (K × V) → Type κ
  Unique [] = Unit
  Unique ((k, v) ∷ m) = (lookup k m ≡ none) × Unique m

  pub keys-emplace :
      (k : K) (v : V) (m : List (K × V))
      → lookup k m ≡ none
      → keys (emplace k v m) ≡ keys m ++ (k ∷ [])
  unfolding lookup emplace
  keys-emplace k v [] h = refl
  keys-emplace k v ((j, w) ∷ m) h = ground (arith, keys-emplace k v m)

  pub keys-update : (k : K) (f : V → V) (m : List (K × V)) → keys (update k f m) ≡ keys m
  unfolding update
  keys-update k f [] = refl
  keys-update k f ((j, w) ∷ m) = ground (arith, keys-update k f m)

  pub keys-erase : (k : K) (m : List (K × V)) → keys (erase k m) ≡ without k (keys m)
  unfolding erase
  keys-erase k [] = refl
  keys-erase k ((j, w) ∷ m) = ground (arith, keys-erase k m)

  pub emplace-Unique : (k : K) (v : V) (m : List (K × V)) → Unique m → Unique (emplace k v m)
  unfolding emplace lookup
  emplace-Unique k v [] u = ground arith
  emplace-Unique k v ((j, w) ∷ m) u =
      ground (arith, lookup-emplace k j v m, e.beq_iff j k, e.beq_iff k j, emplace-Unique k v m)

  pub update-Unique : (k : K) (f : V → V) (m : List (K × V)) → Unique m → Unique (update k f m)
  unfolding update
  update-Unique k f [] u = u
  update-Unique k f ((j, w) ∷ m) u = ground (arith, lookup-update k j f m, update-Unique k f m)

  pub erase-Unique : (k : K) (m : List (K × V)) → Unique m → Unique (erase k m)
  unfolding erase
  erase-Unique k [] u = u
  erase-Unique k ((j, w) ∷ m) u = ground (arith, lookup-erase k j m, erase-Unique k m)

  pub total-emplace :
      (f : V → ℕ) (k : K) (v : V) (m : List (K × V))
      → lookup k m ≡ none
      → total f (emplace k v m) ≡ total f m + f v
  unfolding emplace lookup
  total-emplace f k v [] h = omega arith
  total-emplace f k v ((j, w) ∷ m) h = ground (arith, total-emplace f k v m)

  pub total-update :
      (f : V → ℕ) (k : K) (g : V → V) (v : V) (m : List (K × V))
      → lookup k m ≡ some v
      → total f (update k g m) + f v ≡ total f m + f (g v)
  unfolding update lookup
  total-update f k g v [] h = absurd (ground arith)
  total-update f k g v ((j, w) ∷ m) h = ground (arith, total-update f k g v m)

  total-erase_absent :
      (f : V → ℕ) (k : K) (m : List (K × V)) → lookup k m ≡ none → total f (erase k m) ≡ total f m
  unfolding erase lookup
  total-erase_absent f k [] h = refl
  total-erase_absent f k ((j, w) ∷ m) h = ground (arith, total-erase_absent f k m)

  pub total-erase :
      (f : V → ℕ) (k : K) (v : V) (m : List (K × V))
      → Unique m
      → lookup k m ≡ some v
      → total f m ≡ total f (erase k m) + f v
  unfolding erase lookup
  total-erase f k v [] u h = absurd (ground arith)
  total-erase f k v ((j, w) ∷ m) u h =
      ground (arith, total-erase f k v m, total-erase_absent f j m, e.beq_iff j k)

  pub without-keys_absent :
      (k : K) (m : List (K × V)) → lookup k m ≡ none → without k (keys m) ≡ keys m
  unfolding lookup
  without-keys_absent k [] h = refl
  without-keys_absent k ((j, w) ∷ m) h = ground (arith, without-keys_absent k m)
