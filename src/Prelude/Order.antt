-- ===== src/Prelude/Order.antt =====
-- Strict total orders as an interface, with the instances for numbers and tuples.
use Prim.Native.Nat.{ℕ}
use mathlib.Core.Path.{◌≡◌}
use mathlib.Core.Bool.{Bool, true, false, ◌&&◌, ◌||◌, not}
use native.Mathlib.Omega.{arith}
use arataga.Prelude.Tests.{ltb}

pub record Order {ℓ} (A : Type ℓ) : Type ℓ where
  pub lt : A → A → Bool
  pub irrefl : (a : A) → lt a a ≡ false
  pub trans : (a b c : A) → lt a b ≡ true → lt b c ≡ true → lt a c ≡ true
  pub connected : (a b : A) → lt a b ≡ false → lt b a ≡ false → a ≡ b

infix 50 ◌<?◌
abbrev pub ◌<?◌ {ℓ} : {A : Type ℓ} ⦃o : Order A⦄ → A → A → Bool
◌<?◌ ⦃o⦄ = o.lt

pub nat_irrefl : (a : ℕ) → ltb a a ≡ false
nat_irrefl a = ground arith

pub nat_trans : (a b c : ℕ) → ltb a b ≡ true → ltb b c ≡ true → ltb a c ≡ true
nat_trans a b c h k = ground arith

pub nat_connected : (a b : ℕ) → ltb a b ≡ false → ltb b a ≡ false → a ≡ b
nat_connected a b h k = ground arith

instance abbrev pub nat_order : Order ℕ
nat_order = record { lt = ltb; irrefl = nat_irrefl; trans = nat_trans; connected = nat_connected }

module _ {ℓ κ} {A : Type ℓ} {B : Type κ} (o : Order A) (p : Order B) where
  -- `operator<` of a `std::tuple`.
  abbrev pub pair_lt : A × B → A × B → Bool
  pair_lt (a, b) (c, d) = o.lt a c || (not (o.lt c a) && p.lt b d)

  pub pair_irrefl : (x : A × B) → pair_lt x x ≡ false
  pair_irrefl (a, b) = ground (arith, o.irrefl a, p.irrefl b)

  pub pair_trans : (x y z : A × B) → pair_lt x y ≡ true → pair_lt y z ≡ true → pair_lt x z ≡ true
  pair_trans (a, b) (c, d) (e, f) h k = ground (
    arith,
    o.trans a c e,
    o.trans e a c,
    o.trans c e a,
    p.trans b d f,
    o.connected a c,
    o.connected c e,
  )

  pub pair_connected : (x y : A × B) → pair_lt x y ≡ false → pair_lt y x ≡ false → x ≡ y
  pair_connected (a, b) (c, d) h k = ground (arith, o.connected a c, p.connected b d)

instance abbrev pub pair_order {ℓ κ} :
    {A : Type ℓ} {B : Type κ} ⦃o : Order A⦄ ⦃p : Order B⦄ → Order (A × B)
pair_order ⦃o⦄ ⦃p⦄ = record {
  lt = pair_lt o p;
  irrefl = pair_irrefl o p;
  trans = pair_trans o p;
  connected = pair_connected o p;
}
