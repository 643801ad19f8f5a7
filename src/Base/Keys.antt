-- ===== src/Base/Keys.antt =====
-- Types whose values Python compares with `==` and uses as keys.
use Prim.Native.Nat.{ℕ}
use Prim.Native.String.{String}
use mathlib.Core.Path.{◌≡◌}
use mathlib.Core.Logic.{◌↔◌}
use mathlib.Core.Bool.{Bool, true, false, ◌&&◌, ◌||◌}
use mathlib.Core.List.{List, [], ◌∷◌}
use text.Mathlib.Text.{◌==◌ as text_beq}
use native.Mathlib.Omega.{arith}
use text.Mathlib.TextEquality.{eq_iff}
use wolves_ai.Base.Tests.{eqb, eqb_iff}

-- The test comes with the proof that it holds of equal values only.
pub record Key {ℓ} (K : Type ℓ) : Type ℓ where
  pub same : K → K → Bool
  pub same_iff : (j k : K) → same j k ≡ true ↔ j ≡ k

instance abbrev pub nat_eq : Key ℕ
nat_eq = record { same_iff = eqb_iff; same = eqb }

instance abbrev pub string_eq : Key String
string_eq = record { same_iff = eq_iff; same = text_beq }

module _ {ℓ} {K : Type ℓ} ⦃key : Key K⦄ where
  infix 50 ◌==◌
  abbrev pub ◌==◌ : K → K → Bool
  j == k = key.same j k

  -- `k in ks`
  abbrev pub contains : K → List K → Bool
  contains k [] = false
  contains k (j ∷ js) = k == j || contains k js

-- Pairs compare by both parts.
module _ {ℓ κ} {A : Type ℓ} {B : Type κ} ⦃a : Key A⦄ ⦃b : Key B⦄ where
  abbrev pub same_pair : A × B → A × B → Bool
  same_pair (x, y) (x', y') = x == x' && y == y'

  pub same_pair_iff : (p q : A × B) → same_pair p q ≡ true ↔ p ≡ q
  same_pair_iff (x, y) (x', y') = ground (arith, a.same_iff x x', b.same_iff y y')

  instance abbrev pub pair_eq : Key (A × B)
  pair_eq = record { same_iff = same_pair_iff; same = same_pair }
