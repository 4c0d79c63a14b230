-- ===== src/Prelude/Equality.antt =====
-- Go's `==` at the types that the agent compares: an interface with its law, and its instances.
use Prim.Native.Nat.{ℕ}
use Prim.Native.String.{String}
use mathlib.Core.Path.{◌≡◌}
use mathlib.Core.Logic.{◌↔◌}
use mathlib.Core.Bool.{Bool, true, false, ◌&&◌}
use native.Mathlib.Omega.{arith}
use text.Mathlib.Text.{◌==◌ as str_same}
use text.Mathlib.TextEquality.{eq_iff}
use ovn_network_agent.Prelude.Tests.{nat_beq}

abbrev pub bool_same : Bool → Bool → Bool
bool_same true b = b
bool_same false true = false
bool_same false false = true

pub bool_same_iff : (a b : Bool) → (bool_same a b ≡ true) ↔ (a ≡ b)
bool_same_iff a b = ground arith

pub nat_beq_iff : (n m : ℕ) → (nat_beq n m ≡ true) ↔ (n ≡ m)
nat_beq_iff n m = ground arith

-- A comparable type: `same` is Go's `==`.
pub record Comparable {ℓ} (K : Type ℓ) : Type ℓ where
  pub same : K → K → Bool
  pub same_iff : (j k : K) → (same j k ≡ true) ↔ (j ≡ k)

module _ {ℓ κ} {A : Type ℓ} {B : Type κ} ⦃e : Comparable A⦄ ⦃f : Comparable B⦄ where
  abbrev pub pair_same : A × B → A × B → Bool
  pair_same p q = e.same p.0 q.0 && f.same p.1 q.1

  pub pair_same_iff : (p q : A × B) → (pair_same p q ≡ true) ↔ (p ≡ q)
  pair_same_iff (a, b) (c, d) = ground (arith, e.same_iff a c, f.same_iff b d)

instance abbrev pub pair_eq {ℓ κ} :
    {A : Type ℓ} {B : Type κ} ⦃e : Comparable A⦄ ⦃f : Comparable B⦄ → Comparable (A × B)
pair_eq ⦃e⦄ ⦃f⦄ = record { same = pair_same; same_iff = pair_same_iff }

instance abbrev pub string_eq : Comparable String
string_eq = record { same = str_same; same_iff = eq_iff }

instance abbrev pub bool_eq : Comparable Bool
bool_eq = record { same = bool_same; same_iff = bool_same_iff }

instance abbrev pub nat_eq : Comparable ℕ
nat_eq = record { same = nat_beq; same_iff = nat_beq_iff }

module _ {ℓ} {K : Type ℓ} ⦃e : Comparable K⦄ where
  infix 50 ◌==◌
  abbrev pub ◌==◌ : K → K → Bool
  j == k = e.same j k
