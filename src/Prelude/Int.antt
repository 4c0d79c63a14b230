-- ===== src/Prelude/Int.antt =====
-- Go's signed integers, which stand for themselves: no operation here wraps.
use Prim.Native.Nat.{ℕ, ◌+◌, ◌≤◌, suc}
use mathlib.Core.Path.{◌≡◌}
use mathlib.Core.Logic.{◌↔◌}
use mathlib.Core.Bool.{Bool, true, false}
use native.Mathlib.Omega.{arith}
use ovn_network_agent.Prelude.Tests.{leb, nat_beq}
use ovn_network_agent.Prelude.Equality.{Comparable}

-- `negsuc n` is -(n + 1).
pub data ℤ : Type 0 where
  pos : ℕ → ℤ
  negsuc : ℕ → ℤ

abbrev pub pos_part : ℤ → ℕ
pos_part (pos n) = n
pos_part (negsuc n) = 0

abbrev pub neg_part : ℤ → ℕ
neg_part (pos n) = 0
neg_part (negsuc n) = suc n

infix 50 ◌≤ℤ◌
abbrev pub ◌≤ℤ◌ : ℤ → ℤ → Type 0
a ≤ℤ b = pos_part a + neg_part b ≤ pos_part b + neg_part a

abbrev pub int_leb : ℤ → ℤ → Bool
int_leb (pos a) (pos b) = leb a b
int_leb (pos a) (negsuc b) = false
int_leb (negsuc a) (pos b) = true
int_leb (negsuc a) (negsuc b) = leb b a

pub int_leb_iff : (a b : ℤ) → (int_leb a b ≡ true) ↔ (a ≤ℤ b)
int_leb_iff (pos a) (pos b) = ground arith
int_leb_iff (pos a) (negsuc b) = ground arith
int_leb_iff (negsuc a) (pos b) = ground arith
int_leb_iff (negsuc a) (negsuc b) = ground arith

abbrev pub int_same : ℤ → ℤ → Bool
int_same (pos a) (pos b) = nat_beq a b
int_same (pos a) (negsuc b) = false
int_same (negsuc a) (pos b) = false
int_same (negsuc a) (negsuc b) = nat_beq a b

pub int_same_iff : (a b : ℤ) → (int_same a b ≡ true) ↔ (a ≡ b)
int_same_iff (pos a) (pos b) = ground arith
int_same_iff (pos a) (negsuc b) = ground arith
int_same_iff (negsuc a) (pos b) = ground arith
int_same_iff (negsuc a) (negsuc b) = ground arith

instance abbrev pub int_eq : Comparable ℤ
int_eq = record { same = int_same; same_iff = int_same_iff }
