-- ===== src/Base/Int.antt =====
-- Signed integers, in the range of `i64` wherever the program has one.
use Prim.Native.Nat.{ℕ, compare, Ordering}
use mathlib.Core.Path.{◌≡◌}
use mathlib.Core.Logic.{◌↔◌}
use mathlib.Core.Bool.{Bool, true, false}
use native.Mathlib.Omega.{arith}
use native.Mathlib.Decide.{ℕ_discrete}
use longhaul.Base.Tests.{leb}

-- `negsuc n` is -(n + 1).
pub data ℤ : Type 0 where
  pos : ℕ → ℤ
  negsuc : ℕ → ℤ

-- the test `a <= b` of the program
abbrev pub leb_ℤ : ℤ → ℤ → Bool
leb_ℤ (pos m) (pos n) = leb m n
leb_ℤ (pos m) (negsuc n) = false
leb_ℤ (negsuc m) (pos n) = true
leb_ℤ (negsuc m) (negsuc n) = leb n m

abbrev pub same_ℕ : ℕ → ℕ → Bool
same_ℕ a b = elim (compare a b) [ Ordering.eq ↦ true | _ ↦ false ]

-- the test `a == b` of the program
abbrev pub eq_ℤ : ℤ → ℤ → Bool
eq_ℤ (pos m) (pos n) = same_ℕ m n
eq_ℤ (negsuc m) (negsuc n) = same_ℕ m n
eq_ℤ (pos m) (negsuc n) = false
eq_ℤ (negsuc m) (pos n) = false

pub eq_ℤ_iff : (a b : ℤ) → (eq_ℤ a b ≡ true) ↔ (a ≡ b)
eq_ℤ_iff (pos m) (pos n) = (λ h. ground arith, λ h. ground arith)
eq_ℤ_iff (negsuc m) (negsuc n) = (λ h. ground arith, λ h. ground arith)
eq_ℤ_iff (pos m) (negsuc n) = (λ h. cc, λ h. cc)
eq_ℤ_iff (negsuc m) (pos n) = (λ h. cc, λ h. cc)

pub ℤ-discrete : Discrete ℤ
ℤ-discrete = hlevel ℕ_discrete
