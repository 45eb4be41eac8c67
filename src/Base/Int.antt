-- ===== src/Base/Int.antt =====
-- Signed machine integers (`i32`, `i64`), as far as the program uses them: comparisons with
-- constants, and tests for one. A value stands for itself, its range is stated where it matters.
use Prim.Native.Nat.{ℕ}
use mathlib.Core.Bool.{Bool, true, false, not}
use libzmq_ru.Base.Tests.{leb, ◌==◌}

-- `negsuc n` is -(n + 1).
pub data ℤ : Type 0 where
  pos : ℕ → ℤ
  negsuc : ℕ → ℤ

-- A match on a constant that is not negative.
abbrev pub is_code : ℤ → ℕ → Bool
is_code (pos n) k = n == k
is_code (negsuc n) k = false

abbrev pub is_nonneg : ℤ → Bool
is_nonneg (pos n) = true
is_nonneg (negsuc n) = false

-- `value >= -1`
abbrev pub ge_minus_one : ℤ → Bool
ge_minus_one (pos n) = true
ge_minus_one (negsuc n) = n == 0

-- `value >= k`
abbrev pub ge : ℤ → ℕ → Bool
ge (pos n) k = leb k n
ge (negsuc n) k = false

-- `value <= k`
abbrev pub le : ℤ → ℕ → Bool
le (pos n) k = leb n k
le (negsuc n) k = true

-- `value != 0`
abbrev pub is_nonzero : ℤ → Bool
is_nonzero v = not (is_code v 0)

-- `i32::from(bool)`
abbrev pub int_of : Bool → ℤ
int_of true = pos 1
int_of false = pos 0
