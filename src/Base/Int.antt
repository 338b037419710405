-- ===== src/Base/Int.antt =====
-- Python's integers over the native numbers, as far as the validators compare them.
use Prim.Native.Nat.{ℕ, ◌+◌, ◌-◌, ◌*◌}
use mathlib.Core.Bool.{Bool, true, false}
use ev4_constructability_eng.Base.Tests.{leb, nat_eq, if◌then◌else◌}

-- `negsuc n` is -(n + 1).
pub data ℤ : Type 0 where
  pos : ℕ → ℤ
  negsuc : ℕ → ℤ

abbrev pub int_eq : ℤ → ℤ → Bool
int_eq (pos m) (pos n) = nat_eq m n
int_eq (negsuc m) (negsuc n) = nat_eq m n
int_eq _ _ = false

abbrev pub int_le : ℤ → ℤ → Bool
int_le (pos m) (pos n) = leb m n
int_le (pos m) (negsuc n) = false
int_le (negsuc m) (pos n) = true
int_le (negsuc m) (negsuc n) = leb n m

-- `max((a, b))`
abbrev pub int_max : ℤ → ℤ → ℤ
int_max a b = if int_le a b then b else a

-- A product with a positive factor.
abbrev pub scale : ℤ → ℕ → ℤ
scale (pos m) k = pos (m * k)
scale (negsuc m) k = negsuc ((m + 1) * k - 1)
