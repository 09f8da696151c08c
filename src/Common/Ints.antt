-- ===== src/Common/Ints.antt =====
-- Signed integers over the native numbers. `negsuc n` is -(n + 1).
use Prim.Native.Nat.{ℕ, ◌+◌, ◌*◌, ◌-◌, ◌%◌, ◌^◌, ◌/◌}
use mathlib.Core.Bool.{Bool, true, false}
use sense_grid.Common.Logic.{ltb, nat_eq, if◌then◌else◌}

pub data ℤ : Type 0 where
  pos : ℕ → ℤ
  negsuc : ℕ → ℤ

abbrev pub ltb_ℤ : ℤ → ℤ → Bool
ltb_ℤ (pos a) (pos b) = ltb a b
ltb_ℤ (pos a) (negsuc b) = false
ltb_ℤ (negsuc a) (pos b) = true
ltb_ℤ (negsuc a) (negsuc b) = ltb b a

abbrev pub is_zero_ℤ : ℤ → Bool
is_zero_ℤ (pos n) = nat_eq n 0
is_zero_ℤ (negsuc n) = false

-- The value of a sum or a product that is kept in an int64.
abbrev pub wrap64 : ℤ → ℤ
wrap64 (pos n) = let r = n % 2 ^ 64 in if ltb r (2 ^ 63) then pos r else negsuc (2 ^ 64 - 1 - r)
wrap64 (negsuc n) = let r = n % 2 ^ 64 in if ltb r (2 ^ 63) then negsuc r else pos (2 ^ 64 - 1 - r)

-- The product with a positive number.
abbrev pub times : ℕ → ℤ → ℤ
times k (pos n) = pos (n * k)
times k (negsuc n) = negsuc ((n + 1) * k - 1)

-- The quotient by a positive number, towards 0.
abbrev pub quot : ℕ → ℤ → ℤ
quot k (pos n) = pos (n / k)
quot k (negsuc n) = if ltb (n + 1) k then pos 0 else negsuc ((n + 1) / k - 1)

-- `time.Duration(n) * time.Second` and `time.Duration(n) * time.Millisecond`.
abbrev pub of_seconds : ℤ → ℤ
of_seconds n = wrap64 (times 1000000000 n)

abbrev pub of_milliseconds : ℤ → ℤ
of_milliseconds n = wrap64 (times 1000000 n)
