-- ===== src/Common/Floats.antt =====
-- float64 as an interface: the operations that the program uses, on a type of values.
use Prim.Native.Nat.{ℕ}
use mathlib.Core.Bool.{Bool}
use sense_grid.Common.Ints.{ℤ}

pub record Float (F : Type 0) : Type 0 where
  pub nil : F
  pub one : F
  pub add : F → F → F
  pub sub : F → F → F
  pub mul : F → F → F
  pub div : F → F → F
  pub of_int : ℕ → F
  pub lt : F → F → Bool
  pub equal : F → F → Bool
  pub sqrt : F → F
  pub abs : F → F
  -- `int(x)`, which the language leaves open for a value that no int holds.
  pub to_int : F → ℤ
