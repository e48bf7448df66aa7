-- ===== src/Floats.antt =====
-- The C compiler's `float`, which the sources compute latencies in. The model takes the type and
-- the operations of the language as a parameter.
pub mod Fixed
use hcmonitor.Prelude.{ℕ, Bool, ℤ}

-- `of_int` is the conversion of an integer, `of_bits` the value that a 32-bit pattern stands for,
-- `ceil` the library's, converted to an int.
pub record Floats : Type 1 where
  pub Float : Type 0
  pub of_int : ℤ → Float
  pub of_bits : ℕ → Float
  pub add : Float → Float → Float
  pub mul : Float → Float → Float
  pub div : Float → Float → Float
  pub lt : Float → Float → Bool
  pub to_int : Float → ℤ
  pub eq : Float → Float → Bool
  pub ceil : Float → ℤ
