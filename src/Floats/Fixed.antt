-- ===== src/Floats/Fixed.antt =====
-- A `Floats` to run the model with: fixed point, a millionth being the unit.
use hcmonitor.Prelude.{◌+◌, ◌*◌, ◌/◌, suc, ℤ, pos, negsuc, ◌+ℤ◌, ◌-ℤ◌, ◌==ℤ◌, ◌*ℤ◌, ltb_ℤ}
use hcmonitor.Floats.{Floats}

-- Division by a positive number, towards zero.
unfoldable pub quotient : ℤ → ℤ → ℤ
unfolding ◌*ℤ◌
quotient (pos a) (pos b) = pos (a * 1000000 / b)
quotient (negsuc a) (pos b) = pos 0 +ℤ negsuc 0 *ℤ pos (suc a * 1000000 / b)
quotient a (negsuc b) = pos 0

-- The next whole number.
unfoldable pub above : ℤ → ℤ
unfolding ◌+ℤ◌
above (pos a) = pos ((a + 999999) / 1000000)
above (negsuc a) = pos 0 -ℤ pos (suc a / 1000000)

abbrev pub fixed : Floats
fixed = record {
  Float = ℤ;
  of_int = λ z. z *ℤ pos 1000000;
  of_bits = λ w. pos w;
  add = ◌+ℤ◌;
  mul = λ a b. quotient (a *ℤ b) (pos 1000000000000);
  div = quotient;
  lt = ltb_ℤ;
  to_int = λ a. quotient a (pos 1000000000000);
  eq = ◌==ℤ◌;
  ceil = above;
}
