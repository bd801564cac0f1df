-- ===== src/Tests/Fixed.antt =====
-- A stand-in for float64: thousandths without a sign, whose products are rounded down.
use distributed_caching.Base.{
  ℕ, zero, suc, ◌+◌, ◌-◌, ◌*◌, ◌/◌, ◌^◌, ◌≤◌, ◌<◌, ◌≡◌, ap, refl, true, arith, ltb, leb,
}
use distributed_caching.Base.Int.{pos, pos_part}
use distributed_caching.Floats.{Floats, FloatOrder, FloatValues}

abbrev pub thousandths : Floats ℕ
thousandths = record {
  lt = ltb;
  le = leb;
  add = λ x y. x + y;
  sub = λ x y. x - y;
  mul = λ x y. x * y / 1000;
  div = λ x y. x * 1000 / y;
  neg = λ x. x;
  ceil = λ x. (x + 999) / 1000 * 1000;
  of_int = λ n. pos_part n * 1000;
  to_int = λ x. pos (x / 1000);
  decimal = λ n k. n * 10 ^ (3 - k);
  is_number = λ x. true;
}

power_pos : (k : ℕ) → 0 < 10 ^ k
power_pos zero = omega arith
power_pos (suc k) = omega (arith, power_pos k)

product_pos : (a b : ℕ) → 0 < a → 0 < b → 0 < a * b
product_pos zero b h k = absurd (omega arith)
product_pos (suc a) b h k = omega arith

product_mono : (a b f : ℕ) → a ≤ b → a * f ≤ b * f
product_mono zero b f h = omega arith
product_mono (suc a) zero f h = absurd (omega arith)
product_mono (suc a) (suc b) f h = omega (arith, product_mono a b f (omega arith))

quotient_mono : (a b : ℕ) → a ≤ b → a / 1000 ≤ b / 1000
quotient_mono a b h = omega arith

mul_mono : (x y f : ℕ) → x ≤ y → x * f / 1000 ≤ y * f / 1000
mul_mono x y f h = quotient_mono (x * f) (y * f) (product_mono x y f h)

pub thousandths_order : FloatOrder thousandths
thousandths_order = record {
  le_of_not_lt = λ x y n m h. ground arith;
  not_lt_of_le = λ x y h. ground arith;
  le_trans = λ x y z h k. ground arith;
  le_of_lt = λ x y h. ground arith;
  le_is_number = λ x y h. (refl, refl);
  decimal_is_number = λ n k. refl;
  add_is_number = λ x n k h. refl;
  sub_is_number = λ x n k h. refl;
  decimal_pos = λ n k h g. ground (arith, product_pos n (10 ^ (3 - k)) h (power_pos (3 - k)));
  lt_of_le_lt = λ x y z h k. ground arith;
  of_int_mono = λ a b h. ground (arith, h);
  of_int_pos = λ a h. ground (arith, h);
  mul_mono = λ x y f p h q. ground (arith, mul_mono x y f);
  mul_nonneg = λ x f p q. ground arith;
  to_int_mono = λ x y p h q. ground (arith, quotient_mono x y);
}

product_exact : (d n : ℕ) → d * (n * 1000) / 1000 ≡ d * n
product_exact d n = omega arith

pub thousandths_values : FloatValues thousandths
thousandths_values = record {
  num = λ x. x;
  unit = 1000;
  unit_pos = omega arith;
  decimal_99_le = omega arith;
  decimal_99_ge = omega arith;
  mul_le = λ c k n p h g e. omega (arith, product_exact (c * 10 ^ (3 - k)) n, e);
  mul_ge = λ c k n p h g e. omega (arith, product_exact (c * 10 ^ (3 - k)) n, e);
  to_int_ceil = λ x m h g low high. ap (λ r. pos r) (omega arith);
}
