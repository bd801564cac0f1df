-- ===== src/Floats.antt =====
-- Go's float64 as an interface: the operations that the program applies, and the facts of IEEE 754
-- that its theorems rest on.
use distributed_caching.Base.{ℕ, ◌+◌, ◌*◌, ◌<◌, ◌^◌, ◌-◌, ◌≤◌, ◌≡◌, Bool, true, false}
use distributed_caching.Base.Int.{ℤ, pos, ◌≤ℤ◌, ◌<ℤ◌}

pub record Floats (Float : Type 0) : Type 0 where
  pub lt : Float → Float → Bool
  pub le : Float → Float → Bool
  pub add : Float → Float → Float
  pub sub : Float → Float → Float
  pub mul : Float → Float → Float
  pub div : Float → Float → Float
  pub neg : Float → Float
  pub ceil : Float → Float
  pub of_int : ℤ → Float  -- float64(n)
  pub to_int : Float → ℤ  -- int64(x)
  pub decimal : ℕ → ℕ → Float  -- the constant n / 10 ^ k
  pub is_number : Float → Bool  -- not NaN

-- What comparisons promise on values that are not NaN.
pub record FloatOrder {Float : Type 0} (o : Floats Float) : Type 0 where
  pub le_of_not_lt :
      (x y : Float)
      → o.is_number x ≡ true
      → o.is_number y ≡ true
      → o.lt x y ≡ false
      → o.le y x ≡ true
  pub not_lt_of_le : (x y : Float) → o.le y x ≡ true → o.lt x y ≡ false
  pub le_trans : (x y z : Float) → o.le x y ≡ true → o.le y z ≡ true → o.le x z ≡ true
  pub le_of_lt : (x y : Float) → o.lt x y ≡ true → o.le x y ≡ true
  pub le_is_number :
      (x y : Float) → o.le x y ≡ true → (o.is_number x ≡ true) × (o.is_number y ≡ true)
  pub decimal_is_number : (n k : ℕ) → o.is_number (o.decimal n k) ≡ true
  pub add_is_number :
      (x : Float) (n k : ℕ) → o.is_number x ≡ true → o.is_number (o.add x (o.decimal n k)) ≡ true
  pub sub_is_number :
      (x : Float) (n k : ℕ) → o.is_number x ≡ true → o.is_number (o.sub x (o.decimal n k)) ≡ true
  pub decimal_pos : (n k : ℕ) → 0 < n → k ≤ 3 → o.lt (o.decimal 0 0) (o.decimal n k) ≡ true
  pub lt_of_le_lt : (x y z : Float) → o.le x y ≡ true → o.lt y z ≡ true → o.lt x z ≡ true
  pub of_int_mono : (a b : ℤ) → a ≤ℤ b → o.le (o.of_int a) (o.of_int b) ≡ true
  pub of_int_pos : (a : ℤ) → pos 0 <ℤ a → o.lt (o.decimal 0 0) (o.of_int a) ≡ true
  pub mul_mono :
      (x y f : Float)
      → o.lt (o.decimal 0 0) x ≡ true
      → o.le x y ≡ true
      → o.lt (o.decimal 0 0) f ≡ true
      → o.le (o.mul x f) (o.mul y f) ≡ true
  pub mul_nonneg :
      (x f : Float)
      → o.lt (o.decimal 0 0) x ≡ true
      → o.lt (o.decimal 0 0) f ≡ true
      → o.le (o.decimal 0 0) (o.mul x f) ≡ true
  -- Go leaves the result open outside the range of int64, whose end 2 ^ 63 - 1 rounds to 2 ^ 63.
  pub to_int_mono :
      (x y : Float)
      → o.le (o.decimal 0 0) x ≡ true
      → o.le x y ≡ true
      → o.lt y (o.of_int (pos (2 ^ 63 - 1))) ≡ true
      → o.to_int x ≤ℤ o.to_int y

-- What floats are worth, in units that all of them are multiples of, for float64 2 ^ -1074; one that
-- is negative or no number counts as zero. A product is rounded to a neighbour of the exact one, which is on the same side
-- of every float, and p / 128 is a float.
pub record FloatValues {Float : Type 0} (o : Floats Float) : Type 0 where
  pub num : Float → ℕ
  pub unit : ℕ
  pub unit_pos : 0 < unit
  -- 0.99 is rounded down, by less than 2 ^ -40 hundredths.
  pub decimal_99_le : 100 * num (o.decimal 99 2) ≤ 99 * unit
  pub decimal_99_ge : 99 * unit * 2 ^ 40 ≤ 100 * num (o.decimal 99 2) * 2 ^ 40 + unit
  pub mul_le :
      (c k n p : ℕ)
      → n < 2 ^ 53
      → p < 2 ^ 53
      → 128 * (num (o.decimal c k) * n) ≤ p * unit
      → 128 * num (o.mul (o.decimal c k) (o.of_int (pos n))) ≤ p * unit
  pub mul_ge :
      (c k n p : ℕ)
      → n < 2 ^ 53
      → p < 2 ^ 53
      → p * unit ≤ 128 * (num (o.decimal c k) * n)
      → p * unit ≤ 128 * num (o.mul (o.decimal c k) (o.of_int (pos n)))
  pub to_int_ceil :
      (x : Float) (m : ℕ)
      → 0 < m
      → m < 2 ^ 53
      → m * unit < num x + unit
      → num x ≤ m * unit
      → o.to_int (o.ceil x) ≡ pos m
