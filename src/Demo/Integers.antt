-- ===== src/Demo/Integers.antt =====
-- Integers over the native numbers. The amounts of the demo are doubles, which may have two decimals; here
-- they are whole and of any size, so that nothing is rounded. No theorem relies on what rounding breaks: that an
-- amount that is added and taken away again gives the balance from before.
use moirae.Base.{ℕ, zero, suc, ◌+◌, ◌-◌, leb, if◌then◌else◌, Bool, true, false}

pub data ℤ : Type 0 where
  pos : ℕ → ℤ
  negsuc : ℕ → ℤ

abbrev difference : ℕ → ℕ → ℤ
difference m n = if leb n m then pos (m - n) else negsuc ((n - m) - 1)

unfoldable pub add : ℤ → ℤ → ℤ
add (pos a) (pos b) = pos (a + b)
add (pos a) (negsuc b) = difference a (b + 1)
add (negsuc a) (pos b) = difference b (a + 1)
add (negsuc a) (negsuc b) = negsuc ((a + b) + 1)

unfoldable pub negate : ℤ → ℤ
negate (pos zero) = pos zero
negate (pos (suc n)) = negsuc n
negate (negsuc n) = pos (n + 1)

unfoldable pub times : ℤ → ℕ → ℤ
unfolding add
times a zero = pos zero
times a (suc n) = add (times a n) a

abbrev pub is_negative : ℤ → Bool
is_negative (pos n) = false
is_negative (negsuc n) = true
