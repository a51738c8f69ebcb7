-- ===== src/Common/Int.antt =====
-- Go's signed integers, where a value of the program can be negative: a count of seconds since
-- 1970, a nesting depth. `negsuc n` is -(n + 1).
use Prim.Native.Nat.{ℕ, zero, suc}

pub data ℤ : Type 0 where
  pos : ℕ → ℤ
  negsuc : ℕ → ℤ

-- `i++` and `i--`, on a value far from the ends of the machine's range.
abbrev pub increment : ℤ → ℤ
increment (pos n) = pos (suc n)
increment (negsuc zero) = pos 0
increment (negsuc (suc n)) = negsuc n

abbrev pub decrement : ℤ → ℤ
decrement (pos zero) = negsuc 0
decrement (pos (suc n)) = pos n
decrement (negsuc n) = negsuc (suc n)
