-- ===== src/Base/Int.antt =====
-- The signed integers of C, by their sign: `negsuc n` is -(n + 1).
use sricd.Base.{ℕ, zero, ◌-◌, ◌%◌, ◌^◌, Bool, true, false, ltb, if◌then◌else◌}

pub data ℤ : Type 0 where
  pos : ℕ → ℤ
  negsuc : ℕ → ℤ

abbrev pub is_negative : ℤ → Bool
is_negative (pos n) = false
is_negative (negsuc n) = true

-- The 32 bits of an `int`.
abbrev pub word : ℤ → ℕ
word (pos n) = n % 2 ^ 32
word (negsuc n) = 2 ^ 32 - 1 - n % 2 ^ 32

-- The `short` with the 16 bits given.
abbrev pub short : ℕ → ℤ
short n = if ltb n 0x8000 then pos n else negsuc (0xFFFF - n)

abbrev pub is_minus_one : ℤ → Bool
is_minus_one (negsuc zero) = true
is_minus_one _ = false
