-- ===== src/Crc16.antt =====
-- sricd/crc16/crc16-build.c: the table that the program prints, and the text of `crc16` with it.
pub mod Table
pub mod Detection
use sricd.Base.{ℕ, zero, suc, ◌-◌, ◌/◌, ◌%◌, List, [], ◌∷◌, bit_xor, ◌==◌, if◌then◌else◌, take}

abbrev pub polynomial : ℕ
polynomial = 0xA001

-- One round of the inner loop: `c & 1` is the lowest digit.
unfoldable pub table_round : ℕ → ℕ
table_round c = if c % 2 == 1 then bit_xor polynomial (c / 2) else c / 2

-- The inner loop, with `k` rounds left.
unfoldable pub table_rounds : ℕ → ℕ → ℕ
unfolding table_round
table_rounds zero c = c
table_rounds (suc k) c = table_rounds k (table_round c)

-- `crc_table[n]`.
unfoldable pub crc_table : ℕ → ℕ
unfolding table_rounds
crc_table n = table_rounds 8 n

-- The loop body of `crc16`; `& 0xff` is the remainder by 256, `>> 8` the quotient.
unfoldable pub crc_step : ℕ → ℕ → ℕ
unfolding crc_table
crc_step c b = bit_xor (crc_table (bit_xor c b % 256)) (c / 256)

unfoldable pub crc_loop : ℕ → List ℕ → ℕ
unfolding crc_step
crc_loop c [] = c
crc_loop c (b ∷ bs) = crc_loop (crc_step c b) bs

-- `(uint16_t) -1` is 65535, and `~c` cut to 16 bits is `65535 - c`.
unfoldable pub crc16 : List ℕ → ℕ → ℕ
unfolding crc_loop
crc16 buf len = 65535 - crc_loop 65535 (take len buf)
