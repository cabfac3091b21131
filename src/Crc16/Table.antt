-- ===== src/Crc16/Table.antt =====
-- sricd/crc16/crc16-build.c: the entries of the table fit 16 bits, and their high bytes are all
-- different, which is found by running the rounds of the generator backwards.
use sricd.Base.{
  ℕ, zero, suc, ◌+◌, ◌*◌, ◌/◌, ◌%◌, ◌<◌, ◌≡◌, ◌∙◌, sym, ap, refl, true, bit_xor, arith, ltb, leb,
  ◌==◌, ==_iff, if◌then◌else◌,
}
use sricd.Base.Bits.{holds_below, holds_below_lem}
use sricd.Crc16.{polynomial, crc_table}

-- A round backwards: the top digit tells whether the polynomial was added.
unround : ℕ → ℕ
unround c = if leb 0x8000 c then bit_xor polynomial c * 2 % 65536 + 1 else c * 2 % 65536

unrounds : ℕ → ℕ → ℕ
unfolding unround
unrounds zero c = c
unrounds (suc k) c = unrounds k (unround c)

index_of_high_byte : ℕ → ℕ
unfolding unrounds
index_of_high_byte h = unrounds 8 (h * 256) % 256

high_byte_table : holds_below (λ i. index_of_high_byte (crc_table i / 256) == i) 256 ≡ true
unfolding holds_below index_of_high_byte crc_table
high_byte_table = refl

range_table : holds_below (λ i. ltb (crc_table i) 65536) 256 ≡ true
unfolding holds_below crc_table
range_table = refl

pub crc_table-lt : (i : ℕ) → i < 256 → crc_table i < 65536
crc_table-lt i h =
    let t = holds_below_lem (λ i. ltb (crc_table i) 65536) 256 range_table i h in ground arith

pub crc_table-high_byte :
    (i j : ℕ) → i < 256 → j < 256 → crc_table i / 256 ≡ crc_table j / 256 → i ≡ j
crc_table-high_byte i j hi hj e =
    sym (
      (==_iff _ i).0 (
        holds_below_lem (λ i. index_of_high_byte (crc_table i / 256) == i) 256 high_byte_table i
          hi))
    ∙ ap index_of_high_byte e
    ∙ (==_iff _ j).0 (
        holds_below_lem (λ i. index_of_high_byte (crc_table i / 256) == i) 256 high_byte_table j hj)
