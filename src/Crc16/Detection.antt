-- ===== src/Crc16/Detection.antt =====
-- sricd/crc16/crc16-build.c: which changes of a message the check sum finds.
use sricd.Base.{
  ℕ, ◌/◌, ◌%◌, ◌-◌, ◌<◌, ◌≡◌, ◌∙◌, sym, ap, refl, List, [], ◌∷◌, ◌++◌, bit_xor, arith, length, take,
}
use sricd.Base.Bits.{bit_xor_byte, bit_xor-injective, bit_xor_comm, zero-bit_xor}
use sricd.Crc16.{crc_table, crc_step, crc_loop, crc16}
use sricd.Crc16.Table.{crc_table-lt, crc_table-high_byte}

abbrev pub IsBytes : List ℕ → Type 0
IsBytes [] = Unit {0}
IsBytes (x ∷ xs) = (x < 256) × IsBytes xs

high_zero : (c : ℕ) → c < 65536 → c / 256 / 256 ≡ 0
high_zero c h = omega arith

-- The high byte of the next remainder is that of the table entry alone.
crc_step-high_byte :
    (c b : ℕ) → c < 65536 → crc_step c b / 256 ≡ crc_table (bit_xor c b % 256) / 256
unfolding crc_step
crc_step-high_byte c b h =
    let t = crc_table (bit_xor c b % 256) in
    (bit_xor_byte t (c / 256)).0
    ∙ ap (bit_xor (t / 256)) (high_zero c h)
    ∙ bit_xor_comm (t / 256) 0
    ∙ zero-bit_xor (t / 256)

pub crc_step-lt : (c b : ℕ) → c < 65536 → crc_step c b < 65536
crc_step-lt c b h = omega (arith, crc_step-high_byte c b h, crc_table-lt (bit_xor c b % 256))

-- The next remainder determines the index of the table entry and the high byte before.
crc_step-injective :
    (c b d e : ℕ)
    → c < 65536
    → d < 65536
    → crc_step c b ≡ crc_step d e
    → (bit_xor c b % 256 ≡ bit_xor d e % 256) × (c / 256 ≡ d / 256)
crc_step-injective c b d e hc hd eq = (same_index, same_high)
  where
    same_index : bit_xor c b % 256 ≡ bit_xor d e % 256
    same_index =
        crc_table-high_byte (bit_xor c b % 256) (bit_xor d e % 256) (omega arith) (omega arith)
          (sym (crc_step-high_byte c b hc) ∙ ap (λ (t : ℕ). t / 256) eq ∙ crc_step-high_byte d e hd)

    same_high : c / 256 ≡ d / 256
    same_high =
        bit_xor-injective (crc_table (bit_xor d e % 256))
          (ap (λ t. bit_xor (crc_table t) (c / 256)) (sym same_index) ∙ unfold crc_step in eq)

low_byte : (c b : ℕ) → b < 256 → bit_xor c b % 256 ≡ bit_xor b (c % 256)
low_byte c b h =
    let small : b % 256 ≡ b = omega arith in
    (bit_xor_byte c b).1 ∙ ap (bit_xor (c % 256)) small ∙ bit_xor_comm (c % 256) b

-- From one remainder, different bytes lead to different indices.
crc_step-byte : (c a b : ℕ) → a < 256 → b < 256 → bit_xor c a % 256 ≡ bit_xor c b % 256 → a ≡ b
crc_step-byte c a b ha hb e = bit_xor-injective (c % 256) (
    bit_xor_comm (c % 256) a
    ∙ sym (low_byte c a ha)
    ∙ e
    ∙ low_byte c b hb
    ∙ bit_xor_comm b (c % 256))

-- Under one byte, different remainders lead to different remainders.
crc_step-remainder :
    (c d b : ℕ) → c < 65536 → d < 65536 → b < 256 → crc_step c b ≡ crc_step d b → c ≡ d
crc_step-remainder c d b hc hd hb eq =
    let (index, high) = crc_step-injective c b d b hc hd eq in
    let low = bit_xor-injective b (sym (low_byte c b hb) ∙ index ∙ low_byte d b hb) in omega arith

crc_loop-injective :
    (bs : List ℕ) (c d : ℕ)
    → c < 65536
    → d < 65536
    → IsBytes bs
    → crc_loop c bs ≡ crc_loop d bs
    → c ≡ d
unfolding crc_loop
crc_loop-injective [] c d hc hd h eq = eq
crc_loop-injective (b ∷ bs) c d hc hd h eq = crc_step-remainder c d b hc hd h.0 (
    crc_loop-injective bs (crc_step c b) (crc_step d b) (crc_step-lt c b hc) (crc_step-lt d b hd)
      h.1 eq)

crc_loop-lt : (bs : List ℕ) (c : ℕ) → c < 65536 → crc_loop c bs < 65536
unfolding crc_loop
crc_loop-lt [] c h = h
crc_loop-lt (b ∷ bs) c h = crc_loop-lt bs (crc_step c b) (crc_step-lt c b h)

crc_loop-append : (xs ys : List ℕ) (c : ℕ) → crc_loop c (xs ++ ys) ≡ crc_loop (crc_loop c xs) ys
unfolding crc_loop
crc_loop-append [] ys c = refl
crc_loop-append (x ∷ xs) ys c = crc_loop-append xs ys (crc_step c x)

-- Two bytes after one remainder are found in the remainder that they lead to.
crc_loop_pair :
    (c a b a' b' : ℕ)
    → c < 65536
    → (a < 256) × (b < 256) × (a' < 256) × (b' < 256)
    → crc_step (crc_step c a) b ≡ crc_step (crc_step c a') b'
    → (a ≡ a') × (b ≡ b')
crc_loop_pair c a b a' b' hc h eq =
    let both =
      crc_step-injective (crc_step c a) b (crc_step c a') b' (crc_step-lt c a hc)
        (crc_step-lt c a' hc) eq in
    let first = crc_step-byte c a a' h.0 h.2 (
      crc_table-high_byte (bit_xor c a % 256) (bit_xor c a' % 256) (omega arith) (omega arith)
        (sym (crc_step-high_byte c a hc) ∙ both.1 ∙ crc_step-high_byte c a' hc)) in
    (
      first,
      crc_step-byte (crc_step c a') b b' h.1 h.3
          (ap (λ t. bit_xor (crc_step c t) b % 256) (sym first) ∙ both.0),
    )

take_whole {ℓ} : {A : Type ℓ} (xs : List A) → take (length xs) xs ≡ xs
take_whole [] = refl
take_whole (x ∷ xs) = ap (◌∷◌ x) (take_whole xs)

crc16_whole : (bs : List ℕ) → crc16 bs (length bs) ≡ 65535 - crc_loop 65535 bs
unfolding crc16
crc16_whole bs = rw (take_whole bs)

same_remainder :
    (xs ys : List ℕ)
    → crc16 xs (length xs) ≡ crc16 ys (length ys)
    → crc_loop 65535 xs ≡ crc_loop 65535 ys
same_remainder xs ys e = omega (
  arith,
  crc16_whole xs,
  crc16_whole ys,
  crc_loop-lt xs 65535 (omega arith),
  crc_loop-lt ys 65535 (omega arith),
)

-- A check sum is a 16-bit number.
pub crc16-lt : (buf : List ℕ) (len : ℕ) → crc16 buf len < 65536
unfolding crc16
crc16-lt buf len = omega arith

-- `crc16` finds every error confined to two neighbouring bytes: where two messages of bytes agree
-- but for two neighbouring bytes and have one check sum, they are one message.
pub crc16-detects :
    (before after : List ℕ) (a b a' b' : ℕ)
    → IsBytes after
    → (a < 256) × (b < 256) × (a' < 256) × (b' < 256)
    → crc16 (before ++ a ∷ b ∷ after) (length (before ++ a ∷ b ∷ after))
      ≡ crc16 (before ++ a' ∷ b' ∷ after) (length (before ++ a' ∷ b' ∷ after))
    → (a ≡ a') × (b ≡ b')
unfolding crc_loop
crc16-detects before after a b a' b' bytes h eq =
    let start = crc_loop 65535 before in
    let in_range = crc_loop-lt before 65535 (omega arith) in
    let one = crc_step (crc_step start a) b in
    let two = crc_step (crc_step start a') b' in
    let one_lt = crc_step-lt (crc_step start a) b (crc_step-lt start a in_range) in
    let two_lt = crc_step-lt (crc_step start a') b' (crc_step-lt start a' in_range) in
    let whole =
      sym (crc_loop-append before (a ∷ b ∷ after) 65535)
      ∙ same_remainder (before ++ a ∷ b ∷ after) (before ++ a' ∷ b' ∷ after) eq
      ∙ crc_loop-append before (a' ∷ b' ∷ after) 65535 in
    crc_loop_pair start a b a' b' in_range h
      (crc_loop-injective after one two one_lt two_lt bytes whole)
