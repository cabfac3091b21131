-- ===== src/Base/Bits.antt =====
-- Laws of the exclusive or, and checks of a whole range by evaluation.
use Prim.Native.Nat.{
  ℕ, zero, suc, ◌+◌, ◌*◌, ◌/◌, ◌%◌, ◌^◌, ◌≤◌, ◌<◌, bit_xor, digits, differ, bit_xor-bitwise,
}
use mathlib.Core.Path.{◌≡◌, refl, ap}
use mathlib.Core.Logic.{◌⊎◌, inl, inr}
use native.Mathlib.Nat.{pow-suc}
use mathlib.Core.Bool.{Bool, true, ◌&&◌}
use native.Mathlib.Omega.{arith}

unfoldable pub holds_below : (ℕ → Bool) → ℕ → Bool
holds_below p zero = true
holds_below p (suc n) = holds_below p n && p n

at_or_below : (x n : ℕ) → x ≤ n → (x < n) ⊎ (x ≡ n)
at_or_below x n h = grind arith

pub holds_below_lem : (p : ℕ → Bool) (n : ℕ) → holds_below p n ≡ true → (x : ℕ) → x < n → p x ≡ true
unfolding holds_below
holds_below_lem p (suc n) h x lt =
    let earlier : x < n → p x ≡ true = λ l. holds_below_lem p n (ground arith) x l in
    elim (at_or_below x n (omega arith)) [
      | inl below ↦ earlier below
      | inr here ↦ rw here (ground arith)
    ]
holds_below_lem p zero h x lt = absurd (omega arith)

-- The native operation means a recursion on binary digits with fuel; here the fuel is dropped.
abbrev xor_digits : ℕ → ℕ → ℕ → ℕ
xor_digits n a b = digits (λ b. b) differ n a b

same_digits : (b a m n : ℕ) → (a ≤ m) × (a ≤ n) → xor_digits m a b ≡ xor_digits n a b
same_digits b (suc a) (suc m) (suc n) h =
    omega (arith, same_digits (b / 2) (suc a / 2) m n (omega arith, omega arith))
same_digits b (suc a) zero n h = absurd (omega arith)
same_digits b (suc a) (suc m) zero h = absurd (omega arith)
same_digits b zero zero zero h = refl
same_digits b zero zero (suc n) h = refl
same_digits b zero (suc m) zero h = refl
same_digits b zero (suc m) (suc n) h = refl

pub zero-bit_xor : (b : ℕ) → bit_xor 0 b ≡ b
zero-bit_xor b = bit_xor-bitwise 0 b

differ_parity : (a b : ℕ) → a < 2 → b < 2 → differ a b ≡ (a + b) % 2
differ_parity zero b h k = omega arith
differ_parity (suc zero) zero h k = refl
differ_parity (suc zero) (suc zero) h k = refl
differ_parity (suc zero) (suc (suc b)) h k = absurd (omega arith)
differ_parity (suc (suc a)) b h k = absurd (omega arith)

bit_xor_digits : (a b : ℕ) → bit_xor a b ≡ bit_xor (a / 2) (b / 2) * 2 + differ (a % 2) (b % 2)
bit_xor_digits zero b = omega (arith, zero-bit_xor b, zero-bit_xor (b / 2))
bit_xor_digits (suc a) b = omega (
  arith,
  bit_xor-bitwise (suc a) b,
  bit_xor-bitwise (suc a / 2) (b / 2),
  same_digits (b / 2) (suc a / 2) a (suc a / 2) (omega arith, omega arith),
)

-- The law for the lowest digit.
pub bit_xor_step : (a b : ℕ) → bit_xor a b ≡ bit_xor (a / 2) (b / 2) * 2 + (a % 2 + b % 2) % 2
bit_xor_step a b =
    omega (arith, bit_xor_digits a b, differ_parity (a % 2) (b % 2) (omega arith) (omega arith))

cancel_fuel : (n a b c : ℕ) → a ≤ n → bit_xor a b ≡ bit_xor a c → b ≡ c
cancel_fuel zero zero b c h e = omega (arith, zero-bit_xor b, zero-bit_xor c)
cancel_fuel zero (suc a) b c h e = absurd (omega arith)
cancel_fuel (suc n) zero b c h e = omega (arith, zero-bit_xor b, zero-bit_xor c)
cancel_fuel (suc n) (suc a) b c h e =
    let halves =
      cancel_fuel n (suc a / 2) (b / 2) (c / 2) (omega arith)
        (omega (arith, bit_xor_step (suc a) b, bit_xor_step (suc a) c)) in
    omega (arith, bit_xor_step (suc a) b, bit_xor_step (suc a) c)

-- The exclusive or with a fixed number is injective.
pub bit_xor-injective : (a : ℕ) {b c : ℕ} → bit_xor a b ≡ bit_xor a c → b ≡ c
bit_xor-injective a {b} {c} = cancel_fuel a a b c (omega arith)

comm_fuel : (n a b : ℕ) → a + b ≤ n → bit_xor a b ≡ bit_xor b a
comm_fuel zero zero b h = let e : b ≡ 0 = omega arith in rw e
comm_fuel zero (suc a) b h = absurd (omega arith)
comm_fuel (suc n) zero zero h = refl
comm_fuel (suc n) zero (suc b) h =
    omega (
      arith,
      bit_xor_step 0 (suc b),
      bit_xor_step (suc b) 0,
      comm_fuel n 0 (suc b / 2) (omega arith),
    )
comm_fuel (suc n) (suc a) b h = omega (
  arith,
  bit_xor_step (suc a) b,
  bit_xor_step b (suc a),
  comm_fuel n (suc a / 2) (b / 2) (omega arith),
)

pub bit_xor_comm : (a b : ℕ) → bit_xor a b ≡ bit_xor b a
bit_xor_comm a b = comm_fuel (a + b) a b (omega arith)

doubled_field : (k q : ℕ) → q * 2 ^ suc k ≡ q * 2 ^ k * 2
doubled_field k q = omega (arith, ap (◌*◌ q) (pow-suc 2 k))

half_field : (k q r : ℕ) → (q * 2 ^ suc k + r) / 2 ≡ q * 2 ^ k + r / 2
half_field k q r = omega (arith, doubled_field k q)

-- Fields above and below position `k` do not meet.
bit_xor_fields :
    (k p q r s : ℕ)
    → r < 2 ^ k
    → s < 2 ^ k
    → (bit_xor (p * 2 ^ k + r) (q * 2 ^ k + s) ≡ bit_xor p q * 2 ^ k + bit_xor r s)
      × (bit_xor r s < 2 ^ k)
bit_xor_fields zero p q r s hr hs = ground (arith, zero-bit_xor 0)
bit_xor_fields (suc k) p q r s hr hs =
    let ih =
      bit_xor_fields k p q (r / 2) (s / 2) (omega (arith, pow-suc 2 k))
        (omega (arith, pow-suc 2 k)) in
    let low = bit_xor_step r s in
    let whole =
      rw (half_field k p r, half_field k q s) at
        (bit_xor_step (p * 2 ^ suc k + r) (q * 2 ^ suc k + s)) in
    let twice = doubled_field k (bit_xor p q) in
    (omega (arith, doubled_field k p, doubled_field k q), omega (arith, pow-suc 2 k))

-- The lowest byte of an exclusive or, and the rest of it.
pub bit_xor_byte :
    (a b : ℕ)
    → (bit_xor a b / 256 ≡ bit_xor (a / 256) (b / 256))
      × (bit_xor a b % 256 ≡ bit_xor (a % 256) (b % 256))
bit_xor_byte a b =
    let fields =
      bit_xor_fields 8 (a / 256) (b / 256) (a % 256) (b % 256) (omega arith) (omega arith) in
    let a_fields : a / 256 * 256 + a % 256 ≡ a = omega arith in
    let b_fields : b / 256 * 256 + b % 256 ≡ b = omega arith in
    let whole = rw (a_fields, b_fields) at (fields.0) in (omega arith, omega arith)
