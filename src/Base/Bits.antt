-- ===== src/Base/Bits.antt =====
-- Exclusive or at variables: masking a value twice with the same key gives the value back.
use Prim.Native.Nat.{
  ℕ, zero, suc, ◌+◌, ◌*◌, ◌/◌, ◌%◌, ◌≤◌, ◌<◌, bit_xor, digits, differ, bit_xor-bitwise,
}
use mathlib.Core.Path.{◌≡◌, refl, ◌≡⟨◌⟩◌, ◌∎}
use native.Mathlib.Omega.{arith}

abbrev xor_digits : ℕ → ℕ → ℕ → ℕ
xor_digits n a b = digits (λ b. b) differ n a b

xor_digits_fuel : (n m a b : ℕ) → a ≤ n → a ≤ m → xor_digits n a b ≡ xor_digits m a b
xor_digits_fuel zero zero a b p q = refl
xor_digits_fuel zero (suc m) zero b p q = refl
xor_digits_fuel zero (suc m) (suc a) b p q = absurd (omega arith)
xor_digits_fuel (suc n) zero zero b p q = refl
xor_digits_fuel (suc n) zero (suc a) b p q = absurd (omega arith)
xor_digits_fuel (suc n) (suc m) zero b p q = refl
xor_digits_fuel (suc n) (suc m) (suc a) b p q =
    omega (arith, xor_digits_fuel n m (suc a / 2) (b / 2) (omega arith) (omega arith))

zero-bit_xor : (b : ℕ) → bit_xor 0 b ≡ b
zero-bit_xor b = bit_xor-bitwise 0 b

bit_xor_step : (a b : ℕ) → bit_xor a b ≡ bit_xor (a / 2) (b / 2) * 2 + differ (a % 2) (b % 2)
bit_xor_step zero b = omega (arith, zero-bit_xor b, zero-bit_xor (b / 2))
bit_xor_step (suc a) b = omega (
  arith,
  bit_xor-bitwise (suc a) b,
  bit_xor-bitwise (suc a / 2) (b / 2),
  xor_digits_fuel a (suc a / 2) (suc a / 2) (b / 2) (omega arith) (omega arith),
)

differ_low : (x y : ℕ) → x < 2 → y < 2 → (differ x y < 2) × (differ (differ x y) y ≡ x)
differ_low zero zero h k = (omega arith, refl)
differ_low zero (suc zero) h k = (omega arith, refl)
differ_low (suc zero) zero h k = (omega arith, refl)
differ_low (suc zero) (suc zero) h k = (omega arith, refl)
differ_low zero (suc (suc y)) h k = absurd (omega arith)
differ_low (suc zero) (suc (suc y)) h k = absurd (omega arith)
differ_low (suc (suc x)) y h k = absurd (omega arith)

halves : (q r : ℕ) → r < 2 → ((q * 2 + r) / 2 ≡ q) × ((q * 2 + r) % 2 ≡ r)
halves q r h = (omega arith, omega arith)

cancel_fuel : (n a m : ℕ) → a ≤ n → m ≤ n → bit_xor (bit_xor a m) m ≡ a
cancel_fuel zero zero zero p q = refl
cancel_fuel zero (suc a) m p q = absurd (omega arith)
cancel_fuel zero zero (suc m) p q = absurd (omega arith)
cancel_fuel (suc n) a m p q =
    let (low, same) = differ_low (a % 2) (m % 2) (omega arith) (omega arith) in
    let (half, rest) = halves (bit_xor (a / 2) (m / 2)) (differ (a % 2) (m % 2)) low in
    bit_xor (bit_xor a m) m
    ≡⟨ bit_xor_step (bit_xor a m) m ⟩
      bit_xor (bit_xor a m / 2) (m / 2) * 2 + differ (bit_xor a m % 2) (m % 2)
    ≡⟨ (rw (
      bit_xor_step a m,
      half,
      rest,
      same,
      cancel_fuel n (a / 2) (m / 2) (omega arith) (omega arith),
    )) ⟩
      a / 2 * 2 + a % 2
    ≡⟨ omega arith ⟩ a ∎

-- Masking twice with the same value changes nothing.
pub bit_xor_cancel : (a m : ℕ) → bit_xor (bit_xor a m) m ≡ a
bit_xor_cancel a m = cancel_fuel (a + m) a m (omega arith) (omega arith)
