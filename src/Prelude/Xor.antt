-- ===== src/Prelude/Xor.antt =====
-- The digits of `^`: masking twice by the same number gives the number back.
use Prim.Native.Nat.{
  ℕ, zero, suc, ◌+◌, ◌*◌, ◌/◌, ◌%◌, ◌≤◌, ◌<◌, bit_xor, digits, bit_xor-bitwise, differ,
}
use mathlib.Core.Path.{◌≡◌, refl}
use native.Mathlib.Omega.{arith}

abbrev xor_digits : ℕ → ℕ → ℕ → ℕ
xor_digits n a b = digits (λ b. b) differ n a b

xor_digits_fuel : (n m a b : ℕ) → a ≤ n → a ≤ m → xor_digits n a b ≡ xor_digits m a b
xor_digits_fuel zero zero a b p q = refl
xor_digits_fuel zero (suc m) zero b p q = refl
xor_digits_fuel zero (suc m) (suc a) b p q = absurd (omega arith)
xor_digits_fuel (suc n) zero zero b p q = refl
xor_digits_fuel (suc n) zero (suc a) b p q = absurd (omega arith)
xor_digits_fuel (suc n) (suc m) zero b p q = refl
xor_digits_fuel (suc n) (suc m) (suc a) b p q =
    omega (arith, xor_digits_fuel n m (suc a / 2) (b / 2) (omega arith) (omega arith))

zero-bit_xor : (b : ℕ) → bit_xor 0 b ≡ b
zero-bit_xor b = bit_xor-bitwise 0 b

zero-differ : (b : ℕ) → differ 0 b ≡ b
zero-differ b = refl

pub bit_xor_step : (a b : ℕ) → bit_xor a b ≡ bit_xor (a / 2) (b / 2) * 2 + differ (a % 2) (b % 2)
bit_xor_step zero b = omega (arith, zero-bit_xor b, zero-bit_xor (b / 2), zero-differ (b % 2))
bit_xor_step (suc a) b = omega (
  arith,
  bit_xor-bitwise (suc a) b,
  bit_xor-bitwise (suc a / 2) (b / 2),
  xor_digits_fuel a (suc a / 2) (suc a / 2) (b / 2) (omega arith) (omega arith),
)

differ_bits : (a b : ℕ) → a < 2 → b < 2 → (differ a b < 2) × (differ (differ a b) b ≡ a)
differ_bits zero zero ha hb = (omega arith, refl)
differ_bits zero (suc zero) ha hb = (omega arith, refl)
differ_bits (suc zero) zero ha hb = (omega arith, refl)
differ_bits (suc zero) (suc zero) ha hb = (omega arith, refl)
differ_bits (suc (suc a)) b ha hb = absurd (omega arith)
differ_bits a (suc (suc b)) ha hb = absurd (omega arith)

xor_twice_below : (n a b : ℕ) → a ≤ n → b ≤ n → bit_xor (bit_xor a b) b ≡ a
xor_twice_below zero zero zero ha hb = refl
xor_twice_below zero (suc a) b ha hb = absurd (omega arith)
xor_twice_below zero zero (suc b) ha hb = absurd (omega arith)
xor_twice_below (suc n) a b ha hb =
    let x = bit_xor a b in
    let (bit, back) = differ_bits (a % 2) (b % 2) (omega arith) (omega arith) in
    let step = bit_xor_step a b in
    let high : x / 2 ≡ bit_xor (a / 2) (b / 2) = omega (arith, step, bit) in
    let low : x % 2 ≡ differ (a % 2) (b % 2) = omega (arith, step, bit) in
    let again : bit_xor x b
        ≡ bit_xor (bit_xor (a / 2) (b / 2)) (b / 2) * 2 + differ (differ (a % 2) (b % 2)) (b % 2) =
      cc (bit_xor_step x b, high, low) in
    omega (arith, again, back, xor_twice_below n (a / 2) (b / 2) (omega arith) (omega arith))

pub xor_twice : (a b : ℕ) → bit_xor (bit_xor a b) b ≡ a
xor_twice a b = xor_twice_below (a + b) a b (omega arith) (omega arith)
