-- ===== src/ModReduce/Digits.antt =====
-- secmem-crypto/modreduce.go: limbs into bytes, by the digits of the number.
use secmem.Prelude.{
  ℕ, zero, suc, ◌+◌, ◌*◌, ◌/◌, ◌%◌, ◌^◌, ◌<◌, List, [], ◌∷◌, get_or, ◌≡◌, refl, sym, ap, ◌∙◌, arith,
}
use native.Mathlib.Nat.{div-div-eq-div-mul, zero-div}
use secmem.ModReduce.{base, limb_byte, to_bytes}
use secmem.ModReduce.Limbs.{number, AreLimbs}
use secmem.Der.Lengths as Der

-- A digit of the lowest limb.
low_digit : (r w n : ℕ) → r < 8 → (w + base * n) / 256 ^ r % 256 ≡ w / 256 ^ r % 256
low_digit zero w n h = omega arith
low_digit (suc zero) w n h = omega arith
low_digit (suc (suc zero)) w n h = omega arith
low_digit (suc (suc (suc zero))) w n h = omega arith
low_digit (suc (suc (suc (suc zero)))) w n h = omega arith
low_digit (suc (suc (suc (suc (suc zero))))) w n h = omega arith
low_digit (suc (suc (suc (suc (suc (suc zero)))))) w n h = omega arith
low_digit (suc (suc (suc (suc (suc (suc (suc zero))))))) w n h = omega arith
low_digit (suc (suc (suc (suc (suc (suc (suc (suc r)))))))) w n h = absurd (omega arith)

power_step : (k : ℕ) → 256 ^ suc k ≡ 256 * 256 ^ k
power_step k = grind arith

half_power : (k : ℕ) → 256 ^ suc (suc (suc (suc k))) ≡ 4294967296 * 256 ^ k
half_power k = omega (
  arith,
  power_step k,
  power_step (suc k),
  power_step (suc (suc k)),
  power_step (suc (suc (suc k))),
)

word_power : (k n : ℕ) → n ≡ 8 + k → base * 256 ^ k ≡ 256 ^ n
word_power k n h =
    let half = suc (suc (suc (suc k))) in
    let sum : suc (suc (suc (suc half))) ≡ n = omega arith in
    let whole : 256 ^ suc (suc (suc (suc half))) ≡ 256 ^ n = ap (λ e. 256 ^ e) sum in
    omega (arith, half_power k, half_power half, whole)

no_digit : (r k : ℕ) → 0 / 256 ^ r % 256 ≡ 0 / 256 ^ k % 256
no_digit r k = cc (zero-div (256 ^ r), zero-div (256 ^ k))

-- Byte r of limb q is the digit of the number at 8 q + r.
place :
    (q r : ℕ) (ws : List ℕ)
    → r < 8
    → AreLimbs ws
    → get_or ws q 0 / 256 ^ r % 256 ≡ number ws / 256 ^ (8 * q + r) % 256
unfolding number
place zero r [] h all = no_digit r (8 * 0 + r)
place (suc q) r [] h all = no_digit r (8 * suc q + r)
place zero r (w ∷ ws) h (hw, all) =
    let same : 8 * 0 + r ≡ r = omega arith in
    sym (low_digit r w (number ws) h) ∙ ap (λ k. (w + base * number ws) / 256 ^ k % 256) (sym same)
place (suc q) r (w ∷ ws) h (hw, all) =
    let rest = place q r ws h all in
    let below : (w + base * number ws) / base ≡ number ws = omega arith in
    let power : base * 256 ^ (8 * q + r) ≡ 256 ^ (8 * suc q + r) =
      word_power (8 * q + r) (8 * suc q + r) (omega arith) in
    let split = div-div-eq-div-mul (w + base * number ws) base (256 ^ (8 * q + r)) in
    rest
    ∙ ap (λ n. n / 256 ^ (8 * q + r) % 256) (sym below)
    ∙ ap (λ n. n % 256) split
    ∙ ap (λ k. (w + base * number ws) / k % 256) power

-- The byte at place i of a number.
limb_byte-number : (i : ℕ) (w : List ℕ) → AreLimbs w → limb_byte i w ≡ number w / 256 ^ i % 256
unfolding limb_byte
limb_byte-number i w all =
    let same : 8 * (i / 8) + i % 8 ≡ i = omega arith in
    place (i / 8) (i % 8) w (omega arith) all ∙ ap (λ k. number w / 256 ^ k % 256) same

pub to_bytes-number : (k : ℕ) (w : List ℕ) → AreLimbs w → to_bytes k w ≡ Der.octets k (number w)
unfolding to_bytes Der.octets
to_bytes-number zero w all = refl
to_bytes-number (suc k) w all = cc (limb_byte-number k w all, to_bytes-number k w all)
