-- ===== src/ModReduce/Loop.antt =====
-- secmem-crypto/modreduce.go: the loop over the bits, which keeps the remainder of the bits it has read.
use secmem.Prelude.{
  ℕ, zero, suc, ◌+◌, ◌*◌, ◌/◌, ◌%◌, ◌^◌, ◌≤◌, ◌<◌, List, [], ◌∷◌, ◌≡◌, ◌⊎◌, inl, inr, ap, subst,
  arith,
}
use native.Mathlib.Nat.{div-add-mod, mod-lt, add-mul-mod_self_left, mod-eq_of_lt}
use secmem.SshWire.Reads.{AreBytes}
use secmem.ModReduce.{reduce_bit, reduce_byte, reduce_bytes}
use secmem.ModReduce.Limbs.{number}
use secmem.ModReduce.Choose.{IsRemainder, IsModulus, reduce_bit-number}
use secmem.Der.Lengths as Der

-- The limbs hold the remainder of n.
pub record IsRemainderOf (ms rs : List ℕ) (n : ℕ) : Type 0 where
  pub kept : IsRemainder ms rs
  pub quotient : ℕ
  pub whole : n ≡ number rs + number ms * quotient

doubled_quotient : (r m q : ℕ) → 2 * (r + m * q) ≡ 2 * r + m * (2 * q)
doubled_quotient r m q = grind arith

carried_quotient : (m q : ℕ) → m * (2 * q + 1) ≡ m * (2 * q) + m
carried_quotient m q = grind arith

next_quotient :
    (m r s q n bit : ℕ)
    → n ≡ r + m * q
    → (s ≡ 2 * r + bit) ⊎ (s + m ≡ 2 * r + bit)
    → (p : ℕ) × (2 * n + bit ≡ s + m * p)
next_quotient m r s q n bit h (inl e) = (2 * q, omega (arith, h, e, doubled_quotient r m q))
next_quotient m r s q n bit h (inr e) =
    (2 * q + 1, omega (arith, h, e, doubled_quotient r m q, carried_quotient m q))

reduce_bit-IsRemainderOf :
    (ms rs : List ℕ) (bit n : ℕ)
    → IsModulus ms
    → IsRemainderOf ms rs n
    → bit < 2
    → IsRemainderOf ms (reduce_bit ms bit rs) (2 * n + bit)
reduce_bit-IsRemainderOf ms rs bit n m r h =
    let (kept, cases) = reduce_bit-number ms rs bit m r.kept h in
    let (p, e) =
      next_quotient (number ms) (number rs) (number (reduce_bit ms bit rs)) r.quotient n bit r.whole
        cases in
    record { kept = kept; quotient = p; whole = e }

shift_bits : (n w b : ℕ) → (2 * n + b) * w ≡ n * (2 * w) + b * w
shift_bits n w b = grind arith

weigh_bits : (w a b : ℕ) → w * (2 * a + b) ≡ 2 * w * a + b * w
weigh_bits w a b = grind arith

-- The low bits of b, by the highest of them.
low_bits : (b w : ℕ) → 0 < w → b % (2 * w) ≡ b / w % 2 * w + b % w
low_bits b w h =
    let top = b / w in
    let low = top % 2 * w + b % w in
    let whole : b ≡ low + 2 * w * (top / 2) = omega (
      arith,
      div-add-mod b w,
      ap (λ t. w * t) (div-add-mod top 2),
      weigh_bits w (top / 2) (top % 2),
    ) in
    let digit : top % 2 ≤ 1 = omega arith in
    let product : top % 2 * w ≤ 1 * w = grind arith in
    let small : low < 2 * w = omega (arith, product, mod-lt b h) in
    cc
      (ap (λ m. m % (2 * w)) whole, add-mul-mod_self_left low (2 * w) (top / 2), mod-eq_of_lt small)

two_pow_pos : (k : ℕ) → 0 < 2 ^ k
two_pow_pos zero = omega arith
two_pow_pos (suc k) =
    let step : 2 ^ suc k ≡ 2 * 2 ^ k = grind arith in omega (arith, step, two_pow_pos k)

reduce_byte-IsRemainderOf :
    (ms : List ℕ) (bits b : ℕ) (rs : List ℕ) (n : ℕ)
    → IsModulus ms
    → IsRemainderOf ms rs n
    → IsRemainderOf ms (reduce_byte ms bits b rs) (n * 2 ^ bits + b % 2 ^ bits)
unfolding reduce_byte
reduce_byte-IsRemainderOf ms zero b rs n m r =
    let total : n ≡ n * 1 + b % 1 = omega arith in subst (IsRemainderOf ms rs) total r
reduce_byte-IsRemainderOf ms (suc bit) b rs n m r =
    let power : 2 ^ suc bit ≡ 2 * 2 ^ bit = grind arith in
    let digit = b / 2 ^ bit % 2 in
    let first = reduce_bit-IsRemainderOf ms rs digit n m r (omega arith) in
    let rest =
      reduce_byte-IsRemainderOf ms bit b (reduce_bit ms digit rs) (2 * n + digit) m first in
    let total : (2 * n + digit) * 2 ^ bit + b % 2 ^ bit ≡ n * 2 ^ suc bit + b % 2 ^ suc bit =
      omega (
        arith,
        shift_bits n (2 ^ bit) digit,
        low_bits b (2 ^ bit) (two_pow_pos bit),
        ap (λ k. n * k) power,
        ap (λ k. b % k) power,
      ) in
    subst (IsRemainderOf ms (reduce_byte ms bit b (reduce_bit ms digit rs))) total rest

pub reduce_bytes-IsRemainderOf :
    (ms x rs : List ℕ) (n : ℕ)
    → IsModulus ms
    → AreBytes x
    → IsRemainderOf ms rs n
    → IsRemainderOf ms (reduce_bytes ms x rs) (Der.number n x)
unfolding reduce_bytes Der.number
reduce_bytes-IsRemainderOf ms [] rs n m all r = r
reduce_bytes-IsRemainderOf ms (b ∷ x) rs n m (hb, all) r =
    let byte = reduce_byte-IsRemainderOf ms 8 b rs n m r in
    let total : n * 256 + b % 256 ≡ n * 256 + b = omega arith in
    reduce_bytes-IsRemainderOf ms x (reduce_byte ms 8 b rs) (n * 256 + b) m all
      (subst (IsRemainderOf ms (reduce_byte ms 8 b rs)) total byte)
