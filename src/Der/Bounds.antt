-- ===== src/Der/Bounds.antt =====
-- secmem-crypto/parse_openssh.go and secmem-crypto/rsabounds.go: what bitLen, stripZeros and the content
-- of an INTEGER say about the number, and what checkRSAIntegers bounds.
use secmem.Prelude.{
  ℕ, zero, suc, ◌+◌, ◌-◌, ◌*◌, ◌^◌, ◌≤◌, ◌<◌, true, List, [], ◌∷◌, length, ◌≡◌, ◌≢◌, refl, ap, ◌∙◌,
  arith,
}
use Prim.Native.Nat.{bit_and}
use secmem.SshWire.Reads.{AreBytes}
use secmem.OpenSsh.Modes.{value, value-lt}
use secmem.Der.{
  len8, bit_len, check_rsa_integers, max_modulus_bits, max_prime_bits, max_exponent_bits, last_byte,
}

len8_bounds : (b : ℕ) → 0 < b → b < 256 → (2 ^ (len8 b - 1) ≤ b) × (b < 2 ^ len8 b) × (1 ≤ len8 b)
unfolding len8
len8_bounds b pos lt = ground arith

len8-lt : (b : ℕ) → b < 256 → b < 2 ^ len8 b
unfolding len8
len8-lt b lt = ground arith

double : (a b : ℕ) → 2 * (a * b) ≡ 2 * a * b
double a b = grind arith

pow_add : (a b : ℕ) → 2 ^ (a + b) ≡ 2 ^ a * 2 ^ b
pow_add zero b =
    let index : 0 + b ≡ b = omega arith in
    let one : 1 * 2 ^ b ≡ 2 ^ b = omega arith in cc (ap (λ n. 2 ^ n) index, one)
pow_add (suc a) b =
    let left : 2 ^ suc (a + b) ≡ 2 * 2 ^ (a + b) = grind arith in
    let right : 2 ^ suc a ≡ 2 * 2 ^ a = grind arith in
    let index : suc a + b ≡ suc (a + b) = omega arith in
    cc (ap (λ n. 2 ^ n) index, left, right, pow_add a b, double (2 ^ a) (2 ^ b))

pow_bytes : (k : ℕ) → 2 ^ (k * 8) ≡ 256 ^ k
pow_bytes zero = refl
pow_bytes (suc k) =
    let index : suc k * 8 ≡ 8 + k * 8 = omega arith in
    let right : 256 ^ suc k ≡ 256 * 256 ^ k = grind arith in
    cc (ap (λ n. 2 ^ n) index, pow_add 8 (k * 8), pow_bytes k, right)

scale : (x y w : ℕ) → x ≤ y → x * w ≤ y * w
scale x y w h = grind arith

two_pos : (k : ℕ) → 1 ≤ 2 ^ k
two_pos zero = omega arith
two_pos (suc k) = let step : 2 ^ suc k ≡ 2 * 2 ^ k = grind arith in omega (arith, step, two_pos k)

pow_mono : (a b : ℕ) → a ≤ b → 2 ^ a ≤ 2 ^ b
pow_mono a b h =
    let rest = b - a in
    let index : rest + a ≡ b = omega arith in
    let split = pow_add rest a in
    let whole = ap (λ n. 2 ^ n) index in
    let bound = scale 1 (2 ^ rest) (2 ^ a) (two_pos rest) in omega (arith, split, whole, bound)

commute : (x y w : ℕ) → x ≡ w → x * y ≡ y * w
commute x y w h = let swap : w * y ≡ y * w = grind arith in ap (λ t. t * y) h ∙ swap

-- A magnitude of bytes is below two to its bit length.
pub value-bit_len : (v : List ℕ) → AreBytes v → value v < 2 ^ bit_len v
unfolding value bit_len
value-bit_len [] bytes = omega arith
value-bit_len (b ∷ bs) (hb, rest) =
    let weight = 256 ^ length bs in
    let power = pow_add (length bs * 8) (len8 b) in
    let base = pow_bytes (length bs) in
    let low = value-lt bs rest in
    let top : b + 1 ≤ 2 ^ len8 b = omega (arith, len8-lt b hb) in
    let scaled = scale (b + 1) (2 ^ len8 b) weight top in
    let factor : 2 ^ (length bs * 8) * 2 ^ len8 b ≡ 2 ^ len8 b * weight =
      commute (2 ^ (length bs * 8)) (2 ^ len8 b) weight base in
    let next : (b + 1) * weight ≡ b * weight + weight = grind arith in
    omega (arith, power, factor, low, scaled, next)

below_cap : (v : List ℕ) (cap : ℕ) → AreBytes v → bit_len v ≤ cap → value v < 2 ^ cap
below_cap v cap bytes h = omega (arith, value-bit_len v bytes, pow_mono (bit_len v) cap h)

pub check_rsa_integers-lengths :
    (n e d p q : List ℕ) (crt : List (List ℕ))
    → check_rsa_integers n e d p q crt ≡ true
    → (bit_len n ≤ max_modulus_bits)
      × (bit_len d ≤ max_modulus_bits)
      × (bit_len p ≤ max_prime_bits)
      × (bit_len q ≤ max_prime_bits)
      × (bit_len e ≤ max_exponent_bits)
      × (2 ≤ bit_len e)
      × (bit_and (last_byte e) 1 ≢ 0)
unfolding check_rsa_integers
check_rsa_integers-lengths n e d p q crt h = ground arith

-- A key that passes has a modulus and a private exponent below 2^16384, primes below 2^8192 and a
-- public exponent that is odd, at least two bits and below 2^24.
check_rsa_integers-bounds :
    (n e d p q : List ℕ) (crt : List (List ℕ))
    → AreBytes n
    → AreBytes e
    → AreBytes d
    → AreBytes p
    → AreBytes q
    → check_rsa_integers n e d p q crt ≡ true
    → (value n < 2 ^ max_modulus_bits)
      × (value d < 2 ^ max_modulus_bits)
      × (value p < 2 ^ max_prime_bits)
      × (value q < 2 ^ max_prime_bits)
      × (value e < 2 ^ max_exponent_bits)
      × (2 ≤ bit_len e)
      × (bit_and (last_byte e) 1 ≢ 0)
check_rsa_integers-bounds n e d p q crt bn be bd bp bq h =
    let (hn, hd, hp, hq, he, two, odd) = check_rsa_integers-lengths n e d p q crt h in
    (
      below_cap n max_modulus_bits bn hn,
      below_cap d max_modulus_bits bd hd,
      below_cap p max_prime_bits bp hp,
      below_cap q max_prime_bits bq hq,
      below_cap e max_exponent_bits be he,
      two,
      odd,
    )
