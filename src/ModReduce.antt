-- ===== src/ModReduce.antt =====
-- secmem-crypto/modreduce.go: the reduction of a private exponent by shift and subtraction over 64-bit
-- limbs, least significant first, and the decrement of a big-endian number.
pub mod Limbs
pub mod Choose
pub mod Loop
pub mod Words
pub mod Digits
pub mod Reduced
pub mod Decrement
use secmem.Prelude.{
  ℕ, zero, suc, ◌+◌, ◌-◌, ◌*◌, ◌/◌, ◌%◌, ◌^◌, Bool, true, false, not, ◌||◌, if◌then◌else◌, ltb,
  ◌==◌, Option, none, some, List, [], ◌∷◌, ◌++◌, length, get_or, take, drop, replicate,
}
use Prim.Native.Nat.{bit_and, bit_or}
use secmem.Der.{max_modulus_bits, max_prime_bits}

-- 2 ^ 64.
abbrev pub base : ℕ
base = 18446744073709551616

-- setLimbsBE: the byte at place i, counted from the last, goes into limb i / 8. The bytes of a limb do
-- not overlap, so that their `|` is their sum.
unfoldable pub from_last : List ℕ → List ℕ → List ℕ
from_last [] acc = acc
from_last (b ∷ bs) acc = from_last bs (b ∷ acc)

unfoldable pub limb_of : List ℕ → ℕ
limb_of [] = 0
limb_of (b ∷ bs) = b + 256 * limb_of bs

unfoldable pub group : ℕ → List ℕ → List ℕ
group zero bytes = []
group (suc n) bytes = limb_of (take 8 bytes) ∷ group n (drop 8 bytes)

unfoldable pub set_limbs : (nl : ℕ) → List ℕ → List ℕ
set_limbs nl m = group nl (from_last m [])

-- `rs[i], carry = rs[i]<<1|carry, rs[i]>>63`, and the carry that is left.
unfoldable pub double : (carry : ℕ) → List ℕ → List ℕ × ℕ
double carry [] = ([], carry)
double carry (r ∷ rs) =
    let (rest, out) = double (r / 2 ^ 63) rs in ((r * 2 % base + carry) ∷ rest, out)

-- bits.Sub64, limb by limb, and the borrow that is left.
unfoldable pub subtract : (borrow : ℕ) → (rs ms : List ℕ) → List ℕ × ℕ
subtract borrow [] ms = ([], borrow)
subtract borrow (r ∷ rs) [] = ([], borrow)
subtract borrow (r ∷ rs) (m ∷ ms) =
    let (rest, out) = subtract (if ltb r (m + borrow) then 1 else 0) rs ms in
    ((r + base - m - borrow) % base ∷ rest, out)

-- `rs[i] = ts[i]&mask | rs[i]&^mask`.
unfoldable pub choose : (mask : ℕ) → (ts rs : List ℕ) → List ℕ
choose mask [] rs = rs
choose mask (t ∷ ts) [] = []
choose mask (t ∷ ts) (r ∷ rs) =
    bit_or (bit_and t mask) (bit_and r (base - 1 - mask)) ∷ choose mask ts rs

-- One bit of x: r = 2r + bit, less m where that does not borrow.
unfoldable pub reduce_bit : (ms : List ℕ) → (bit : ℕ) → List ℕ → List ℕ
reduce_bit ms bit rs =
    let doubled = (double bit rs).0 in
    let (ts, borrow) = subtract 0 doubled ms in choose ((borrow + base - 1) % base) ts doubled

-- The loop over the bits of a byte, from `bits - 1` down, and over the bytes.
unfoldable pub reduce_byte : (ms : List ℕ) → (bits b : ℕ) → List ℕ → List ℕ
reduce_byte ms zero b rs = rs
reduce_byte ms (suc bit) b rs = reduce_byte ms bit b (reduce_bit ms (b / 2 ^ bit % 2) rs)

unfoldable pub reduce_bytes : (ms : List ℕ) → (x rs : List ℕ) → List ℕ
reduce_bytes ms [] rs = rs
reduce_bytes ms (b ∷ x) rs = reduce_bytes ms x (reduce_byte ms 8 b rs)

-- limbsToBE: the low k bytes, the highest first.
unfoldable pub limb_byte : ℕ → List ℕ → ℕ
limb_byte i w = get_or w (i / 8) 0 / 256 ^ (i % 8) % 256

unfoldable pub to_bytes : (k : ℕ) → List ℕ → List ℕ
to_bytes zero w = []
to_bytes (suc i) w = limb_byte i w ∷ to_bytes i w

unfoldable pub all_zero : List ℕ → Bool
all_zero [] = true
all_zero (w ∷ ws) = let rest = all_zero ws in if w == 0 then rest else false

-- reduceMod; none is its false, with dst untouched.
unfoldable pub reduce_mod : (room : ℕ) → (x m : List ℕ) → Option (List ℕ)
reduce_mod room x m =
    if (length m == 0)
      || ltb max_prime_bits (length m * 8)
      || ltb max_modulus_bits (length x * 8)
      || not (room == length m)
    then none
    else let nl = (length m + 7) / 8 + 1 in
      let ms = set_limbs nl m in
      if all_zero ms then none else some (to_bytes room (reduce_bytes ms x (replicate nl 0)))

-- decrementBE: the number less one, and the borrow that is left.
unfoldable pub decrement : List ℕ → List ℕ × ℕ
decrement [] = ([], 1)
decrement (p ∷ ps) =
    let (rest, borrow) = decrement ps in
    ((p + 65536 - borrow) % 65536 % 256 ∷ rest, (p + 65536 - borrow) % 65536 / 2 ^ 15)
