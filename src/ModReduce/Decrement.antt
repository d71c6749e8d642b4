-- ===== src/ModReduce/Decrement.antt =====
-- secmem-crypto/modreduce.go: decrementBE, by the numbers its operands stand for.
use secmem.Prelude.{
  ℕ, zero, suc, ◌+◌, ◌-◌, ◌*◌, ◌/◌, ◌%◌, ◌^◌, ◌<◌, List, [], ◌∷◌, length, ◌≡◌, refl, ap, arith,
}
use secmem.SshWire.Reads.{AreBytes}
use secmem.ModReduce.{decrement}
use secmem.Der.Lengths as Der

weigh : (a b w : ℕ) → (a * 256 + b) * w ≡ a * (256 * w) + b * w
weigh a b w = grind arith

number-head : (b : ℕ) (bs : List ℕ) → Der.number 0 (b ∷ bs) ≡ Der.number b bs
unfolding Der.number
number-head b bs = let first : 0 * 256 + b ≡ b = omega arith in ap (λ n. Der.number n bs) first

-- The number behind a prefix.
pub number-prefix :
    (acc : ℕ) (bs : List ℕ) → Der.number acc bs ≡ acc * 256 ^ length bs + Der.number 0 bs
unfolding Der.number
number-prefix acc [] = omega arith
number-prefix acc (b ∷ bs) =
    let power : 256 ^ suc (length bs) ≡ 256 * 256 ^ length bs = grind arith in
    let first : Der.number acc (b ∷ bs) ≡ Der.number (acc * 256 + b) bs = refl in
    omega (
      arith,
      first,
      number-head b bs,
      number-prefix (acc * 256 + b) bs,
      number-prefix b bs,
      weigh acc b (256 ^ length bs),
      ap (λ w. acc * w) power,
    )

pub length-decrement : (p : List ℕ) → length (decrement p).0 ≡ length p
unfolding decrement
length-decrement [] = refl
length-decrement (b ∷ p) = ap suc (length-decrement p)

top_digit : (b w r : ℕ) → b < 256 → r < w → b * w + r < 256 * w
top_digit b w r h lt = grind arith

pub number-lt : (bs : List ℕ) → AreBytes bs → Der.number 0 bs < 256 ^ length bs
unfolding Der.number
number-lt [] all = omega arith
number-lt (b ∷ bs) (hb, all) =
    let power : 256 ^ suc (length bs) ≡ 256 * 256 ^ length bs = grind arith in
    let bound = top_digit b (256 ^ length bs) (Der.number 0 bs) hb (number-lt bs all) in
    omega (arith, number-head b bs, number-prefix b bs, bound, power)

-- One byte with the borrow from the bytes behind it.
borrow_byte :
    (b o : ℕ)
    → b < 256
    → o < 2
    → ((b + 65536 - o) % 65536 / 2 ^ 15 < 2)
      × ((b + 65536 - o) % 65536 % 256 + o ≡ b + 256 * ((b + 65536 - o) % 65536 / 2 ^ 15))
borrow_byte zero zero h lt = (omega arith, omega arith)
borrow_byte zero (suc o) h lt = (omega arith, omega arith)
borrow_byte (suc b) o h lt = (omega arith, omega arith)

collect : (d o b c w r : ℕ) → d + o ≡ b + 256 * c → d * w + (r + w * o) ≡ b * w + r + 256 * w * c
collect d o b c w r h = omega (arith, ap (λ n. n * w) h, left d o w, right b c w)
  where
    left : (d o w : ℕ) → (d + o) * w ≡ d * w + w * o
    left d o w = grind arith

    right : (b c w : ℕ) → (b + 256 * c) * w ≡ b * w + 256 * w * c
    right b c w = grind arith

-- decrementBE takes one off, and a borrow is left exactly when there was nothing to take it from.
pub decrement-number :
    (p : List ℕ)
    → AreBytes p
    → ((decrement p).1 < 2)
      × (Der.number 0 (decrement p).0 + 1 ≡ Der.number 0 p + 256 ^ length p * (decrement p).1)
unfolding Der.number decrement
decrement-number [] all = (omega arith, refl)
decrement-number (b ∷ p) (hb, all) =
    let (small, ih) = decrement-number p all in
    let o = (decrement p).1 in
    let w = 256 ^ length p in
    let (out, digit) = borrow_byte b o hb small in
    let d = (b + 65536 - o) % 65536 % 256 in
    let power : 256 ^ suc (length p) ≡ 256 * w = grind arith in
    let c = (b + 65536 - o) % 65536 / 2 ^ 15 in
    (
      out,
      omega (
        arith,
        ih,
        number-head d (decrement p).0,
        number-head b p,
        number-prefix d (decrement p).0,
        number-prefix b p,
        ap (λ n. d * 256 ^ n) (length-decrement p),
        collect d o b c w (Der.number 0 p) digit,
        ap (λ x. x * c) power,
      ),
    )
