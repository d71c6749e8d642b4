-- ===== src/OpenSsh/Modes.antt =====
-- secmem-crypto/openssh_cipher.go: counter mode undoes itself, its counter counts, and cbcDecrypt
-- undoes the chained mode.
use secmem.Prelude.{
  ℕ, zero, suc, ◌+◌, ◌*◌, ◌%◌, ◌^◌, ◌≤◌, ◌<◌, Bool, true, false, if◌then◌else◌, List, [], ◌∷◌, ◌++◌,
  length, take, drop, ◌≡◌, refl, ap, arith, ◌&&◌, ◌==◌, length-take, length-drop, length-append,
}
use native.Mathlib.Decide.{dec_lt}
use secmem.Prelude.Xor.{xor_twice}
use secmem.SshWire.Reads.{AreBytes, take-drop}
use secmem.OpenSsh.Aes.{advance, mask, ctr_rounds, ctr_xor}

-- The number that a counter stands for.
unfoldable pub value : List ℕ → ℕ
value [] = 0
value (b ∷ bs) = b * 256 ^ length bs + value bs

pub value-lt : (ctr : List ℕ) → AreBytes ctr → value ctr < 256 ^ length ctr
unfolding value
value-lt [] bytes = omega arith
value-lt (b ∷ bs) (hb, rest) = grind (arith, value-lt bs rest)

pub length-mask : (src ks : List ℕ) → length src ≤ length ks → length (mask src ks) ≡ length src
unfolding mask
length-mask [] ks h = refl
length-mask (x ∷ src) [] h = absurd (omega arith)
length-mask (x ∷ src) (k ∷ ks) h = omega (arith, length-mask src ks (omega arith))

pub mask_twice : (src ks : List ℕ) → length src ≤ length ks → mask (mask src ks) ks ≡ src
unfolding mask
mask_twice [] ks h = refl
mask_twice (x ∷ src) [] h = absurd (omega arith)
mask_twice (x ∷ src) (k ∷ ks) h =
    let rest = mask_twice src ks (omega arith) in cc (xor_twice x k, rest)

length-ctr_rounds :
    (fuel : ℕ) (encrypt : List ℕ → List ℕ) (ctr src : List ℕ)
    → ((b : List ℕ) → length (encrypt b) ≡ 16)
    → length src ≤ fuel
    → length (ctr_rounds fuel encrypt ctr src) ≡ length src
unfolding ctr_rounds
length-ctr_rounds fuel encrypt ctr [] size h = refl
length-ctr_rounds zero encrypt ctr (x ∷ src) size h = absurd (omega arith)
length-ctr_rounds (suc fuel) encrypt ctr (x ∷ src) size h =
    let block = take 16 (x ∷ src) in
    let rest = drop 16 (x ∷ src) in
    let taken = length-take 16 (x ∷ src) in
    let dropped = length-drop 16 (x ∷ src) in
    omega (
      arith,
      taken,
      dropped,
      size ctr,
      length-append (mask block (encrypt ctr)) (ctr_rounds fuel encrypt (advance ctr).0 rest),
      length-mask block (encrypt ctr) (omega (arith, taken, size ctr)),
      length-ctr_rounds fuel encrypt (advance ctr).0 rest size (omega (arith, dropped)),
    )

-- Cutting a first block off what was put together from one.
module _ {ℓ} {A : Type ℓ} where
  pub take_block :
      (n : ℕ) (block rest : List A)
      → length block ≤ n
      → (length block < n → length rest ≡ 0)
      → (take n (block ++ rest) ≡ block) × (drop n (block ++ rest) ≡ rest)
  take_block zero [] rest le short = (refl, refl)
  take_block zero (x ∷ block) rest le short = absurd (omega arith)
  take_block (suc n) [] [] le short = (refl, refl)
  take_block (suc n) [] (y ∷ rest) le short =
      let nothing = short (omega arith) in absurd (omega (arith, nothing))
  take_block (suc n) (x ∷ block) rest le short =
      let (front, back) = take_block n block rest (omega arith) (λ lt. short (omega (arith, lt))) in
      (ap (◌∷◌ x) front, back)

ctr_rounds_step :
    (fuel : ℕ) (encrypt : List ℕ → List ℕ) (ctr src : List ℕ)
    → ctr_rounds (suc fuel) encrypt ctr src
      ≡ mask (take 16 src) (encrypt ctr) ++ ctr_rounds fuel encrypt (advance ctr).0 (drop 16 src)
unfolding ctr_rounds mask
ctr_rounds_step zero encrypt ctr [] = refl
ctr_rounds_step (suc fuel) encrypt ctr [] = refl
ctr_rounds_step zero encrypt ctr (x ∷ src) = refl
ctr_rounds_step (suc fuel) encrypt ctr (x ∷ src) = refl

ctr_rounds-nil :
    (fuel : ℕ) (encrypt : List ℕ → List ℕ) (ctr : List ℕ) → ctr_rounds fuel encrypt ctr [] ≡ []
unfolding ctr_rounds
ctr_rounds-nil zero encrypt ctr = refl
ctr_rounds-nil (suc fuel) encrypt ctr = refl

ctr_rounds_twice :
    (fuel : ℕ) (encrypt : List ℕ → List ℕ) (ctr src : List ℕ)
    → ((b : List ℕ) → length (encrypt b) ≡ 16)
    → length src ≤ fuel
    → ctr_rounds fuel encrypt ctr (ctr_rounds fuel encrypt ctr src) ≡ src
ctr_rounds_twice zero encrypt ctr [] size h = cc (ctr_rounds-nil zero encrypt ctr)
ctr_rounds_twice zero encrypt ctr (x ∷ src) size h = absurd (omega arith)
ctr_rounds_twice (suc fuel) encrypt ctr [] size h = cc (ctr_rounds-nil (suc fuel) encrypt ctr)
ctr_rounds_twice (suc fuel) encrypt ctr (x ∷ src) size h =
    let block = take 16 (x ∷ src) in
    let rest = drop 16 (x ∷ src) in
    let taken = length-take 16 (x ∷ src) in
    let dropped = length-drop 16 (x ∷ src) in
    let next = (advance ctr).0 in
    let masked = mask block (encrypt ctr) in
    let out = ctr_rounds fuel encrypt next rest in
    let masked_size = length-mask block (encrypt ctr) (omega (arith, taken, size ctr)) in
    let out_size = length-ctr_rounds fuel encrypt next rest size (omega (arith, dropped)) in
    let (front, back) =
      take_block 16 masked out (omega (arith, taken, masked_size))
        (λ lt. omega (arith, taken, dropped, masked_size, out_size, lt)) in
    cc (
      ctr_rounds_step fuel encrypt ctr (x ∷ src),
      ctr_rounds_step fuel encrypt ctr (masked ++ out),
      front,
      back,
      mask_twice block (encrypt ctr) (omega (arith, taken, size ctr)),
      ctr_rounds_twice fuel encrypt next rest size (omega (arith, dropped)),
      take-drop 16 (x ∷ src),
    )

-- Counter mode under one key and one IV undoes itself.
pub ctr_xor_twice :
    (encrypt : List ℕ → List ℕ) (iv src : List ℕ)
    → ((b : List ℕ) → length (encrypt b) ≡ 16)
    → ctr_xor encrypt iv (ctr_xor encrypt iv src) ≡ src
unfolding ctr_xor
ctr_xor_twice encrypt iv src size =
    let same = length-ctr_rounds (length src) encrypt iv src size (omega arith) in
    cc (same, ctr_rounds_twice (length src) encrypt iv src size (omega arith))

pub length-ctr_xor :
    (encrypt : List ℕ → List ℕ) (iv src : List ℕ)
    → ((b : List ℕ) → length (encrypt b) ≡ 16)
    → length (ctr_xor encrypt iv src) ≡ length src
unfolding ctr_xor
length-ctr_xor encrypt iv src size =
    length-ctr_rounds (length src) encrypt iv src size (omega arith)

length-advance : (ctr : List ℕ) → length (advance ctr).0 ≡ length ctr
unfolding advance
length-advance [] = refl
length-advance (b ∷ bs) = ground (arith, length-advance bs)

-- One digit of the counter: `weight` is what it stands for.
advance_digit :
    (b weight low next : ℕ) (carry : Bool)
    → b < 256
    → next + (if carry then weight else 0) ≡ low + 1
    → (if carry then (b + 1) % 256 * weight + next else b * weight + next)
        + (if carry && ((b + 1) % 256 == 0) then 256 * weight else 0)
      ≡ b * weight + low + 1
advance_digit b weight low next false lt h = omega arith
advance_digit b weight low next true lt h = elim (dec_lt b 255) [
  | yes below ↦
      let small : (b + 1) % 256 ≡ b + 1 = omega arith in
      let product : (b + 1) % 256 * weight ≡ (b + 1) * weight = ap (λ d. d * weight) small in
      ground (arith, small, product)
  | no above ↦
      let top : b ≡ 255 = omega arith in
      let turned : (b + 1) % 256 ≡ 0 = omega arith in
      let product : b * weight ≡ 255 * weight = ap (λ d. d * weight) top in
      let gone : (b + 1) % 256 * weight ≡ 0 * weight = ap (λ d. d * weight) turned in
      ground (arith, product, turned, gone)
]

-- The counter is a number of len(ctr) bytes, and it counts up by one; on all ones it starts over.
pub advance-value :
    (ctr : List ℕ)
    → AreBytes ctr
    → value (advance ctr).0 + (if (advance ctr).1 then 256 ^ length ctr else 0) ≡ value ctr + 1
unfolding advance value
advance-value [] bytes = refl
advance-value (b ∷ bs) (hb, rest) =
    let weight = 256 ^ length bs in
    let ih = advance-value bs rest in
    let digit = advance_digit b weight (value bs) (value (advance bs).0) (advance bs).1 hb ih in
    let size = length-advance bs in
    let power : 256 ^ suc (length bs) ≡ 256 * weight = grind arith in
    ground (arith, digit, size, power)
