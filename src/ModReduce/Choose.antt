-- ===== src/ModReduce/Choose.antt =====
-- secmem-crypto/modreduce.go: the branch-free choice, and one round of the reduction.
use secmem.Prelude.{
  ℕ, zero, suc, ◌+◌, ◌-◌, ◌*◌, ◌/◌, ◌%◌, ◌^◌, ◌≤◌, ◌<◌, List, [], ◌∷◌, length, ◌≡◌, ◌⊎◌, inl, inr,
  refl, sym, ap, subst, ◌∙◌, arith,
}
use Prim.Native.Nat.{bit_and, bit_or, digits, min, max, bit_and-bitwise, bit_or-bitwise}
use secmem.ModReduce.{base, double, subtract, choose, reduce_bit}
use secmem.ModReduce.Limbs.{
  number, span, AreLimbs, number-lt, length-double, length-subtract, double-AreLimbs,
  subtract-AreLimbs, double-number, subtract-number,
}

-- The digits of `&` with zero, and with a number of ones.
and_none : (n a : ℕ) → digits (λ b. zero) min n a 0 ≡ 0
and_none zero a = refl
and_none (suc n) zero = refl
and_none (suc n) (suc a) = omega (arith, and_none n (suc a / 2))

two_pos : (k : ℕ) → 1 ≤ 2 ^ k
two_pos zero = omega arith
two_pos (suc k) = let step : 2 ^ suc k ≡ 2 * 2 ^ k = grind arith in omega (arith, step, two_pos k)

and_ones : (n k a : ℕ) → a ≤ n → a < 2 ^ k → digits (λ b. zero) min n a (2 ^ k - 1) ≡ a
and_ones zero k zero h lt = refl
and_ones zero k (suc a) h lt = absurd (omega arith)
and_ones (suc n) k zero h lt = refl
and_ones (suc n) zero (suc a) h lt = absurd (omega arith)
and_ones (suc n) (suc k) (suc a) h lt =
    let step : 2 ^ suc k ≡ 2 * 2 ^ k = grind arith in
    let half : (2 ^ suc k - 1) / 2 ≡ 2 ^ k - 1 = omega (arith, step, two_pos k) in
    let odd : (2 ^ suc k - 1) % 2 ≡ 1 = omega (arith, step, two_pos k) in
    let ih = and_ones n k (suc a / 2) (omega arith) (omega (arith, step)) in
    let high = ap (λ b. digits (λ d. zero) min n (suc a / 2) b) half in omega (arith, ih, high, odd)

or_none : (n a : ℕ) → a ≤ n → digits (λ b. b) max n a 0 ≡ a
or_none zero zero h = refl
or_none zero (suc a) h = absurd (omega arith)
or_none (suc n) zero h = refl
or_none (suc n) (suc a) h = omega (arith, or_none n (suc a / 2) (omega arith))

bit_and-zero : (a : ℕ) → bit_and a 0 ≡ 0
bit_and-zero a = bit_and-bitwise a 0 ∙ and_none a a

bit_and-word : (a : ℕ) → a < base → bit_and a 18446744073709551615 ≡ a
bit_and-word a h = bit_and-bitwise a 18446744073709551615 ∙ and_ones a 64 a (omega arith) h

bit_or-zero : (a : ℕ) → bit_or a 0 ≡ a
bit_or-zero a = bit_or-bitwise a 0 ∙ or_none a a (omega arith)

zero-bit_or : (a : ℕ) → bit_or 0 a ≡ a
zero-bit_or a = bit_or-bitwise 0 a

-- A mask of ones chooses the first list, a mask of zeros the second.
choose-first :
    (ts rs : List ℕ) → AreLimbs ts → length ts ≡ length rs → choose 18446744073709551615 ts rs ≡ ts
unfolding choose
choose-first [] [] all h = refl
choose-first [] (r ∷ rs) all h = absurd (omega arith)
choose-first (t ∷ ts) [] all h = absurd (omega arith)
choose-first (t ∷ ts) (r ∷ rs) (ht, all) h =
    cc (bit_and-word t ht, bit_and-zero r, bit_or-zero t, choose-first ts rs all (omega arith))

choose-second : (ts rs : List ℕ) → AreLimbs rs → length ts ≡ length rs → choose 0 ts rs ≡ rs
unfolding choose
choose-second [] rs all h = refl
choose-second (t ∷ ts) [] all h = absurd (omega arith)
choose-second (t ∷ ts) (r ∷ rs) (hr, all) h =
    cc (bit_and-zero t, bit_and-word r hr, zero-bit_or r, choose-second ts rs all (omega arith))

-- What a round keeps of the remainder: words, as many as the modulus has, and a number below it.
pub record IsRemainder (ms rs : List ℕ) : Type 0 where
  pub words : AreLimbs rs
  pub sizes : length rs ≡ length ms
  pub below : number rs < number ms

-- The modulus leaves its top limb's room for the doubled remainder.
pub record IsModulus (ms : List ℕ) : Type 0 where
  pub words : AreLimbs ms
  pub room : 2 * number ms ≤ span ms

-- span depends on the count alone.
span-length : (xs ys : List ℕ) → length xs ≡ length ys → span xs ≡ span ys
unfolding span
span-length [] [] h = refl
span-length [] (y ∷ ys) h = absurd (omega arith)
span-length (x ∷ xs) [] h = absurd (omega arith)
span-length (x ∷ xs) (y ∷ ys) h = ap (λ n. base * n) (span-length xs ys (omega arith))

carry_none : (d w o n : ℕ) → d + w * o ≡ n → n < w → o ≡ 0
carry_none d w zero n h lt = refl
carry_none d w (suc o) n h lt = absurd (grind arith)

-- The choice after the subtraction, by its borrow.
keep :
    (borrow n : ℕ) (ms doubled ts : List ℕ)
    → AreLimbs doubled
    → AreLimbs ts
    → length doubled ≡ length ms
    → length ts ≡ length doubled
    → number doubled ≡ n
    → borrow < 2
    → number ts + number ms + 0 ≡ number doubled + span doubled * borrow
    → n < 2 * number ms
    → IsRemainder ms (choose ((borrow + base - 1) % base) ts doubled)
      × ((number (choose ((borrow + base - 1) % base) ts doubled) ≡ n)
          ⊎ (number (choose ((borrow + base - 1) % base) ts doubled) + number ms ≡ n))
keep zero n ms doubled ts words chosen size same exact small less two =
    let e = choose-first ts doubled chosen same in
    let total = ap number e in
    (
      record {
        words = subst AreLimbs (sym e) chosen;
        sizes = ap length e ∙ same ∙ size;
        below = omega (arith, total, less, exact, two);
      },
      inr (omega (arith, total, less, exact)),
    )
keep (suc zero) n ms doubled ts words chosen size same exact small less two =
    let e = choose-second ts doubled words same in
    let total = ap number e in
    let under = number-lt ts chosen in
    let spans = span-length ts doubled same in
    (
      record {
        words = subst AreLimbs (sym e) words;
        sizes = ap length e ∙ size;
        below = omega (arith, total, less, under, spans);
      },
      inl (total ∙ exact),
    )
keep (suc (suc k)) n ms doubled ts words chosen size same exact small less two =
    absurd (omega arith)

-- A round puts in one bit: the new remainder is twice the old one and the bit, less the modulus if
-- that is not below it.
pub reduce_bit-number :
    (ms rs : List ℕ) (bit : ℕ)
    → IsModulus ms
    → IsRemainder ms rs
    → bit < 2
    → IsRemainder ms (reduce_bit ms bit rs)
      × ((number (reduce_bit ms bit rs) ≡ 2 * number rs + bit)
          ⊎ (number (reduce_bit ms bit rs) + number ms ≡ 2 * number rs + bit))
unfolding reduce_bit
reduce_bit-number ms rs bit m r hb =
    let doubled = (double bit rs).0 in
    let words = double-AreLimbs bit rs hb r.words in
    let size : length doubled ≡ length ms = length-double bit rs ∙ r.sizes in
    let twice = double-number bit rs r.words in
    let spans = span-length rs ms r.sizes in
    let lost : (double bit rs).1 ≡ 0 =
      carry_none (number doubled) (span rs) (double bit rs).1 (2 * number rs + bit) twice
        (omega (arith, spans, r.below, m.room)) in
    let exact : number doubled ≡ 2 * number rs + bit =
      omega (arith, twice, ap (λ o. span rs * o) lost) in
    let (small, less) = subtract-number 0 doubled ms words m.words size (omega arith) in
    keep (subtract 0 doubled ms).1 (2 * number rs + bit) ms doubled (subtract 0 doubled ms).0 words
      (subtract-AreLimbs 0 doubled ms) size (length-subtract 0 doubled ms size) exact small less
      (omega (arith, r.below))
