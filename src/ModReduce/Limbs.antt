-- ===== src/ModReduce/Limbs.antt =====
-- secmem-crypto/modreduce.go: what doubling and subtraction do to the number that limbs stand for.
use secmem.Prelude.{
  ℕ, suc, ◌+◌, ◌-◌, ◌*◌, ◌/◌, ◌%◌, ◌^◌, ◌<◌, if◌then◌else◌, ltb, List, [], ◌∷◌, length, ◌≡◌, refl,
  ap, arith,
}
use secmem.ModReduce.{base, double, subtract}

-- The number.
unfoldable pub number : List ℕ → ℕ
number [] = 0
number (w ∷ ws) = w + base * number ws

-- Every limb is one word.
abbrev pub AreLimbs : List ℕ → Type 0
AreLimbs [] = Unit
AreLimbs (w ∷ ws) = (w < base) × AreLimbs ws

-- 2 ^ 64 to the count of limbs.
unfoldable pub span : List ℕ → ℕ
span [] = 1
span (w ∷ ws) = base * span ws

pub number-lt : (ws : List ℕ) → AreLimbs ws → number ws < span ws
unfolding number span
number-lt [] all = omega arith
number-lt (w ∷ ws) (hw, all) = omega (arith, number-lt ws all)

pub length-double : (carry : ℕ) (rs : List ℕ) → length (double carry rs).0 ≡ length rs
unfolding double
length-double carry [] = refl
length-double carry (r ∷ rs) = ap suc (length-double (r / 2 ^ 63) rs)

pub double-AreLimbs :
    (carry : ℕ) (rs : List ℕ) → carry < 2 → AreLimbs rs → AreLimbs (double carry rs).0
unfolding double
double-AreLimbs carry [] h all = tt
double-AreLimbs carry (r ∷ rs) h (hr, all) =
    (omega arith, double-AreLimbs (r / 2 ^ 63) rs (omega arith) all)

scale_split : (w out rest n : ℕ) → rest + w * out ≡ n → base * rest + base * w * out ≡ base * n
scale_split w out rest n h = omega (arith, ap (λ k. base * k) h, distribute base rest w out)
  where
    distribute : (a r w o : ℕ) → a * (r + w * o) ≡ a * r + a * w * o
    distribute a r w o = grind arith

-- Doubling with a carry in: the number twice and the carry, split at the span.
pub double-number :
    (carry : ℕ) (rs : List ℕ)
    → AreLimbs rs
    → number (double carry rs).0 + span rs * (double carry rs).1 ≡ 2 * number rs + carry
unfolding double number span
double-number carry [] all = omega arith
double-number carry (r ∷ rs) (hr, all) =
    let next = r / 2 ^ 63 in
    let ih = double-number next rs all in
    let split =
      scale_split (span rs) (double next rs).1 (number (double next rs).0) (2 * number rs + next)
        ih in
    omega (arith, split)

pub length-subtract :
    (borrow : ℕ) (rs ms : List ℕ)
    → length rs ≡ length ms
    → length (subtract borrow rs ms).0 ≡ length rs
unfolding subtract
length-subtract borrow [] ms h = refl
length-subtract borrow (r ∷ rs) [] h = absurd (omega arith)
length-subtract borrow (r ∷ rs) (m ∷ ms) h =
    ap suc (length-subtract (if ltb r (m + borrow) then 1 else 0) rs ms (omega arith))

pub subtract-AreLimbs : (borrow : ℕ) (rs ms : List ℕ) → AreLimbs (subtract borrow rs ms).0
unfolding subtract
subtract-AreLimbs borrow [] ms = tt
subtract-AreLimbs borrow (r ∷ rs) [] = tt
subtract-AreLimbs borrow (r ∷ rs) (m ∷ ms) =
    (omega arith, subtract-AreLimbs (if ltb r (m + borrow) then 1 else 0) rs ms)

subtract_digit :
    (r m borrow next : ℕ)
    → r < base
    → m < base
    → borrow < 2
    → next ≡ (if ltb r (m + borrow) then 1 else 0)
    → (next < 2) × ((r + base - m - borrow) % base + m + borrow ≡ r + base * next)
subtract_digit r m borrow next hr hm hb e = ground (arith, e)

assoc : (a w o : ℕ) → a * w * o ≡ a * (w * o)
assoc a w o = grind arith

borrow_split :
    (t m b r w o : ℕ)
    → t + m + b ≡ r + w * o
    → base * t + base * m + base * b ≡ base * r + base * w * o
borrow_split t m b r w o h = omega (arith, h, assoc base w o)

-- Subtraction with a borrow in: the difference, lifted by the span where a borrow goes out.
pub subtract-number :
    (borrow : ℕ) (rs ms : List ℕ)
    → AreLimbs rs
    → AreLimbs ms
    → length rs ≡ length ms
    → borrow < 2
    → ((subtract borrow rs ms).1 < 2)
      × (number (subtract borrow rs ms).0 + number ms + borrow
          ≡ number rs + span rs * (subtract borrow rs ms).1)
unfolding subtract number span
subtract-number borrow [] [] hrs hms len hb = (hb, omega arith)
subtract-number borrow [] (m ∷ ms) hrs hms len hb = absurd (omega arith)
subtract-number borrow (r ∷ rs) [] hrs hms len hb = absurd (omega arith)
subtract-number borrow (r ∷ rs) (m ∷ ms) (hr, hrs) (hm, hms) len hb =
    let next : ℕ = if ltb r (m + borrow) then 1 else 0 in
    let (small, digit) = subtract_digit r m borrow next hr hm hb refl in
    let (out, ih) = subtract-number next rs ms hrs hms (omega arith) small in
    let rest = subtract next rs ms in
    let split = borrow_split (number rest.0) (number ms) next (number rs) (span rs) rest.1 ih in
    (out, omega (arith, digit, split))
