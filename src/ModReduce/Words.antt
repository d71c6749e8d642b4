-- ===== src/ModReduce/Words.antt =====
-- secmem-crypto/modreduce.go: bytes into limbs, by the numbers they stand for.
use secmem.Prelude.{
  ℕ, zero, suc, ◌+◌, ◌*◌, ◌^◌, ◌≤◌, ◌<◌, true, List, [], ◌∷◌, length, take, drop, length-drop,
  replicate, ◌≡◌, ◌↔◌, refl, sym, ap, subst, ◌∙◌, arith,
}
use secmem.SshWire.Reads.{AreBytes}
use secmem.ModReduce.{base, from_last, limb_of, group, set_limbs, all_zero}
use secmem.ModReduce.Limbs.{number, number-lt, span, AreLimbs}
use secmem.ModReduce.Choose.{IsModulus}
use secmem.Der.Lengths as Der

limb_of-from_last : (bs acc : List ℕ) → limb_of (from_last bs acc) ≡ Der.number (limb_of acc) bs
unfolding limb_of from_last Der.number
limb_of-from_last [] acc = refl
limb_of-from_last (b ∷ bs) acc =
    let e : limb_of (b ∷ acc) ≡ limb_of acc * 256 + b = omega arith in
    limb_of-from_last bs (b ∷ acc) ∙ ap (λ n. Der.number n bs) e

length-from_last : (bs acc : List ℕ) → length (from_last bs acc) ≡ length bs + length acc
unfolding from_last
length-from_last [] acc = omega arith
length-from_last (b ∷ bs) acc = omega (arith, length-from_last bs (b ∷ acc))

from_last-AreBytes : (bs acc : List ℕ) → AreBytes bs → AreBytes acc → AreBytes (from_last bs acc)
unfolding from_last
from_last-AreBytes [] acc all done = done
from_last-AreBytes (b ∷ bs) acc (hb, all) done = from_last-AreBytes bs (b ∷ acc) all (hb, done)

scale : (b t w d : ℕ) → b + 256 * (t + w * d) ≡ b + 256 * t + 256 * w * d
scale b t w d = grind arith

limb_of-split :
    (k : ℕ) (bs : List ℕ) → limb_of bs ≡ limb_of (take k bs) + 256 ^ k * limb_of (drop k bs)
unfolding limb_of
limb_of-split zero bs = omega arith
limb_of-split (suc k) [] = omega arith
limb_of-split (suc k) (b ∷ bs) =
    let power : 256 ^ suc k ≡ 256 * 256 ^ k = grind arith in
    let tail = limb_of (drop k bs) in
    omega (
      arith,
      ap (λ n. b + 256 * n) (limb_of-split k bs),
      scale b (limb_of (take k bs)) (256 ^ k) tail,
      ap (λ w. w * tail) power,
    )

limb_of-lt : (k : ℕ) (bs : List ℕ) → AreBytes bs → limb_of (take k bs) < 256 ^ k
unfolding limb_of
limb_of-lt zero bs all = omega arith
limb_of-lt (suc k) [] all = Der.pow_pos (suc k)
limb_of-lt (suc k) (b ∷ bs) (hb, all) =
    let power : 256 ^ suc k ≡ 256 * 256 ^ k = grind arith in
    omega (arith, limb_of-lt k bs all, power)

drop-AreBytes : (k : ℕ) (bs : List ℕ) → AreBytes bs → AreBytes (drop k bs)
drop-AreBytes zero bs all = all
drop-AreBytes (suc k) [] all = tt
drop-AreBytes (suc k) (b ∷ bs) (hb, all) = drop-AreBytes k bs all

-- Enough groups of eight hold every byte.
group-number : (n : ℕ) (bs : List ℕ) → length bs ≤ 8 * n → number (group n bs) ≡ limb_of bs
unfolding number group limb_of
group-number zero [] h = refl
group-number zero (b ∷ bs) h = absurd (omega arith)
group-number (suc n) bs h =
    let ih = group-number n (drop 8 bs) (omega (arith, length-drop 8 bs)) in
    omega (arith, ih, limb_of-split 8 bs)

group-AreLimbs : (n : ℕ) (bs : List ℕ) → AreBytes bs → AreLimbs (group n bs)
unfolding group
group-AreLimbs zero bs all = tt
group-AreLimbs (suc n) bs all =
    (limb_of-lt 8 bs all, group-AreLimbs n (drop 8 bs) (drop-AreBytes 8 bs all))

span-group : (n : ℕ) (bs : List ℕ) → span (group n bs) ≡ base ^ n
unfolding span group
span-group zero bs = refl
span-group (suc n) bs =
    let power : base ^ suc n ≡ base * base ^ n = grind arith in
    ap (λ w. base * w) (span-group n (drop 8 bs)) ∙ sym power

length-group : (n : ℕ) (bs : List ℕ) → length (group n bs) ≡ n
unfolding group
length-group zero bs = refl
length-group (suc n) bs = ap suc (length-group n (drop 8 bs))

pub set_limbs-number :
    (nl : ℕ) (m : List ℕ) → length m ≤ 8 * nl → number (set_limbs nl m) ≡ Der.number 0 m
unfolding set_limbs limb_of
set_limbs-number nl m h =
    group-number nl (from_last m []) (omega (arith, length-from_last m [])) ∙ limb_of-from_last m []

-- With a limb more than the bytes fill, the number can be doubled.
group-room :
    (n : ℕ) (bs : List ℕ)
    → AreBytes bs
    → length bs ≤ 8 * n
    → 2 * number (group (suc n) bs) ≤ span (group (suc n) bs)
group-room n bs all h =
    let power : base ^ suc n ≡ base * base ^ n = grind arith in
    omega (
      arith,
      group-number (suc n) bs (omega arith),
      group-number n bs h,
      number-lt (group n bs) (group-AreLimbs n bs all),
      span-group n bs,
      span-group (suc n) bs,
      power,
    )

pub set_limbs-IsModulus :
    (nl : ℕ) (m : List ℕ) → AreBytes m → length m ≤ 8 * nl → IsModulus (set_limbs (nl + 1) m)
unfolding set_limbs
set_limbs-IsModulus nl m all h =
    let next : suc nl ≡ nl + 1 = omega arith in
    let bytes = from_last-AreBytes m [] all tt in
    let fits : length (from_last m []) ≤ 8 * nl = omega (arith, length-from_last m []) in
    let whole : IsModulus (group (suc nl) (from_last m [])) = record {
      words = group-AreLimbs (suc nl) (from_last m []) bytes;
      room = group-room nl (from_last m []) bytes fits;
    } in
    subst (λ n. IsModulus (group n (from_last m []))) next whole

pub length-set_limbs : (nl : ℕ) (m : List ℕ) → length (set_limbs nl m) ≡ nl
unfolding set_limbs
length-set_limbs nl m = length-group nl (from_last m [])

pub zeros-number : (n : ℕ) → number (replicate n 0) ≡ 0
unfolding number
zeros-number zero = refl
zeros-number (suc n) = omega (arith, zeros-number n)

pub zeros-AreLimbs : (n : ℕ) → AreLimbs (replicate n 0)
zeros-AreLimbs zero = tt
zeros-AreLimbs (suc n) = (omega arith, zeros-AreLimbs n)

pub all_zero_iff : (ws : List ℕ) → (all_zero ws ≡ true) ↔ (number ws ≡ 0)
unfolding all_zero number
all_zero_iff [] = (λ h. refl, λ h. refl)
all_zero_iff (w ∷ ws) = let (there, back) = all_zero_iff ws in ground (arith, there, back)
