-- ===== src/ModReduce/Reduced.antt =====
-- secmem-crypto/modreduce.go: reduceMod against the remainder of a division.
use secmem.Prelude.{
  ℕ, zero, suc, ◌+◌, ◌*◌, ◌/◌, ◌%◌, ◌<◌, false, not, ◌||◌, if◌then◌else◌, ltb, ◌==◌, Option, none,
  some, List, length, length-replicate, replicate, ◌≡◌, sym, ap, ◌∙◌, arith,
}
use native.Mathlib.Nat.{add-mul-mod_self_left, mod-eq_of_lt}
use secmem.SshWire.Reads.{AreBytes}
use secmem.ModReduce.{set_limbs, all_zero, reduce_bytes, to_bytes, reduce_mod}
use secmem.ModReduce.Limbs.{number}
use secmem.ModReduce.Choose.{IsModulus}
use secmem.ModReduce.Loop.{IsRemainderOf, reduce_bytes-IsRemainderOf}
use secmem.ModReduce.Words.{
  set_limbs-number, set_limbs-IsModulus, length-set_limbs, zeros-number, zeros-AreLimbs,
  all_zero_iff,
}
use secmem.ModReduce.Digits.{to_bytes-number}
use secmem.Der.{max_modulus_bits, max_prime_bits}
use secmem.Der.Lengths as Der

-- What the comment on reduceMod asks for: the remainder, in as many bytes as the modulus, and false
-- for a modulus that is empty, zero or too long, a number that is too long, or a destination of another
-- length.
abbrev pub remainder : (room : ℕ) → (x m : List ℕ) → Option (List ℕ)
remainder room x m =
    if (length m == 0)
      || ltb max_prime_bits (length m * 8)
      || ltb max_modulus_bits (length x * 8)
      || not (room == length m)
    then none
    else if Der.number 0 m == 0
    then none
    else some (Der.octets room (Der.number 0 x % Der.number 0 m))

start :
    (nl : ℕ) (ms : List ℕ) → length ms ≡ nl → 0 < number ms → IsRemainderOf ms (replicate nl 0) 0
start nl ms size pos =
    let zeros = zeros-number nl in
    record {
      kept = record {
        words = zeros-AreLimbs nl;
        sizes = length-replicate nl 0 ∙ sym size;
        below = omega (arith, zeros);
      };
      quotient = 0;
      whole = omega (arith, zeros);
    }

reduced :
    (room nl : ℕ) (x ms : List ℕ)
    → IsModulus ms
    → length ms ≡ nl
    → AreBytes x
    → 0 < number ms
    → to_bytes room (reduce_bytes ms x (replicate nl 0))
      ≡ Der.octets room (Der.number 0 x % number ms)
reduced room nl x ms m size all pos =
    let end = reduce_bytes-IsRemainderOf ms x (replicate nl 0) 0 m all (start nl ms size pos) in
    let left = number (reduce_bytes ms x (replicate nl 0)) in
    let value : Der.number 0 x % number ms ≡ left =
      ap (λ n. n % number ms) end.whole
      ∙ add-mul-mod_self_left left (number ms) end.quotient
      ∙ mod-eq_of_lt end.kept.below in
    to_bytes-number room (reduce_bytes ms x (replicate nl 0)) end.kept.words
    ∙ ap (λ n. Der.octets room n) (sym value)

by_zero :
    (room nl : ℕ) (x ms : List ℕ) (n : ℕ)
    → number ms ≡ n
    → IsModulus ms
    → length ms ≡ nl
    → AreBytes x
    → (if all_zero ms then none else some (to_bytes room (reduce_bytes ms x (replicate nl 0))))
      ≡ (if n == 0 then none else some (Der.octets room (Der.number 0 x % n)))
by_zero room nl x ms zero e m size all =
    ap (λ z. if z then none else some (to_bytes room (reduce_bytes ms x (replicate nl 0))))
      ((all_zero_iff ms).1 e)
by_zero room nl x ms (suc n) e m size all =
    let same = reduced room nl x ms m size all (omega (arith, e)) in
    let zeros = (all_zero_iff ms).0 in
    let some_bit : all_zero ms ≡ false = ground (arith, zeros, e) in
    let positive : (suc n == 0) ≡ false = ground arith in
    ap (λ z. if z then none else some (to_bytes room (reduce_bytes ms x (replicate nl 0)))) some_bit
    ∙ ap some (same ∙ ap (λ k. Der.octets room (Der.number 0 x % k)) e)
    ∙ sym (ap (λ z. if z then none else some (Der.octets room (Der.number 0 x % suc n))) positive)

-- For byte strings, reduceMod writes x mod m in as many bytes as the destination has, which is the
-- modulus's count; it refuses exactly an empty, zero or too long modulus, too long a number, and a
-- destination of another length.
pub reduce_mod-remainder :
    (room : ℕ) (x m : List ℕ) → AreBytes x → AreBytes m → reduce_mod room x m ≡ remainder room x m
unfolding reduce_mod
reduce_mod-remainder room x m hx hm =
    let nl = (length m + 7) / 8 + 1 in
    let ms = set_limbs nl m in
    ap
      (λ rest.
        if (length m == 0)
          || ltb max_prime_bits (length m * 8)
          || ltb max_modulus_bits (length x * 8)
          || not (room == length m)
        then none
        else rest)
      (by_zero room nl x ms (Der.number 0 m) (set_limbs-number nl m (omega arith))
        (set_limbs-IsModulus ((length m + 7) / 8) m hm (omega arith)) (length-set_limbs nl m) hx)
