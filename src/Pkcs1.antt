-- ===== src/Pkcs1.antt =====
-- secmem-crypto/parse_openssh.go: pkcs1DER, from the six integers of an OpenSSH RSA key to the
-- RSAPrivateKey structure. An error, errMalformed or the internal size mismatch, is none; the buffer it
-- writes into is as long as it asked for, and the allocation's own failure is not represented.
pub mod Assembled
use secmem.Prelude.{
  ℕ, Bool, true, false, not, ◌||◌, if◌then◌else◌, ◌==◌, Option, none, some, List, [], ◌∷◌, length,
  replicate,
}
use secmem.Region.{◌>>=◌}
use secmem.Der.{sequence_len, assemble, check_rsa_integers}
use secmem.ModReduce.{decrement, reduce_mod}
use secmem.OpenSsh.PrivateBlock.{strip_zeros}

-- A prime less one; none where the borrow is left or where nothing is left.
unfoldable pub less_one : List ℕ → Option (List ℕ)
less_one p =
    let (below, borrow) = decrement p in
    if not (borrow == 0) || (length (strip_zeros below) == 0) then none else some below

-- reduceMod into the width of the prime, without the zeros it leads with.
unfoldable pub exponent : (d p below : List ℕ) → Option (List ℕ)
exponent d p below = do dp ← reduce_mod (length p) d below; some (strip_zeros dp)

-- The CRT exponents, both decrements before both reductions.
unfoldable pub exponents : (d p q : List ℕ) → Option (List ℕ × List ℕ)
exponents d p q = do
  pm1 ← less_one p
  qm1 ← less_one q
  dp ← exponent d p pm1
  dq ← exponent d q qm1
  some (dp, dq)

unfoldable pub no_bytes : List ℕ → Bool
no_bytes b = length b == 0

-- pkcs1DER, of integers without leading zeros.
unfoldable pub pkcs1_stripped : (n e d p q iqmp : List ℕ) → Option (List ℕ)
pkcs1_stripped n e d p q iqmp =
    if no_bytes n || no_bytes e || no_bytes d || no_bytes p || no_bytes q || no_bytes iqmp
    then none
    else if not (check_rsa_integers n e d p q (iqmp ∷ []))
    then none
    else do
      (dp, dq) ← exponents d p q
      let fields = [] ∷ n ∷ e ∷ d ∷ p ∷ q ∷ dp ∷ dq ∷ iqmp ∷ []
      assemble (replicate (sequence_len fields) 0) fields

unfoldable pub pkcs1_der : (n e d p q iqmp : List ℕ) → Option (List ℕ)
pkcs1_der n e d p q iqmp =
    pkcs1_stripped (strip_zeros n) (strip_zeros e) (strip_zeros d) (strip_zeros p) (strip_zeros q)
      (strip_zeros iqmp)
