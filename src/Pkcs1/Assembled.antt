-- ===== src/Pkcs1/Assembled.antt =====
-- secmem-crypto/parse_openssh.go: what pkcs1DER writes for an RSA key that passes its checks.
use secmem.Prelude.{ℕ, ◌-◌, ◌%◌, ◌≤◌, List, [], ◌∷◌, length}
use secmem.SshWire.Reads.{AreBytes}
use secmem.OpenSsh.PrivateBlock.{strip_zeros}
use secmem.Der.Lengths as Der

-- d mod (p - 1), in the fewest bytes.
abbrev pub crt_exponent : (d p : List ℕ) → List ℕ
crt_exponent d p = strip_zeros (Der.octets (length p) (Der.number 0 d % (Der.number 0 p - 1)))

-- What the checks leave of a prime and the private exponent.
record Sized (d p : List ℕ) : Type 0 where
  bytes : AreBytes p
  exponent_bytes : AreBytes d
  above : 2 ≤ Der.number 0 p
  short : length p ≤ 1024
  exponent_short : length d ≤ 2048

-- The nine integers of the structure, by the numbers they stand for.
abbrev pub private_key : (n e d p q iqmp : List ℕ) → List (List ℕ)
private_key n e d p q iqmp =
    [] ∷ n ∷ e ∷ d ∷ p ∷ q ∷ crt_exponent d p ∷ crt_exponent d q ∷ iqmp ∷ []
