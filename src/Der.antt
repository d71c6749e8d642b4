-- ===== src/Der.antt =====
-- secmem-crypto/parse_openssh.go and secmem-crypto/rsabounds.go: the PKCS#1 structure that is assembled
-- from the six integers of an OpenSSH RSA key, written into a slice of its exact size, and the bounds
-- on those integers. A slice and its cursor are those of the SSH writer.
pub mod Lengths
pub mod Sequence
pub mod Integers
pub mod Bounds
use secmem.Prelude.{
  ℕ, zero, suc, ◌+◌, ◌-◌, ◌*◌, ◌/◌, ◌%◌, ◌^◌, Bool, true, false, not, ◌&&◌, ◌||◌, if◌then◌else◌,
  ltb, ◌==◌, Option, none, some, List, [], ◌∷◌, length, get_or,
}
use Prim.Native.Nat.{bit_and, bit_or}
use secmem.SshWire.{Writer, Put, ◌▷◌, put_bytes, put_exact}

-- bits.Len8, and bitLen of a stripped magnitude.
unfoldable pub len8 : ℕ → ℕ
len8 b =
    if ltb b 1
    then 0
    else if ltb b 2
    then 1
    else if ltb b 4
    then 2
    else if ltb b 8
    then 3
    else if ltb b 16
    then 4
    else if ltb b 32
    then 5
    else if ltb b 64
    then 6
    else if ltb b 128
    then 7
    else 8

unfoldable pub bit_len : List ℕ → ℕ
bit_len [] = 0
bit_len (b ∷ bs) = length bs * 8 + len8 b

abbrev pub max_modulus_bits : ℕ
max_modulus_bits = 16384

abbrev pub max_prime_bits : ℕ
max_prime_bits = 8192

abbrev pub max_exponent_bits : ℕ
max_exponent_bits = 24

-- `v[len(v)-1]`, of a list that is not empty.
unfoldable pub last_byte : List ℕ → ℕ
last_byte v = get_or v (length v - 1) 0

unfoldable pub all_within : ℕ → List (List ℕ) → Bool
all_within cap [] = true
all_within cap (v ∷ vs) = not (ltb cap (bit_len v)) && all_within cap vs

-- checkRSAIntegers; false is errMalformed.
unfoldable pub check_rsa_integers : (n e d p q : List ℕ) → (crt : List (List ℕ)) → Bool
check_rsa_integers n e d p q crt =
    if ltb max_modulus_bits (bit_len n)
    then false
    else if ltb max_modulus_bits (bit_len d)
    then false
    else if ltb max_prime_bits (bit_len p) || ltb max_prime_bits (bit_len q)
    then false
    else if ltb max_exponent_bits (bit_len e) || ltb (bit_len e) 2
    then false
    else if bit_and (last_byte e) 1 == 0
    then false
    else all_within max_prime_bits crt

-- derInt.magnitude's second half, contentLen and encodedLen.
unfoldable pub is_high : List ℕ → Bool
is_high [] = false
is_high (b ∷ bs) = not (bit_and b 128 == 0)

unfoldable pub content_len : List ℕ → ℕ
content_len raw = if length raw == 0 then 1 else if is_high raw then length raw + 1 else length raw

-- derLengthOctets: a round shifts by a byte. An int has eight, so eight rounds are enough.
unfoldable pub octet_count : ℕ → ℕ → ℕ
octet_count zero v = 0
octet_count (suc fuel) v = let rest = octet_count fuel (v / 256) in if v == 0 then 0 else suc rest

unfoldable pub length_octets : ℕ → ℕ
length_octets n = octet_count 8 n

-- derLengthLen, for a length that is not negative.
unfoldable pub length_len : ℕ → ℕ
length_len n = if ltb n 128 then 1 else 1 + length_octets n

unfoldable pub encoded_len : List ℕ → ℕ
encoded_len raw = 1 + length_len (content_len raw) + content_len raw

abbrev pub put_byte : ℕ → Put
put_byte v = put_exact (v ∷ [])

-- The loop `for i := k - 1; i >= 0; i--`.
unfoldable pub put_octets : (k n : ℕ) → Put
put_octets zero n w = some w
put_octets (suc i) n w = let rest = put_octets i n in (put_byte (n / 256 ^ i % 256) ▷ rest) w

-- derWriter.putLength and putInteger.
unfoldable pub put_der_length : ℕ → Put
put_der_length n =
    if ltb n 128
    then put_byte (n % 256)
    else put_byte (bit_or 128 (length_octets n % 256)) ▷ put_octets (length_octets n) n

unfoldable pub put_content : List ℕ → Put
put_content raw =
    if length raw == 0
    then put_byte 0
    else if is_high raw
    then put_byte 0 ▷ put_bytes raw
    else put_bytes raw

unfoldable pub put_integer : List ℕ → Put
put_integer raw = put_byte 2 ▷ put_der_length (content_len raw) ▷ put_content raw

-- The two loops of pkcs1DER over its fields, and the size in between.
unfoldable pub fields_len : List (List ℕ) → ℕ
fields_len [] = 0
fields_len (raw ∷ rest) = encoded_len raw + fields_len rest

unfoldable pub put_fields : List (List ℕ) → Put
put_fields [] w = some w
put_fields (raw ∷ rest) w = let more = put_fields rest in (put_integer raw ▷ more) w

unfoldable pub sequence_len : List (List ℕ) → ℕ
sequence_len fields = 1 + length_len (fields_len fields) + fields_len fields

unfoldable pub put_sequence : List (List ℕ) → Put
put_sequence fields = put_byte 48 ▷ put_der_length (fields_len fields) ▷ put_fields fields

-- The write of pkcs1DER into its buffer; none is the panic or the size mismatch.
unfoldable pub assemble : (dst : List ℕ) → (fields : List (List ℕ)) → Option (List ℕ)
assemble dst fields = elim (put_sequence fields (record { buffer = dst; n = 0 })) [
  | none ↦ none
  | some w ↦ if w.n == length dst then some w.buffer else none
]
