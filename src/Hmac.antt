-- ===== src/Hmac.antt =====
-- secmem-crypto/hmac_inplace.go: HMAC and HKDF over one-shot hashes, in a region of the caller's.
pub mod Pads
pub mod Mac
pub mod Run
pub mod Hkdf
use secmem.Prelude.{
  ℕ, zero, suc, ◌+◌, ◌-◌, ◌*◌, ◌%◌, Bool, true, false, if◌then◌else◌, ltb, List, [], ◌∷◌, ◌++◌,
  length, take, drop, write, Option, none, some,
}
use secmem.Region.{zeros}
use secmem.SealTag.{xor_first}
use Prim.Native.Nat.{min, max}

pub data InPlaceHash : Type 0 where
  hash_none hash_sha224 hash_sha256 hash_sha384 hash_sha512 hash_sha512_224 : InPlaceHash
  hash_sha512_256 hash_sha3_224 hash_sha3_256 hash_sha3_384 hash_sha3_512 hash_sha1 : InPlaceHash

-- maxHashSize.
abbrev pub max_hash_size : ℕ
max_hash_size = 64

unfoldable pub size : InPlaceHash → ℕ
size hash_sha1 = 20
size hash_sha224 = 28
size hash_sha512_224 = 28
size hash_sha3_224 = 28
size hash_sha256 = 32
size hash_sha512_256 = 32
size hash_sha3_256 = 32
size hash_sha384 = 48
size hash_sha3_384 = 48
size hash_sha512 = 64
size hash_sha3_512 = 64
size hash_none = 0

unfoldable pub block : InPlaceHash → ℕ
block hash_sha1 = 64
block hash_sha224 = 64
block hash_sha256 = 64
block hash_sha384 = 128
block hash_sha512 = 128
block hash_sha512_224 = 128
block hash_sha512_256 = 128
block hash_sha3_224 = 144
block hash_sha3_256 = 136
block hash_sha3_384 = 104
block hash_sha3_512 = 72
block hash_none = 0

-- The one-shot functions of crypto/sha1, sha256, sha512 and sha3.
abbrev pub Sums : Type 0
Sums = InPlaceHash → List ℕ → List ℕ

-- sum into a slice; none is its panic on an unsupported hash.
unfoldable pub sum : Sums → InPlaceHash → List ℕ → List ℕ → Option (List ℕ)
sum sums hash_none dst bytes = none
sum sums h dst bytes = some (write 0 (sums h bytes) dst)

-- hmacScratchSize.
unfoldable pub hmac_scratch_size : InPlaceHash → ℕ → ℕ
hmac_scratch_size h n = block h + max n (size h)

unfoldable pub total_length : List (List ℕ) → ℕ
total_length [] = 0
total_length (p ∷ ps) = length p + total_length ps

-- `n += copy(scratch[n:], p)` over the parts.
unfoldable pub copy_parts : List (List ℕ) → ℕ → List ℕ → List ℕ × ℕ
copy_parts [] n scratch = (scratch, n)
copy_parts (p ∷ ps) n scratch =
    copy_parts ps (n + min (length p) (length scratch - n)) (write n p scratch)

-- The pad is cleared, filled with the key and masked.
unfoldable pub key_pad : InPlaceHash → ℕ → List ℕ → List ℕ → List ℕ
key_pad h k key scratch =
    xor_first (block h) k (write 0 (take (block h) key) (write 0 (zeros (block h)) scratch))

-- The key that goes into the pads: hashed where it is longer than a block.
unfoldable pub short_key : Sums → InPlaceHash → List ℕ → List ℕ
short_key sums h key =
    if ltb (block h) (length key)
    then take (size h) (write 0 (sums h key) (zeros max_hash_size))
    else key

-- hmacInPlace past its checks: what it writes to dst, and the scratch after it.
unfoldable pub hmac_parts : Sums → InPlaceHash → List ℕ → List ℕ → List (List ℕ) → List ℕ × List ℕ
unfolding short_key key_pad
hmac_parts sums h scratch key parts = (
  sums h (take (block h + size h) outer),
  write 0 (zeros (max filled.1 (block h + size h))) outer,
)
  where
    filled : List ℕ × ℕ
    filled = copy_parts parts (block h) scratch

    keyed : List ℕ
    keyed = key_pad h 0x36 (short_key sums h key) filled.0

    inner : List ℕ
    inner = write 0 (sums h (take filled.1 keyed)) (zeros max_hash_size)

    outer : List ℕ
    outer = write (block h) (take (size h) inner) (key_pad h 0x5c (short_key sums h key) keyed)

-- hmacInPlace; none is its panic, on a region that is too small or a hash that is not supported.
unfoldable pub hmac_in_place :
    Sums → InPlaceHash → List ℕ → List ℕ → List (List ℕ) → Option (List ℕ × List ℕ)
unfolding hmac_scratch_size
hmac_in_place sums hash_none scratch key parts = none
hmac_in_place sums h scratch key parts =
    if ltb (length scratch) (hmac_scratch_size h (total_length parts))
    then none
    else some (hmac_parts sums h scratch key parts)

-- The loop of hkdfCompute: `prev` is the block before and `ctr` the byte that numbers it. The pseudo-
-- random key and the running block are places of the region that the scratch does not reach.
unfoldable pub hkdf_rounds :
    ℕ
    → Sums
    → InPlaceHash
    → (prk info prev : List ℕ) → (ctr : ℕ) → (scratch : List ℕ) → (off : ℕ) → List ℕ
    → Option (List ℕ)
unfolding hmac_in_place
hkdf_rounds zero sums h prk info prev ctr scratch off dst = some dst
hkdf_rounds (suc fuel) sums h prk info prev ctr scratch off dst =
    if ltb off (length dst)
    then (elim (hmac_in_place sums h scratch prk (prev ∷ info ∷ (((ctr + 1) % 256) ∷ []) ∷ [])) [
      | none ↦ none
      | some (t, after) ↦
          hkdf_rounds fuel sums h prk info t ((ctr + 1) % 256) after (off + size h)
            (write off t dst)
    ])
    else some dst

-- hkdfCompute: dst, and the region, after it.
unfoldable pub hkdf_compute :
    Sums → InPlaceHash → (dst region secret salt info : List ℕ) → Option (List ℕ × List ℕ)
unfolding hkdf_rounds
hkdf_compute sums h dst region secret salt info =
    elim (hmac_in_place sums h (drop (2 * max_hash_size) region) salt (secret ∷ [])) [
      | none ↦ none
      | some (prk, scratch) ↦ elim (hkdf_rounds (length dst) sums h prk info [] 0 scratch 0 dst) [
        | none ↦ none
        | some out ↦ some (out, zeros (length region))
      ]
    ]
