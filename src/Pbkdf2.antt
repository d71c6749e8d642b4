-- ===== src/Pbkdf2.antt =====
-- secmem-crypto/pbkdf2_inplace.go: PBKDF2 over one-shot hashes, in a region of the caller's.
pub mod Rounds
pub mod Derived
pub mod Computed
use secmem.Prelude.{
  ℕ, zero, suc, ◌+◌, ◌-◌, ◌*◌, ◌%◌, ◌^◌, if◌then◌else◌, ltb, List, [], ◌∷◌, length, take, drop,
  slice, write, Option, none, some,
}
use secmem.Region.{zeros}
use secmem.SealTag.{xor_first}
use secmem.SshWire.{big_endian}
use secmem.Hmac.{InPlaceHash, Sums, size, block, max_hash_size, hmac_in_place}
use Prim.Native.Nat.{min, max, bit_xor}

-- pbkdf2RegionSize.
unfoldable pub pbkdf2_region_size : InPlaceHash → ℕ → ℕ
pbkdf2_region_size h salt_len =
    3 * max_hash_size + 2 * (block h + max_hash_size) + block h + max (salt_len + 4) (size h)

-- `t[k] ^= u[k]` for every k.
unfoldable pub xor_into : List ℕ → List ℕ → List ℕ
xor_into (x ∷ t) (y ∷ u) = bit_xor x y ∷ xor_into t u
xor_into t u = t

-- A message buffer with the key laid down masked at its head. The key is copied over what is there.
unfoldable pub pad_message : InPlaceHash → ℕ → List ℕ → List ℕ → List ℕ
pad_message h k password msg = xor_first (block h) k (write 0 (take (block h) password) msg)

-- The inner loop, `count` iterations: the block t after it, and the two message buffers.
unfoldable pub iterate :
    ℕ → Sums → InPlaceHash → (in_msg out_msg u t : List ℕ) → List ℕ × List ℕ × List ℕ
iterate zero sums h in_msg out_msg u t = (t, in_msg, out_msg)
iterate (suc count) sums h in_msg out_msg u t =
    let in1 = write (block h) u in_msg in
    let out1 = write (block h) (sums h in1) out_msg in
    let u1 = write 0 (sums h out1) u in iterate count sums h in1 out1 u1 (xor_into t u1)

-- The outer loop from the block of number i on.
unfoldable pub pbkdf2_blocks :
    ℕ
    → Sums
    → InPlaceHash
    → (password salt : List ℕ) → ℕ
    → (in_msg out_msg scratch : List ℕ) → (off i : ℕ) → List ℕ
    → Option (List ℕ)
unfolding iterate big_endian
pbkdf2_blocks zero sums h password salt iter in_msg out_msg scratch off i dst = some dst
pbkdf2_blocks (suc fuel) sums h password salt iter in_msg out_msg scratch off i dst =
    if ltb off (length dst)
    then (elim (hmac_in_place sums h scratch password (salt ∷ big_endian i ∷ [])) [
      | none ↦ none
      | some (u, after) ↦
          let (t, in1, out1) = iterate (iter - 1) sums h in_msg out_msg u u in
          pbkdf2_blocks fuel sums h password salt iter in1 out1 after
            (off + min (length t) (length dst - off)) ((i + 1) % 2 ^ 32) (write off t dst)
    ])
    else some dst

-- The password as the pads take it.
unfoldable pub prehashed : Sums → InPlaceHash → List ℕ → List ℕ → List ℕ
prehashed sums h slot password =
    if ltb (block h) (length password) then write 0 (sums h password) slot else password

-- pbkdf2Run; the slices of the region do not overlap.
unfoldable pub pbkdf2_run :
    Sums → InPlaceHash → (dst region password salt : List ℕ) → ℕ → Option (List ℕ)
unfolding pbkdf2_blocks prehashed pad_message
pbkdf2_run sums h dst region password salt iter =
    pbkdf2_blocks (length dst) sums h key salt iter
      (pad_message h 0x36 key (slice in_start (block h + size h) region))
      (pad_message h 0x5c key (slice out_start (block h + size h) region))
      (drop (out_start + block h + max_hash_size) region) 0 1 dst
  where
    in_start : ℕ
    in_start = 3 * max_hash_size

    out_start : ℕ
    out_start = 3 * max_hash_size + block h + max_hash_size

    key : List ℕ
    key = prehashed sums h (slice (2 * max_hash_size) (size h) region) password

-- pbkdf2Compute: dst and the region after it.
unfoldable pub pbkdf2_compute :
    Sums → InPlaceHash → (dst region password salt : List ℕ) → ℕ → Option (List ℕ × List ℕ)
unfolding pbkdf2_run
pbkdf2_compute sums h dst region password salt iter =
    elim (pbkdf2_run sums h dst region password salt iter) [
      | none ↦ none
      | some out ↦ some (out, zeros (length region))
    ]
