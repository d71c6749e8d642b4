-- ===== src/SealTag.antt =====
-- sealauth.go, the tag that a sealed buffer keeps: HMAC-SHA-512 over a label, the buffer's identity,
-- the nonce, the length and the digest of the bytes, keyed by the digest of the prekey.
pub mod Mac
pub mod Message
use secmem.Prelude.{
  ℕ, zero, suc, ◌+◌, ◌-◌, ◌/◌, ◌%◌, ◌^◌, List, [], ◌∷◌, ◌++◌, length, take, write, codes, map,
}
use secmem.Region.{zeros}
use secmem.SshWire.{big_endian}
use Prim.Native.Nat.{bit_xor, min}

-- sealRootLen, sealBlockLen, sealTagLen, sealNonceLen.
abbrev pub root_len : ℕ
root_len = 64

abbrev pub block_len : ℕ
block_len = 128

abbrev pub tag_len : ℕ
tag_len = 32

abbrev pub nonce_len : ℕ
nonce_len = 16

-- sealLabelMac.
abbrev pub label_mac : List ℕ
label_mac = codes "secmem/seal/v1/mac"

-- sealPRFState.
pub record PrfState : Type 0 where
  pub ipad : List ℕ
  pub opad : List ℕ
  pub inner : List ℕ

-- `var st sealPRFState`.
abbrev pub no_prf : PrfState
no_prf = record {
  ipad = zeros (block_len + block_len);
  opad = zeros (block_len + root_len);
  inner = zeros root_len;
}

-- The loop of init over the first n bytes of a pad.
unfoldable pub xor_first : ℕ → ℕ → List ℕ → List ℕ
xor_first zero k xs = xs
xor_first (suc n) k [] = []
xor_first (suc n) k (x ∷ xs) = bit_xor x k ∷ xor_first n k xs

-- sealPRFState.init.
unfoldable pub prf_init : List ℕ → PrfState → PrfState
unfolding xor_first
prf_init root st = record st {
  ipad = xor_first block_len 0x36 (write 0 root st.ipad);
  opad = xor_first block_len 0x5c (write 0 root st.opad);
}

-- sealPRFState.prf; `hash` is sha512.Sum512.
unfoldable pub prf : (List ℕ → List ℕ) → List ℕ → PrfState → PrfState × List ℕ
prf hash msg st = (
  record { ipad = keyed; opad = write block_len digest st.opad; inner = digest },
  hash (write block_len digest st.opad),
)
  where
    keyed : List ℕ
    keyed = write block_len msg st.ipad

    digest : List ℕ
    digest = hash (take (block_len + min (length msg) (length st.ipad - block_len)) keyed)

-- sealPRFState.done.
unfoldable pub prf_done : PrfState → PrfState
prf_done st = record {
  ipad = zeros (length st.ipad);
  opad = zeros (length st.opad);
  inner = zeros (length st.inner);
}

-- binary.BigEndian.PutUint64.
abbrev pub big_endian64 : ℕ → List ℕ
big_endian64 v = big_endian (v / 2 ^ 32) ++ big_endian (v % 2 ^ 32)

-- The message of sealComputeTag, put together in its array; `d` is the digest of the sealed bytes.
unfoldable pub seal_message : ℕ → List ℕ → ℕ → List ℕ → List ℕ
seal_message id nonce size d = write (after + 8) d counted
  where
    start : ℕ
    start = length label_mac

    identified : List ℕ
    identified =
        write start (big_endian64 id)
          (write 0 label_mac (zeros (length label_mac + 8 + nonce_len + 8 + root_len)))

    after : ℕ
    after = start + 8 + min (length nonce) (length identified - (start + 8))

    counted : List ℕ
    counted = write after (big_endian64 (size % 2 ^ 64)) (write (start + 8) nonce identified)

-- sealComputeTag: the tag, and the state that it leaves on the stack.
unfoldable pub seal_compute_tag :
    (List ℕ → List ℕ) → List ℕ → ℕ → List ℕ → List ℕ → PrfState × List ℕ
unfolding prf_init prf prf_done seal_message
seal_compute_tag hash prekey id nonce bytes = (prf_done out.0, take tag_len out.1)
  where
    out : PrfState × List ℕ
    out =
        prf hash (seal_message id nonce (length bytes) (hash bytes)) (prf_init (hash prekey) no_prf)
