-- ===== src/OpenSsh/Aes.antt =====
-- secmem-crypto/openssh_cipher.go: the counter mode and the chained mode that run over one AES block
-- function. A block function is a parameter: crypto/aes under one key.
use secmem.Prelude.{
  ℕ, zero, suc, ◌+◌, ◌%◌, Bool, true, false, not, if◌then◌else◌, ◌==◌, Option, none, some, List, [],
  ◌∷◌, ◌++◌, length, take, drop,
}
use Prim.Native.Nat.{bit_xor}

-- The loop `for i := len(ctr) - 1; i >= 0; i--`: the counter one further, and whether every byte
-- from here on wrapped, so that the loop goes on to the left of them.
unfoldable pub advance : List ℕ → List ℕ × Bool
advance [] = ([], true)
advance (b ∷ bs) =
    let (low, carry) = advance bs in
    if carry then ((b + 1) % 256 ∷ low, (b + 1) % 256 == 0) else (b ∷ low, false)

-- `dst[i] = src[i] ^ ks[i]`, as far as both go.
unfoldable pub mask : (src ks : List ℕ) → List ℕ
mask [] ks = []
mask (x ∷ src) [] = []
mask (x ∷ src) (k ∷ ks) = bit_xor x k ∷ mask src ks

-- The loop of ctrXOR on what is left of src. A round takes one block, so the length is fuel enough.
unfoldable pub ctr_rounds : ℕ → (encrypt : List ℕ → List ℕ) → (ctr src : List ℕ) → List ℕ
ctr_rounds fuel encrypt ctr [] = []
ctr_rounds zero encrypt ctr (x ∷ src) = []
ctr_rounds (suc fuel) encrypt ctr (x ∷ src) =
    mask (take 16 (x ∷ src)) (encrypt ctr)
    ++ ctr_rounds fuel encrypt (advance ctr).0 (drop 16 (x ∷ src))

unfoldable pub ctr_xor : (encrypt : List ℕ → List ℕ) → (iv src : List ℕ) → List ℕ
ctr_xor encrypt iv src = ctr_rounds (length src) encrypt iv src

-- The loop of cbcDecrypt; `prev` is the block before.
unfoldable pub cbc_rounds : ℕ → (decrypt : List ℕ → List ℕ) → (prev src : List ℕ) → List ℕ
cbc_rounds fuel decrypt prev [] = []
cbc_rounds zero decrypt prev (x ∷ src) = []
cbc_rounds (suc fuel) decrypt prev (x ∷ src) =
    mask (decrypt (take 16 (x ∷ src))) prev
    ++ cbc_rounds fuel decrypt (take 16 (x ∷ src)) (drop 16 (x ∷ src))

-- none is the panic on an input that is no multiple of the block.
unfoldable pub cbc_decrypt : (decrypt : List ℕ → List ℕ) → (iv src : List ℕ) → Option (List ℕ)
cbc_decrypt decrypt iv src =
    if not (length src % 16 == 0) then none else some (cbc_rounds (length src) decrypt iv src)

-- CBC encryption, which the code only decrypts: the reference that cbcDecrypt inverts.
unfoldable pub cbc_encrypt : ℕ → (encrypt : List ℕ → List ℕ) → (prev src : List ℕ) → List ℕ
cbc_encrypt fuel encrypt prev [] = []
cbc_encrypt zero encrypt prev (x ∷ src) = []
cbc_encrypt (suc fuel) encrypt prev (x ∷ src) =
    let block = encrypt (mask (take 16 (x ∷ src)) prev) in
    block ++ cbc_encrypt fuel encrypt block (drop 16 (x ∷ src))
