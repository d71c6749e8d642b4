-- ===== src/OpenSsh/Chained.antt =====
-- secmem-crypto/openssh_cipher.go: cbcDecrypt undoes the chained mode under the inverse block function.
use secmem.Prelude.{
  ℕ, zero, suc, ◌%◌, ◌≤◌, ◌<◌, some, List, [], ◌∷◌, ◌++◌, length, take, drop, ◌≡◌, refl, arith,
  length-take, length-drop, length-append,
}
use secmem.SshWire.Reads.{take-drop}
use secmem.OpenSsh.Aes.{mask, cbc_rounds, cbc_decrypt, cbc_encrypt}
use secmem.OpenSsh.Modes.{mask_twice, length-mask, take_block}

length-cbc_encrypt :
    (fuel : ℕ) (encrypt : List ℕ → List ℕ) (prev src : List ℕ)
    → ((b : List ℕ) → length (encrypt b) ≡ 16)
    → length src ≤ fuel
    → length src % 16 ≡ 0
    → length (cbc_encrypt fuel encrypt prev src) ≡ length src
unfolding cbc_encrypt
length-cbc_encrypt fuel encrypt prev [] size h whole = refl
length-cbc_encrypt zero encrypt prev (x ∷ src) size h whole = absurd (omega arith)
length-cbc_encrypt (suc fuel) encrypt prev (x ∷ src) size h whole =
    let rest = drop 16 (x ∷ src) in
    let block = encrypt (mask (take 16 (x ∷ src)) prev) in
    let taken = length-take 16 (x ∷ src) in
    let dropped = length-drop 16 (x ∷ src) in
    omega (
      arith,
      taken,
      dropped,
      size (mask (take 16 (x ∷ src)) prev),
      length-append block (cbc_encrypt fuel encrypt block rest),
      length-cbc_encrypt fuel encrypt block rest size (omega (arith, dropped))
          (omega (arith, dropped)),
    )

cbc_rounds-nil :
    (fuel : ℕ) (decrypt : List ℕ → List ℕ) (prev : List ℕ) → cbc_rounds fuel decrypt prev [] ≡ []
unfolding cbc_rounds
cbc_rounds-nil zero decrypt prev = refl
cbc_rounds-nil (suc fuel) decrypt prev = refl

cbc_encrypt-nil :
    (fuel : ℕ) (encrypt : List ℕ → List ℕ) (prev : List ℕ) → cbc_encrypt fuel encrypt prev [] ≡ []
unfolding cbc_encrypt
cbc_encrypt-nil zero encrypt prev = refl
cbc_encrypt-nil (suc fuel) encrypt prev = refl

cbc_rounds_step :
    (fuel : ℕ) (decrypt : List ℕ → List ℕ) (prev src : List ℕ)
    → 0 < length src
    → cbc_rounds (suc fuel) decrypt prev src
      ≡ mask (decrypt (take 16 src)) prev ++ cbc_rounds fuel decrypt (take 16 src) (drop 16 src)
unfolding cbc_rounds
cbc_rounds_step fuel decrypt prev [] h = absurd (omega arith)
cbc_rounds_step fuel decrypt prev (x ∷ src) h = refl

cbc_encrypt_step :
    (fuel : ℕ) (encrypt : List ℕ → List ℕ) (prev src : List ℕ)
    → 0 < length src
    → cbc_encrypt (suc fuel) encrypt prev src
      ≡ encrypt (mask (take 16 src) prev)
        ++ cbc_encrypt fuel encrypt (encrypt (mask (take 16 src) prev)) (drop 16 src)
unfolding cbc_encrypt
cbc_encrypt_step fuel encrypt prev [] h = absurd (omega arith)
cbc_encrypt_step fuel encrypt prev (x ∷ src) h = refl

cbc_rounds-cbc_encrypt :
    (fuel : ℕ) (encrypt decrypt : List ℕ → List ℕ) (prev src : List ℕ)
    → ((b : List ℕ) → length (encrypt b) ≡ 16)
    → ((b : List ℕ) → length b ≡ 16 → decrypt (encrypt b) ≡ b)
    → length prev ≡ 16
    → length src ≤ fuel
    → length src % 16 ≡ 0
    → cbc_rounds fuel decrypt prev (cbc_encrypt fuel encrypt prev src) ≡ src
cbc_rounds-cbc_encrypt fuel encrypt decrypt prev [] size back hp h whole =
    cc (cbc_encrypt-nil fuel encrypt prev, cbc_rounds-nil fuel decrypt prev)
cbc_rounds-cbc_encrypt zero encrypt decrypt prev (x ∷ src) size back hp h whole =
    absurd (omega arith)
cbc_rounds-cbc_encrypt (suc fuel) encrypt decrypt prev (x ∷ src) size back hp h whole =
    let first = take 16 (x ∷ src) in
    let rest = drop 16 (x ∷ src) in
    let taken = length-take 16 (x ∷ src) in
    let dropped = length-drop 16 (x ∷ src) in
    let masked = mask first prev in
    let block = encrypt masked in
    let out = cbc_encrypt fuel encrypt block rest in
    let full : length masked ≡ 16 =
      omega (arith, taken, hp, length-mask first prev (omega (arith, taken, hp))) in
    let (front, tail) =
      take_block 16 block out (omega (arith, size masked))
        (λ lt. absurd (omega (arith, size masked, lt))) in
    cc (
      cbc_encrypt_step fuel encrypt prev (x ∷ src) (omega arith),
      cbc_rounds_step fuel decrypt prev (block ++ out)
          (omega (arith, size masked, length-append block out)),
      front,
      tail,
      back masked full,
      mask_twice first prev (omega (arith, taken, hp)),
      cbc_rounds-cbc_encrypt fuel encrypt decrypt block rest size back (size masked)
          (omega (arith, dropped)) (omega (arith, dropped)),
      take-drop 16 (x ∷ src),
    )

-- Decryption undoes the chaining of whole blocks, whatever the block function and the IV.
pub cbc_decrypt-cbc_encrypt :
    (encrypt decrypt : List ℕ → List ℕ) (iv src : List ℕ)
    → ((b : List ℕ) → length (encrypt b) ≡ 16)
    → ((b : List ℕ) → length b ≡ 16 → decrypt (encrypt b) ≡ b)
    → length iv ≡ 16
    → length src % 16 ≡ 0
    → cbc_decrypt decrypt iv (cbc_encrypt (length src) encrypt iv src) ≡ some src
unfolding cbc_decrypt
cbc_decrypt-cbc_encrypt encrypt decrypt iv src size back hp whole =
    let same = length-cbc_encrypt (length src) encrypt iv src size (omega arith) whole in
    let undone =
      cbc_rounds-cbc_encrypt (length src) encrypt decrypt iv src size back hp (omega arith) whole in
    ground (arith, same, undone)
