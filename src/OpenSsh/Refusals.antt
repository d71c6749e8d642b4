-- ===== src/OpenSsh/Refusals.antt =====
-- secmem-crypto/parse_encrypted.go: what is decided without the passphrase, the cost that the KDF is
-- asked for, and the one answer after decryption.
use secmem.Prelude.{
  ℕ, ◌+◌, ◌≤◌, ◌<◌, Bool, true, false, Option, some, List, length, ◌≡◌, arith, Option-cases, inl,
  inr,
}
use secmem.OpenSsh.{Header, Cipher, key_len, iv_len, block_len, cipher_by_name}
use secmem.OpenSsh.Marshal.{max_rounds}
use secmem.OpenSsh.Encrypted.{
  Primitives, Crypted, run_cipher, openssh_crypt, Opened, refused_file, not_encrypted,
  heap_transients, read_kdf_options, key_of, open_block, open_checked, open_mode, open_header,
  parse_encrypted, max_salt,
}

-- An answer about the file alone.
unfoldable pub is_about_file : Opened → Bool
is_about_file (refused_file r) = true
is_about_file not_encrypted = true
is_about_file heap_transients = true
is_about_file _ = false

open_block-after :
    (pub_blob : List ℕ) (block_size : ℕ) (c : Crypted)
    → is_about_file (open_block pub_blob block_size c) ≡ false
unfolding is_about_file open_block key_of
open_block-after pub_blob block_size c = ground arith

open_checked-passphrase :
    (x y : Primitives) (transients : Bool) (phrase other : List ℕ) (h : Header) (mode : Cipher)
    (salt : List ℕ) (rounds : ℕ)
    → is_about_file (open_checked x transients phrase h mode salt rounds) ≡ true
    → open_checked y transients other h mode salt rounds
      ≡ open_checked x transients phrase h mode salt rounds
unfolding open_checked
open_checked-passphrase x y transients phrase other h mode salt rounds about =
    let after =
      open_block-after h.pub_blob (block_len mode)
        (openssh_crypt x mode h.priv_block h.rest phrase salt rounds true) in
    ground (arith, after)

open_mode-passphrase :
    (x y : Primitives) (transients : Bool) (phrase other : List ℕ) (h : Header) (mode : Cipher)
    → is_about_file (open_mode x transients phrase h mode) ≡ true
    → open_mode y transients other h mode ≡ open_mode x transients phrase h mode
unfolding open_mode
open_mode-passphrase x y transients phrase other h mode about =
    grind (arith, open_checked-passphrase x y transients phrase other h mode)

-- An answer about the file alone does not depend on the passphrase nor on any primitive: it is given
-- before the KDF runs.
pub parse_encrypted-passphrase :
    (x y : Primitives) (transients : Bool) (phrase other blob : List ℕ)
    → is_about_file (parse_encrypted x transients phrase blob) ≡ true
    → parse_encrypted y transients other blob ≡ parse_encrypted x transients phrase blob
unfolding parse_encrypted open_header
parse_encrypted-passphrase x y transients phrase other blob about = grind (
  arith,
  λ (h : Header). open_mode-passphrase x y transients phrase other h (cipher_by_name h.cipher),
)

key_len-le : (mode : Cipher) → key_len mode + iv_len mode ≤ 64
unfolding key_len iv_len
key_len-le mode = ground arith

-- Another KDF in place of the one in `x`.
abbrev pub Kdf : Type 0
Kdf = (size : ℕ) (phrase salt : List ℕ) (rounds : ℕ) → Option (List ℕ)

abbrev pub with_kdf : Kdf → Primitives → Primitives
with_kdf kdf x = record x { derive = kdf }

read_kdf_options-pos :
    (opts salt : List ℕ) (rounds : ℕ)
    → read_kdf_options opts ≡ some (salt, rounds)
    → (0 < length salt) × (1 ≤ rounds)
unfolding read_kdf_options
read_kdf_options-pos opts salt rounds h = ground arith

-- The two give the same wherever the cost is one that the parser allows.
abbrev pub SameWithin : Kdf → Primitives → Type 0
SameWithin kdf x =
    (size : ℕ) (phrase salt : List ℕ) (rounds : ℕ)
    → size ≤ 64
    → 1 ≤ rounds
    → rounds ≤ max_rounds
    → 0 < length salt
    → length salt ≤ max_salt
    → kdf size phrase salt rounds ≡ x.derive size phrase salt rounds

run_cipher-with_kdf :
    (kdf : Kdf) (x : Primitives) (mode : Cipher) (kiv src tag : List ℕ) (decrypt : Bool)
    → run_cipher (with_kdf kdf x) mode kiv src tag decrypt ≡ run_cipher x mode kiv src tag decrypt
unfolding run_cipher
run_cipher-with_kdf kdf x mode kiv src tag decrypt = ground arith

module _ (kdf : Kdf) (x : Primitives) (same : SameWithin kdf x) where
  openssh_crypt-with_kdf :
      (mode : Cipher) (src tag phrase salt : List ℕ) (rounds : ℕ)
      → 1 ≤ rounds
      → rounds ≤ max_rounds
      → 0 < length salt
      → length salt ≤ max_salt
      → openssh_crypt (with_kdf kdf x) mode src tag phrase salt rounds true
        ≡ openssh_crypt x mode src tag phrase salt rounds true
  unfolding openssh_crypt
  openssh_crypt-with_kdf mode src tag phrase salt rounds lo hi some_salt salt_hi =
      let derived =
        same (key_len mode + iv_len mode) phrase salt rounds (key_len-le mode) lo hi some_salt
          salt_hi in
      grind (arith, derived, λ (kiv : List ℕ). run_cipher-with_kdf kdf x mode kiv src tag true)

  open_checked-with_kdf :
      (transients : Bool) (phrase : List ℕ) (h : Header) (mode : Cipher) (salt : List ℕ)
      (rounds : ℕ)
      → 1 ≤ rounds
      → 0 < length salt
      → open_checked (with_kdf kdf x) transients phrase h mode salt rounds
        ≡ open_checked x transients phrase h mode salt rounds
  unfolding open_checked
  open_checked-with_kdf transients phrase h mode salt rounds lo some_salt =
      grind (arith, openssh_crypt-with_kdf mode h.priv_block h.rest phrase salt rounds lo)

  open_mode-with_kdf :
      (transients : Bool) (phrase : List ℕ) (h : Header) (mode : Cipher)
      → open_mode (with_kdf kdf x) transients phrase h mode ≡ open_mode x transients phrase h mode
  unfolding open_mode
  open_mode-with_kdf transients phrase h mode = elim (Option-cases (read_kdf_options h.kdf_opts)) [
    | inl nothing ↦ ground (arith, nothing)
    | inr ((salt, rounds), found) ↦
        let (some_salt, lo) = read_kdf_options-pos h.kdf_opts salt rounds found in
        let last = open_checked-with_kdf transients phrase h mode salt rounds lo some_salt in
        ground (arith, found, last)
  ]

  -- The file's own cost never reaches the KDF unchecked: between KDFs that differ only above 2048
  -- rounds, at none, beyond 64 bytes of output or on a salt that is empty or above 2^20 bytes, the
  -- parser cannot tell.
  pub parse_encrypted-with_kdf :
      (transients : Bool) (phrase blob : List ℕ)
      → parse_encrypted (with_kdf kdf x) transients phrase blob
        ≡ parse_encrypted x transients phrase blob
  unfolding parse_encrypted open_header
  parse_encrypted-with_kdf transients phrase blob =
      grind
        (arith, λ (h : Header). open_mode-with_kdf transients phrase h (cipher_by_name h.cipher))
