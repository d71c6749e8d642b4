-- ===== src/OpenSsh/Encrypted.antt =====
-- secmem-crypto/parse_encrypted.go and opensshCrypt of secmem-crypto/marshal_openssh.go: the reader of
-- a protected container. The KDF, the AES block functions and the authenticated cipher are parameters.
use secmem.Prelude.{
  ℕ, ◌+◌, ◌%◌, Bool, true, false, not, ◌||◌, if◌then◌else◌, ltb, ◌==◌, Option, none, some, List, [],
  length, take, drop, equal_bytes,
}
use secmem.SshWire.{read_uint32, read_str}
use secmem.OpenSsh.{
  Refusal, Parsed, parsed, refused, malformed, unsupported_key, Header, read_header, name_none,
  name_bcrypt, Cipher, unsupported, aes256_ctr, chacha20_poly1305, key_len, iv_len, tag_len,
  block_len, is_cbc, cipher_by_name,
}
use secmem.OpenSsh.PrivateBlock.{Key, is_ecdsa, name_ed25519, name_rsa, parse_private_block}
use secmem.OpenSsh.Marshal.{max_rounds}
use secmem.OpenSsh.Aes.{ctr_xor, cbc_decrypt}

-- What the code calls: bcrypt_pbkdf for a count of bytes (none is an error), the AES block functions
-- of a key, and the ChaCha20-Poly1305 opening of a block with its tag.
pub record Primitives : Type 0 where
  pub derive : (size : ℕ) (passphrase salt : List ℕ) (rounds : ℕ) → Option (List ℕ)
  pub aes_encrypt : (key block : List ℕ) → List ℕ
  pub aes_decrypt : (key block : List ℕ) → List ℕ
  pub chacha_open : (key src tag : List ℕ) → Option (List ℕ)

pub data Crypted : Type 0 where
  crypted : List ℕ → Crypted
  unsupported_mode incorrect_password crypt_error : Crypted

abbrev pub crypt_of : Crypted → Option (List ℕ) → Crypted
crypt_of e none = e
crypt_of e (some out) = crypted out

-- opensshCrypt past the KDF, on the derived key and IV.
unfoldable pub run_cipher :
    Primitives → Cipher → (kiv src tag : List ℕ) → (decrypt : Bool) → Crypted
run_cipher x chacha20_poly1305 kiv src tag decrypt =
    if not decrypt
    then unsupported_mode
    else crypt_of incorrect_password (x.chacha_open kiv src tag)
run_cipher x mode kiv src tag decrypt =
    let key = take (key_len mode) kiv in
    let iv = drop (key_len mode) kiv in
    if is_cbc mode
    then (if not decrypt
        then unsupported_mode
        else crypt_of crypt_error (cbc_decrypt (x.aes_decrypt key) iv src))
    else crypted (ctr_xor (x.aes_encrypt key) iv src)

unfoldable pub openssh_crypt :
    Primitives → Cipher → (src tag passphrase salt : List ℕ) → ℕ → (decrypt : Bool) → Crypted
openssh_crypt x mode src tag passphrase salt rounds decrypt =
    if key_len mode == 0
    then unsupported_mode
    else elim (x.derive (key_len mode + iv_len mode) passphrase salt rounds) [
      | none ↦ crypt_error
      | some kiv ↦ run_cipher x mode kiv src tag decrypt
    ]

-- The call of opensshCrypt that encrypts the private block of a file in place.
unfoldable pub crypt_in_place :
    Primitives → (passphrase salt : List ℕ) → ℕ → (block : List ℕ) → Option (List ℕ)
crypt_in_place x passphrase salt rounds block =
    elim (openssh_crypt x aes256_ctr block [] passphrase salt rounds false) [
      | crypted out ↦ some out
      | _ ↦ none
    ]

-- The refusals of the encrypted path; `decrypt_failed` is errOpenSSHDecrypt.
pub data Opened : Type 0 where
  opened : Key → Opened
  refused_file : Refusal → Opened
  not_encrypted decrypt_failed heap_transients cipher_error : Opened

-- admitOpenSSHKeyType; `transients` is whether the build and the options admit RSA and EC keys.
unfoldable pub admit_key_type : (transients : Bool) → (pub_blob : List ℕ) → Option Opened
admit_key_type transients pub_blob = elim (read_str pub_blob) [
  | none ↦ some (refused_file malformed)
  | some (key_type, _) ↦
      if equal_bytes key_type name_ed25519
      then none
      else if is_ecdsa key_type || equal_bytes key_type name_rsa
      then (if transients then none else some heap_transients)
      else some (refused_file unsupported_key)
]

-- The KDF options: the salt and the count of rounds, and nothing behind them.
unfoldable pub read_kdf_options : List ℕ → Option (List ℕ × ℕ)
read_kdf_options opts = elim (read_str opts) [
  | none ↦ none
  | some (salt, more) ↦ elim (read_uint32 more) [
    | none ↦ none
    | some (rounds, tail) ↦
        if not (length tail == 0) || (length salt == 0) || (rounds == 0)
        then none
        else some (salt, rounds)
  ]
]

-- bcryptpbkdf.MaxSaltLen.
abbrev pub max_salt : ℕ
max_salt = 1048576

-- What follows the decryption: every failure is the one error.
unfoldable pub key_of : Parsed Key → Opened
key_of (parsed k) = opened k
key_of (refused r) = decrypt_failed

unfoldable pub open_block : (pub_blob : List ℕ) → (block_size : ℕ) → Crypted → Opened
open_block pub_blob block_size (crypted plain) =
    key_of (parse_private_block plain pub_blob block_size)
open_block pub_blob block_size incorrect_password = decrypt_failed
open_block pub_blob block_size unsupported_mode = cipher_error
open_block pub_blob block_size crypt_error = cipher_error

-- The checks on the KDF parameters, on the block and on the key type, and then the KDF.
unfoldable pub open_checked :
    Primitives
    → (transients : Bool) → (passphrase : List ℕ) → Header
    → Cipher
    → (salt : List ℕ) → ℕ
    → Opened
open_checked x transients passphrase h mode salt rounds =
    if ltb max_salt (length salt)
    then refused_file malformed
    else if ltb max_rounds rounds
    then refused_file unsupported_key
    else if (length h.priv_block == 0) || not (length h.priv_block % block_len mode == 0)
    then refused_file malformed
    else elim (admit_key_type transients h.pub_blob) [
      | some refusal ↦ refusal
      | none ↦
          open_block h.pub_blob (block_len mode)
            (openssh_crypt x mode h.priv_block h.rest passphrase salt rounds true)
    ]

unfoldable pub open_mode :
    Primitives → (transients : Bool) → (passphrase : List ℕ) → Header → Cipher → Opened
open_mode x transients passphrase h unsupported = refused_file unsupported_key
open_mode x transients passphrase h mode =
    if not (length h.rest == tag_len mode)
    then refused_file malformed
    else if not (h.num_keys == 1)
    then refused_file unsupported_key
    else elim (read_kdf_options h.kdf_opts) [
      | none ↦ refused_file malformed
      | some (salt, rounds) ↦ open_checked x transients passphrase h mode salt rounds
    ]

-- parseOpenSSHEncrypted past the header, and from the bytes of the container.
unfoldable pub open_header :
    Primitives → (transients : Bool) → (passphrase : List ℕ) → Header → Opened
open_header x transients passphrase h =
    if equal_bytes h.cipher name_none
    then not_encrypted
    else if not (equal_bytes h.kdf name_bcrypt)
    then refused_file unsupported_key
    else open_mode x transients passphrase h (cipher_by_name h.cipher)

unfoldable pub parse_encrypted :
    Primitives → (transients : Bool) → (passphrase blob : List ℕ) → Opened
parse_encrypted x transients passphrase blob = elim (read_header blob) [
  | refused r ↦ refused_file r
  | parsed h ↦ open_header x transients passphrase h
]
