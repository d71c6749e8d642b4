-- ===== src/OpenSsh.antt =====
-- secmem-crypto/openssh_wire.go and secmem-crypto/parse_openssh.go: the ciphers of the OpenSSH
-- private-key container and its outer header. Every field of a header is a part of the input.
pub mod PrivateBlock
pub mod Marshal
pub mod Container
pub mod Written
pub mod Outcome
pub mod Protected
pub mod HeaderTrip
pub mod KeyTrip
pub mod Aes
pub mod Modes
pub mod Chained
pub mod Encrypted
pub mod RoundTrip
pub mod ProtectedTrip
pub mod Refusals
use secmem.Prelude.{
  ℕ, ◌+◌, ◌%◌, Bool, true, false, not, ◌&&◌, ◌||◌, if◌then◌else◌, ltb, ◌==◌, Option, none, some,
  List, [], ◌∷◌, ◌++◌, length, codes, equal_bytes, strip_prefix,
}
use secmem.SshWire.{read_uint32, read_str}

-- What a parser of the container answers when it makes no key: errMalformed, errCheckMismatch
-- (which wraps it), ErrEncryptedKey, ErrUnsupportedKey.
pub data Refusal : Type 0 where
  malformed check_mismatch encrypted_key unsupported_key : Refusal

pub data Parsed {ℓ} (A : Type ℓ) : Type ℓ where
  parsed : A → Parsed A
  refused : Refusal → Parsed A

-- The steps after a read that gave nothing are errMalformed, as no step has an effect.
abbrev pub or_malformed {ℓ κ} : {A : Type ℓ} {B : Type κ} → Option A → (A → Parsed B) → Parsed B
or_malformed none f = refused malformed
or_malformed (some a) f = f a

-- opensshCipher.
pub data Cipher : Type 0 where
  unsupported aes128_ctr aes192_ctr aes256_ctr aes128_cbc aes192_cbc aes256_cbc : Cipher
  chacha20_poly1305 : Cipher

abbrev pub none_block : ℕ
none_block = 8

abbrev pub aes_block : ℕ
aes_block = 16

unfoldable pub key_len : Cipher → ℕ
key_len aes128_ctr = 16
key_len aes128_cbc = 16
key_len aes192_ctr = 24
key_len aes192_cbc = 24
key_len aes256_ctr = 32
key_len aes256_cbc = 32
key_len chacha20_poly1305 = 64
key_len unsupported = 0

unfoldable pub iv_len : Cipher → ℕ
iv_len chacha20_poly1305 = 0
iv_len _ = aes_block

unfoldable pub block_len : Cipher → ℕ
block_len chacha20_poly1305 = none_block
block_len _ = aes_block

unfoldable pub tag_len : Cipher → ℕ
tag_len chacha20_poly1305 = 16
tag_len _ = 0

unfoldable pub is_cbc : Cipher → Bool
is_cbc aes128_cbc = true
is_cbc aes192_cbc = true
is_cbc aes256_cbc = true
is_cbc _ = false

abbrev pub magic : List ℕ
magic = codes "openssh-key-v1" ++ 0 ∷ []

abbrev pub name_none : List ℕ
name_none = codes "none"

abbrev pub name_ctr : List ℕ
name_ctr = codes "aes256-ctr"

abbrev pub name_bcrypt : List ℕ
name_bcrypt = codes "bcrypt"

-- opensshCipherByName.
unfoldable pub cipher_by_name : List ℕ → Cipher
cipher_by_name name =
    if equal_bytes name name_ctr
    then aes256_ctr
    else if equal_bytes name (codes "aes256-cbc")
    then aes256_cbc
    else if equal_bytes name (codes "aes128-ctr")
    then aes128_ctr
    else if equal_bytes name (codes "aes192-ctr")
    then aes192_ctr
    else if equal_bytes name (codes "aes128-cbc")
    then aes128_cbc
    else if equal_bytes name (codes "aes192-cbc")
    then aes192_cbc
    else if equal_bytes name (codes "chacha20-poly1305@openssh.com")
    then chacha20_poly1305
    else unsupported

-- opensshHeader.
pub record Header : Type 0 where
  pub cipher : List ℕ
  pub kdf : List ℕ
  pub kdf_opts : List ℕ
  pub num_keys : ℕ
  pub pub_blob : List ℕ
  pub priv_block : List ℕ
  pub rest : List ℕ

-- The six reads of readOpenSSHHeader.
unfoldable pub read_fields : List ℕ → Parsed Header
read_fields b = or_malformed (read_str b) λ (cipher, b1). or_malformed (read_str b1) λ (kdf, b2).
    or_malformed (read_str b2) λ (kdf_opts, b3). or_malformed (read_uint32 b3) λ (num_keys, b4).
      or_malformed (read_str b4) λ (pub_blob, b5). or_malformed (read_str b5) λ (priv_block, rest).
        parsed (record {
          cipher = cipher;
          kdf = kdf;
          kdf_opts = kdf_opts;
          num_keys = num_keys;
          pub_blob = pub_blob;
          priv_block = priv_block;
          rest = rest;
        })

-- Its two checks on what was read.
unfoldable pub agrees : Header → Bool
agrees h =
    (if equal_bytes h.cipher name_none
      then equal_bytes h.kdf name_none
      else not (equal_bytes h.kdf name_none))
    && not (equal_bytes h.kdf name_none && not (length h.kdf_opts == 0))

unfoldable pub check_header : Header → Parsed Header
check_header h = if agrees h then parsed h else refused malformed

unfoldable pub read_header : List ℕ → Parsed Header
read_header b = elim (strip_prefix magic b) [
  | none ↦ refused malformed
  | some body ↦ elim (read_fields body) [ refused r ↦ refused r | parsed h ↦ check_header h ]
]
