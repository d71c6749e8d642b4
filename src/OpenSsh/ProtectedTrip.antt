-- ===== src/OpenSsh/ProtectedTrip.antt =====
-- secmem-crypto/marshal_openssh.go against secmem-crypto/parse_encrypted.go: a file that is written under
-- a passphrase is opened by it.
use secmem.Prelude.{
  ℕ, ◌≤◌, ◌<◌, Bool, true, false, some, none, List, [], ◌++◌, length, ◌≡◌, refl, ap, ◌∙◌, arith,
  take, drop,
}
use mathlib.Core.List.{append-nil}
use secmem.SshWire.{big_endian, encoded_str}
use secmem.SshWire.Reads.{read_str-encoded_str, read_uint32-big_endian}
use secmem.OpenSsh.{agrees, aes256_ctr, cipher_by_name, tag_len, key_len, iv_len, block_len, is_cbc}
use secmem.OpenSsh.PrivateBlock.{ed25519, name_ed25519}
use secmem.OpenSsh.Marshal.{
  Request, Calls, max_rounds, pem_type, priv_len, priv_padded, marshalled, marshal_openssh,
}
use secmem.OpenSsh.Container.{
  IsRequest, private_block, public_blob, header_bytes, length-private_block,
}
use secmem.OpenSsh.Written.{pad_len-whole}
use secmem.OpenSsh.Protected.{
  kdf_bytes, passphrase_profile, length-kdf_bytes, marshal_openssh-encrypted,
}
use secmem.OpenSsh.KeyTrip.{parse_private_block-private_block}
use secmem.OpenSsh.RoundTrip.{header_of, read_header-header_bytes}
use secmem.OpenSsh.Aes.{ctr_xor}
use secmem.OpenSsh.Modes.{ctr_xor_twice, length-ctr_xor}
use secmem.OpenSsh.Encrypted.{
  Primitives, crypted, run_cipher, openssh_crypt, crypt_in_place, opened, admit_key_type,
  read_kdf_options, key_of, open_block, open_checked, open_mode, open_header, parse_encrypted,
}
use secmem.Pem.Layout.{armour}

read_kdf_options-kdf_bytes :
    (salt : List ℕ) (rounds : ℕ)
    → length salt ≡ 16
    → 1 ≤ rounds
    → rounds ≤ max_rounds
    → read_kdf_options (kdf_bytes salt rounds) ≡ some (salt, rounds)
unfolding read_kdf_options
read_kdf_options-kdf_bytes salt rounds hs lo hi =
    let first = read_str-encoded_str salt (big_endian rounds) (omega arith) in
    let second = read_uint32-big_endian rounds [] (omega arith) in
    let tail = append-nil (big_endian rounds) in ground (arith, first, second, tail)

admit_key_type-public_blob :
    (transients : Bool) (r : Request)
    → length r.pub_key ≡ 32
    → admit_key_type transients (public_blob r) ≡ none
unfolding admit_key_type public_blob
admit_key_type-public_blob transients r hp =
    let first = read_str-encoded_str name_ed25519 (encoded_str r.pub_key) (omega arith) in
    ground (arith, first)

-- The one primitive that is used: what the KDF derives under these arguments, and the size of a block.
pub record Derives (x : Primitives) (passphrase salt : List ℕ) (rounds : ℕ) (kiv : List ℕ)
    : Type 0 where
  pub derived : x.derive 48 passphrase salt rounds ≡ some kiv
  pub aes_size : (key b : List ℕ) → length (x.aes_encrypt key b) ≡ 16

module _ {x : Primitives} {passphrase salt : List ℕ} {rounds : ℕ} {kiv : List ℕ}
    (d : Derives x passphrase salt rounds kiv) where
  abbrev masked : List ℕ → List ℕ
  masked block = ctr_xor (x.aes_encrypt (take 32 kiv)) (drop 32 kiv) block

  openssh_crypt-masked :
      (block : List ℕ) (decrypt : Bool)
      → openssh_crypt x aes256_ctr block [] passphrase salt rounds decrypt ≡ crypted (masked block)
  unfolding openssh_crypt run_cipher key_len iv_len is_cbc
  openssh_crypt-masked block decrypt = ground (arith, d.derived)

  crypt_in_place-masked :
      (block : List ℕ) → crypt_in_place x passphrase salt rounds block ≡ some (masked block)
  unfolding crypt_in_place
  crypt_in_place-masked block = ground (arith, openssh_crypt-masked block false)

  -- The block that was masked is unmasked and read, past the checks on the parameters.
  open_checked-masked :
      {r : Request} {check : List ℕ} (transients : Bool)
      → IsRequest (passphrase_profile salt rounds) r check
      → length salt ≡ 16
      → rounds ≤ max_rounds
      → (let p = passphrase_profile salt rounds in
          open_checked x transients passphrase
            (header_of p r (masked (private_block p r check)))
            aes256_ctr
            salt
            rounds
          ≡ opened (ed25519 r.seed r.pub_key))
  unfolding open_checked open_block key_of header_of block_len priv_padded priv_len
  open_checked-masked {r} {check} transients v hs hi =
      let p = passphrase_profile salt rounds in
      let block = private_block p r check in
      let admitted = admit_key_type-public_blob transients r v.pub_size in
      let size = length-ctr_xor (x.aes_encrypt (take 32 kiv)) (drop 32 kiv) block (d.aes_size _) in
      let plain = length-private_block v in
      let whole = pad_len-whole 16 (priv_len r) (omega arith) in
      let back = ctr_xor_twice (x.aes_encrypt (take 32 kiv)) (drop 32 kiv) block (d.aes_size _) in
      let run = openssh_crypt-masked (masked block) true in
      let last = parse_private_block-private_block v in
      ground (arith, admitted, size, plain, whole, back, run, last)

  parse_encrypted-masked :
      {r : Request} {check : List ℕ} (transients : Bool)
      → IsRequest (passphrase_profile salt rounds) r check
      → length salt ≡ 16
      → 1 ≤ rounds
      → rounds ≤ max_rounds
      → (let p = passphrase_profile salt rounds in
          parse_encrypted x transients passphrase
            (header_bytes p r ++ masked (private_block p r check))
          ≡ opened (ed25519 r.seed r.pub_key))
  unfolding parse_encrypted open_header open_mode cipher_by_name tag_len header_of agrees
  parse_encrypted-masked {r} {check} transients v hs lo hi =
      let p = passphrase_profile salt rounds in
      let block = masked (private_block p r check) in
      let size =
        length-ctr_xor (x.aes_encrypt (take 32 kiv)) (drop 32 kiv) (private_block p r check)
          (d.aes_size _) in
      let plain = length-private_block v in
      let opts = read_kdf_options-kdf_bytes salt rounds hs lo hi in
      let header =
        read_header-header_bytes block v (omega arith) (omega arith)
          (omega (arith, length-kdf_bytes salt rounds hs)) (omega (arith, size, plain)) refl in
      let last = open_checked-masked transients v hs hi in ground (arith, header, opts, last)

-- What MarshalOpenSSHPrivateKeyWithPassphrase writes, armoured, is a container that
-- ParsePrivateKeyWithPassphrase opens under the same passphrase as the key that was written: for a KDF
-- that derives a key and an AES of blocks of 16 bytes, when the allocations and the random bytes come.
pub marshal_openssh-opens :
    {r : Request} {check salt kiv : List ℕ} (c : Calls) (x : Primitives) (transients : Bool)
    → Derives x r.passphrase salt r.rounds kiv
    → c.crypt ≡ crypt_in_place x
    → IsRequest (passphrase_profile salt r.rounds) r check
    → 0 < length r.passphrase
    → 1 ≤ r.rounds
    → r.rounds ≤ max_rounds
    → length salt ≡ 16
    → c.salt ≡ some salt
    → c.check ≡ some check
    → c.container_allocated ≡ true
    → c.out_allocated ≡ true
    → (blob : List ℕ) × (marshal_openssh c r ≡ marshalled (armour pem_type blob))
      × (parse_encrypted x transients r.passphrase blob ≡ opened (ed25519 r.seed r.pub_key))
marshal_openssh-opens {r} {check} {salt} {kiv} c x transients d ec v pos lo hi hs es eb room
      out_room =
    let p = passphrase_profile salt r.rounds in
    let private = private_block p r check in
    let block = masked d private in
    let crypted =
      ap (λ f. f r.passphrase salt r.rounds private) ec ∙ crypt_in_place-masked d private in
    let size = length-ctr_xor (x.aes_encrypt (take 32 kiv)) (drop 32 kiv) private (d.aes_size _) in
    (
      header_bytes p r ++ block,
      marshal_openssh-encrypted c block v pos lo hi hs es eb room out_room crypted size,
      parse_encrypted-masked d transients v hs lo hi,
    )
