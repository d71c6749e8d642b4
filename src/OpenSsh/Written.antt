-- ===== src/OpenSsh/Written.antt =====
-- secmem-crypto/marshal_openssh.go: what marshalOpenSSH leaves in its slices. The sizes it computes up
-- front are those of what it writes, so neither of its layout checks fails.
use secmem.Prelude.{ℕ, ◌+◌, ◌-◌, ◌<◌, ◌%◌, ◌^◌, List, ◌++◌, length, ◌≡◌, arith, length-append}
use mathlib.Core.List.{append_assoc}
use native.Mathlib.Nat.{mod-lt, add-mod-mod, mod-add-mod, mod_self}
use secmem.SshWire.{big_endian, encoded_str}
use secmem.OpenSsh.{magic}
use secmem.OpenSsh.PrivateBlock.{name_ed25519}
use secmem.OpenSsh.Marshal.{Request, Profile, pub_blob_len, pad_len, priv_padded, total}
use secmem.OpenSsh.Container.{
  IsRequest, container, private_block, public_blob, header_bytes, length-private_block,
  length-encoded_str,
}

pub pad_len-lt : (block_size n : ℕ) → 0 < block_size → pad_len block_size n < block_size
unfolding pad_len
pad_len-lt block_size n h = grind arith

-- The padding fills up the last block, and stays below a whole one.
pub pad_len-whole :
    (block_size n : ℕ) → 0 < block_size → (n + pad_len block_size n) % block_size ≡ 0
unfolding pad_len
pad_len-whole block_size n h =
    let left = block_size - n % block_size in
    let sum : n % block_size + left ≡ block_size = omega (arith, mod-lt n h) in
    cc (add-mod-mod n left block_size, mod-add-mod n block_size left, sum, mod_self block_size)

pub length-public_blob :
    (r : Request) → length r.pub_key ≡ 32 → length (public_blob r) ≡ pub_blob_len
unfolding public_blob encoded_str big_endian
length-public_blob r h = omega (
  arith,
  length-append (encoded_str name_ed25519) (encoded_str r.pub_key),
  length-encoded_str r.pub_key,
)

-- Header and private block together are the container.
pub header_bytes-container :
    {p : Profile} {r : Request} {check : List ℕ}
    → IsRequest p r check
    → header_bytes p r ++ private_block p r check ≡ container p r check
unfolding container encoded_str public_blob
header_bytes-container {p} {r} {check} v =
    let block = private_block p r check in
    let name = encoded_str name_ed25519 in
    let key = encoded_str r.pub_key in
    let size = big_endian (priv_padded p r % 2 ^ 32) in
    let keys = big_endian (pub_blob_len % 2 ^ 32) in
    let one = big_endian 1 in
    let opts = encoded_str p.kdf_opts in
    let kdf = encoded_str p.kdf_name in
    let cipher = encoded_str p.cipher_name in
    let t1 = key ++ size in
    let t2 = name ++ t1 in
    let t3 = keys ++ t2 in
    let t4 = one ++ t3 in
    let t5 = opts ++ t4 in
    let t6 = kdf ++ t5 in
    let t7 = cipher ++ t6 in
    cc (
      length-private_block v,
      length-public_blob r v.pub_size,
      append_assoc magic t7 block,
      append_assoc cipher t6 block,
      append_assoc kdf t5 block,
      append_assoc opts t4 block,
      append_assoc one t3 block,
      append_assoc keys t2 block,
      append_assoc name t1 block,
      append_assoc key size block,
      append_assoc keys (name ++ key) (size ++ block),
      append_assoc name key (size ++ block),
    )

pub length-container :
    {p : Profile} {r : Request} {check : List ℕ}
    → IsRequest p r check
    → length (container p r check) ≡ total p r
unfolding container total big_endian
length-container {p} {r} {check} v =
    let block = encoded_str (private_block p r check) in
    let blob = encoded_str (public_blob r) in
    let tail = big_endian 1 ++ (blob ++ block) in
    omega (
      arith,
      length-append (encoded_str p.cipher_name)
          (encoded_str p.kdf_name ++ (encoded_str p.kdf_opts ++ tail)),
      length-append (encoded_str p.kdf_name) (encoded_str p.kdf_opts ++ tail),
      length-append (encoded_str p.kdf_opts) tail,
      length-append blob block,
      length-encoded_str p.cipher_name,
      length-encoded_str p.kdf_name,
      length-encoded_str p.kdf_opts,
      length-encoded_str (public_blob r),
      length-encoded_str (private_block p r check),
      length-public_blob r v.pub_size,
      length-private_block v,
    )
