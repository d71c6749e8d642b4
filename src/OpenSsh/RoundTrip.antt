-- ===== src/OpenSsh/RoundTrip.antt =====
-- secmem-crypto/marshal_openssh.go against parse_openssh.go and parse_encrypted.go: a container that
-- is written is opened as the key that was written.
use secmem.Prelude.{ℕ, ◌%◌, ◌^◌, ◌<◌, true, List, [], ◌++◌, length, ◌≡◌, refl, arith, equal_bytes}
use mathlib.Core.List.{append_assoc, append-nil}
use secmem.SshWire.{big_endian, encoded_str}
use secmem.OpenSsh.{magic, Header, parsed, agrees, none_block, name_none, read_header}
use secmem.OpenSsh.PrivateBlock.{
  ed25519, name_ed25519, parse_openssh, parse_unencrypted, parse_private_block,
}
use secmem.OpenSsh.Marshal.{Request, Profile, plain_profile, pub_blob_len, priv_len, priv_padded}
use secmem.OpenSsh.Container.{
  IsRequest, container, private_block, public_blob, header_bytes, length-private_block,
}
use secmem.OpenSsh.Written.{pad_len-lt, pad_len-whole, header_bytes-container, length-public_blob}
use secmem.OpenSsh.HeaderTrip.{layout, Fits, read_header-layout}
use secmem.OpenSsh.KeyTrip.{parse_private_block-private_block}

-- The header that goes out with a private block, in clear or encrypted.
unfoldable pub header_of : Profile → Request → (block : List ℕ) → Header
header_of p r block = record {
  cipher = p.cipher_name;
  kdf = p.kdf_name;
  kdf_opts = p.kdf_opts;
  num_keys = 1;
  pub_blob = public_blob r;
  priv_block = block;
  rest = [];
}

header_bytes-layout :
    (p : Profile) (r : Request) (block : List ℕ)
    → length r.pub_key ≡ 32
    → length block ≡ priv_padded p r
    → header_bytes p r ++ block ≡ magic ++ layout (header_of p r block)
unfolding layout header_of encoded_str public_blob
header_bytes-layout p r block hp padded =
    let name = encoded_str name_ed25519 in
    let key = encoded_str r.pub_key in
    let size = big_endian (priv_padded p r % 2 ^ 32) in
    let keys = big_endian (pub_blob_len % 2 ^ 32) in
    let one = big_endian 1 in
    let opts = encoded_str p.kdf_opts in
    let kdf = encoded_str p.kdf_name in
    let cipher = encoded_str p.cipher_name in
    let t1 = key ++ size in
    let t2 = name ++ t1 in
    let t3 = keys ++ t2 in
    let t4 = one ++ t3 in
    let t5 = opts ++ t4 in
    let t6 = kdf ++ t5 in
    let t7 = cipher ++ t6 in
    cc (
      padded,
      length-public_blob r hp,
      append_assoc magic t7 block,
      append_assoc cipher t6 block,
      append_assoc kdf t5 block,
      append_assoc opts t4 block,
      append_assoc one t3 block,
      append_assoc keys t2 block,
      append_assoc name t1 block,
      append_assoc key size block,
      append_assoc keys (name ++ key) (size ++ block),
      append_assoc name key (size ++ block),
      append-nil (size ++ block),
    )

header_of-Fits :
    {p : Profile} {r : Request} {check : List ℕ} (block : List ℕ)
    → IsRequest p r check
    → length p.cipher_name < 2 ^ 32
    → length p.kdf_name < 2 ^ 32
    → length p.kdf_opts < 2 ^ 32
    → length block ≡ priv_padded p r
    → Fits (header_of p r block)
unfolding header_of priv_padded priv_len
header_of-Fits {p} {r} block v hc hk ho padded =
    let pad = pad_len-lt p.block_size (priv_len r) v.block_pos in
    record {
      cipher_fits = hc;
      kdf_fits = hk;
      opts_fits = ho;
      keys_fit = omega arith;
      pub_fits = omega (arith, length-public_blob r v.pub_size);
      priv_fits = omega (arith, pad, v.block_size, v.comment_size, padded);
    }

-- The outer fields of a container are read back, whatever its private block went through.
pub read_header-header_bytes :
    {p : Profile} {r : Request} {check : List ℕ} (block : List ℕ)
    → IsRequest p r check
    → length p.cipher_name < 2 ^ 32
    → length p.kdf_name < 2 ^ 32
    → length p.kdf_opts < 2 ^ 32
    → length block ≡ priv_padded p r
    → agrees (header_of p r block) ≡ true
    → read_header (header_bytes p r ++ block) ≡ parsed (header_of p r block)
read_header-header_bytes {p} {r} block v hc hk ho padded ok = cc (
  header_bytes-layout p r block v.pub_size padded,
  read_header-layout (header_of p r block) (header_of-Fits block v hc hk ho padded) ok,
)

parse_unencrypted-whole :
    (h : Header)
    → equal_bytes h.cipher name_none ≡ true
    → length h.rest ≡ 0
    → h.num_keys ≡ 1
    → 0 < length h.priv_block
    → length h.priv_block % none_block ≡ 0
    → parse_unencrypted h ≡ parse_private_block h.priv_block h.pub_blob none_block
unfolding parse_unencrypted
parse_unencrypted-whole h plain end one some_block whole = ground arith

-- An unencrypted container is parsed to the key that was written into it.
pub parse_openssh-container :
    {r : Request} {check : List ℕ}
    → IsRequest plain_profile r check
    → parse_openssh (container plain_profile r check) ≡ parsed (ed25519 r.seed r.pub_key)
unfolding parse_openssh header_of agrees priv_padded priv_len
parse_openssh-container {r} {check} v =
    let block = private_block plain_profile r check in
    let size = length-private_block v in
    let whole = pad_len-whole 8 (priv_len r) (omega arith) in
    let header =
      read_header-header_bytes {p = plain_profile} block v (omega arith) (omega arith) (omega arith)
        size refl in
    let same = header_bytes-container v in
    let checks =
      parse_unencrypted-whole (header_of plain_profile r block) refl refl refl (omega (arith, size))
        (omega (arith, size, whole)) in
    let last = parse_private_block-private_block v in cc (header, same, checks, last)
