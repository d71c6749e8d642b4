-- ===== src/OpenSsh/HeaderTrip.antt =====
-- secmem-crypto/parse_openssh.go against the layout of the container: readOpenSSHHeader reads back the
-- fields that were laid out.
use secmem.Prelude.{ℕ, ◌<◌, ◌^◌, true, List, ◌++◌, length, ◌≡◌, arith, strip_prefix-append}
use secmem.SshWire.{big_endian, encoded_str}
use secmem.SshWire.Reads.{read_str-encoded_str, read_uint32-big_endian}
use secmem.OpenSsh.{magic, Header, parsed, read_fields, agrees, check_header, read_header}

-- The bytes of a header, in the order of its fields.
unfoldable pub layout : Header → List ℕ
layout h =
    encoded_str h.cipher
    ++ (encoded_str h.kdf
        ++ (encoded_str h.kdf_opts
            ++ (big_endian h.num_keys
                ++ (encoded_str h.pub_blob ++ (encoded_str h.priv_block ++ h.rest)))))

-- Every length and the count of keys fit in 32 bits.
pub record Fits (h : Header) : Type 0 where
  pub cipher_fits : length h.cipher < 2 ^ 32
  pub kdf_fits : length h.kdf < 2 ^ 32
  pub opts_fits : length h.kdf_opts < 2 ^ 32
  pub keys_fit : h.num_keys < 2 ^ 32
  pub pub_fits : length h.pub_blob < 2 ^ 32
  pub priv_fits : length h.priv_block < 2 ^ 32

pub read_fields-layout : (h : Header) → Fits h → read_fields (layout h) ≡ parsed h
unfolding read_fields layout
read_fields-layout h f =
    let t5 = encoded_str h.priv_block ++ h.rest in
    let t4 = encoded_str h.pub_blob ++ t5 in
    let t3 = big_endian h.num_keys ++ t4 in
    let t2 = encoded_str h.kdf_opts ++ t3 in
    let t1 = encoded_str h.kdf ++ t2 in
    let r1 = read_str-encoded_str h.cipher t1 f.cipher_fits in
    let r2 = read_str-encoded_str h.kdf t2 f.kdf_fits in
    let r3 = read_str-encoded_str h.kdf_opts t3 f.opts_fits in
    let r4 = read_uint32-big_endian h.num_keys t4 f.keys_fit in
    let r5 = read_str-encoded_str h.pub_blob t5 f.pub_fits in
    let r6 = read_str-encoded_str h.priv_block h.rest f.priv_fits in
    ground (arith, r1, r2, r3, r4, r5, r6)

-- A container with consistent fields is read back field by field.
pub read_header-layout :
    (h : Header) → Fits h → agrees h ≡ true → read_header (magic ++ layout h) ≡ parsed h
unfolding read_header check_header
read_header-layout h f ok =
    let fields = read_fields-layout h f in
    let body = strip_prefix-append magic (layout h) in ground (arith, fields, body)
