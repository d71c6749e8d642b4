-- ===== src/OpenSsh/Container.antt =====
-- secmem-crypto/marshal_openssh.go: the container in plain terms, a concatenation of encoded fields,
-- and that marshalOpenSSH writes it, in the size that it computed.
use secmem.Prelude.{
  ℕ, zero, suc, ◌+◌, ◌≤◌, ◌<◌, ◌%◌, ◌^◌, List, [], ◌∷◌, ◌++◌, length, ◌≡◌, refl, arith,
  length-append,
}
use mathlib.Core.List.{append_assoc, append-nil}
use secmem.SshWire.{big_endian, put_exact, str_len, encoded_str}
use secmem.SshWire.Puts.{
  Puts, ▷-Puts, put_uint32-Puts, put_length-Puts, put_bytes-Puts, put_exact-Puts, put_str-Puts,
}
use secmem.OpenSsh.{magic}
use secmem.OpenSsh.PrivateBlock.{name_ed25519}
use secmem.OpenSsh.Marshal.{
  Request, Profile, pub_blob_len, pad_len, priv_len, priv_padded, put_pad, put_header, put_private,
}

-- 1, 2, 3, …
unfoldable pub pad : (i rounds : ℕ) → List ℕ
pad i zero = []
pad i (suc k) = i % 256 ∷ pad (i + 1) k

unfoldable pub public_blob : Request → List ℕ
public_blob r = encoded_str name_ed25519 ++ encoded_str r.pub_key

unfoldable pub key_fields : Request → List ℕ
key_fields r =
    encoded_str name_ed25519
    ++ (encoded_str r.pub_key ++ (encoded_str (r.seed ++ r.pub_key) ++ encoded_str r.comment))

unfoldable pub private_block : Profile → Request → (check : List ℕ) → List ℕ
private_block p r check =
    check ++ (check ++ (key_fields r ++ pad 1 (pad_len p.block_size (priv_len r))))

unfoldable pub container : Profile → Request → (check : List ℕ) → List ℕ
container p r check =
    magic
    ++ (encoded_str p.cipher_name
        ++ (encoded_str p.kdf_name
            ++ (encoded_str p.kdf_opts
                ++ (big_endian 1
                    ++ (encoded_str (public_blob r) ++ encoded_str (private_block p r check))))))

-- The key is an Ed25519 key, the check bytes are four, and the sizes are those of a file.
pub record IsRequest (p : Profile) (r : Request) (check : List ℕ) : Type 0 where
  pub seed_size : length r.seed ≡ 32
  pub pub_size : length r.pub_key ≡ 32
  pub check_size : length check ≡ 4
  pub comment_size : length r.comment < 2 ^ 31
  pub block_pos : 0 < p.block_size
  pub block_size : p.block_size ≤ 16

put_pad-Puts : (i k : ℕ) → Puts (put_pad i k) (pad i k)
unfolding Puts put_pad pad
put_pad-Puts i zero out tail h = cc (append-nil out)
put_pad-Puts i (suc k) out tail h =
    ▷-Puts (put_exact (i % 256 ∷ [])) (put_pad (i + 1) k) (i % 256 ∷ []) (pad (i + 1) k)
      (put_exact-Puts (i % 256 ∷ [])) (put_pad-Puts (i + 1) k) out tail h

pub length-pad : (i k : ℕ) → length (pad i k) ≡ k
unfolding pad
length-pad i zero = refl
length-pad i (suc k) = omega (arith, length-pad (i + 1) k)

abbrev pub header_bytes : Profile → Request → List ℕ
header_bytes p r =
    magic
    ++ (encoded_str p.cipher_name
        ++ (encoded_str p.kdf_name
            ++ (encoded_str p.kdf_opts
                ++ (big_endian 1
                    ++ (big_endian (pub_blob_len % 2 ^ 32)
                        ++ (encoded_str name_ed25519
                            ++ (encoded_str r.pub_key
                                ++ big_endian (priv_padded p r % 2 ^ 32))))))))

pub put_header-Puts : (p : Profile) (r : Request) → Puts (put_header p r) (header_bytes p r)
unfolding put_header
put_header-Puts p r = ▷-Puts _ _ _ _ (put_bytes-Puts magic) (
    ▷-Puts _ _ _ _ (put_str-Puts p.cipher_name) (
      ▷-Puts _ _ _ _ (put_str-Puts p.kdf_name) (
        ▷-Puts _ _ _ _ (put_str-Puts p.kdf_opts) (
          ▷-Puts _ _ _ _ (put_uint32-Puts 1) (
            ▷-Puts _ _ _ _ (put_length-Puts pub_blob_len) (
              ▷-Puts _ _ _ _ (put_str-Puts name_ed25519)
                (▷-Puts _ _ _ _ (put_str-Puts r.pub_key) (put_length-Puts (priv_padded p r)))))))))

abbrev pub private_bytes : Profile → Request → (check : List ℕ) → List ℕ
private_bytes p r check =
    check
    ++ (check
        ++ (encoded_str name_ed25519
            ++ (encoded_str r.pub_key
                ++ (big_endian (64 % 2 ^ 32)
                    ++ (r.seed
                        ++ (r.pub_key
                            ++ (encoded_str r.comment
                                ++ pad 1 (pad_len p.block_size (priv_len r)))))))))

pub put_private-Puts :
    (p : Profile) (r : Request) (check : List ℕ)
    → Puts (put_private p r check) (private_bytes p r check)
unfolding put_private
put_private-Puts p r check =
    let padding = pad_len p.block_size (priv_len r) in
    ▷-Puts _ _ _ _ (put_bytes-Puts check) (
      ▷-Puts _ _ _ _ (put_bytes-Puts check) (
        ▷-Puts _ _ _ _ (put_str-Puts name_ed25519) (
          ▷-Puts _ _ _ _ (put_str-Puts r.pub_key) (
            ▷-Puts _ _ _ _ (put_length-Puts 64) (
              ▷-Puts _ _ _ _ (put_bytes-Puts r.seed) (
                ▷-Puts _ _ _ _ (put_bytes-Puts r.pub_key)
                  (▷-Puts _ _ _ _ (put_str-Puts r.comment) (put_pad-Puts 1 padding))))))))

-- The seed and the public key go out as one string.
encoded_key :
    (seed public : List ℕ)
    → length seed ≡ 32
    → length public ≡ 32
    → encoded_str (seed ++ public) ≡ big_endian (64 % 2 ^ 32) ++ (seed ++ public)
unfolding encoded_str
encoded_key seed public hs hp =
    let size : length (seed ++ public) ≡ 64 = omega (arith, length-append seed public) in cc

pub private_bytes-private_block :
    {p : Profile} {r : Request} {check : List ℕ}
    → IsRequest p r check
    → private_bytes p r check ≡ private_block p r check
unfolding private_block key_fields
private_bytes-private_block {p} {r} {check} v =
    let name = encoded_str name_ed25519 in
    let key = encoded_str r.pub_key in
    let both = encoded_str (r.seed ++ r.pub_key) in
    let comment = encoded_str r.comment in
    let padding = pad 1 (pad_len p.block_size (priv_len r)) in
    let keys = big_endian (64 % 2 ^ 32) in
    cc (
      encoded_key r.seed r.pub_key v.seed_size v.pub_size,
      append_assoc name (key ++ (both ++ comment)) padding,
      append_assoc key (both ++ comment) padding,
      append_assoc both comment padding,
      append_assoc keys (r.seed ++ r.pub_key) (comment ++ padding),
      append_assoc r.seed r.pub_key (comment ++ padding),
    )

pub length-encoded_str : (p : List ℕ) → length (encoded_str p) ≡ str_len (length p)
unfolding encoded_str big_endian
length-encoded_str p = omega arith

pub length-private_block :
    {p : Profile} {r : Request} {check : List ℕ}
    → IsRequest p r check
    → length (private_block p r check) ≡ priv_padded p r
unfolding private_block key_fields priv_padded priv_len
length-private_block {p} {r} {check} v =
    let name = encoded_str name_ed25519 in
    let key = encoded_str r.pub_key in
    let both = encoded_str (r.seed ++ r.pub_key) in
    let comment = encoded_str r.comment in
    let n = pad_len p.block_size (priv_len r) in
    let padding = pad 1 n in
    let fields = name ++ (key ++ (both ++ comment)) in
    omega (
      arith,
      v.seed_size,
      v.pub_size,
      v.check_size,
      length-append check (check ++ (fields ++ padding)),
      length-append check (fields ++ padding),
      length-append fields padding,
      length-append name (key ++ (both ++ comment)),
      length-append key (both ++ comment),
      length-append both comment,
      length-append r.seed r.pub_key,
      length-encoded_str name_ed25519,
      length-encoded_str r.pub_key,
      length-encoded_str (r.seed ++ r.pub_key),
      length-encoded_str r.comment,
      length-pad 1 n,
    )
