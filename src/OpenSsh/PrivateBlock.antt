-- ===== src/OpenSsh/PrivateBlock.antt =====
-- secmem-crypto/parse_openssh.go: the private block of the container, its padding, and the reader of
-- an unencrypted container. The key that comes out is what the code hands to ed25519FromSeed,
-- ecdsaFromScalar and pkcs1DER.
use secmem.Prelude.{
  ℕ, ◌+◌, ◌%◌, Bool, true, false, not, ◌&&◌, ◌||◌, if◌then◌else◌, leb, ◌==◌, Option, none, some,
  List, [], ◌∷◌, length, take, drop, codes, equal_bytes,
}
use secmem.SshWire.{read_uint32, read_str}
use secmem.OpenSsh.{
  Parsed, parsed, refused, malformed, check_mismatch, encrypted_key, unsupported_key, or_malformed,
  Header, read_header, name_none, none_block,
}

pub data Curve : Type 0 where
  p256 p384 p521 : Curve

pub data Key : Type 0 where
  ed25519 : (seed public : List ℕ) → Key
  ecdsa : (scalar : List ℕ) (curve : Curve) (point : List ℕ) → Key
  rsa : (n e d p q iqmp : List ℕ) → Key

-- checkOpenSSHPadding: the pad is 1, 2, 3, … and shorter than a block.
unfoldable pub counts_from : ℕ → List ℕ → Bool
counts_from i [] = true
counts_from i (b ∷ bs) = let rest = counts_from (i + 1) bs in (b == i) && rest

unfoldable pub padding_ok : List ℕ → ℕ → Bool
padding_ok pad block_size = if leb block_size (length pad) then false else counts_from 1 pad

unfoldable pub strip_zeros : List ℕ → List ℕ
strip_zeros [] = []
strip_zeros (b ∷ bs) = let rest = strip_zeros bs in if b == 0 then rest else b ∷ bs

abbrev pub name_ed25519 : List ℕ
name_ed25519 = codes "ssh-ed25519"

abbrev pub name_rsa : List ℕ
name_rsa = codes "ssh-rsa"

-- The checks that end each case of the switch. `pad` is what the reads of the private block left,
-- `pub` what the read of the type left of the public block.
unfoldable pub finish_ed25519 : ℕ → (pk sk pad pub_rest : List ℕ) → Parsed Key
finish_ed25519 block_size pk sk pad pub_rest =
    if not (length pk == 32) || not (length sk == 64)
    then refused malformed
    else if not (padding_ok pad block_size)
    then refused malformed
    else or_malformed (read_str pub_rest) λ (pub_key, _).
      if not (equal_bytes pub_key pk) || not (equal_bytes (drop 32 sk) pk)
      then refused malformed
      else parsed (ed25519 (take 32 sk) pk)

unfoldable pub read_ed25519 : ℕ → (block pub_rest : List ℕ) → Parsed Key
read_ed25519 block_size block pub_rest = or_malformed (read_str block) λ (pk, b1).
    or_malformed (read_str b1) λ (sk, b2).
      or_malformed (read_str b2) λ (_, pad). finish_ed25519 block_size pk sk pad pub_rest

unfoldable pub curve_by_name : List ℕ → Option Curve
curve_by_name name =
    if equal_bytes name (codes "nistp256")
    then some p256
    else if equal_bytes name (codes "nistp384")
    then some p384
    else if equal_bytes name (codes "nistp521")
    then some p521
    else none

unfoldable pub match_ecdsa : (curve_name q d pub_rest : List ℕ) → Curve → Parsed Key
match_ecdsa curve_name q d pub_rest curve = or_malformed (read_str pub_rest) λ (pub_curve, p1).
    or_malformed (read_str p1) λ (pub_q, _).
      if not (equal_bytes pub_curve curve_name) || not (equal_bytes pub_q q)
      then refused malformed
      else parsed (ecdsa d curve q)

unfoldable pub finish_ecdsa : ℕ → (key_type curve_name q d pad pub_rest : List ℕ) → Parsed Key
finish_ecdsa block_size key_type curve_name q d pad pub_rest =
    if not (padding_ok pad block_size)
    then refused malformed
    else if not (equal_bytes curve_name (drop 11 key_type))
    then refused malformed
    else elim (curve_by_name curve_name) [
      | none ↦ refused unsupported_key
      | some curve ↦ match_ecdsa curve_name q d pub_rest curve
    ]

unfoldable pub read_ecdsa : ℕ → (key_type block pub_rest : List ℕ) → Parsed Key
read_ecdsa block_size key_type block pub_rest = or_malformed (read_str block) λ (curve_name, b1).
    or_malformed (read_str b1) λ (q, b2). or_malformed (read_str b2) λ (d, b3).
      or_malformed (read_str b3)
        λ (_, pad). finish_ecdsa block_size key_type curve_name q d pad pub_rest

unfoldable pub finish_rsa : ℕ → (n e d iqmp p q pad pub_rest : List ℕ) → Parsed Key
finish_rsa block_size n e d iqmp p q pad pub_rest =
    if not (padding_ok pad block_size)
    then refused malformed
    else or_malformed (read_str pub_rest) λ (pub_e, p1). or_malformed (read_str p1) λ (pub_n, _).
      if not (equal_bytes (strip_zeros pub_e) (strip_zeros e))
        || not (equal_bytes (strip_zeros pub_n) (strip_zeros n))
      then refused malformed
      else parsed (rsa n e d p q iqmp)

unfoldable pub read_rsa : ℕ → (block pub_rest : List ℕ) → Parsed Key
read_rsa block_size block pub_rest = or_malformed (read_str block) λ (n, b1).
    or_malformed (read_str b1) λ (e, b2). or_malformed (read_str b2) λ (d, b3).
      or_malformed (read_str b3) λ (iqmp, b4). or_malformed (read_str b4) λ (p, b5).
        or_malformed (read_str b5) λ (q, b6).
          or_malformed (read_str b6) λ (_, pad). finish_rsa block_size n e d iqmp p q pad pub_rest

abbrev pub is_ecdsa : List ℕ → Bool
is_ecdsa key_type =
    equal_bytes key_type (codes "ecdsa-sha2-nistp256")
    || equal_bytes key_type (codes "ecdsa-sha2-nistp384")
    || equal_bytes key_type (codes "ecdsa-sha2-nistp521")

unfoldable pub read_by_type : ℕ → (key_type block pub_rest : List ℕ) → Parsed Key
read_by_type block_size key_type block pub_rest =
    if equal_bytes key_type name_ed25519
    then read_ed25519 block_size block pub_rest
    else if is_ecdsa key_type
    then read_ecdsa block_size key_type block pub_rest
    else if equal_bytes key_type name_rsa
    then read_rsa block_size block pub_rest
    else refused unsupported_key

-- The key type, which both blocks name.
unfoldable pub read_typed : ℕ → (block pub_blob : List ℕ) → Parsed Key
read_typed block_size block pub_blob = or_malformed (read_str block) λ (key_type, b1).
    or_malformed (read_str pub_blob) λ (pub_type, pub_rest).
      if equal_bytes pub_type key_type
      then read_by_type block_size key_type b1 pub_rest
      else refused malformed

-- parseOpenSSHPrivateBlock.
unfoldable pub parse_private_block : (block pub_blob : List ℕ) → ℕ → Parsed Key
parse_private_block block pub_blob block_size = or_malformed (read_uint32 block) λ (check1, b1).
    or_malformed (read_uint32 b1) λ (check2, b2).
      if check1 == check2 then read_typed block_size b2 pub_blob else refused check_mismatch

-- parseOpenSSH past the header.
unfoldable pub parse_unencrypted : Header → Parsed Key
parse_unencrypted h =
    if not (equal_bytes h.cipher name_none)
    then refused encrypted_key
    else if not (length h.rest == 0)
    then refused malformed
    else if not (h.num_keys == 1)
    then refused unsupported_key
    else if (length h.priv_block == 0) || not (length h.priv_block % none_block == 0)
    then refused malformed
    else parse_private_block h.priv_block h.pub_blob none_block

unfoldable pub parse_openssh : List ℕ → Parsed Key
parse_openssh b = elim (read_header b) [ refused r ↦ refused r | parsed h ↦ parse_unencrypted h ]
