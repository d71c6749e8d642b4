-- ===== src/OpenSsh/KeyTrip.antt =====
-- secmem-crypto/parse_openssh.go against marshal_openssh.go: the private block that is written for an
-- Ed25519 key is read back as that key.
use secmem.Prelude.{
  ℕ, zero, suc, ◌+◌, ◌*◌, ◌↔◌, ◌≤◌, ◌<◌, ◌^◌, true, List, [], ◌∷◌, ◌++◌, length, some, ◌≡◌, refl,
  arith, length-append, equal_bytes_self,
}
use mathlib.Core.List.{append_assoc, append-nil}
use secmem.SshWire.{encoded_str, read_uint32}
use secmem.SshWire.Reads.{read_str-encoded_str}
use secmem.Prelude.{take-append, drop-append}
use secmem.OpenSsh.{parsed}
use secmem.OpenSsh.PrivateBlock.{
  ed25519, name_ed25519, counts_from, padding_ok, finish_ed25519, read_ed25519, read_by_type,
  read_typed, parse_private_block,
}
use secmem.OpenSsh.Marshal.{Request, Profile, pad_len, priv_len}
use secmem.OpenSsh.Written.{pad_len-lt}
use secmem.OpenSsh.Container.{IsRequest, pad, public_blob, key_fields, private_block, length-pad}

-- The pad that is written is the pad that is accepted, below a block of at most 256 bytes.
counts_from-pad : (i k : ℕ) → i + k ≤ 256 → counts_from i (pad i k) ≡ true
unfolding counts_from pad
counts_from-pad i zero h = refl
counts_from-pad i (suc k) h = ground (arith, counts_from-pad (i + 1) k (omega arith))

pub padding_ok-pad :
    (block_size k : ℕ) → k < block_size → block_size ≤ 256 → padding_ok (pad 1 k) block_size ≡ true
unfolding padding_ok
padding_ok-pad block_size k lt le =
    ground (arith, length-pad 1 k, counts_from-pad 1 k (omega arith))

counts_from→pad :
    (i : ℕ) (bs : List ℕ) → i + length bs ≤ 256 → counts_from i bs ≡ true → bs ≡ pad i (length bs)
unfolding counts_from pad
counts_from→pad i [] le h = refl
counts_from→pad i (b ∷ bs) le h = ground (arith, counts_from→pad (i + 1) bs (omega arith))

-- For a block of at most 256 bytes, a pad is accepted exactly when it is shorter than the block and is
-- 1, 2, 3, … from its first byte on.
padding_ok_iff :
    (block_size : ℕ) (padding : List ℕ)
    → block_size ≤ 256
    → (padding_ok padding block_size ≡ true)
      ↔ ((length padding < block_size) × (padding ≡ pad 1 (length padding)))
unfolding padding_ok
padding_ok_iff block_size padding le = (
  λ h. ground (arith, counts_from→pad 1 padding),
  λ (lt, same). ground (arith, same, counts_from-pad 1 (length padding) (omega arith)),
)

finish_ed25519-key :
    (block_size : ℕ) (seed public padding : List ℕ)
    → length seed ≡ 32
    → length public ≡ 32
    → padding_ok padding block_size ≡ true
    → finish_ed25519 block_size public (seed ++ public) padding (encoded_str public)
      ≡ parsed (ed25519 seed public)
unfolding finish_ed25519
finish_ed25519-key block_size seed public padding hs hp ok =
    let left = take-append seed public in
    let right = drop-append seed public in
    let size = length-append seed public in
    let same = equal_bytes_self public in
    let again = read_str-encoded_str public [] (omega arith) in
    let tail = append-nil (encoded_str public) in
    ground (arith, left, right, size, same, again, tail, hs, hp)

read_ed25519-key :
    (block_size : ℕ) (seed public comment padding : List ℕ)
    → length seed ≡ 32
    → length public ≡ 32
    → length comment < 2 ^ 31
    → padding_ok padding block_size ≡ true
    → read_ed25519 block_size
        (encoded_str public ++ (encoded_str (seed ++ public) ++ (encoded_str comment ++ padding)))
        (encoded_str public)
      ≡ parsed (ed25519 seed public)
unfolding read_ed25519
read_ed25519-key block_size seed public comment padding hs hp hc ok =
    let t2 = encoded_str comment ++ padding in
    let t1 = encoded_str (seed ++ public) ++ t2 in
    let size = length-append seed public in
    let r1 = read_str-encoded_str public t1 (omega arith) in
    let r2 = read_str-encoded_str (seed ++ public) t2 (omega arith) in
    let r3 = read_str-encoded_str comment padding (omega arith) in
    let last = finish_ed25519-key block_size seed public padding hs hp ok in
    ground (arith, r1, r2, r3, last)

read_typed-key :
    (block_size : ℕ) (seed public comment padding : List ℕ)
    → length seed ≡ 32
    → length public ≡ 32
    → length comment < 2 ^ 31
    → padding_ok padding block_size ≡ true
    → read_typed block_size
        (encoded_str name_ed25519
          ++ (encoded_str public
              ++ (encoded_str (seed ++ public) ++ (encoded_str comment ++ padding))))
        (encoded_str name_ed25519 ++ encoded_str public)
      ≡ parsed (ed25519 seed public)
unfolding read_typed read_by_type
read_typed-key block_size seed public comment padding hs hp hc ok =
    let t1 =
      encoded_str public ++ (encoded_str (seed ++ public) ++ (encoded_str comment ++ padding)) in
    let r1 = read_str-encoded_str name_ed25519 t1 (omega arith) in
    let r2 = read_str-encoded_str name_ed25519 (encoded_str public) (omega arith) in
    let last = read_ed25519-key block_size seed public comment padding hs hp hc ok in
    ground (arith, r1, r2, last)

-- Four check bytes are one number, whatever they are.
read_check :
    (check rest : List ℕ)
    → length check ≡ 4
    → (n : ℕ) × (read_uint32 (check ++ rest) ≡ some (n, rest))
      × (read_uint32 (check ++ (check ++ rest)) ≡ some (n, check ++ rest))
unfolding read_uint32
read_check (a ∷ b ∷ c ∷ d ∷ []) rest h = (a * 2 ^ 24 + b * 2 ^ 16 + c * 2 ^ 8 + d, refl, refl)
read_check [] rest h = absurd (omega arith)
read_check (a ∷ []) rest h = absurd (omega arith)
read_check (a ∷ b ∷ []) rest h = absurd (omega arith)
read_check (a ∷ b ∷ c ∷ []) rest h = absurd (omega arith)
read_check (a ∷ b ∷ c ∷ d ∷ e ∷ es) rest h = absurd (omega arith)

-- The private block of a request is read back as the request's key.
pub parse_private_block-private_block :
    {p : Profile} {r : Request} {check : List ℕ}
    → IsRequest p r check
    → parse_private_block (private_block p r check) (public_blob r) p.block_size
      ≡ parsed (ed25519 r.seed r.pub_key)
unfolding parse_private_block private_block key_fields public_blob
parse_private_block-private_block {p} {r} {check} v =
    let name = encoded_str name_ed25519 in
    let key = encoded_str r.pub_key in
    let both = encoded_str (r.seed ++ r.pub_key) in
    let comment = encoded_str r.comment in
    let padding = pad 1 (pad_len p.block_size (priv_len r)) in
    let ok =
      padding_ok-pad p.block_size (pad_len p.block_size (priv_len r))
        (pad_len-lt p.block_size (priv_len r) v.block_pos) (omega (arith, v.block_size)) in
    let fields = name ++ (key ++ (both ++ (comment ++ padding))) in
    let (n, first, second) = read_check check fields v.check_size in
    let last =
      read_typed-key p.block_size r.seed r.pub_key r.comment padding v.seed_size v.pub_size
        v.comment_size ok in
    let flat : (name ++ (key ++ (both ++ comment))) ++ padding ≡ fields = cc (
      append_assoc name (key ++ (both ++ comment)) padding,
      append_assoc key (both ++ comment) padding,
      append_assoc both comment padding,
    ) in
    ground (arith, first, second, last, flat)
