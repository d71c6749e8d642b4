-- ===== src/OpenSsh/Outcome.antt =====
-- secmem-crypto/marshal_openssh.go: the outcome of marshalOpenSSH, unencrypted and under a passphrase.
use secmem.Prelude.{
  ℕ, true, List, [], length, some, ◌≡◌, ap, arith, length-append, length-drop, length-replicate,
  replicate, drop,
}
use mathlib.Core.List.{append-nil}
use secmem.SshWire.Puts.{at, Puts, drop_all}
use secmem.OpenSsh.Marshal.{
  Request, Calls, Profile, plain_profile, pem_type, priv_padded, total, put_header, put_private,
  seal_block, write_container, marshalled, armour_container, marshal_profile, marshal_openssh,
}
use secmem.Pem.{pem_len}
use secmem.Pem.Layout.{armour, pem_encode-armour}
use secmem.OpenSsh.Container.{
  IsRequest, container, private_block, header_bytes, private_bytes, put_header-Puts,
  put_private-Puts, private_bytes-private_block, length-private_block,
}
use secmem.OpenSsh.Written.{header_bytes-container, length-container}

put_private-container :
    {p : Profile} {r : Request} {check : List ℕ}
    → IsRequest p r check
    → (tail : List ℕ) → length tail ≡ priv_padded p r
    → put_private p r check (at (header_bytes p r) tail)
      ≡ some (record { buffer = container p r check; n = total p r })
unfolding Puts
put_private-container {p} {r} {check} v tail h =
    let same = private_bytes-private_block v in
    let size : length (private_bytes p r check) ≡ priv_padded p r =
      cc (same, length-private_block v) in
    let written = put_private-Puts p r check (header_bytes p r) tail (omega (arith, size)) in
    cc (
      written,
      same,
      header_bytes-container v,
      length-container v,
      drop_all tail (length (private_bytes p r check)) (omega (arith, size)),
      append-nil (container p r check),
    )

put_header-zeros :
    {p : Profile} {r : Request} {check : List ℕ}
    → IsRequest p r check
    → (zeros : List ℕ) → length zeros ≡ total p r
    → put_header p r (record { buffer = zeros; n = 0 })
      ≡ some (at (header_bytes p r) (drop (length (header_bytes p r)) zeros))
unfolding Puts
put_header-zeros {p} {r} {check} v zeros h = put_header-Puts p r [] zeros (
    omega (
      arith,
      length-container v,
      ap length (header_bytes-container v),
      length-append (header_bytes p r) (private_block p r check),
    ))

-- In a slice of the computed size the whole container is written, and its size is the cursor's.
pub write_container-container :
    {p : Profile} {r : Request} {check : List ℕ} (c : Calls) (salt : List ℕ)
    → IsRequest p r check
    → c.container_allocated ≡ true
    → write_container c p r salt check
      ≡ seal_block c r salt
          (total p r)
          (length (header_bytes p r))
          (priv_padded p r)
          (record { buffer = container p r check; n = total p r })
unfolding write_container
write_container-container {p} {r} {check} c salt v allocated =
    let zeros : List ℕ = replicate (total p r) 0 in
    let header = put_header-zeros v zeros (length-replicate {A = ℕ} (total p r) 0) in
    let left = drop (length (header_bytes p r)) zeros in
    let room : length left ≡ priv_padded p r = omega (
      arith,
      length-drop (length (header_bytes p r)) zeros,
      length-replicate {A = ℕ} (total p r) 0,
      length-container v,
      ap length (header_bytes-container v),
      length-append (header_bytes p r) (private_block p r check),
      length-private_block v,
    ) in
    let rest = put_private-container v left room in ground (arith, header, rest)

-- The armour of any container of the computed size.
pub armour_container-armour :
    (c : Calls) (bytes : List ℕ)
    → c.out_allocated ≡ true
    → armour_container c (length bytes) (marshalled bytes) ≡ marshalled (armour pem_type bytes)
unfolding armour_container
armour_container-armour c bytes allocated =
    let out : List ℕ = replicate (pem_len pem_type (length bytes)) 0 in
    let written =
      pem_encode-armour out pem_type bytes
        (length-replicate {A = ℕ} (pem_len pem_type (length bytes)) 0) in
    ground (arith, written)

-- Without a passphrase the outcome is the armour of the container in clear.
pub marshal_openssh-plain :
    {r : Request} {check : List ℕ} (c : Calls)
    → IsRequest plain_profile r check
    → r.passphrase ≡ []
    → c.check ≡ some check
    → c.container_allocated ≡ true
    → c.out_allocated ≡ true
    → marshal_openssh c r ≡ marshalled (armour pem_type (container plain_profile r check))
unfolding marshal_openssh marshal_profile seal_block
marshal_openssh-plain {r} {check} c v none check_some room out_room =
    let written = write_container-container c [] v room in
    let armoured = armour_container-armour c (container plain_profile r check) out_room in
    let size = length-container v in ground (arith, written, armoured, size)
