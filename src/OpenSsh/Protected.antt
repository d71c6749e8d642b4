-- ===== src/OpenSsh/Protected.antt =====
-- secmem-crypto/marshal_openssh.go: the outcome of marshalOpenSSH under a passphrase.
use secmem.Prelude.{
  ℕ, ◌≤◌, ◌<◌, ◌%◌, ◌^◌, true, List, [], ◌∷◌, ◌++◌, length, some, ◌≡◌, refl, sym, ap, subst, arith,
  length-append, replicate, take,
}
use mathlib.Core.List.{append_assoc, append-nil}
use secmem.SshWire.{big_endian, encoded_str}
use secmem.SshWire.Puts.{
  Puts, drop_all, ▷-Puts, put_exact-Puts, put_length-Puts, put_uint32-Puts, Puts-fills,
}
use secmem.Prelude.Slices.{write-append}
use secmem.Prelude.{drop-append}
use secmem.OpenSsh.Marshal.{
  Request, Calls, Profile, encrypted_profile, pem_type, max_rounds, kdf_options, total, seal_block,
  marshalled, marshal_profile, marshal_openssh,
}
use secmem.Pem.Layout.{armour}
use secmem.OpenSsh.Container.{IsRequest, private_block, header_bytes, length-private_block}
use secmem.SshWire.{◌▷◌, put_exact, put_length, put_uint32}
use secmem.OpenSsh.Outcome.{write_container-container, armour_container-armour}
use secmem.OpenSsh.Written.{header_bytes-container, length-container}

-- The KDF options are the salt as a string and the count of rounds.
abbrev pub kdf_bytes : (salt : List ℕ) → ℕ → List ℕ
kdf_bytes salt rounds = encoded_str salt ++ big_endian rounds

kdf_bytes-Puts :
    (salt : List ℕ) (rounds : ℕ)
    → length salt ≡ 16
    → Puts (put_length 16 ▷ put_exact salt ▷ put_uint32 rounds) (kdf_bytes salt rounds)
unfolding encoded_str
kdf_bytes-Puts salt rounds h =
    let writes =
      ▷-Puts _ _ _ _ (put_length-Puts 16)
        (▷-Puts _ _ _ _ (put_exact-Puts salt) (put_uint32-Puts rounds)) in
    let same : big_endian (16 % 2 ^ 32) ++ (salt ++ big_endian rounds) ≡ kdf_bytes salt rounds =
      cc (h, append_assoc (big_endian 16) salt (big_endian rounds)) in
    subst (Puts (put_length 16 ▷ put_exact salt ▷ put_uint32 rounds)) same writes

pub length-kdf_bytes :
    (salt : List ℕ) (rounds : ℕ) → length salt ≡ 16 → length (kdf_bytes salt rounds) ≡ 24
unfolding encoded_str big_endian
length-kdf_bytes salt rounds h = omega (arith, length-append salt (big_endian rounds))

take_all : (xs : List ℕ) → take (length xs) xs ≡ xs
take_all [] = refl
take_all (x ∷ xs) = ap (◌∷◌ x) (take_all xs)

kdf_options-kdf_bytes :
    (salt : List ℕ) (rounds : ℕ)
    → length salt ≡ 16
    → kdf_options salt rounds ≡ some (kdf_bytes salt rounds)
unfolding kdf_options
kdf_options-kdf_bytes salt rounds h =
    let size = length-kdf_bytes salt rounds h in
    let written = Puts-fills _ _ (replicate 24 0) (kdf_bytes-Puts salt rounds h) (sym size) in
    ground (arith, written, take_all (kdf_bytes salt rounds))

abbrev pub passphrase_profile : (salt : List ℕ) → ℕ → Profile
passphrase_profile salt rounds = encrypted_profile (kdf_bytes salt rounds)

-- opensshCrypt takes the private block out of the container and puts its output in its place.
seal_block-encrypted :
    (c : Calls) (r : Request) (header private block salt : List ℕ) (size : ℕ)
    → 0 < length r.passphrase
    → c.crypt r.passphrase salt r.rounds private ≡ some block
    → length block ≡ length private
    → seal_block c r salt size
        (length header)
        (length private)
        (record { buffer = header ++ private; n = size })
      ≡ marshalled (header ++ block)
unfolding seal_block
seal_block-encrypted c r header private block salt size pos crypted same =
    let left = drop-append header private in
    let cut = take_all private in
    let put = write-append header block private (omega arith) in
    let end = drop_all private (length block) (omega arith) in
    let nil = append-nil (header ++ block) in ground (arith, crypted, left, cut, put, end, nil)

-- Under a passphrase the header stays in clear and the private block goes out as opensshCrypt left it.
pub marshal_openssh-encrypted :
    {r : Request} {check salt : List ℕ} (c : Calls) (block : List ℕ)
    → IsRequest (passphrase_profile salt r.rounds) r check
    → 0 < length r.passphrase
    → 1 ≤ r.rounds
    → r.rounds ≤ max_rounds
    → length salt ≡ 16
    → c.salt ≡ some salt
    → c.check ≡ some check
    → c.container_allocated ≡ true
    → c.out_allocated ≡ true
    → c.crypt r.passphrase salt r.rounds (private_block (passphrase_profile salt r.rounds) r check)
      ≡ some block
    → length block ≡ length (private_block (passphrase_profile salt r.rounds) r check)
    → marshal_openssh c r
      ≡ marshalled (armour pem_type (header_bytes (passphrase_profile salt r.rounds) r ++ block))
unfolding marshal_openssh marshal_profile seal_block
marshal_openssh-encrypted {r} {check} {salt} c block v pos lo hi hs es ec room out_room crypted
      same =
    let p = passphrase_profile salt r.rounds in
    let written = write_container-container c salt v room in
    let opts = kdf_options-kdf_bytes salt r.rounds hs in
    let start = length (header_bytes p r) in
    let bytes = header_bytes p r ++ block in
    let sealed =
      seal_block-encrypted c r (header_bytes p r) (private_block p r check) block salt (total p r)
        pos crypted same in
    let armoured = armour_container-armour c bytes out_room in
    let size = length-container v in
    let whole = header_bytes-container v in
    let padded = length-private_block v in
    let count : length bytes ≡ total p r = omega (
      arith,
      ap length whole,
      length-append (header_bytes p r) (private_block p r check),
      length-append (header_bytes p r) block,
    ) in
    ground (arith, written, opts, sealed, armoured, count, whole, padded)
