-- ===== src/OpenSsh/Marshal.antt =====
-- secmem-crypto/marshal_openssh.go: the container of an Ed25519 key, written into a slice of its exact
-- size, encrypted in place under a passphrase, and armoured.
use secmem.Prelude.{
  ℕ, zero, suc, ◌+◌, ◌-◌, ◌%◌, Bool, not, ◌&&◌, ◌||◌, if◌then◌else◌, ltb, ◌==◌, Option, none, some,
  List, [], ◌∷◌, length, take, slice, write, replicate, codes,
}
use secmem.SshWire.{
  Writer, Put, ◌▷◌, put_uint32, put_bytes, put_exact, put_length, put_str, str_len,
}
use secmem.OpenSsh.{magic, name_none, name_ctr, name_bcrypt, none_block, aes_block}
use secmem.OpenSsh.PrivateBlock.{name_ed25519}
use secmem.Pem.{pem_len, pem_encode}

-- The signer's key and the arguments of marshalOpenSSH.
pub record Request : Type 0 where
  pub seed : List ℕ
  pub pub_key : List ℕ
  pub comment : List ℕ
  pub passphrase : List ℕ
  pub rounds : ℕ

-- What its calls answer: the random salt and check bytes, the two allocations, and opensshCrypt on
-- the private block under a passphrase, a salt and a count of rounds. none is an error.
pub record Calls : Type 0 where
  pub salt : Option (List ℕ)
  pub check : Option (List ℕ)
  pub container_allocated : Bool
  pub out_allocated : Bool
  pub crypt : (passphrase salt : List ℕ) → ℕ → List ℕ → Option (List ℕ)

-- The refusals, by the step that makes them; `panicked` is an index out of range.
pub data Marshalled : Type 0 where
  marshalled : List ℕ → Marshalled
  bad_rounds no_randomness no_memory layout_mismatch crypt_failed panicked : Marshalled

abbrev pub max_rounds : ℕ
max_rounds = 2048

abbrev pub salt_len : ℕ
salt_len = 16

abbrev pub pem_type : List ℕ
pem_type = codes "OPENSSH PRIVATE KEY"

abbrev pub is_encrypted : Request → Bool
is_encrypted r = ltb 0 (length r.passphrase)

abbrev pub bad_cost : Request → Bool
bad_cost r = is_encrypted r && (ltb r.rounds 1 || ltb max_rounds r.rounds)

-- The KDF options, and the fields that depend on whether the block is encrypted.
unfoldable pub kdf_options : (salt : List ℕ) → ℕ → Option (List ℕ)
kdf_options salt rounds =
    elim ((put_length salt_len ▷ put_exact salt ▷ put_uint32 rounds)
      (record { buffer = replicate 24 0; n = 0 })) [
        | none ↦ none
        | some w ↦ some (take w.n w.buffer)
      ]

pub record Profile : Type 0 where
  pub cipher_name : List ℕ
  pub kdf_name : List ℕ
  pub block_size : ℕ
  pub kdf_opts : List ℕ

abbrev pub plain_profile : Profile
plain_profile = record {
  cipher_name = name_none;
  kdf_name = name_none;
  block_size = none_block;
  kdf_opts = [];
}

unfoldable pub pad_len : (block_size n : ℕ) → ℕ
pad_len block_size n = (block_size - n % block_size) % block_size

-- The sizes that are computed up front.
abbrev pub pub_blob_len : ℕ
pub_blob_len = str_len (length name_ed25519) + str_len 32

unfoldable pub priv_len : Request → ℕ
priv_len r =
    4 + 4 + str_len (length name_ed25519) + str_len 32 + str_len 64 + str_len (length r.comment)

unfoldable pub priv_padded : Profile → Request → ℕ
priv_padded p r = priv_len r + pad_len p.block_size (priv_len r)

unfoldable pub total : Profile → Request → ℕ
total p r =
    length magic
    + str_len (length p.cipher_name)
    + str_len (length p.kdf_name)
    + str_len (length p.kdf_opts)
    + 4
    + str_len pub_blob_len
    + str_len (priv_padded p r)

-- The loop over the padding bytes, from i on.
unfoldable pub put_pad : (i rounds : ℕ) → Put
put_pad i zero w = some w
put_pad i (suc k) w = let rest = put_pad (i + 1) k in (put_exact (i % 256 ∷ []) ▷ rest) w

unfoldable pub put_header : Profile → Request → Put
put_header p r =
    put_bytes magic
    ▷ put_str p.cipher_name
    ▷ put_str p.kdf_name
    ▷ put_str p.kdf_opts
    ▷ put_uint32 1
    ▷ put_length pub_blob_len
    ▷ put_str name_ed25519
    ▷ put_str r.pub_key
    ▷ put_length (priv_padded p r)

unfoldable pub put_private : Profile → Request → (check : List ℕ) → Put
put_private p r check =
    put_bytes check
    ▷ put_bytes check
    ▷ put_str name_ed25519
    ▷ put_str r.pub_key
    ▷ put_length 64
    ▷ put_bytes r.seed
    ▷ put_bytes r.pub_key
    ▷ put_str r.comment
    ▷ put_pad 1 (pad_len p.block_size (priv_len r))

-- The end of the borrow: the check of the size, and the encryption of the block from `start` on.
unfoldable pub seal_block :
    Calls → Request → (salt : List ℕ) → (total start padded : ℕ) → Writer → Marshalled
seal_block c r salt total start padded w =
    if not (w.n == total)
    then layout_mismatch
    else if not (is_encrypted r)
    then marshalled w.buffer
    else elim (c.crypt r.passphrase salt r.rounds (slice start padded w.buffer)) [
      | none ↦ crypt_failed
      | some block ↦ marshalled (write start block w.buffer)
    ]

unfoldable pub write_container : Calls → Profile → Request → (salt check : List ℕ) → Marshalled
write_container c p r salt check =
    if not c.container_allocated
    then no_memory
    else elim (put_header p r (record { buffer = replicate (total p r) 0; n = 0 })) [
      | none ↦ panicked
      | some w ↦ elim (put_private p r check w) [
        | none ↦ panicked
        | some w1 ↦ seal_block c r salt (total p r) w.n (priv_padded p r) w1
      ]
    ]

-- The armour around the container that was written.
unfoldable pub armour_container : Calls → ℕ → Marshalled → Marshalled
armour_container c size (marshalled container) =
    let out = replicate (pem_len pem_type size) 0 in
    if not c.out_allocated then no_memory else elim (pem_encode out pem_type container) [
      | none ↦ panicked
      | some (o, n) ↦ if n == length out then marshalled o else layout_mismatch
    ]
armour_container c size refusal = refusal

unfoldable pub marshal_profile : Calls → Profile → Request → (salt : List ℕ) → Marshalled
marshal_profile c p r salt = elim c.check [
  | none ↦ no_randomness
  | some check ↦ armour_container c (total p r) (write_container c p r salt check)
]

abbrev pub encrypted_profile : List ℕ → Profile
encrypted_profile opts = record {
  cipher_name = name_ctr;
  kdf_name = name_bcrypt;
  block_size = aes_block;
  kdf_opts = opts;
}

-- marshalOpenSSH past the check of the handle.
unfoldable pub marshal_openssh : Calls → Request → Marshalled
marshal_openssh c r =
    if bad_cost r
    then bad_rounds
    else if not (is_encrypted r)
    then marshal_profile c plain_profile r []
    else elim c.salt [
      | none ↦ no_randomness
      | some salt ↦ elim (kdf_options salt r.rounds) [
        | none ↦ panicked
        | some opts ↦ marshal_profile c (encrypted_profile opts) r salt
      ]
    ]
