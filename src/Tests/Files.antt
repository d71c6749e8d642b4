-- ===== src/Tests/Files.antt =====
-- Runs of the OpenSSH container, the armour and the DER writer at fixed inputs.
use secmem.Prelude.{
  ℕ, true, false, if◌then◌else◌, some, none, List, [], ◌∷◌, ◌++◌, ◌==◌, length, take, length-take,
  length-append, length-replicate, replicate, ◌≡◌, refl, arith, codes,
}
use secmem.SshWire.{read_str, read_uint32, read_counted}
use secmem.Prelude.{take-append}
use secmem.OpenSsh.{parsed, unsupported_key, cipher_by_name, agrees, magic, Header, read_header}
use secmem.OpenSsh.PrivateBlock.{ed25519, parse_openssh}
use secmem.OpenSsh.Marshal.{Request, Calls, plain_profile, pem_type, marshalled, marshal_openssh}
use secmem.OpenSsh.Container.{IsRequest, container}
use secmem.OpenSsh.Protected.{passphrase_profile}
use secmem.OpenSsh.HeaderTrip.{layout, Fits, read_header-layout}
use secmem.OpenSsh.RoundTrip.{parse_openssh-container}
use secmem.OpenSsh.Encrypted.{
  Primitives, crypt_in_place, opened, refused_file, open_header, open_mode, parse_encrypted,
}
use secmem.OpenSsh.ProtectedTrip.{Derives, marshal_openssh-opens}
use secmem.OpenSsh.Refusals.{
  is_about_file, parse_encrypted-passphrase, with_kdf, Kdf, SameWithin, parse_encrypted-with_kdf,
}
use secmem.Pem.{pem_encode, pem_len}
use secmem.Pem.Layout.{armour, pem_encode-armour}

abbrev seed_bytes : List ℕ
seed_bytes = replicate 32 7

abbrev public : List ℕ
public = replicate 32 9

abbrev check : List ℕ
check = 1 ∷ 2 ∷ 3 ∷ 4 ∷ []

abbrev salt : List ℕ
salt = replicate 16 6

abbrev primitives : Primitives
primitives = record {
  derive = λ size phrase salt rounds. some (replicate size 3);
  aes_encrypt = λ key b. replicate 16 5;
  aes_decrypt = λ key b. b;
  chacha_open = λ key src tag. none;
}

abbrev calls : Calls
calls = record {
  salt = some salt;
  check = some check;
  container_allocated = true;
  out_allocated = true;
  crypt = crypt_in_place primitives;
}

abbrev clear : Request
clear = record {
  seed = seed_bytes;
  pub_key = public;
  comment = codes "me";
  passphrase = [];
  rounds = 16;
}

abbrev locked : Request
locked = record {
  seed = seed_bytes;
  pub_key = public;
  comment = codes "me";
  passphrase = codes "open";
  rounds = 16;
}

clear-IsRequest : IsRequest plain_profile clear check
clear-IsRequest = record {
  seed_size = refl;
  pub_size = refl;
  check_size = refl;
  comment_size = omega arith;
  block_pos = omega arith;
  block_size = omega arith;
}

locked-IsRequest : IsRequest (passphrase_profile salt 16) locked check
locked-IsRequest = record {
  seed_size = refl;
  pub_size = refl;
  check_size = refl;
  comment_size = omega arith;
  block_pos = omega arith;
  block_size = omega arith;
}

derives : Derives primitives (codes "open") salt 16 (replicate 48 3)
derives = record { derived = refl; aes_size = λ key b. refl }

marshal_openssh-opens_example :
    (blob : List ℕ) × (marshal_openssh calls locked ≡ marshalled (armour pem_type blob))
    × (parse_encrypted primitives false (codes "open") blob ≡ opened (ed25519 seed_bytes public))
marshal_openssh-opens_example =
    marshal_openssh-opens {r = locked} {check = check} {salt = salt} {kiv = replicate 48 3} calls
      primitives false derives refl locked-IsRequest (omega arith) (omega arith) (omega arith) refl
      refl refl refl refl

parse_openssh-container_example :
    parse_openssh (container plain_profile clear check) ≡ parsed (ed25519 seed_bytes public)
parse_openssh-container_example =
    parse_openssh-container {r = clear} {check = check} clear-IsRequest

-- A header that names a cipher without an implementation.
abbrev unknown : Header
unknown = record {
  cipher = codes "3des-cbc";
  kdf = codes "bcrypt";
  kdf_opts = [];
  num_keys = 1;
  pub_blob = [];
  priv_block = [];
  rest = [];
}

unknown-Fits : Fits unknown
unknown-Fits = record {
  cipher_fits = omega arith;
  kdf_fits = omega arith;
  opts_fits = omega arith;
  keys_fit = omega arith;
  pub_fits = omega arith;
  priv_fits = omega arith;
}

agrees-unknown : agrees unknown ≡ true
unfolding agrees
agrees-unknown = refl

unknown_read : read_header (magic ++ layout unknown) ≡ parsed unknown
unknown_read = read_header-layout unknown unknown-Fits agrees-unknown

unknown_refused :
    parse_encrypted primitives false (codes "a") (magic ++ layout unknown)
    ≡ refused_file unsupported_key
unfolding parse_encrypted open_header open_mode cipher_by_name
unknown_refused = cc unknown_read

unknown_about :
    is_about_file (parse_encrypted primitives false (codes "a") (magic ++ layout unknown)) ≡ true
unfolding is_about_file
unknown_about = cc unknown_refused

parse_encrypted-passphrase_example :
    parse_encrypted primitives false (codes "b") (magic ++ layout unknown)
    ≡ parse_encrypted primitives false (codes "a") (magic ++ layout unknown)
parse_encrypted-passphrase_example =
    parse_encrypted-passphrase primitives primitives false (codes "a") (codes "b")
      (magic ++ layout unknown) unknown_about

-- A KDF that differs from the one above at 4096 rounds alone.
abbrev capped : Kdf
capped size phrase _ rounds = if rounds == 4096 then none else some (replicate size 3)

capped_same : SameWithin capped primitives
capped_same size phrase salted rounds size_le lo hi some_salt salt_le = ground arith

parse_encrypted-with_kdf_example :
    parse_encrypted (with_kdf capped primitives) false (codes "a") (magic ++ layout unknown)
    ≡ parse_encrypted primitives false (codes "a") (magic ++ layout unknown)
parse_encrypted-with_kdf_example =
    parse_encrypted-with_kdf capped primitives capped_same false (codes "a")
      (magic ++ layout unknown)

read_five : read_str (0 ∷ 0 ∷ 0 ∷ 2 ∷ 5 ∷ 6 ∷ 7 ∷ []) ≡ some (5 ∷ 6 ∷ [], 7 ∷ [])
unfolding read_str read_uint32 read_counted
read_five = refl

abbrev counter : List ℕ
counter = 1 ∷ 255 ∷ 255 ∷ []

-- A block function that leaves a block of 16 bytes as it is.
abbrev fit : List ℕ → List ℕ
fit b = take 16 (b ++ replicate 16 0)

fit_size : (b : List ℕ) → length (fit b) ≡ 16
fit_size b = omega (
  arith,
  length-take 16 (b ++ replicate 16 0),
  length-append b (replicate 16 0),
  length-replicate {A = ℕ} 16 0,
)

fit_back : (b : List ℕ) → length b ≡ 16 → fit b ≡ b
fit_back b h = cc (h, take-append b (replicate 16 0))

pem_size : ◌≡◌ {A = ℕ} 43 (pem_len (codes "KEY") 3)
unfolding pem_len
pem_size = refl

pem_encode-armour_example :
    pem_encode (replicate 43 0) (codes "KEY") (1 ∷ 2 ∷ 3 ∷ [])
    ≡ some (armour (codes "KEY") (1 ∷ 2 ∷ 3 ∷ []), 43)
pem_encode-armour_example =
    pem_encode-armour (replicate 43 0) (codes "KEY") (1 ∷ 2 ∷ 3 ∷ []) pem_size
