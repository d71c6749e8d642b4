-- ===== src/Pem.antt =====
-- secmem-crypto/openssh_wire.go: pemLen and pemEncode, which armour bytes into a fixed slice, and
-- the standard base64 of package encoding/base64 that they call.
pub mod Layout
use secmem.Prelude.{
  ℕ, zero, suc, ◌+◌, ◌-◌, ◌*◌, ◌/◌, ◌%◌, Bool, true, false, if◌then◌else◌, ltb, ◌==◌, Option, none,
  some, List, [], ◌∷◌, ◌++◌, length, take, drop, codes,
}
use Prim.Native.Nat.{min}
use secmem.SshWire.{Writer, Put, ◌▷◌, put_bytes, put_exact}

abbrev pub pem_begin : List ℕ
pem_begin = codes "-----BEGIN "

abbrev pub pem_end : List ℕ
pem_end = codes "-----END "

abbrev pub pem_dashes : List ℕ
pem_dashes = codes "-----"

abbrev pub newline : List ℕ
newline = 10 ∷ []

-- base64.StdEncoding: the character of six bits, Encode and EncodedLen.
unfoldable pub symbol : ℕ → ℕ
symbol i =
    if ltb i 26
    then 65 + i
    else if ltb i 52
    then 71 + i
    else if ltb i 62
    then i - 4
    else if i == 62
    then b'+'
    else b'/'

unfoldable pub base64 : List ℕ → List ℕ
base64 [] = []
base64 (a ∷ []) = symbol (a / 4) ∷ symbol (a % 4 * 16) ∷ b'=' ∷ b'=' ∷ []
base64 (a ∷ b ∷ []) =
    symbol (a / 4) ∷ symbol (a % 4 * 16 + b / 16) ∷ symbol (b % 16 * 4) ∷ b'=' ∷ []
base64 (a ∷ b ∷ c ∷ rest) =
    symbol (a / 4)
    ∷ symbol (a % 4 * 16 + b / 16)
    ∷ symbol (b % 16 * 4 + c / 64)
    ∷ symbol (c % 64)
    ∷ base64 rest

abbrev pub encoded_len : ℕ → ℕ
encoded_len n = (n + 2) / 3 * 4

-- pemLen.
unfoldable pub pem_len : List ℕ → ℕ → ℕ
pem_len typ n =
    let enc = encoded_len n in
    let lines = (enc + 63) / 64 in
    length pem_begin
    + length typ
    + length pem_dashes
    + 1
    + enc
    + lines
    + length pem_end
    + length typ
    + length pem_dashes
    + 1

-- The loop of pemEncode over the bytes that are left; each round takes one of them at least, so their
-- count is fuel enough.
unfoldable pub put_lines : ℕ → List ℕ → Put
put_lines fuel [] w = some w
put_lines zero (b ∷ bs) w = none
put_lines (suc fuel) (b ∷ bs) w =
    let k = min 48 (length (b ∷ bs)) in
    let line = put_exact (base64 (take k (b ∷ bs))) ▷ put_exact newline in
    let rest = put_lines fuel (drop k (b ∷ bs)) in (line ▷ rest) w

unfoldable pub put_pem : (typ src : List ℕ) → Put
put_pem typ src =
    put_bytes pem_begin
    ▷ put_bytes typ
    ▷ put_bytes pem_dashes
    ▷ put_exact newline
    ▷ put_lines (length src) src
    ▷ put_bytes pem_end
    ▷ put_bytes typ
    ▷ put_bytes pem_dashes
    ▷ put_exact newline

-- pemEncode: the slice it leaves and the count it returns.
unfoldable pub pem_encode : (dst typ src : List ℕ) → Option (List ℕ × ℕ)
pem_encode dst typ src = elim (put_pem typ src (record { buffer = dst; n = 0 })) [
  | none ↦ none
  | some w ↦ some (w.buffer, w.n)
]
