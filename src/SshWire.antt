-- ===== src/SshWire.antt =====
-- secmem-crypto/openssh_wire.go and secmem-crypto/parse_openssh.go: the SSH wire encoding, written
-- into a fixed slice and read off a slice. Bytes are numbers; a uint32 is a number below 2 ^ 32.
pub mod Puts
pub mod Reads
use secmem.Prelude.{
  ℕ, zero, suc, ◌+◌, ◌*◌, ◌/◌, ◌%◌, ◌^◌, ◌-◌, List, [], ◌∷◌, ◌++◌, length, take, drop, write,
  Option, none, some, if◌then◌else◌, ltb, leb,
}
use Prim.Native.Nat.{min}

-- sshWriter.
pub record Writer : Type 0 where
  pub buffer : List ℕ
  pub n : ℕ

-- A call on the writer; none is the panic of a write past the end of the slice.
abbrev pub Put : Type 0
Put = Writer → Option Writer

infixr 40 ◌▷◌
unfoldable pub ◌▷◌ : Put → Put → Put
(f ▷ g) w = elim (f w) [ none ↦ none | some w1 ↦ g w1 ]

-- binary.BigEndian.PutUint32 and Uint32.
unfoldable pub big_endian : ℕ → List ℕ
big_endian v = v / 2 ^ 24 % 256 ∷ v / 2 ^ 16 % 256 ∷ v / 2 ^ 8 % 256 ∷ v % 256 ∷ []

unfoldable pub put_uint32 : ℕ → Put
put_uint32 v w =
    if ltb (length w.buffer) (w.n + 4)
    then none
    else some (record { buffer = write w.n (big_endian v) w.buffer; n = w.n + 4 })

-- sshWriter.bytes and string: copy, which stops at the end of the slice.
unfoldable pub put_bytes : List ℕ → Put
put_bytes p w =
    if ltb (length w.buffer) w.n
    then none
    else some
        (record { buffer = write w.n p w.buffer; n = w.n + min (length p) (length w.buffer - w.n) })

-- An encoder that panics where its output does not fit, as an index or base64's Encode does.
unfoldable pub put_exact : List ℕ → Put
put_exact p w =
    if ltb (length w.buffer) (w.n + length p)
    then none
    else some (record { buffer = write w.n p w.buffer; n = w.n + length p })

-- sshWriter.length: the conversion of an int to a uint32.
unfoldable pub put_length : ℕ → Put
put_length k = put_uint32 (k % 2 ^ 32)

-- sshWriter.str and strs.
unfoldable pub put_str : List ℕ → Put
put_str p = put_length (length p) ▷ put_bytes p

-- A string on the wire.
unfoldable pub encoded_str : List ℕ → List ℕ
encoded_str p = big_endian (length p % 2 ^ 32) ++ p

abbrev pub str_len : ℕ → ℕ
str_len n = 4 + n

-- sshReader: the bytes that are left. none is the false of a read that does not fit.
unfoldable pub read_uint32 : List ℕ → Option (ℕ × List ℕ)
read_uint32 (a ∷ b ∷ c ∷ d ∷ rest) = some (a * 2 ^ 24 + b * 2 ^ 16 + c * 2 ^ 8 + d, rest)
read_uint32 _ = none

unfoldable pub read_counted : ℕ → List ℕ → Option (List ℕ × List ℕ)
read_counted n b = if ltb (length b) n then none else some (take n b, drop n b)

unfoldable pub read_str : List ℕ → Option (List ℕ × List ℕ)
read_str b = elim (read_uint32 b) [ none ↦ none | some (n, rest) ↦ read_counted n rest ]
