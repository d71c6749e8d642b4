-- ===== src/SshWire/Reads.antt =====
-- Round trips of the SSH wire encoding: what sshWriter writes, sshReader reads back.
use secmem.Prelude.{
  take-append, drop-append, ℕ, zero, suc, ◌+◌, ◌*◌, ◌/◌, ◌%◌, ◌^◌, ◌<◌, List, [], ◌∷◌, ◌++◌, length,
  drop, take, some, ◌≡◌, refl, ap, arith, length-append, length-drop, length-take,
}
use mathlib.Core.List.{append_assoc}
use secmem.SshWire.{big_endian, read_uint32, read_counted, read_str, encoded_str}

-- The elements of a list are bytes.
abbrev pub AreBytes : List ℕ → Type 0
AreBytes [] = Unit
AreBytes (b ∷ bs) = (b < 256) × AreBytes bs

pub read_uint32-big_endian :
    (v : ℕ) (rest : List ℕ) → v < 2 ^ 32 → read_uint32 (big_endian v ++ rest) ≡ some (v, rest)
unfolding read_uint32 big_endian
read_uint32-big_endian v rest h =
    let sum : v / 2 ^ 24 % 256 * 2 ^ 24
          + v / 2 ^ 16 % 256 * 2 ^ 16
          + v / 2 ^ 8 % 256 * 2 ^ 8
          + v % 256
        ≡ v =
      omega arith in
    ap (λ n. some (n, rest)) sum

read_counted-append : (p rest : List ℕ) → read_counted (length p) (p ++ rest) ≡ some (p, rest)
unfolding read_counted
read_counted-append p rest =
    ground (arith, length-append p rest, take-append p rest, drop-append p rest)

-- A string that the writer encoded is read back, and the reader stops behind it.
pub read_str-encoded_str :
    (p rest : List ℕ) → length p < 2 ^ 32 → read_str (encoded_str p ++ rest) ≡ some (p, rest)
unfolding read_str encoded_str
read_str-encoded_str p rest h =
    let same : length p % 2 ^ 32 ≡ length p = omega arith in
    cc (
      same,
      append_assoc (big_endian (length p)) p rest,
      read_uint32-big_endian (length p) (p ++ rest) h,
      read_counted-append p rest,
    )

-- A read never reaches past its input: what it took and what it left are all there was.
pub length-read_str :
    (b s rest : List ℕ) → read_str b ≡ some (s, rest) → length b ≡ 4 + length s + length rest
unfolding read_str read_uint32 read_counted
length-read_str [] s rest h = cc
length-read_str (a ∷ []) s rest h = cc
length-read_str (a ∷ a2 ∷ []) s rest h = cc
length-read_str (a ∷ a2 ∷ a3 ∷ []) s rest h = cc
length-read_str (a ∷ a2 ∷ a3 ∷ a4 ∷ bs) s rest h = ground (
  arith,
  length-take (a * 2 ^ 24 + a2 * 2 ^ 16 + a3 * 2 ^ 8 + a4) bs,
  length-drop (a * 2 ^ 24 + a2 * 2 ^ 16 + a3 * 2 ^ 8 + a4) bs,
)

pub take-drop {ℓ} : {A : Type ℓ} (n : ℕ) (xs : List A) → take n xs ++ drop n xs ≡ xs
take-drop zero xs = refl
take-drop (suc n) [] = refl
take-drop (suc n) (x ∷ xs) = ap (◌∷◌ x) (take-drop n xs)

big_endian-bytes :
    (a b c d : ℕ)
    → a < 256
    → b < 256
    → c < 256
    → d < 256
    → big_endian (a * 2 ^ 24 + b * 2 ^ 16 + c * 2 ^ 8 + d) ≡ a ∷ b ∷ c ∷ d ∷ []
unfolding big_endian
big_endian-bytes a b c d ha hb hc hd =
    let v : ℕ = a * 2 ^ 24 + b * 2 ^ 16 + c * 2 ^ 8 + d in
    let first : v / 2 ^ 24 % 256 ≡ a = omega arith in
    let second : v / 2 ^ 16 % 256 ≡ b = omega arith in
    let third : v / 2 ^ 8 % 256 ≡ c = omega arith in let fourth : v % 256 ≡ d = omega arith in cc

read_counted_inv :
    (n : ℕ) (bs s rest : List ℕ)
    → read_counted n bs ≡ some (s, rest)
    → (length s ≡ n) × (s ≡ take n bs) × (rest ≡ drop n bs)
unfolding read_counted
read_counted_inv n bs s rest h = ground (arith, length-take n bs)

-- A string is read in one way only: what was read is the encoding of it.
encoded_str-read_str :
    (b s rest : List ℕ) → AreBytes b → read_str b ≡ some (s, rest) → encoded_str s ++ rest ≡ b
unfolding read_str read_uint32 encoded_str
encoded_str-read_str [] s rest bytes h = cc
encoded_str-read_str (a ∷ []) s rest bytes h = cc
encoded_str-read_str (a ∷ a2 ∷ []) s rest bytes h = cc
encoded_str-read_str (a ∷ a2 ∷ a3 ∷ []) s rest bytes h = cc
encoded_str-read_str (a ∷ a2 ∷ a3 ∷ a4 ∷ bs) s rest (b1, (b2, (b3, (b4, more)))) h =
    let n : ℕ = a * 2 ^ 24 + a2 * 2 ^ 16 + a3 * 2 ^ 8 + a4 in
    let (fits, body, left) = read_counted_inv n bs s rest h in
    let same : length s % 2 ^ 32 ≡ n = omega arith in
    cc (same, big_endian-bytes a a2 a3 a4 b1 b2 b3 b4, body, left, take-drop n bs)
