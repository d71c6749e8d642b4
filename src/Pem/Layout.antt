-- ===== src/Pem/Layout.antt =====
-- secmem-crypto/openssh_wire.go: the armour that pemEncode writes, in lines of 64 characters, and its
-- size against pemLen.
use secmem.Prelude.{
  ℕ, zero, suc, ◌+◌, ◌/◌, ◌≤◌, List, [], ◌∷◌, ◌++◌, length, take, drop, some, ◌≡◌, refl, arith,
  length-append, length-take, length-drop,
}
use Prim.Native.Nat.{min}
use mathlib.Core.List.{append-nil}
use secmem.SshWire.Puts.{Puts, ▷-Puts, put_bytes-Puts, put_exact-Puts, Puts-fills}
use secmem.Pem.{
  pem_begin, pem_end, pem_dashes, newline, base64, encoded_len, pem_len, put_lines, put_pem,
  pem_encode,
}

-- The lines of the body: 48 bytes make a line. Fuel as in the loop.
unfoldable pub body : ℕ → List ℕ → List ℕ
body fuel [] = []
body zero (b ∷ bs) = []
body (suc fuel) (b ∷ bs) =
    let k = min 48 (length (b ∷ bs)) in
    (base64 (take k (b ∷ bs)) ++ newline) ++ body fuel (drop k (b ∷ bs))

unfoldable pub armour : (typ src : List ℕ) → List ℕ
armour typ src =
    let footer = pem_end ++ (typ ++ (pem_dashes ++ newline)) in
    pem_begin ++ (typ ++ (pem_dashes ++ (newline ++ (body (length src) src ++ footer))))

length-base64 : (xs : List ℕ) → length (base64 xs) ≡ encoded_len (length xs)
unfolding base64
length-base64 [] = refl
length-base64 (a ∷ []) = refl
length-base64 (a ∷ b ∷ []) = refl
length-base64 (a ∷ b ∷ c ∷ rest) = omega (arith, length-base64 rest)

length-body :
    (fuel : ℕ) (src : List ℕ)
    → length src ≤ fuel
    → length (body fuel src) ≡ encoded_len (length src) + (encoded_len (length src) + 63) / 64
unfolding body
length-body fuel [] h = refl
length-body zero (b ∷ bs) h = absurd (omega arith)
length-body (suc fuel) (b ∷ bs) h =
    let k : ℕ = min 48 (length (b ∷ bs)) in
    let line : List ℕ = base64 (take k (b ∷ bs)) in
    omega (
      arith,
      length-append line newline,
      length-append (line ++ newline) (body fuel (drop k (b ∷ bs))),
      length-base64 (take k (b ∷ bs)),
      length-take k (b ∷ bs),
      length-drop k (b ∷ bs),
      length-body fuel (drop k (b ∷ bs)) (omega (arith, length-drop k (b ∷ bs))),
    )

pub put_lines-Puts :
    (fuel : ℕ) (src : List ℕ) → length src ≤ fuel → Puts (put_lines fuel src) (body fuel src)
unfolding Puts put_lines body
put_lines-Puts fuel [] h out tail room = cc (append-nil out)
put_lines-Puts zero (b ∷ bs) h out tail room = absurd (omega arith)
put_lines-Puts (suc fuel) (b ∷ bs) h out tail room =
    let k : ℕ = min 48 (length (b ∷ bs)) in
    let line : List ℕ = base64 (take k (b ∷ bs)) in
    ▷-Puts _ _ _ _ (▷-Puts _ _ _ _ (put_exact-Puts line) (put_exact-Puts newline))
      (put_lines-Puts fuel (drop k (b ∷ bs)) (omega (arith, length-drop k (b ∷ bs)))) out tail room

put_pem-Puts : (typ src : List ℕ) → Puts (put_pem typ src) (armour typ src)
unfolding put_pem armour
put_pem-Puts typ src = ▷-Puts _ _ _ _ (put_bytes-Puts pem_begin) (
    ▷-Puts _ _ _ _ (put_bytes-Puts typ) (
      ▷-Puts _ _ _ _ (put_bytes-Puts pem_dashes) (
        ▷-Puts _ _ _ _ (put_exact-Puts newline) (
          ▷-Puts _ _ _ _ (put_lines-Puts (length src) src (omega arith)) (
            ▷-Puts _ _ _ _ (put_bytes-Puts pem_end) (
              ▷-Puts _ _ _ _ (put_bytes-Puts typ)
                (▷-Puts _ _ _ _ (put_bytes-Puts pem_dashes) (put_exact-Puts newline))))))))

pub length-armour : (typ src : List ℕ) → length (armour typ src) ≡ pem_len typ (length src)
unfolding armour pem_len
length-armour typ src =
    let footer : List ℕ = pem_end ++ (typ ++ (pem_dashes ++ newline)) in
    let text : List ℕ = body (length src) src in
    omega (
      arith,
      length-append typ (pem_dashes ++ (newline ++ (text ++ footer))),
      length-append text footer,
      length-append typ (pem_dashes ++ newline),
      length-body (length src) src (omega arith),
    )

-- Into a slice of pemLen bytes pemEncode writes the whole armour, and it returns the slice's length.
pub pem_encode-armour :
    (dst typ src : List ℕ)
    → length dst ≡ pem_len typ (length src)
    → pem_encode dst typ src ≡ some (armour typ src, length dst)
unfolding pem_encode
pem_encode-armour dst typ src h =
    let size : length dst ≡ length (armour typ src) = omega (arith, length-armour typ src) in
    cc (Puts-fills (put_pem typ src) (armour typ src) dst (put_pem-Puts typ src) size, size)
