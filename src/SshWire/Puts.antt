-- ===== src/SshWire/Puts.antt =====
-- The SSH wire writer of secmem-crypto/openssh_wire.go against the plain description of its output:
-- a call that fits puts exactly its encoding behind what was written.
use secmem.Prelude.{
  Bool, true, false, if◌then◌else◌, ℕ, zero, suc, ◌≤◌, ◌^◌, ◌%◌, List, [], ◌∷◌, ◌++◌, length, drop,
  some, ◌≡◌, refl, arith, length-append, length-drop,
}
use mathlib.Core.List.{append_assoc, append-nil}
use secmem.Prelude.Slices.{write-append}
use secmem.SshWire.{
  Writer, Put, ◌▷◌, big_endian, put_uint32, put_bytes, put_exact, put_length, put_str, encoded_str,
}

-- A writer that has written `out` and has the bytes `tail` of its slice left.
abbrev pub at : List ℕ → List ℕ → Writer
at out tail = record { buffer = out ++ tail; n = length out }

-- `put` writes `ys` wherever there is room for it.
unfoldable pub Puts : Put → List ℕ → Type 0
Puts put ys =
    (out tail : List ℕ)
    → length ys ≤ length tail
    → put (at out tail) ≡ some (at (out ++ ys) (drop (length ys) tail))

module _ {ℓ} {A : Type ℓ} where
  drop-append :
      (xs ys tail : List A)
      → drop (length ys) (drop (length xs) tail) ≡ drop (length (xs ++ ys)) tail
  drop-append [] ys tail = refl
  drop-append (x ∷ xs) [] [] = refl
  drop-append (x ∷ xs) (y ∷ ys) [] = refl
  drop-append (x ∷ xs) ys (t ∷ tail) = drop-append xs ys tail

pub put_uint32-Puts : (v : ℕ) → Puts (put_uint32 v) (big_endian v)
unfolding Puts put_uint32 big_endian
put_uint32-Puts v out tail h = ground (
  arith,
  write-append out (big_endian v) tail h,
  length-append out tail,
  length-append out (big_endian v),
)

pub put_bytes-Puts : (p : List ℕ) → Puts (put_bytes p) p
unfolding Puts put_bytes
put_bytes-Puts p out tail h =
    ground (arith, write-append out p tail h, length-append out tail, length-append out p)

pub put_exact-Puts : (p : List ℕ) → Puts (put_exact p) p
unfolding Puts put_exact
put_exact-Puts p out tail h =
    ground (arith, write-append out p tail h, length-append out tail, length-append out p)

pub ▷-Puts : (f g : Put) (xs ys : List ℕ) → Puts f xs → Puts g ys → Puts (f ▷ g) (xs ++ ys)
unfolding Puts ◌▷◌
▷-Puts f g xs ys pf pg out tail h =
    let first = pf out tail (omega (arith, length-append xs ys)) in
    let room : length ys ≤ length (drop (length xs) tail) =
      omega (arith, length-append xs ys, length-drop (length xs) tail) in
    let second = pg (out ++ xs) (drop (length xs) tail) room in
    cc (first, second, append_assoc out xs ys, drop-append xs ys tail)

-- Of two encoders that a test chooses between, each may have its own output.
pub if-Puts :
    (b : Bool) (f g : Put) (xs ys : List ℕ)
    → Puts f xs
    → Puts g ys
    → Puts (if b then f else g) (if b then xs else ys)
if-Puts true f g xs ys pf pg = pf
if-Puts false f g xs ys pf pg = pg

pub put_length-Puts : (k : ℕ) → Puts (put_length k) (big_endian (k % 2 ^ 32))
unfolding put_length
put_length-Puts k = put_uint32-Puts (k % 2 ^ 32)

pub put_str-Puts : (p : List ℕ) → Puts (put_str p) (encoded_str p)
unfolding put_str encoded_str
put_str-Puts p = ▷-Puts _ _ _ _ (put_length-Puts (length p)) (put_bytes-Puts p)

pub drop_all {ℓ} : {A : Type ℓ} (xs : List A) (k : ℕ) → length xs ≤ k → drop k xs ≡ []
drop_all [] zero h = refl
drop_all [] (suc k) h = refl
drop_all (x ∷ xs) zero h = absurd (omega arith)
drop_all (x ∷ xs) (suc k) h = drop_all xs k (omega arith)

-- A call that fills its slice exactly leaves the encoding in it, and counts its length.
pub Puts-fills :
    (put : Put) (ys slice : List ℕ)
    → Puts put ys
    → length slice ≡ length ys
    → put (record { buffer = slice; n = 0 }) ≡ some (record { buffer = ys; n = length ys })
unfolding Puts
Puts-fills put ys slice p h =
    cc (p [] slice (omega arith), drop_all slice (length ys) (omega arith), append-nil ys)
