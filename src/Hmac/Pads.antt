-- ===== src/Hmac/Pads.antt =====
-- secmem-crypto/hmac_inplace.go, hmacInPlace: HMAC as RFC 2104 defines it, and the pads and the parts in
-- the scratch region.
use secmem.Prelude.{
  ℕ, zero, suc, ◌+◌, ◌-◌, ◌≤◌, ◌≡◌, refl, sym, ap, ◌∙◌, if◌then◌else◌, ltb, List, [], ◌∷◌, ◌++◌,
  length, take, drop, write, map, arith, length-append, length-replicate, take-append, length-drop,
}
use mathlib.Core.List.{append_assoc, append-nil}
use secmem.Prelude.Slices.{write-append}
use secmem.Region.{zeros}
use Prim.Native.Nat.{bit_xor, min}
use secmem.SealTag.{xor_first}
use secmem.SealTag.Message.{write-next}
use secmem.SealTag.Mac.{xor_first-append}
use secmem.Hmac.{InPlaceHash, Sums, size, block, max_hash_size, total_length, copy_parts, key_pad}

abbrev pub concat : List (List ℕ) → List ℕ
concat [] = []
concat (p ∷ ps) = p ++ concat ps

-- HMAC of RFC 2104 over a hash with its block size.
unfoldable pub reference_key : Sums → InPlaceHash → List ℕ → List ℕ
reference_key sums h key = if ltb (block h) (length key) then sums h key else key

abbrev pub masked : InPlaceHash → ℕ → List ℕ → List ℕ
masked h k key = map (λ x. bit_xor x k) (key ++ zeros (block h - length key))

unfoldable pub hmac : Sums → InPlaceHash → List ℕ → List ℕ → List ℕ
unfolding reference_key
hmac sums h key msg = sums h (
    masked h 0x5c (reference_key sums h key)
    ++ sums h (masked h 0x36 (reference_key sums h key) ++ msg))

pub zeros-split : (a b : ℕ) → zeros (a + b) ≡ zeros a ++ zeros b
zeros-split zero b = let n : 0 + b ≡ b = omega arith in ap zeros n
zeros-split (suc a) b =
    let n : suc a + b ≡ suc (a + b) = omega arith in ap zeros n ∙ ap (◌∷◌ 0) (zeros-split a b)

pub total-concat : (ps : List (List ℕ)) → total_length ps ≡ length (concat ps)
unfolding total_length
total-concat [] = refl
total-concat (p ∷ ps) = omega (arith, total-concat ps, length-append p (concat ps))

drop_twice :
    (xs ys tail : List ℕ) → drop (length ys) (drop (length xs) tail) ≡ drop (length (xs ++ ys)) tail
drop_twice [] ys tail = refl
drop_twice (x ∷ xs) [] [] = refl
drop_twice (x ∷ xs) (y ∷ ys) [] = refl
drop_twice (x ∷ xs) ys (t ∷ tail) = drop_twice xs ys tail

-- The parts one behind the other, over as much of the room behind `front`.
pub copy_parts-append :
    (ps : List (List ℕ)) (front tail : List ℕ)
    → total_length ps ≤ length tail
    → copy_parts ps (length front) (front ++ tail)
      ≡ ((front ++ concat ps) ++ drop (length (concat ps)) tail, length (front ++ concat ps))
unfolding copy_parts total_length
copy_parts-append [] front tail h = cc (append-nil front)
copy_parts-append (p ∷ ps) front tail h =
    let written = write-append front p tail (omega arith) in
    let n : length front + min (length p) (length (front ++ tail) - length front)
        ≡ length (front ++ p) =
      omega (arith, length-append front tail, length-append front p) in
    let rest =
      copy_parts-append ps (front ++ p) (drop (length p) tail)
        (omega (arith, length-drop (length p) tail)) in
    cc (written, n, rest, append_assoc front p (concat ps), drop_twice p (concat ps) tail)

pub length-short :
    (sums : Sums) (h : InPlaceHash) (key : List ℕ)
    → ((b : List ℕ) → length (sums h b) ≡ size h)
    → size h ≤ block h
    → length (reference_key sums h key) ≤ block h
unfolding reference_key
length-short sums h key sized fits = ground (arith, sized key)

-- The key of the pads is RFC 2104's.
pub digest-in_full :
    (d : List ℕ) → length d ≤ max_hash_size → take (length d) (write 0 d (zeros max_hash_size)) ≡ d
digest-in_full d h =
    ap (take (length d)) (
      write-append [] d (zeros max_hash_size)
        (omega (arith, length-replicate {A = ℕ} max_hash_size 0)))
    ∙ take-append d (drop (length d) (zeros max_hash_size))

pub take-all : (xs : List ℕ) (n : ℕ) → length xs ≤ n → take n xs ≡ xs
take-all [] zero h = refl
take-all [] (suc n) h = refl
take-all (x ∷ xs) zero h = absurd (omega arith)
take-all (x ∷ xs) (suc n) h = ap (◌∷◌ x) (take-all xs n (omega arith))

pub length-masked :
    (h : InPlaceHash) (k : ℕ) (key : List ℕ)
    → length key ≤ block h
    → length (masked h k key) ≡ block h
length-masked h k key fits =
    length-xor (key ++ zeros (block h - length key))
    ∙ omega (
      arith,
      length-append key (zeros (block h - length key)),
      length-replicate {A = ℕ} (block h - length key) 0,
    )
  where
    length-xor : (xs : List ℕ) → length (map (λ x. bit_xor x k) xs) ≡ length xs
    length-xor [] = refl
    length-xor (x ∷ xs) = ap suc (length-xor xs)

-- A pad, whatever was in its place.
pub key_pad-masked :
    (h : InPlaceHash) (k : ℕ) (key pad rest : List ℕ)
    → length key ≤ block h
    → length pad ≡ block h
    → key_pad h k key (pad ++ rest) ≡ masked h k key ++ rest
unfolding key_pad
key_pad-masked h k key pad rest fits full =
    let b : ℕ = block h in
    let room : ℕ = b - length key in
    let cleared : write 0 (zeros b) (pad ++ rest) ≡ zeros b ++ rest =
      write-next [] (zeros b) pad rest 0 refl (length-replicate {A = ℕ} b 0 ∙ sym full) in
    let sum : b ≡ length key + room = omega arith in
    let split : zeros b ++ rest ≡ zeros (length key) ++ (zeros room ++ rest) =
      ap (λ (z : List ℕ). z ++ rest) (ap zeros sum ∙ zeros-split (length key) room)
      ∙ append_assoc (zeros (length key)) (zeros room) rest in
    let filled : write 0 key (zeros (length key) ++ (zeros room ++ rest))
        ≡ key ++ (zeros room ++ rest) =
      write-next [] key (zeros (length key)) (zeros room ++ rest) 0 refl
        (sym (length-replicate {A = ℕ} (length key) 0)) in
    let size : b ≡ length (key ++ zeros room) =
      omega (arith, length-append key (zeros room), length-replicate {A = ℕ} room 0) in
    ap (λ (ys : List ℕ). xor_first b k (write 0 ys (write 0 (zeros b) (pad ++ rest))))
      (take-all key b fits)
    ∙ ap (λ (xs : List ℕ). xor_first b k (write 0 key xs)) (cleared ∙ split)
    ∙ ap (xor_first b k) (filled ∙ sym (append_assoc key (zeros room) rest))
    ∙ ap (λ (n : ℕ). xor_first n k ((key ++ zeros room) ++ rest)) size
    ∙ xor_first-append k (key ++ zeros room) rest
