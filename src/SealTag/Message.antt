-- ===== src/SealTag/Message.antt =====
-- sealauth.go, the message under the tag: its fields one behind the other, and read off it uniquely.
use secmem.Prelude.{
  ℕ, ◌+◌, ◌-◌, ◌/◌, ◌%◌, ◌^◌, ◌<◌, ◌≡◌, refl, sym, ap, ◌∙◌, List, [], ◌∷◌, ◌++◌, length, write,
  arith, length-append, drop-append,
}
use Prim.Native.Nat.{min}
use secmem.Prelude.Slices.{write-append, length-write}
use secmem.Region.{zeros}
use secmem.SshWire.{big_endian, read_uint32}
use secmem.SshWire.Reads.{read_uint32-big_endian}
use mathlib.Core.List.{append-nil}
use secmem.SealTag.{big_endian64, label_mac, nonce_len, root_len, seal_message}

-- The fields of the message.
abbrev pub fields : ℕ → List ℕ → ℕ → List ℕ → List ℕ
fields id nonce size d = label_mac ++ big_endian64 id ++ nonce ++ big_endian64 (size % 2 ^ 64) ++ d

-- A write of the next field over as much padding, behind the fields before it.
pub write-next :
    (out ys pad tail : List ℕ) (at : ℕ)
    → at ≡ length out
    → length ys ≡ length pad
    → write at ys (out ++ (pad ++ tail)) ≡ (out ++ ys) ++ tail
write-next out ys pad tail at start fits =
    let written = write-append out ys (pad ++ tail) (omega (arith, length-append pad tail)) in
    cc (start, fits, written, drop-append pad tail)

-- The writes of five fields with the lengths of the message's.
written_fields :
    (l i n s d : List ℕ)
    → length l ≡ 18
    → length i ≡ 8
    → length n ≡ nonce_len
    → length s ≡ 8
    → length d ≡ root_len
    → write 50 d (write 42 s (write 26 n (write 18 i (write 0 l (zeros 114)))))
      ≡ l ++ i ++ n ++ s ++ d
written_fields l i n s d hl hi hn hs hd =
    let l1 = write-next [] l (zeros 18) (zeros 96) 0 refl hl in
    let i1 = write-next l i (zeros 8) (zeros 88) 18 (sym hl) hi in
    let li : length (l ++ i) ≡ 26 = omega (arith, length-append l i) in
    let n1 = write-next (l ++ i) n (zeros 16) (zeros 72) 26 (sym li) hn in
    let lin : length (l ++ i ++ n) ≡ 42 = omega (arith, length-append (l ++ i) n) in
    let s1 = write-next (l ++ i ++ n) s (zeros 8) (zeros 64) 42 (sym lin) hs in
    let lins : length (l ++ i ++ n ++ s) ≡ 50 = omega (arith, length-append (l ++ i ++ n) s) in
    let d1 = write-next (l ++ i ++ n ++ s) d (zeros 64) [] 50 (sym lins) hd in
    ap (λ (m : List ℕ). write 50 d (write 42 s (write 26 n (write 18 i m)))) l1
    ∙ ap (λ (m : List ℕ). write 50 d (write 42 s (write 26 n m))) i1
    ∙ ap (λ (m : List ℕ). write 50 d (write 42 s m)) n1
    ∙ ap (write 50 d) s1
    ∙ d1
    ∙ append-nil _

length-big_endian64 : (v : ℕ) → length (big_endian64 v) ≡ 8
unfolding big_endian
length-big_endian64 v = refl

-- Where the length goes: behind the nonce.
nonce_end :
    (i nonce : List ℕ)
    → length nonce ≡ nonce_len
    → 26 + min (length nonce) (length (write 18 i (write 0 label_mac (zeros 114))) - 26) ≡ 42
nonce_end i nonce hn = omega (arith, length-write 18 i (write 0 label_mac (zeros 114)))

pub length-seal_message :
    (id : ℕ) (nonce : List ℕ) (size : ℕ) (d : List ℕ) → length (seal_message id nonce size d) ≡ 114
unfolding seal_message
length-seal_message id nonce size d =
    let i : List ℕ = write 18 (big_endian64 id) (write 0 label_mac (zeros 114)) in
    let p : ℕ = 26 + min (length nonce) (length i - 26) in
    let s : List ℕ = big_endian64 (size % 2 ^ 64) in
    length-write (p + 8) d (write p s (write 26 nonce i))
    ∙ length-write p s (write 26 nonce i)
    ∙ length-write 26 nonce i
    ∙ length-write 18 (big_endian64 id) (write 0 label_mac (zeros 114))
    ∙ length-write 0 label_mac (zeros 114)

-- The code's message is its fields one behind the other.
pub seal_message-fields :
    (id : ℕ) (nonce : List ℕ) (size : ℕ) (d : List ℕ)
    → length nonce ≡ nonce_len
    → length d ≡ root_len
    → seal_message id nonce size d ≡ fields id nonce size d
unfolding seal_message
seal_message-fields id nonce size d hn hd =
    let i : List ℕ = big_endian64 id in
    let s : List ℕ = big_endian64 (size % 2 ^ 64) in
    ap
      (λ (p : ℕ).
        write (p + 8) d (write p s (write 26 nonce (write 18 i (write 0 label_mac (zeros 114))))))
      (nonce_end i nonce hn)
    ∙ written_fields label_mac i nonce s d refl (length-big_endian64 id) hn
        (length-big_endian64 (size % 2 ^ 64)) hd

big_endian64-injective :
    (v v' : ℕ) → v < 2 ^ 64 → v' < 2 ^ 64 → big_endian64 v ≡ big_endian64 v' → v ≡ v'
big_endian64-injective v v' h h' e =
    let high = read_uint32-big_endian (v / 2 ^ 32) (big_endian (v % 2 ^ 32)) (omega arith) in
    let high' = read_uint32-big_endian (v' / 2 ^ 32) (big_endian (v' % 2 ^ 32)) (omega arith) in
    let low = read_uint32-big_endian (v % 2 ^ 32) [] (omega arith) in
    let low' = read_uint32-big_endian (v' % 2 ^ 32) [] (omega arith) in
    let first = sym high ∙ ap read_uint32 e ∙ high' in
    let tail : big_endian (v % 2 ^ 32) ≡ big_endian (v' % 2 ^ 32) = cc first in
    let second = sym low ∙ ap (λ (b : List ℕ). read_uint32 (b ++ [])) tail ∙ low' in
    let same_high : v / 2 ^ 32 ≡ v' / 2 ^ 32 = cc first in
    let same_low : v % 2 ^ 32 ≡ v' % 2 ^ 32 = cc second in omega arith

append-injective :
    (xs xs' ys ys' : List ℕ)
    → length xs ≡ length xs'
    → xs ++ ys ≡ xs' ++ ys'
    → (xs ≡ xs') × (ys ≡ ys')
append-injective [] [] ys ys' n e = (refl, e)
append-injective [] (x' ∷ xs') ys ys' n e = absurd (omega arith)
append-injective (x ∷ xs) [] ys ys' n e = absurd (omega arith)
append-injective (x ∷ xs) (x' ∷ xs') ys ys' n e =
    let rest = append-injective xs xs' ys ys' (omega arith) cc in (cc, rest.1)

-- A last field can be read off two concatenations whose other parts are as long.
last_field :
    (xs xs' ys ys' : List ℕ)
    → length ys ≡ length ys'
    → xs ++ ys ≡ xs' ++ ys'
    → (xs ≡ xs') × (ys ≡ ys')
last_field xs xs' ys ys' n e =
    append-injective xs xs' ys ys'
      (omega (arith, length-append xs ys, length-append xs' ys', ap length e)) e

-- Two messages with digests of full length and nonces of full length are the same only if they are of
-- the same buffer, the same nonce, the same length modulo 2 ^ 64 and the same digest.
pub seal_message-injective :
    (id id' : ℕ) (nonce nonce' : List ℕ) (size size' : ℕ) (d d' : List ℕ)
    → id < 2 ^ 64
    → id' < 2 ^ 64
    → length nonce ≡ nonce_len
    → length nonce' ≡ nonce_len
    → length d ≡ root_len
    → length d' ≡ root_len
    → seal_message id nonce size d ≡ seal_message id' nonce' size' d'
    → (id ≡ id') × (nonce ≡ nonce') × (size % 2 ^ 64 ≡ size' % 2 ^ 64) × (d ≡ d')
seal_message-injective id id' nonce nonce' size size' d d' hi hi' hn hn' hd hd' e =
    let i : List ℕ = big_endian64 id in
    let i' : List ℕ = big_endian64 id' in
    let s : List ℕ = big_endian64 (size % 2 ^ 64) in
    let s' : List ℕ = big_endian64 (size' % 2 ^ 64) in
    let whole : (label_mac ++ i ++ nonce ++ s) ++ d ≡ (label_mac ++ i' ++ nonce' ++ s') ++ d' =
      sym (seal_message-fields id nonce size d hn hd)
      ∙ e
      ∙ seal_message-fields id' nonce' size' d' hn' hd' in
    let (front, digest) : (label_mac ++ i ++ nonce ++ s ≡ label_mac ++ i' ++ nonce' ++ s')
        × (d ≡ d') =
      last_field _ _ d d' (hd ∙ sym hd') whole in
    let (keyed, sized) : (label_mac ++ i ++ nonce ≡ label_mac ++ i' ++ nonce') × (s ≡ s') =
      last_field _ _ s s'
        (length-big_endian64 (size % 2 ^ 64) ∙ sym (length-big_endian64 (size' % 2 ^ 64))) front in
    let (ids, nonces) : (label_mac ++ i ≡ label_mac ++ i') × (nonce ≡ nonce') =
      last_field _ _ nonce nonce' (hn ∙ sym hn') keyed in
    let (_, same) : (label_mac ≡ label_mac) × (i ≡ i') =
      last_field label_mac label_mac i i' (length-big_endian64 id ∙ sym (length-big_endian64 id'))
        ids in
    (
      big_endian64-injective id id' hi hi' same,
      nonces,
      big_endian64-injective (size % 2 ^ 64) (size' % 2 ^ 64) (omega arith) (omega arith) sized,
      digest,
    )
