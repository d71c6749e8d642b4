-- ===== src/Hmac/Hkdf.antt =====
-- secmem-crypto/hmac_inplace.go, hkdfCompute against HKDF as RFC 5869 defines it.
use secmem.Prelude.{
  ℕ, zero, suc, ◌+◌, ◌-◌, ◌*◌, ◌%◌, ◌≤◌, ◌<◌, ◌≡◌, ◌≢◌, refl, sym, ap, ◌∙◌, List, [], ◌∷◌, ◌++◌,
  length, take, drop, write, Option, some, none, arith, length-append, length-drop,
}
use mathlib.Core.List.{append_assoc, append-nil}
use native.Mathlib.Decide.{dec_le}
use secmem.Prelude.Slices.{write-append, length-write}
use secmem.Region.{zeros}
use Prim.Native.Nat.{max}
use secmem.Hmac.{
  InPlaceHash, hash_none, hash_sha224, hash_sha256, hash_sha384, hash_sha512, hash_sha512_224,
  hash_sha512_256, hash_sha3_224, hash_sha3_256, hash_sha3_384, hash_sha3_512, hash_sha1, Sums,
  size, block, max_hash_size, hmac_scratch_size, total_length, hmac_in_place, hkdf_rounds,
  hkdf_compute,
}
use secmem.Hmac.Pads.{hmac}
use secmem.Hmac.Run.{hmac_in_place-hmac}

-- T(i) ++ T(i + 1) ++ ... of RFC 5869, `count` blocks from the one of number i on, after `prev`.
unfoldable pub blocks : ℕ → Sums → InPlaceHash → (prk info prev : List ℕ) → ℕ → List ℕ
blocks zero sums h prk info prev i = []
blocks (suc count) sums h prk info prev i =
    let t = hmac sums h prk (prev ++ (info ++ (i ∷ []))) in
    t ++ blocks count sums h prk info t (suc i)

-- HKDF: the first n bytes of the blocks, under the key that HMAC extracts.
unfoldable pub hkdf : Sums → InPlaceHash → ℕ → (secret salt info : List ℕ) → List ℕ
unfolding blocks
hkdf sums h n secret salt info = take n (blocks n sums h (hmac sums h salt secret) info [] 1)

pub size-positive : (h : InPlaceHash) → h ≢ hash_none → 0 < size h
unfolding size
size-positive hash_none ne = absurd (ne refl)
size-positive hash_sha224 ne = omega arith
size-positive hash_sha256 ne = omega arith
size-positive hash_sha384 ne = omega arith
size-positive hash_sha512 ne = omega arith
size-positive hash_sha512_224 ne = omega arith
size-positive hash_sha512_256 ne = omega arith
size-positive hash_sha3_224 ne = omega arith
size-positive hash_sha3_256 ne = omega arith
size-positive hash_sha3_384 ne = omega arith
size-positive hash_sha3_512 ne = omega arith
size-positive hash_sha1 ne = omega arith

pub take-within : (n : ℕ) (xs ys : List ℕ) → n ≤ length xs → take n (xs ++ ys) ≡ take n xs
take-within zero xs ys h = refl
take-within (suc n) [] ys h = absurd (omega arith)
take-within (suc n) (x ∷ xs) ys h = ap (◌∷◌ x) (take-within n xs ys (omega arith))

pub take-over :
    (n : ℕ) (xs ys : List ℕ) → length xs ≤ n → take n (xs ++ ys) ≡ xs ++ take (n - length xs) ys
take-over n [] ys h = let same : n ≡ n - 0 = omega arith in ap (λ (i : ℕ). take i ys) same
take-over zero (x ∷ xs) ys h = absurd (omega arith)
take-over (suc n) (x ∷ xs) ys h =
    let same : n - length xs ≡ suc n - suc (length xs) = omega arith in
    ap (◌∷◌ x) (take-over n xs ys (omega arith) ∙ ap (λ (i : ℕ). xs ++ take i ys) same)

-- A write that reaches past the end of the slice.
pub write-past :
    (out ys tail : List ℕ)
    → length tail ≤ length ys
    → write (length out) ys (out ++ tail) ≡ out ++ take (length tail) ys
write-past [] [] [] h = refl
write-past [] [] (t ∷ tail) h = absurd (omega arith)
write-past [] (y ∷ ys) [] h = refl
write-past [] (y ∷ ys) (t ∷ tail) h = ap (◌∷◌ y) (write-past [] ys tail (omega arith))
write-past (x ∷ out) ys tail h = ap (◌∷◌ x) (write-past out ys tail h)

module _ (sums : Sums) (h : InPlaceHash) (ne : h ≢ hash_none)
    (sized : (b : List ℕ) → length (sums h b) ≡ size h) (prk info : List ℕ) where
  rounds_end :
      (fuel : ℕ) (prev : List ℕ) (ctr : ℕ) (scratch : List ℕ) (off : ℕ) (dst : List ℕ)
      → length dst ≤ off
      → hkdf_rounds fuel sums h prk info prev ctr scratch off dst ≡ some dst
  unfolding hkdf_rounds
  rounds_end zero prev ctr scratch off dst le = refl
  rounds_end (suc fuel) prev ctr scratch off dst le = ground arith

  length-hmac : (msg : List ℕ) → length (hmac sums h prk msg) ≡ size h
  unfolding hmac
  length-hmac msg = sized _

  -- What a round does once its block is there.
  abbrev continued : ℕ → (off : ℕ) → (dst : List ℕ) → ℕ → Option (List ℕ × List ℕ) → Option (List ℕ)
  continued fuel off dst c none = none
  continued fuel off dst c (some (t, after)) =
      hkdf_rounds fuel sums h prk info t c after (off + size h) (write off t dst)

  opened :
      (fuel : ℕ) (prev : List ℕ) (ctr : ℕ) (scratch : List ℕ) (off : ℕ) (dst : List ℕ)
      → off < length dst
      → hkdf_rounds (suc fuel) sums h prk info prev ctr scratch off dst
        ≡ continued fuel off dst
            ((ctr + 1) % 256)
            (hmac_in_place sums h scratch prk (prev ∷ info ∷ (((ctr + 1) % 256) ∷ []) ∷ []))
  unfolding hkdf_rounds
  opened fuel prev ctr scratch off dst more = ground arith

  -- One round, with bytes of dst to go.
  round_step :
      (fuel : ℕ) (prev : List ℕ) (ctr : ℕ) (scratch : List ℕ) (off : ℕ) (dst : List ℕ)
      → off < length dst
      → ctr < 255
      → length prev ≤ size h
      → hmac_scratch_size h (size h + length info + 1) ≤ length scratch
      → (after : List ℕ) × (length after ≡ length scratch)
        × (hkdf_rounds (suc fuel) sums h prk info prev ctr scratch off dst
            ≡ hkdf_rounds fuel sums h prk info
                (hmac sums h prk (prev ++ (info ++ (suc ctr ∷ []))))
                (suc ctr)
                after
                (off + size h)
                (write off (hmac sums h prk (prev ++ (info ++ (suc ctr ∷ [])))) dst))
  unfolding hmac_scratch_size total_length
  round_step fuel prev ctr scratch off dst more few short room =
      let c : (ctr + 1) % 256 ≡ suc ctr = omega arith in
      let (after, runs, long, wiped) =
        hmac_in_place-hmac sums h scratch prk (prev ∷ info ∷ (suc ctr ∷ []) ∷ []) ne sized
          (omega arith) in
      (
        after,
        long,
        opened fuel prev ctr scratch off dst more
            ∙ ap
                (λ (i : ℕ).
                  continued fuel off dst i
                    (hmac_in_place sums h scratch prk (prev ∷ info ∷ (i ∷ []) ∷ [])))
                c
            ∙ ap (continued fuel off dst (suc ctr)) runs,
      )

  -- `r` is the number of blocks that a one-byte counter still has.
  hkdf_rounds-blocks :
      (fuel r : ℕ) (prev : List ℕ) (ctr : ℕ) (scratch out tail : List ℕ)
      → length tail ≤ fuel
      → length tail ≤ r * size h
      → ctr + r ≤ 255
      → length prev ≤ size h
      → hmac_scratch_size h (size h + length info + 1) ≤ length scratch
      → hkdf_rounds fuel sums h prk info prev ctr scratch (length out) (out ++ tail)
        ≡ some (out ++ take (length tail) (blocks fuel sums h prk info prev (suc ctr)))
  unfolding blocks
  hkdf_rounds-blocks fuel r prev ctr scratch out [] enough few count short room =
      rounds_end fuel prev ctr scratch (length out) (out ++ [])
        (omega (arith, length-append out (zeros 0)))
  hkdf_rounds-blocks zero r prev ctr scratch out (x ∷ tail) enough few count short room =
      absurd (omega arith)
  hkdf_rounds-blocks (suc fuel) zero prev ctr scratch out (x ∷ tail) enough few count short room =
      absurd (omega arith)
  hkdf_rounds-blocks (suc fuel) (suc r) prev ctr scratch out (x ∷ tail) enough few count short
        room =
      let t : List ℕ = hmac sums h prk (prev ++ (info ++ (suc ctr ∷ []))) in
      let full : length t ≡ size h = length-hmac (prev ++ (info ++ (suc ctr ∷ []))) in
      let some_byte = size-positive h ne in
      let (after, long, step) =
        round_step fuel prev ctr scratch (length out) (out ++ (x ∷ tail))
          (omega (arith, length-append out (x ∷ tail))) (omega arith) short room in
      let more : List ℕ = blocks fuel sums h prk info t (suc (suc ctr)) in
      let room' : hmac_scratch_size h (size h + length info + 1) ≤ length after =
        omega (arith, long, room) in
      step ∙ (elim (dec_le (length t) (length (x ∷ tail))) [
        | yes le ↦
            let rest : List ℕ = drop (length t) (x ∷ tail) in
            let left = length-drop (length t) (x ∷ tail) in
            let off : length out + size h ≡ length (out ++ t) =
              omega (arith, length-append out t) in
            let more_room : suc r * size h ≡ size h + r * size h = grind arith in
            let budget : length rest ≤ r * size h = omega arith in
            let again =
              hkdf_rounds-blocks fuel r t (suc ctr) after (out ++ t) rest (omega arith) budget
                (omega arith) (omega arith) room' in
            let n : length (x ∷ tail) - length t ≡ length rest = omega arith in
            ap
              (λ (i : ℕ).
                hkdf_rounds fuel sums h prk info t (suc ctr) after i
                  (write (length out) t (out ++ (x ∷ tail))))
              off
            ∙ ap (hkdf_rounds fuel sums h prk info t (suc ctr) after (length (out ++ t)))
                (write-append out t (x ∷ tail) le)
            ∙ again
            ∙ ap some (
                append_assoc out t (take (length rest) more)
                ∙ ap (λ (i : ℕ). out ++ (t ++ take i more)) (sym n)
                ∙ ap (λ (b : List ℕ). out ++ b) (sym (take-over (length (x ∷ tail)) t more le)))
        | no gt ↦
            let past = write-past out t (x ∷ tail) (omega arith) in
            rounds_end fuel t (suc ctr) after (length out + size h)
              (write (length out) t (out ++ (x ∷ tail)))
              (omega (
                arith,
                length-write (length out) t (out ++ (x ∷ tail)),
                length-append out (x ∷ tail),
              ))
            ∙ ap some (
                past
                ∙ ap (λ (b : List ℕ). out ++ b)
                    (sym (take-within (length (x ∷ tail)) t more (omega arith))))
      ])

module _ (sums : Sums) (h : InPlaceHash) (dst region info : List ℕ) where
  -- The end of hkdfCompute, and what follows its first HMAC.
  abbrev wipe : Option (List ℕ) → Option (List ℕ × List ℕ)
  wipe none = none
  wipe (some out) = some (out, zeros (length region))

  abbrev expand : Option (List ℕ × List ℕ) → Option (List ℕ × List ℕ)
  expand none = none
  expand (some (prk, scratch)) = wipe (hkdf_rounds (length dst) sums h prk info [] 0 scratch 0 dst)

-- For a supported hash whose one-shot gives digests of its size, in a region of the size that
-- hkdfInPlace takes, and for as many bytes as a one-byte counter can number: hkdfCompute returns, the
-- bytes of dst are HKDF of RFC 5869, and every byte of the region is zero.
pub hkdf_compute-hkdf :
    (sums : Sums) (h : InPlaceHash) (dst region secret salt info : List ℕ)
    → h ≢ hash_none
    → ((b : List ℕ) → length (sums h b) ≡ size h)
    → 2 * max_hash_size + block h + max (length secret) (size h + length info + 1) ≤ length region
    → length dst ≤ 255 * size h
    → hkdf_compute sums h dst region secret salt info
      ≡ some (hkdf sums h (length dst) secret salt info, zeros (length region))
unfolding hkdf_compute hkdf hmac_scratch_size total_length
hkdf_compute-hkdf sums h dst region secret salt info ne sized room few =
    let scratch : List ℕ = drop (2 * max_hash_size) region in
    let left = length-drop (2 * max_hash_size) region in
    let (after, runs, long, wiped) =
      hmac_in_place-hmac sums h scratch salt (secret ∷ []) ne sized (omega arith) in
    let prk : List ℕ = hmac sums h salt secret in
    let extracted : hmac_in_place sums h scratch salt (secret ∷ []) ≡ some (prk, after) =
      runs ∙ ap (λ (m : List ℕ). some (hmac sums h salt m, after)) (append-nil secret) in
    let expanded =
      hkdf_rounds-blocks sums h ne sized prk info (length dst) 255 [] 0 after [] dst (omega arith)
        few (omega arith) (omega arith) (omega arith) in
    ap (expand sums h dst region info) extracted ∙ ap (wipe sums h dst region info) expanded
