-- ===== src/Hmac/Run.antt =====
-- secmem-crypto/hmac_inplace.go, hmacInPlace: its result in a region that is large enough, and the wipe.
use secmem.Prelude.{
  ℕ, ◌+◌, ◌-◌, ◌≤◌, ◌≡◌, ◌≢◌, refl, sym, ap, ◌∙◌, if◌then◌else◌, ltb, List, [], ◌∷◌, ◌++◌, length,
  take, drop, write, some, none, arith, length-replicate, length-take, length-drop,
  append-take-drop,
}
use secmem.Prelude.Slices.{length-write, slice-write_self}
use secmem.Region.{zeros}
use Prim.Native.Nat.{min, max}
use secmem.SealTag.Mac.{length-xor_first}
use secmem.Hmac.{
  InPlaceHash, hash_none, hash_sha224, hash_sha256, hash_sha384, hash_sha512, hash_sha512_224,
  hash_sha512_256, hash_sha3_224, hash_sha3_256, hash_sha3_384, hash_sha3_512, hash_sha1, Sums,
  size, block, max_hash_size, hmac_scratch_size, total_length, copy_parts, key_pad, short_key,
  hmac_parts, hmac_in_place,
}
use secmem.Hmac.Pads.{concat, hmac}
use secmem.Hmac.Mac.{hmac_parts-hmac}

-- No digest is longer than a block of its hash, or than SHA-512's.
pub size-le : (h : InPlaceHash) → (size h ≤ block h) × (size h ≤ max_hash_size)
unfolding size block
size-le hash_none = (omega arith, omega arith)
size-le hash_sha224 = (omega arith, omega arith)
size-le hash_sha256 = (omega arith, omega arith)
size-le hash_sha384 = (omega arith, omega arith)
size-le hash_sha512 = (omega arith, omega arith)
size-le hash_sha512_224 = (omega arith, omega arith)
size-le hash_sha512_256 = (omega arith, omega arith)
size-le hash_sha3_224 = (omega arith, omega arith)
size-le hash_sha3_256 = (omega arith, omega arith)
size-le hash_sha3_384 = (omega arith, omega arith)
size-le hash_sha3_512 = (omega arith, omega arith)
size-le hash_sha1 = (omega arith, omega arith)

module _ (sums : Sums) where
  guarded :
      (h : InPlaceHash) (scratch key : List ℕ) (parts : List (List ℕ))
      → h ≢ hash_none
      → hmac_in_place sums h scratch key parts ≡ (
          if ltb (length scratch) (hmac_scratch_size h (total_length parts))
          then none
          else some (hmac_parts sums h scratch key parts))
  unfolding hmac_in_place
  guarded hash_none scratch key parts ne = absurd (ne refl)
  guarded hash_sha224 scratch key parts ne = refl
  guarded hash_sha256 scratch key parts ne = refl
  guarded hash_sha384 scratch key parts ne = refl
  guarded hash_sha512 scratch key parts ne = refl
  guarded hash_sha512_224 scratch key parts ne = refl
  guarded hash_sha512_256 scratch key parts ne = refl
  guarded hash_sha3_224 scratch key parts ne = refl
  guarded hash_sha3_256 scratch key parts ne = refl
  guarded hash_sha3_384 scratch key parts ne = refl
  guarded hash_sha3_512 scratch key parts ne = refl
  guarded hash_sha1 scratch key parts ne = refl

  length-copy_parts :
      (ps : List (List ℕ)) (n : ℕ) (st : List ℕ) → length (copy_parts ps n st).0 ≡ length st
  unfolding copy_parts
  length-copy_parts [] n st = refl
  length-copy_parts (p ∷ ps) n st =
      length-copy_parts ps (n + min (length p) (length st - n)) (write n p st) ∙ length-write n p st

  length-key_pad :
      (h : InPlaceHash) (k : ℕ) (key st : List ℕ) → length (key_pad h k key st) ≡ length st
  unfolding key_pad
  length-key_pad h k key st =
      let cleared : List ℕ = write 0 (zeros (block h)) st in
      length-xor_first (block h) k (write 0 (take (block h) key) cleared)
      ∙ length-write 0 (take (block h) key) cleared
      ∙ length-write 0 (zeros (block h)) st

  copy_parts-end :
      (ps : List (List ℕ)) (n : ℕ) (st : List ℕ)
      → n + total_length ps ≤ length st
      → (copy_parts ps n st).1 ≡ n + total_length ps
  unfolding copy_parts total_length
  copy_parts-end [] n st h = omega arith
  copy_parts-end (p ∷ ps) n st h =
      let m : n + min (length p) (length st - n) ≡ n + length p = omega arith in
      let rest =
        copy_parts-end ps (n + length p) (write n p st) (omega (arith, length-write n p st)) in
      let step : (copy_parts ps (n + min (length p) (length st - n)) (write n p st)).1
          ≡ (copy_parts ps (n + length p) (write n p st)).1 =
        ap (λ (i : ℕ). (copy_parts ps i (write n p st)).1) m in
      omega (arith, rest, step)

  -- The scratch after the call: as long, and zero where anything was written.
  scratch-after :
      (h : InPlaceHash) (scratch key : List ℕ) (parts : List (List ℕ))
      → hmac_scratch_size h (total_length parts) ≤ length scratch
      → (length (hmac_parts sums h scratch key parts).1 ≡ length scratch)
        × (take (hmac_scratch_size h (total_length parts)) (hmac_parts sums h scratch key parts).1
            ≡ zeros (hmac_scratch_size h (total_length parts)))
  unfolding hmac_parts hmac_scratch_size
  scratch-after h scratch key parts room =
      let st : List ℕ × ℕ = copy_parts parts (block h) scratch in
      let k : List ℕ = short_key sums h key in
      let keyed : List ℕ = key_pad h 0x36 k st.0 in
      let d : List ℕ = take (size h) (write 0 (sums h (take st.1 keyed)) (zeros max_hash_size)) in
      let outer : List ℕ = write (block h) d (key_pad h 0x5c k keyed) in
      let n : ℕ = max st.1 (block h + size h) in
      let same : n ≡ block h + max (total_length parts) (size h) =
        omega (arith, copy_parts-end parts (block h) scratch (omega arith)) in
      let long : length outer ≡ length scratch =
        length-write (block h) d (key_pad h 0x5c k keyed)
        ∙ length-key_pad h 0x5c k keyed
        ∙ length-key_pad h 0x36 k st.0
        ∙ length-copy_parts parts (block h) scratch in
      let filled : length (zeros n) ≡ n = length-replicate {A = ℕ} n 0 in
      let wiped : take n (write 0 (zeros n) outer) ≡ zeros n =
        ap (λ (i : ℕ). take i (write 0 (zeros n) outer)) (sym filled)
        ∙ slice-write_self 0 (zeros n) outer (omega arith) in
      (
        length-write 0 (zeros n) outer ∙ long,
        ap (λ (i : ℕ). take i (write 0 (zeros n) outer)) (sym same) ∙ wiped ∙ ap zeros same,
      )

-- For a supported hash whose one-shot gives digests of its size, and a scratch region that is large
-- enough: hmacInPlace returns, what it writes to dst is HMAC of RFC 2104 over the parts one behind the
-- other, for keys of every length, and the scratch is as long as before and zero as far as the call
-- needs it.
pub hmac_in_place-hmac :
    (sums : Sums) (h : InPlaceHash) (scratch key : List ℕ) (parts : List (List ℕ))
    → h ≢ hash_none
    → ((b : List ℕ) → length (sums h b) ≡ size h)
    → hmac_scratch_size h (total_length parts) ≤ length scratch
    → (after : List ℕ) × (hmac_in_place sums h scratch key parts
        ≡ some (hmac sums h key (concat parts), after))
      × (length after ≡ length scratch)
      × (take (hmac_scratch_size h (total_length parts)) after
          ≡ zeros (hmac_scratch_size h (total_length parts)))
unfolding hmac_scratch_size
hmac_in_place-hmac sums h scratch key parts ne sized room =
    let pad : List ℕ = take (block h) scratch in
    let tail : List ℕ = drop (block h) scratch in
    let whole : scratch ≡ pad ++ tail = append-take-drop (block h) scratch in
    let pad_full : length pad ≡ block h = omega (arith, length-take (block h) scratch) in
    let left = length-drop (block h) scratch in
    let value : (hmac_parts sums h scratch key parts).0 ≡ hmac sums h key (concat parts) =
      ap (λ (st : List ℕ). (hmac_parts sums h st key parts).0) whole
      ∙ hmac_parts-hmac sums h sized (size-le h).0 (size-le h).1 pad tail key parts pad_full
          (omega arith) (omega arith) in
    let after : List ℕ = (hmac_parts sums h scratch key parts).1 in
    let (long, wiped) = scratch-after sums h scratch key parts room in
    let runs : hmac_in_place sums h scratch key parts ≡ some (hmac_parts sums h scratch key parts) =
      ground (arith, guarded sums h scratch key parts ne) in
    (after, runs ∙ ap (λ (d : List ℕ). some (d, after)) value, long, wiped)
