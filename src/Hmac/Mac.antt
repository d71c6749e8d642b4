-- ===== src/Hmac/Mac.antt =====
-- secmem-crypto/hmac_inplace.go, hmacInPlace against HMAC.
use secmem.Prelude.{
  ℕ, ◌+◌, ◌≤◌, ◌≡◌, sym, ap, ◌∙◌, List, ◌++◌, length, take, drop, write, arith, length-append,
  take-append, length-drop,
}
use mathlib.Core.List.{append_assoc}
use secmem.Prelude.Slices.{write-append}
use secmem.Region.{zeros}
use secmem.Hmac.{
  InPlaceHash, Sums, size, block, max_hash_size, total_length, copy_parts, key_pad, short_key,
  hmac_parts,
}
use secmem.Hmac.Pads.{
  concat, reference_key, masked, hmac, total-concat, copy_parts-append, length-short,
  digest-in_full, length-masked, key_pad-masked,
}

-- The inner digest and the outer input, out of the scratch with the parts in it.
abbrev digest_of : Sums → InPlaceHash → List ℕ → List ℕ × ℕ → List ℕ
digest_of sums h key st =
    take (size h) (write 0 (sums h (take st.1 (key_pad h 0x36 key st.0))) (zeros max_hash_size))

abbrev outer_of : Sums → InPlaceHash → List ℕ → List ℕ × ℕ → List ℕ
outer_of sums h key st =
    write (block h) (digest_of sums h key st) (key_pad h 0x5c key (key_pad h 0x36 key st.0))

-- What hmacInPlace does, in a region that is large enough.
module _ (sums : Sums) (h : InPlaceHash) (sized : (b : List ℕ) → length (sums h b) ≡ size h)
    (fits : size h ≤ block h) (small : size h ≤ max_hash_size) where
  short-reference : (key : List ℕ) → short_key sums h key ≡ reference_key sums h key
  unfolding short_key reference_key
  short-reference key =
      let digest = digest-in_full (sums h key) (omega (arith, sized key)) in
      ground (arith, digest, sized key)

  -- The outer input, for a key that is not longer than a block.
  outer_of-masked :
      (key pad msg rest : List ℕ)
      → length key ≤ block h
      → length pad ≡ block h
      → size h ≤ length (msg ++ rest)
      → take (block h + size h) (outer_of sums h key ((pad ++ msg) ++ rest, length (pad ++ msg)))
        ≡ masked h 0x5c key ++ sums h (masked h 0x36 key ++ msg)
  outer_of-masked key pad msg rest short full room =
      let m : List ℕ = masked h 0x36 key in
      let o : List ℕ = masked h 0x5c key in
      let d : List ℕ = sums h (m ++ msg) in
      let m_full = length-masked h 0x36 key short in
      let o_full = length-masked h 0x5c key short in
      let keyed : key_pad h 0x36 key ((pad ++ msg) ++ rest) ≡ m ++ (msg ++ rest) =
        ap (key_pad h 0x36 key) (append_assoc pad msg rest)
        ∙ key_pad-masked h 0x36 key pad (msg ++ rest) short full in
      let n : length (pad ++ msg) ≡ length (m ++ msg) =
        omega (arith, length-append pad msg, length-append m msg) in
      let input : take (length (pad ++ msg)) (m ++ (msg ++ rest)) ≡ m ++ msg =
        ap (λ (i : ℕ). take i (m ++ (msg ++ rest))) n
        ∙ ap (take (length (m ++ msg))) (sym (append_assoc m msg rest))
        ∙ take-append (m ++ msg) rest in
      let digest : take (size h) (write 0 d (zeros max_hash_size)) ≡ d =
        ap (λ (i : ℕ). take i (write 0 d (zeros max_hash_size))) (sym (sized (m ++ msg)))
        ∙ digest-in_full d (omega (arith, sized (m ++ msg))) in
      let inner : digest_of sums h key ((pad ++ msg) ++ rest, length (pad ++ msg)) ≡ d =
        ap
          (λ (st : List ℕ).
            take (size h) (write 0 (sums h (take (length (pad ++ msg)) st)) (zeros max_hash_size)))
          keyed
        ∙ ap (λ (x : List ℕ). take (size h) (write 0 (sums h x) (zeros max_hash_size))) input
        ∙ digest in
      let outer : key_pad h 0x5c key (key_pad h 0x36 key ((pad ++ msg) ++ rest))
          ≡ o ++ (msg ++ rest) =
        ap (key_pad h 0x5c key) keyed ∙ key_pad-masked h 0x5c key m (msg ++ rest) short m_full in
      let written : write (block h) d (o ++ (msg ++ rest))
          ≡ (o ++ d) ++ drop (length d) (msg ++ rest) =
        ap (λ (i : ℕ). write i d (o ++ (msg ++ rest))) (sym o_full)
        ∙ write-append o d (msg ++ rest) (omega (arith, sized (m ++ msg))) in
      let all : block h + size h ≡ length (o ++ d) =
        omega (arith, length-append o d, sized (m ++ msg)) in
      ap
        (λ (x : List ℕ).
          take (block h + size h)
            (write (block h) x (key_pad h 0x5c key (key_pad h 0x36 key ((pad ++ msg) ++ rest)))))
        inner
      ∙ ap (λ (x : List ℕ). take (block h + size h) (write (block h) d x)) outer
      ∙ ap (take (block h + size h)) written
      ∙ ap (λ (i : ℕ). take i ((o ++ d) ++ drop (length d) (msg ++ rest))) all
      ∙ take-append (o ++ d) (drop (length d) (msg ++ rest))

  pub hmac_parts-hmac :
      (pad tail key : List ℕ) (parts : List (List ℕ))
      → length pad ≡ block h
      → total_length parts ≤ length tail
      → size h ≤ length tail
      → (hmac_parts sums h (pad ++ tail) key parts).0 ≡ hmac sums h key (concat parts)
  unfolding hmac_parts hmac
  hmac_parts-hmac pad tail key parts full room last =
      let msg : List ℕ = concat parts in
      let rest : List ℕ = drop (length msg) tail in
      let filled : copy_parts parts (block h) (pad ++ tail)
          ≡ ((pad ++ msg) ++ rest, length (pad ++ msg)) =
        ap (λ (n : ℕ). copy_parts parts n (pad ++ tail)) (sym full)
        ∙ copy_parts-append parts pad tail (omega arith) in
      let size_left : size h ≤ length (msg ++ rest) =
        omega (arith, length-append msg rest, length-drop (length msg) tail, total-concat parts) in
      ap
        (λ (k : List ℕ).
          sums h (
            take (block h + size h) (outer_of sums h k (copy_parts parts (block h) (pad ++ tail)))))
        (short-reference key)
      ∙ ap
          (λ (st : List ℕ × ℕ).
            sums h (take (block h + size h) (outer_of sums h (reference_key sums h key) st)))
          filled
      ∙ ap (sums h) (
          outer_of-masked (reference_key sums h key) pad msg rest
            (length-short sums h key sized fits) full size_left)
