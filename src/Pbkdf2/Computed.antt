-- ===== src/Pbkdf2/Computed.antt =====
-- secmem-crypto/pbkdf2_inplace.go: what pbkdf2Compute leaves in dst and in the region.
use secmem.Prelude.{
  ℕ, zero, suc, ◌+◌, ◌-◌, ◌*◌, ◌%◌, ◌^◌, ◌≤◌, ◌<◌, ◌≡◌, ◌≢◌, refl, sym, ap, ◌∙◌, List, [], ◌∷◌,
  ◌++◌, length, take, drop, slice, write, Option, some, none, arith, length-append, length-drop,
  length-replicate,
}
use mathlib.Core.List.{append_assoc}
use native.Mathlib.Decide.{dec_le}
use native.Mathlib.Nat.{suc-mul}
use secmem.Prelude.Slices.{write-append, length-write}
use secmem.Region.{zeros}
use secmem.SealTag.{xor_first}
use secmem.SealTag.Message.{write-next}
use Prim.Native.Nat.{min}
use secmem.Hmac.{
  InPlaceHash, hash_none, Sums, size, block, max_hash_size, hmac_scratch_size, key_pad,
}
use secmem.Hmac.Pads.{reference_key, masked, hmac, length-short, key_pad-masked, zeros-split}
use secmem.Hmac.Run.{size-le}
use secmem.Hmac.Hkdf.{size-positive, take-within, take-over, write-past}
use secmem.Pbkdf2.{
  pad_message, pbkdf2_blocks, prehashed, pbkdf2_run, pbkdf2_compute, pbkdf2_region_size,
}
use secmem.Pbkdf2.Rounds.{write_all, keyed}
use secmem.Pbkdf2.Derived.{derived, pbkdf2, result, length-result, blocks_end, block_step}

module _ (sums : Sums) (h : InPlaceHash) (ne : h ≢ hash_none)
    (sized : (b : List ℕ) → length (sums h b) ≡ size h) (key salt : List ℕ)
    (short : length key ≤ block h) (iter : ℕ) where
  abbrev here : ℕ → List ℕ
  here i = result sums h ne sized key salt short iter i

  -- `r` is the number of blocks that the counter still has.
  pbkdf2_blocks-derived :
      (fuel r : ℕ) (in_rest out_rest scratch : List ℕ) (i : ℕ) (out tail : List ℕ)
      → length tail ≤ fuel
      → length tail ≤ r * size h
      → i + r < 2 ^ 32
      → length in_rest ≡ size h
      → length out_rest ≡ size h
      → hmac_scratch_size h (length salt + 4) ≤ length scratch
      → pbkdf2_blocks fuel sums h key salt iter
          (masked h 0x36 key ++ in_rest)
          (masked h 0x5c key ++ out_rest)
          scratch
          (length out)
          i
          (out ++ tail)
        ≡ some (out ++ take (length tail) (derived fuel (keyed sums h key) salt iter i))
  unfolding derived
  pbkdf2_blocks-derived fuel r in_rest out_rest scratch i out [] enough few count hi ho room =
      blocks_end sums h ne sized key salt short iter fuel (masked h 0x36 key ++ in_rest)
        (masked h 0x5c key ++ out_rest) scratch (length out) i (out ++ [])
        (omega (arith, length-append out (zeros 0)))
  pbkdf2_blocks-derived zero r in_rest out_rest scratch i out (x ∷ tail) enough few count hi ho
        room =
      absurd (omega arith)
  pbkdf2_blocks-derived (suc fuel) zero in_rest out_rest scratch i out (x ∷ tail) enough few count
        hi ho room =
      absurd (omega arith)
  pbkdf2_blocks-derived (suc fuel) (suc r) in_rest out_rest scratch i out (x ∷ tail) enough few
        count hi ho room =
      let t : List ℕ = here i in
      let full : length t ≡ size h = length-result sums h ne sized key salt short iter i in
      let some_byte = size-positive h ne in
      let dst : List ℕ = out ++ (x ∷ tail) in
      let size_dst : length dst ≡ length out + suc (length tail) = length-append out (x ∷ tail) in
      let (after, in_after, out_after, long, hi', ho', step) =
        block_step sums h ne sized key salt short iter fuel in_rest out_rest scratch (length out) i
          dst (omega arith) hi ho room in
      let wrap : (i + 1) % 2 ^ 32 ≡ suc i = omega arith in
      let more : List ℕ = derived fuel (keyed sums h key) salt iter (suc i) in
      let room' : hmac_scratch_size h (length salt + 4) ≤ length after =
        omega (arith, long, room) in
      let in1 : List ℕ = masked h 0x36 key ++ in_after in
      let out1 : List ℕ = masked h 0x5c key ++ out_after in
      let go : ℕ → ℕ → List ℕ → Option (List ℕ) =
        λ off j d. pbkdf2_blocks fuel sums h key salt iter in1 out1 after off j d in
      let written : List ℕ = write (length out) t dst in
      step ∙ (elim (dec_le (length t) (length (x ∷ tail))) [
        | yes le ↦
            let rest : List ℕ = drop (length t) (x ∷ tail) in
            let left = length-drop (length t) (x ∷ tail) in
            let off : length out + min (length t) (length dst - length out) ≡ length (out ++ t) =
              omega (arith, length-append out t) in
            let product = suc-mul r (size h) in
            let budget : length rest ≤ r * size h = omega arith in
            let again =
              pbkdf2_blocks-derived fuel r in_after out_after after (suc i) (out ++ t) rest
                (omega arith) budget (omega arith) hi' ho' room' in
            let n : length (x ∷ tail) - length t ≡ length rest = omega arith in
            ap (λ (o : ℕ). go o ((i + 1) % 2 ^ 32) written) off
            ∙ ap (λ (j : ℕ). go (length (out ++ t)) j written) wrap
            ∙ ap (go (length (out ++ t)) (suc i)) (write-append out t (x ∷ tail) le)
            ∙ again
            ∙ ap some (
                append_assoc out t (take (length rest) more)
                ∙ ap (λ (j : ℕ). out ++ (t ++ take j more)) (sym n)
                ∙ ap (λ (b : List ℕ). out ++ b) (sym (take-over (length (x ∷ tail)) t more le)))
        | no gt ↦
            blocks_end sums h ne sized key salt short iter fuel in1 out1 after
              (length out + min (length t) (length dst - length out)) ((i + 1) % 2 ^ 32) written
              (omega (arith, length-write (length out) t dst))
            ∙ ap some (
                write-past out t (x ∷ tail) (omega arith)
                ∙ ap (λ (b : List ℕ). out ++ b)
                    (sym (take-within (length (x ∷ tail)) t more (omega arith))))
      ])

-- A part of a region that is all zeros.
slice-zeros : (lo n m : ℕ) → lo + n ≤ m → slice lo n (zeros m) ≡ zeros n
slice-zeros lo n m fits =
    let rest : m ≡ lo + (n + (m - lo - n)) = omega arith in
    ap (λ (i : ℕ). slice lo n (zeros i)) rest ∙ split lo n (m - lo - n)
  where
    front : (n k : ℕ) → take n (zeros n ++ zeros k) ≡ zeros n
    front zero k = refl
    front (suc n) k = ap (◌∷◌ 0) (front n k)

    behind : (lo : ℕ) (xs : List ℕ) → drop lo (zeros lo ++ xs) ≡ xs
    behind zero xs = refl
    behind (suc lo) xs = behind lo xs

    split : (lo n k : ℕ) → slice lo n (zeros (lo + (n + k))) ≡ zeros n
    split lo n k =
        ap (slice lo n)
          (zeros-split lo (n + k) ∙ ap (λ (z : List ℕ). zeros lo ++ z) (zeros-split n k))
        ∙ ap (take n) (behind lo (zeros n ++ zeros k))
        ∙ front n k

-- A message buffer that was zero has the pad of the key at its head.
pad_message-masked :
    (h : InPlaceHash) (k : ℕ) (key rest : List ℕ)
    → length key ≤ block h
    → pad_message h k key (zeros (block h) ++ rest) ≡ masked h k key ++ rest
unfolding pad_message key_pad
pad_message-masked h k key rest short =
    let full = length-replicate {A = ℕ} (block h) 0 in
    ap (λ (xs : List ℕ). xor_first (block h) k (write 0 (take (block h) key) xs))
      (sym (write-next [] (zeros (block h)) (zeros (block h)) rest 0 refl refl))
    ∙ key_pad-masked h k key (zeros (block h)) rest short full

prehashed-reference :
    (sums : Sums) (h : InPlaceHash) (slot password : List ℕ)
    → ((b : List ℕ) → length (sums h b) ≡ size h)
    → length slot ≡ size h
    → prehashed sums h slot password ≡ reference_key sums h password
unfolding prehashed reference_key
prehashed-reference sums h slot password sized full =
    ground (arith, write_all (sums h password) slot (sized password ∙ sym full))

-- For a supported hash whose one-shot gives digests of its size, in a region of zeros that is as large
-- as pbkdf2RegionSize asks for, and for 2 ^ 32 - 2 blocks of output at most: pbkdf2Compute
-- returns, the bytes of dst are PBKDF2 of RFC 8018 under HMAC, for passwords of every length, and every
-- byte of the region is zero again.
pub pbkdf2_compute-pbkdf2 :
    (sums : Sums) (h : InPlaceHash) (dst : List ℕ) (m : ℕ) (password salt : List ℕ) (iter : ℕ)
    → h ≢ hash_none
    → ((b : List ℕ) → length (sums h b) ≡ size h)
    → pbkdf2_region_size h (length salt) ≤ m
    → length dst ≤ 4294967294 * size h
    → pbkdf2_compute sums h dst (zeros m) password salt iter
      ≡ some (pbkdf2 sums h (length dst) password salt iter, zeros m)
unfolding pbkdf2_compute pbkdf2_run pbkdf2 pbkdf2_region_size hmac hmac_scratch_size
pbkdf2_compute-pbkdf2 sums h dst m password salt iter ne sized room few =
    let b : ℕ = block h in
    let s : ℕ = size h in
    let (fits, small) = size-le h in
    let r : List ℕ = reference_key sums h password in
    let short = length-short sums h password sized fits in
    let whole = length-replicate {A = ℕ} m 0 in
    let scratch : List ℕ =
      drop (3 * max_hash_size + b + max_hash_size + b + max_hash_size) (zeros m) in
    let left = length-drop (3 * max_hash_size + b + max_hash_size + b + max_hash_size) (zeros m) in
    let slot : slice (2 * max_hash_size) s (zeros m) ≡ zeros s =
      slice-zeros (2 * max_hash_size) s m (omega arith) in
    let ins : slice (3 * max_hash_size) (b + s) (zeros m) ≡ zeros b ++ zeros s =
      slice-zeros (3 * max_hash_size) (b + s) m (omega arith) ∙ zeros-split b s in
    let outs : slice (3 * max_hash_size + b + max_hash_size) (b + s) (zeros m)
        ≡ zeros b ++ zeros s =
      slice-zeros (3 * max_hash_size + b + max_hash_size) (b + s) m (omega arith)
      ∙ zeros-split b s in
    let key : prehashed sums h (slice (2 * max_hash_size) s (zeros m)) password ≡ r =
      ap (λ (z : List ℕ). prehashed sums h z password) slot
      ∙ prehashed-reference sums h (zeros s) password sized (length-replicate {A = ℕ} s 0) in
    let run : List ℕ → List ℕ → List ℕ → Option (List ℕ) =
      λ k x y. pbkdf2_blocks (length dst) sums h k salt iter x y scratch 0 1 dst in
    let blocks =
      pbkdf2_blocks-derived sums h ne sized r salt short iter (length dst) 4294967294 (zeros s)
        (zeros s) scratch 1 [] dst (omega arith) few (omega arith) (length-replicate {A = ℕ} s 0)
        (length-replicate {A = ℕ} s 0) (omega arith) in
    let computed : pbkdf2_run sums h dst (zeros m) password salt iter
        ≡ some (pbkdf2 sums h (length dst) password salt iter) =
      ap
        (λ (k : List ℕ).
          run k (pad_message h 0x36 k (slice (3 * max_hash_size) (b + s) (zeros m))) (
            pad_message h 0x5c k (slice (3 * max_hash_size + b + max_hash_size) (b + s) (zeros m))))
        key
      ∙ ap
          (λ (x : List ℕ). run r (pad_message h 0x36 r x) (
            pad_message h 0x5c r (slice (3 * max_hash_size + b + max_hash_size) (b + s) (zeros m))))
          ins
      ∙ ap
          (λ (y : List ℕ).
            run r (pad_message h 0x36 r (zeros b ++ zeros s)) (pad_message h 0x5c r y))
          outs
      ∙ ap (λ (x : List ℕ). run r x (pad_message h 0x5c r (zeros b ++ zeros s)))
          (pad_message-masked h 0x36 r (zeros s) short)
      ∙ ap (run r (masked h 0x36 r ++ zeros s)) (pad_message-masked h 0x5c r (zeros s) short)
      ∙ blocks in
    ap
      (λ (o : Option (List ℕ)). elim o [
        | none ↦ none
        | some d ↦ some (d, zeros (length (zeros m)))
      ])
      computed
    ∙ ap (λ (n : ℕ). some (pbkdf2 sums h (length dst) password salt iter, zeros n)) whole
