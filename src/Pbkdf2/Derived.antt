-- ===== src/Pbkdf2/Derived.antt =====
-- secmem-crypto/pbkdf2_inplace.go against PBKDF2 as RFC 8018 defines it.
use secmem.Prelude.{
  ℕ, zero, suc, ◌+◌, ◌-◌, ◌%◌, ◌^◌, ◌≤◌, ◌<◌, ◌≡◌, ◌≢◌, refl, ap, ◌∙◌, List, [], ◌∷◌, ◌++◌, length,
  take, write, Option, some, none, arith,
}
use mathlib.Core.List.{append-nil}
use secmem.SshWire.{big_endian}
use Prim.Native.Nat.{min}
use secmem.Hmac.{
  InPlaceHash, hash_none, Sums, size, block, hmac_scratch_size, total_length, hmac_in_place,
}
use secmem.Hmac.Pads.{reference_key, masked, hmac}
use secmem.Hmac.Run.{hmac_in_place-hmac}
use secmem.Pbkdf2.{xor_into, iterate, pbkdf2_blocks}
use secmem.Pbkdf2.Rounds.{folded, keyed, iterate-folded}

-- T(i) ++ T(i + 1) ++ ... of RFC 8018, `count` blocks.
unfoldable pub derived : ℕ → (List ℕ → List ℕ) → (salt : List ℕ) → ℕ → ℕ → List ℕ
unfolding folded big_endian
derived zero prf salt iter i = []
derived (suc count) prf salt iter i =
    let u = prf (salt ++ big_endian i) in
    folded (iter - 1) prf u u ++ derived count prf salt iter (suc i)

-- PBKDF2: the first n bytes of the blocks.
unfoldable pub pbkdf2 : Sums → InPlaceHash → ℕ → (password salt : List ℕ) → ℕ → List ℕ
unfolding derived
pbkdf2 sums h n password salt iter = take n (derived n (hmac sums h password) salt iter 1)

length-xor_into : (t u : List ℕ) → length (xor_into t u) ≡ length t
unfolding xor_into
length-xor_into [] u = refl
length-xor_into (x ∷ t) [] = refl
length-xor_into (x ∷ t) (y ∷ u) = ap suc (length-xor_into t u)

length-folded :
    (count : ℕ) (prf : List ℕ → List ℕ) (u t : List ℕ) → length (folded count prf u t) ≡ length t
unfolding folded
length-folded zero prf u t = refl
length-folded (suc count) prf u t =
    length-folded count prf (prf u) (xor_into t (prf u)) ∙ length-xor_into t (prf u)

length-big_endian : (i : ℕ) → length (big_endian i) ≡ 4
unfolding big_endian
length-big_endian i = refl

pub same_key :
    (sums : Sums) (h : InPlaceHash) (key : List ℕ)
    → length key ≤ block h
    → reference_key sums h key ≡ key
unfolding reference_key
same_key sums h key short = ground arith

module _ (sums : Sums) (h : InPlaceHash) (ne : h ≢ hash_none)
    (sized : (b : List ℕ) → length (sums h b) ≡ size h) (key salt : List ℕ)
    (short : length key ≤ block h) (iter : ℕ) where
  abbrev pub under_key : List ℕ → List ℕ
  under_key msg = keyed sums h key msg

  hmac-keyed : (msg : List ℕ) → hmac sums h key msg ≡ under_key msg
  unfolding hmac
  hmac-keyed msg = ap (λ (k : List ℕ). keyed sums h k msg) (same_key sums h key short)

  abbrev pub first : ℕ → List ℕ
  first i = under_key (salt ++ big_endian i)

  abbrev pub result : ℕ → List ℕ
  result i = folded (iter - 1) under_key (first i) (first i)

  pub length-result : (i : ℕ) → length (result i) ≡ size h
  length-result i = length-folded (iter - 1) under_key (first i) (first i) ∙ sized _

  pub blocks_end :
      (fuel : ℕ) (in_msg out_msg scratch : List ℕ) (off i : ℕ) (dst : List ℕ)
      → length dst ≤ off
      → pbkdf2_blocks fuel sums h key salt iter in_msg out_msg scratch off i dst ≡ some dst
  unfolding pbkdf2_blocks
  blocks_end zero in_msg out_msg scratch off i dst le = refl
  blocks_end (suc fuel) in_msg out_msg scratch off i dst le = ground arith

  -- What a round does once its first HMAC, and then its block, are there.
  abbrev pub next :
      ℕ → (off i : ℕ) → (dst scratch : List ℕ) → List ℕ × List ℕ × List ℕ → Option (List ℕ)
  next fuel off i dst scratch (t, in1, out1) =
      pbkdf2_blocks fuel sums h key salt iter in1 out1 scratch
        (off + min (length t) (length dst - off)) ((i + 1) % 2 ^ 32) (write off t dst)

  abbrev continued :
      ℕ
      → (in_msg out_msg : List ℕ) → (off i : ℕ) → (dst : List ℕ) → Option (List ℕ × List ℕ)
      → Option (List ℕ)
  continued fuel in_msg out_msg off i dst none = none
  continued fuel in_msg out_msg off i dst (some (u, after)) =
      next fuel off i dst after (iterate (iter - 1) sums h in_msg out_msg u u)

  opened :
      (fuel : ℕ) (in_msg out_msg scratch : List ℕ) (off i : ℕ) (dst : List ℕ)
      → off < length dst
      → pbkdf2_blocks (suc fuel) sums h key salt iter in_msg out_msg scratch off i dst
        ≡ continued fuel in_msg out_msg off i dst
            (hmac_in_place sums h scratch key (salt ∷ big_endian i ∷ []))
  unfolding pbkdf2_blocks
  opened fuel in_msg out_msg scratch off i dst more = ground arith

  -- One round, with bytes of dst to go.
  pub block_step :
      (fuel : ℕ) (in_rest out_rest scratch : List ℕ) (off i : ℕ) (dst : List ℕ)
      → off < length dst
      → length in_rest ≡ size h
      → length out_rest ≡ size h
      → hmac_scratch_size h (length salt + 4) ≤ length scratch
      → (after : List ℕ) × (in_after : List ℕ) × (out_after : List ℕ) × (length after
          ≡ length scratch)
        × (length in_after ≡ size h)
        × (length out_after ≡ size h)
        × (pbkdf2_blocks
              (suc fuel)
              sums
              h
              key
              salt
              iter
              (masked h 0x36 key ++ in_rest)
              (masked h 0x5c key ++ out_rest)
              scratch
              off
              i
              dst
            ≡ next fuel off i dst after
                (result i, masked h 0x36 key ++ in_after, masked h 0x5c key ++ out_after))
  unfolding hmac_scratch_size total_length
  block_step fuel in_rest out_rest scratch off i dst more hi ho room =
      let in_msg : List ℕ = masked h 0x36 key ++ in_rest in
      let out_msg : List ℕ = masked h 0x5c key ++ out_rest in
      let (after, runs, long, wiped) =
        hmac_in_place-hmac sums h scratch key (salt ∷ big_endian i ∷ []) ne sized
          (omega (arith, length-big_endian i)) in
      let (in_after, out_after, long_in, long_out, loop) =
        iterate-folded sums h sized key short (iter - 1) in_rest out_rest (first i) (first i) hi ho
          (sized _) in
      let value : hmac sums h key (salt ++ (big_endian i ++ [])) ≡ first i =
        ap (λ (m : List ℕ). hmac sums h key (salt ++ m)) (append-nil (big_endian i))
        ∙ hmac-keyed (salt ++ big_endian i) in
      (
        after,
        in_after,
        out_after,
        long,
        long_in,
        long_out,
        opened fuel in_msg out_msg scratch off i dst more
            ∙ ap (continued fuel in_msg out_msg off i dst) runs
            ∙ ap
                (λ (u : List ℕ).
                  next fuel off i dst after (iterate (iter - 1) sums h in_msg out_msg u u))
                value
            ∙ ap (next fuel off i dst after) loop,
      )
