-- ===== src/Pbkdf2/Rounds.antt =====
-- secmem-crypto/pbkdf2_inplace.go, the inner loop: each iteration is an HMAC of the last.
use secmem.Prelude.{ℕ, zero, suc, ◌≤◌, ◌≡◌, refl, sym, ap, ◌∙◌, List, [], ◌++◌, length, write}
use mathlib.Core.List.{append-nil}
use secmem.SealTag.Message.{write-next}
use secmem.Hmac.{InPlaceHash, Sums, size, block}
use secmem.Hmac.Pads.{masked, length-masked}
use secmem.Pbkdf2.{xor_into, iterate}

-- U(2) ^ U(3) ^ ... of RFC 8018, `count` of them after `u`, on top of `t`.
unfoldable pub folded : ℕ → (List ℕ → List ℕ) → (u t : List ℕ) → List ℕ
unfolding xor_into
folded zero prf u t = t
folded (suc count) prf u t = folded count prf (prf u) (xor_into t (prf u))

-- A write over the whole of a list of the same length.
pub write_all : (ys xs : List ℕ) → length ys ≡ length xs → write 0 ys xs ≡ ys
write_all ys xs e =
    ap (write 0 ys) (sym (append-nil xs)) ∙ write-next [] ys xs [] 0 refl e ∙ append-nil ys

-- HMAC under a key that is not longer than a block.
abbrev pub keyed : Sums → InPlaceHash → List ℕ → List ℕ → List ℕ
keyed sums h key msg = sums h (masked h 0x5c key ++ sums h (masked h 0x36 key ++ msg))

module _ (sums : Sums) (h : InPlaceHash) (sized : (b : List ℕ) → length (sums h b) ≡ size h)
    (key : List ℕ) (short : length key ≤ block h) where
  put :
      (k : ℕ) (d rest : List ℕ)
      → length d ≡ size h
      → length rest ≡ size h
      → write (block h) d (masked h k key ++ rest) ≡ masked h k key ++ d
  put k d rest hd hr =
      let m : List ℕ = masked h k key in
      ap (λ (r : List ℕ). write (block h) d (m ++ r)) (sym (append-nil rest))
      ∙ write-next m d rest [] (block h) (sym (length-masked h k key short)) (hd ∙ sym hr)
      ∙ append-nil (m ++ d)

  -- An iteration, once its two messages are there.
  abbrev step : ℕ → (in_msg out_msg u t : List ℕ) → List ℕ × List ℕ × List ℕ
  step count in_msg out_msg u t =
      iterate count sums h in_msg out_msg (write 0 (sums h out_msg) u)
        (xor_into t (write 0 (sums h out_msg) u))

  -- The message buffers have the pads at their heads.
  pub iterate-folded :
      (count : ℕ) (in_rest out_rest u t : List ℕ)
      → length in_rest ≡ size h
      → length out_rest ≡ size h
      → length u ≡ size h
      → (in_after : List ℕ) × (out_after : List ℕ) × (length in_after ≡ size h)
        × (length out_after ≡ size h)
        × (iterate count sums h (masked h 0x36 key ++ in_rest) (masked h 0x5c key ++ out_rest) u t
            ≡ (
              folded count (keyed sums h key) u t,
              masked h 0x36 key ++ in_after,
              masked h 0x5c key ++ out_after,
            ))
  unfolding iterate folded
  iterate-folded zero in_rest out_rest u t hi ho hu = (in_rest, out_rest, hi, ho, refl)
  iterate-folded (suc count) in_rest out_rest u t hi ho hu =
      let inner : List ℕ = masked h 0x36 key ++ u in
      let d : List ℕ = sums h inner in
      let outer : List ℕ = masked h 0x5c key ++ d in
      let in1 : write (block h) u (masked h 0x36 key ++ in_rest) ≡ inner =
        put 0x36 u in_rest hu hi in
      let out1 : write (block h) d (masked h 0x5c key ++ out_rest) ≡ outer =
        put 0x5c d out_rest (sized inner) ho in
      let u1 : write 0 (sums h outer) u ≡ keyed sums h key u =
        write_all (sums h outer) u (sized outer ∙ sym hu) in
      let (in_after, out_after, long_in, long_out, rest) =
        iterate-folded count u d (keyed sums h key u) (xor_into t (keyed sums h key u)) hu
          (sized inner) (sized outer) in
      (
        in_after,
        out_after,
        long_in,
        long_out,
        ap
              (λ (a : List ℕ).
                step count a (write (block h) (sums h a) (masked h 0x5c key ++ out_rest)) u t)
              in1
            ∙ ap (λ (b : List ℕ). step count inner b u t) out1
            ∙ ap (λ (c : List ℕ). iterate count sums h inner outer c (xor_into t c)) u1
            ∙ rest,
      )
