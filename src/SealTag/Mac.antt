-- ===== src/SealTag/Mac.antt =====
-- sealauth.go, sealPRFState and sealComputeTag against HMAC as it is defined.
use secmem.Prelude.{
  ℕ, zero, suc, ◌+◌, ◌-◌, ◌≤◌, ◌≡◌, refl, sym, ap, ◌∙◌, List, [], ◌∷◌, ◌++◌, length, take, drop,
  write, map, arith, length-append, length-replicate, take-append,
}
use secmem.Prelude.Slices.{write-append, length-write}
use secmem.Region.{zeros}
use Prim.Native.Nat.{bit_xor, min}
use secmem.SealTag.{
  PrfState, no_prf, xor_first, prf_init, prf, prf_done, seal_message, seal_compute_tag, block_len,
  root_len, tag_len, nonce_len,
}
use mathlib.Core.List.{append_assoc, append-nil}
use secmem.SealTag.Message.{write-next, fields, seal_message-fields, length-seal_message}

-- A key padded with zeros to a block, and masked by a byte.
abbrev pub padded : List ℕ → List ℕ
padded key = key ++ zeros (block_len - length key)

abbrev pub masked : ℕ → List ℕ → List ℕ
masked k key = map (λ x. bit_xor x k) (padded key)

-- HMAC over a hash of 128-byte blocks, for a key of a block at most.
unfoldable pub hmac : (List ℕ → List ℕ) → List ℕ → List ℕ → List ℕ
hmac hash key msg = hash (masked 0x5c key ++ hash (masked 0x36 key ++ msg))

pub xor_first-append :
    (k : ℕ) (xs tail : List ℕ)
    → xor_first (length xs) k (xs ++ tail) ≡ map (λ x. bit_xor x k) xs ++ tail
unfolding xor_first
xor_first-append k [] tail = refl
xor_first-append k (x ∷ xs) tail = ap (◌∷◌ (bit_xor x k)) (xor_first-append k xs tail)

length-map : (k : ℕ) (xs : List ℕ) → length (map (λ x. bit_xor x k) xs) ≡ length xs
length-map k [] = refl
length-map k (x ∷ xs) = ap suc (length-map k xs)

length-padded : (key : List ℕ) → length key ≤ block_len → length (padded key) ≡ block_len
length-padded key h = omega (
  arith,
  length-append key (zeros (block_len - length key)),
  length-replicate {A = ℕ} (block_len - length key) 0,
)

length-masked : (k : ℕ) (key : List ℕ) → length key ≡ root_len → length (masked k key) ≡ block_len
length-masked k key h = length-map k (padded key) ∙ length-padded key (omega arith)

pub length-xor_first : (n k : ℕ) (xs : List ℕ) → length (xor_first n k xs) ≡ length xs
unfolding xor_first
length-xor_first zero k xs = refl
length-xor_first (suc n) k [] = refl
length-xor_first (suc n) k (x ∷ xs) = ap suc (length-xor_first n k xs)

-- The code's inner input, out of the array that holds the pad.
abbrev taken : List ℕ → List ℕ → List ℕ
taken msg st = take (block_len + min (length msg) (length st - block_len)) (write block_len msg st)

-- What init makes of a zeroed pad with `room` behind its block.
init_pad :
    (k : ℕ) (key room : List ℕ)
    → length key ≡ root_len
    → xor_first block_len k (write 0 key (zeros root_len ++ (zeros root_len ++ room)))
      ≡ masked k key ++ room
init_pad k key room h =
    let placed = write-next [] key (zeros root_len) (zeros root_len ++ room) 0 refl h in
    let room_left : root_len ≡ block_len - length key = omega arith in
    let pad : key ++ zeros root_len ≡ padded key = ap (λ (n : ℕ). key ++ zeros n) room_left in
    let full = length-padded key (omega arith) in
    let laid : write 0 key (zeros root_len ++ (zeros root_len ++ room)) ≡ padded key ++ room =
      placed
      ∙ sym (append_assoc key (zeros root_len) room)
      ∙ ap (λ (xs : List ℕ). xs ++ room) pad in
    ap (xor_first block_len k) laid
    ∙ ap (λ (n : ℕ). xor_first n k (padded key ++ room)) (sym full)
    ∙ xor_first-append k (padded key) room

-- The inner input: the mask and the message, whatever room is left behind it.
inner_input :
    (pad msg : List ℕ)
    → length pad ≡ block_len
    → length msg ≤ block_len
    → take
        (block_len + min (length msg) (length (pad ++ zeros block_len) - block_len))
        (write block_len msg (pad ++ zeros block_len))
      ≡ pad ++ msg
inner_input pad msg full short =
    let whole = length-append pad (zeros block_len) in
    let room = length-replicate {A = ℕ} block_len 0 in
    let n : block_len + min (length msg) (length (pad ++ zeros block_len) - block_len)
        ≡ length (pad ++ msg) =
      omega (arith, whole, room, length-append pad msg) in
    let written : write block_len msg (pad ++ zeros block_len)
        ≡ (pad ++ msg) ++ drop (length msg) (zeros block_len) =
      ap (λ (i : ℕ). write i msg (pad ++ zeros block_len)) (sym full)
      ∙ write-append pad msg (zeros block_len) (omega (arith, room)) in
    ap (λ (i : ℕ). take i (write block_len msg (pad ++ zeros block_len))) n
    ∙ ap (take (length (pad ++ msg))) written
    ∙ take-append (pad ++ msg) (drop (length msg) (zeros block_len))

module _ (hash : List ℕ → List ℕ) (sized : (b : List ℕ) → length (hash b) ≡ root_len) where
  -- The two pads of a fresh state are HMAC's, and prf is HMAC, for a key that is a digest.
  prf-hmac :
      (key msg : List ℕ)
      → length key ≡ root_len
      → length msg ≤ block_len
      → (prf hash msg (prf_init key no_prf)).1 ≡ hmac hash key msg
  unfolding prf prf_init hmac
  prf-hmac key msg h short =
      let inner_pad : xor_first block_len 0x36 (write 0 key (zeros (block_len + block_len)))
          ≡ masked 0x36 key ++ zeros block_len =
        init_pad 0x36 key (zeros block_len) h in
      let outer_pad : xor_first block_len 0x5c (write 0 key (zeros (block_len + root_len)))
          ≡ masked 0x5c key ++ zeros root_len =
        init_pad 0x5c key (zeros root_len) h in
      let pad : List ℕ = masked 0x36 key in
      let mask : List ℕ = masked 0x5c key in
      let digest : List ℕ =
        hash (taken msg (xor_first block_len 0x36 (write 0 key (zeros (block_len + block_len))))) in
      let inner : digest ≡ hash (pad ++ msg) =
        ap (λ (st : List ℕ). hash (taken msg st)) inner_pad
        ∙ ap hash (inner_input pad msg (length-masked 0x36 key h) short) in
      let outer : write block_len digest (mask ++ (zeros root_len ++ [])) ≡ (mask ++ digest) ++ [] =
        write-next mask digest (zeros root_len) [] block_len (sym (length-masked 0x5c key h))
          (sized _) in
      ap (λ (st : List ℕ). hash (write block_len digest st)) outer_pad
      ∙ ap hash (outer ∙ append-nil (mask ++ digest))
      ∙ ap (λ (d : List ℕ). hash (mask ++ d)) inner

  -- done clears every byte of the state.
  done-no_prf : (key msg : List ℕ) → prf_done (prf hash msg (prf_init key no_prf)).0 ≡ no_prf
  unfolding prf prf_init prf_done
  done-no_prf key msg =
      let st : PrfState = prf_init key no_prf in
      let ipad : length (write block_len msg st.ipad) ≡ block_len + block_len =
        length-write block_len msg st.ipad
        ∙ length-xor_first block_len 0x36 _
        ∙ length-write 0 key _ in
      let opad : length (write block_len (prf hash msg st).0.inner st.opad) ≡ block_len + root_len =
        length-write block_len (prf hash msg st).0.inner st.opad
        ∙ length-xor_first block_len 0x5c _
        ∙ length-write 0 key _ in
      cc (ipad, opad, sized (taken msg st.ipad))

  -- With a hash of 64 bytes and a nonce of 16: the tag is the first 32 bytes of HMAC, under the digest
  -- of the prekey, of the label, the identity, the nonce, the length and the digest of the bytes, one
  -- behind the other; and no byte of the pads or of the inner digest is left on the stack.
  pub seal_compute_tag-hmac :
      (prekey : List ℕ) (id : ℕ) (nonce bytes : List ℕ)
      → length nonce ≡ nonce_len
      → ((seal_compute_tag hash prekey id nonce bytes).1
          ≡ take tag_len (hmac hash (hash prekey) (fields id nonce (length bytes) (hash bytes))))
        × ((seal_compute_tag hash prekey id nonce bytes).0 ≡ no_prf)
  unfolding seal_compute_tag
  seal_compute_tag-hmac prekey id nonce bytes hn =
      let msg = seal_message-fields id nonce (length bytes) (hash bytes) hn (sized bytes) in
      let size = length-seal_message id nonce (length bytes) (hash bytes) in
      (
        ap (take tag_len) (
            prf-hmac (hash prekey) (seal_message id nonce (length bytes) (hash bytes))
              (sized prekey) (omega arith)
            ∙ ap (hmac hash (hash prekey)) msg),
        done-no_prf (hash prekey) _,
      )
