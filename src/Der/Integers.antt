-- ===== src/Der/Integers.antt =====
-- secmem-crypto/parse_openssh.go: the SEQUENCE of INTEGERs that pkcs1DER writes, against DER as X.690
-- has it for numbers that are not negative.
use secmem.Prelude.{
  ℕ, zero, suc, ◌+◌, ◌^◌, ◌≤◌, ◌<◌, Bool, true, not, ◌&&◌, if◌then◌else◌, ltb, ◌==◌, some, List, [],
  ◌∷◌, ◌++◌, length, map, ◌≡◌, refl, sym, ap, ◌∙◌, inl, inr, ◌⊎◌, arith,
}
use Prim.Native.Nat.{bit_and}
use secmem.SshWire.Reads.{AreBytes}
use secmem.Der.{is_high, content_len, length_octets, length_len, encoded_len, fields_len}
use secmem.Der.Lengths.{length_bytes, octet_count-le}
use secmem.Der.Sequence.{
  content_bytes, integer_bytes, fields_bytes, sequence_bytes, length-content_bytes,
  length-fields_bytes, read_sequence, read_sequence-sequence_bytes,
}

-- The content of an INTEGER: a magnitude, with a zero byte before a first byte of 128 or more, which
-- would make it negative; zero has one byte.
unfoldable pub integer_content : List ℕ → List ℕ
integer_content [] = 0 ∷ []
integer_content (b ∷ bs) = if ltb b 128 then b ∷ bs else 0 ∷ b ∷ bs

-- Tag, length and content.
unfoldable pub der_element : (tag : ℕ) → (content : List ℕ) → List ℕ
der_element tag content = tag ∷ (length_bytes (length content) ++ content)

unfoldable pub der_integers : List (List ℕ) → List ℕ
unfolding integer_content der_element
der_integers [] = []
der_integers (raw ∷ rest) = der_element 2 (integer_content raw) ++ der_integers rest

unfoldable pub der_sequence : List (List ℕ) → List ℕ
unfolding der_element
der_sequence fields = der_element 48 (der_integers fields)

-- The highest bit says that a byte is 128 or more: tried for each of the bytes below n.
unfoldable masks : ℕ → Bool
masks zero = true
masks (suc n) = (if bit_and n 128 == 0 then ltb n 128 else not (ltb n 128)) && masks n

masks_below :
    (n b : ℕ)
    → masks n ≡ true
    → b < n
    → (if bit_and b 128 == 0 then ltb b 128 else not (ltb b 128)) ≡ true
unfolding masks
masks_below zero b h lt = absurd (omega arith)
masks_below (suc n) b h lt = elim (last_or_before n b lt) [
  | inl same ↦
      ap (λ x. if bit_and x 128 == 0 then ltb x 128 else not (ltb x 128)) same ∙ ground (arith, h)
  | inr before ↦ masks_below n b (ground (arith, h)) before
]
  where
    last_or_before : (n b : ℕ) → b < suc n → (b ≡ n) ⊎ (b < n)
    last_or_before n b lt = ground arith

all_bytes : masks 256 ≡ true
unfolding masks
all_bytes = refl

high_bit : (b : ℕ) → b < 256 → not (bit_and b 128 == 0) ≡ not (ltb b 128)
high_bit b lt = ground (arith, masks_below 256 b all_bytes lt)

content_bytes-integer_content :
    (raw : List ℕ) → AreBytes raw → content_bytes raw ≡ integer_content raw
unfolding content_bytes integer_content is_high
content_bytes-integer_content [] all = refl
content_bytes-integer_content (b ∷ bs) (hb, all) = ground (arith, high_bit b hb)

abbrev pub AllBytes : List (List ℕ) → Type 0
AllBytes [] = Unit
AllBytes (raw ∷ rest) = AreBytes raw × AllBytes rest

integer_bytes-der_element :
    (raw : List ℕ) → AreBytes raw → integer_bytes raw ≡ der_element 2 (integer_content raw)
unfolding integer_bytes der_element
integer_bytes-der_element raw all =
    cc (length-content_bytes raw, content_bytes-integer_content raw all)

fields_bytes-der_integers :
    (fields : List (List ℕ)) → AllBytes fields → fields_bytes fields ≡ der_integers fields
unfolding fields_bytes der_integers
fields_bytes-der_integers [] all = refl
fields_bytes-der_integers (raw ∷ rest) (one, more) =
    cc (integer_bytes-der_element raw one, fields_bytes-der_integers rest more)

pub sequence_bytes-der_sequence :
    (fields : List (List ℕ)) → AllBytes fields → sequence_bytes fields ≡ der_sequence fields
unfolding sequence_bytes der_sequence
sequence_bytes-der_sequence fields all =
    cc (ap length_bytes (sym (length-fields_bytes fields)), fields_bytes-der_integers fields all)

map-integer_content :
    (fields : List (List ℕ))
    → AllBytes fields
    → map content_bytes fields ≡ map integer_content fields
map-integer_content [] all = refl
map-integer_content (raw ∷ rest) (one, more) =
    cc (content_bytes-integer_content raw one, map-integer_content rest more)

-- What is written is read back as the integers, each with its sign bit clear.
pub read_sequence-der_sequence :
    (fields : List (List ℕ))
    → AllBytes fields
    → fields_len fields < 2 ^ 63
    → read_sequence (der_sequence fields) ≡ some (map integer_content fields)
read_sequence-der_sequence fields all h =
    ap read_sequence (sym (sequence_bytes-der_sequence fields all))
    ∙ read_sequence-sequence_bytes fields h
    ∙ ap some (map-integer_content fields all)

-- An INTEGER takes at most eleven bytes beside its magnitude.
pub encoded_len-le : (raw : List ℕ) → encoded_len raw ≤ length raw + 11
unfolding encoded_len content_len length_len length_octets
encoded_len-le raw = ground (arith, octet_count-le 8 (content_len raw))
