-- ===== src/Der/Sequence.antt =====
-- secmem-crypto/parse_openssh.go: the RSAPrivateKey that pkcs1DER writes, against a reader of a SEQUENCE
-- of INTEGERs.
use secmem.Prelude.{
  ℕ, zero, suc, ◌^◌, ◌≤◌, ◌<◌, if◌then◌else◌, ltb, ◌==◌, Option, none, some, List, [], ◌∷◌, ◌++◌,
  length, take, drop, map, ◌≡◌, refl, arith, length-append,
}
use mathlib.Core.List.{append-nil, append_assoc}
use secmem.SshWire.Puts.{Puts, ▷-Puts, if-Puts, put_exact-Puts, put_bytes-Puts, Puts-fills}
use secmem.Prelude.{take-append, drop-append}
use secmem.Der.{
  put_content, put_integer, content_len, encoded_len, is_high, fields_len, put_fields, sequence_len,
  put_sequence, assemble,
}
use secmem.Der.Lengths.{
  length_bytes, length-length_bytes, put_der_length-Puts, read_length, read_length-length_bytes,
}

unfoldable pub content_bytes : List ℕ → List ℕ
content_bytes raw = if length raw == 0 then 0 ∷ [] else if is_high raw then 0 ∷ raw else raw

unfoldable pub integer_bytes : List ℕ → List ℕ
integer_bytes raw = 2 ∷ (length_bytes (content_len raw) ++ content_bytes raw)

unfoldable pub fields_bytes : List (List ℕ) → List ℕ
fields_bytes [] = []
fields_bytes (raw ∷ rest) = integer_bytes raw ++ fields_bytes rest

unfoldable pub sequence_bytes : List (List ℕ) → List ℕ
sequence_bytes fields = 48 ∷ (length_bytes (fields_len fields) ++ fields_bytes fields)

put_content-Puts : (raw : List ℕ) → Puts (put_content raw) (content_bytes raw)
unfolding put_content content_bytes
put_content-Puts raw = if-Puts (length raw == 0) _ _ _ _ (put_exact-Puts (0 ∷ [])) (
    if-Puts (is_high raw) _ _ _ _ (▷-Puts _ _ _ _ (put_exact-Puts (0 ∷ [])) (put_bytes-Puts raw))
      (put_bytes-Puts raw))

put_integer-Puts : (raw : List ℕ) → Puts (put_integer raw) (integer_bytes raw)
unfolding put_integer integer_bytes
put_integer-Puts raw =
    ▷-Puts _ _ _ _ (put_exact-Puts (2 ∷ []))
      (▷-Puts _ _ _ _ (put_der_length-Puts (content_len raw)) (put_content-Puts raw))

put_fields-Puts : (fields : List (List ℕ)) → Puts (put_fields fields) (fields_bytes fields)
unfolding Puts put_fields fields_bytes
put_fields-Puts [] out tail h = cc (append-nil out)
put_fields-Puts (raw ∷ rest) out tail h =
    ▷-Puts _ _ _ _ (put_integer-Puts raw) (put_fields-Puts rest) out tail h

put_sequence-Puts : (fields : List (List ℕ)) → Puts (put_sequence fields) (sequence_bytes fields)
unfolding put_sequence sequence_bytes
put_sequence-Puts fields =
    ▷-Puts _ _ _ _ (put_exact-Puts (48 ∷ []))
      (▷-Puts _ _ _ _ (put_der_length-Puts (fields_len fields)) (put_fields-Puts fields))

pub length-content_bytes : (raw : List ℕ) → length (content_bytes raw) ≡ content_len raw
unfolding content_bytes content_len
length-content_bytes raw = ground arith

length-integer_bytes : (raw : List ℕ) → length (integer_bytes raw) ≡ encoded_len raw
unfolding integer_bytes encoded_len
length-integer_bytes raw = omega (
  arith,
  length-append (length_bytes (content_len raw)) (content_bytes raw),
  length-length_bytes (content_len raw),
  length-content_bytes raw,
)

pub length-fields_bytes :
    (fields : List (List ℕ)) → length (fields_bytes fields) ≡ fields_len fields
unfolding fields_bytes fields_len
length-fields_bytes [] = refl
length-fields_bytes (raw ∷ rest) = omega (
  arith,
  length-append (integer_bytes raw) (fields_bytes rest),
  length-integer_bytes raw,
  length-fields_bytes rest,
)

length-sequence_bytes :
    (fields : List (List ℕ)) → length (sequence_bytes fields) ≡ sequence_len fields
unfolding sequence_bytes sequence_len
length-sequence_bytes fields = omega (
  arith,
  length-append (length_bytes (fields_len fields)) (fields_bytes fields),
  length-length_bytes (fields_len fields),
  length-fields_bytes fields,
)

-- In a buffer of the size that pkcs1DER computes, the whole structure is written and nothing is left:
-- its size mismatch is never reported, and no write is out of range.
pub assemble-sequence_bytes :
    (dst : List ℕ) (fields : List (List ℕ))
    → length dst ≡ sequence_len fields
    → assemble dst fields ≡ some (sequence_bytes fields)
unfolding assemble
assemble-sequence_bytes dst fields h =
    let size = length-sequence_bytes fields in
    let written =
      Puts-fills (put_sequence fields) (sequence_bytes fields) dst (put_sequence-Puts fields)
        (omega (arith, size)) in
    ground (arith, written, size)

-- A reader of one element with a given tag: its content, and what follows.
unfoldable pub read_content : (n : ℕ) → List ℕ → Option (List ℕ × List ℕ)
read_content n rest = if ltb (length rest) n then none else some (take n rest, drop n rest)

unfoldable pub read_element : (tag : ℕ) → List ℕ → Option (List ℕ × List ℕ)
read_element tag [] = none
read_element tag (t ∷ rest) =
    if t == tag
    then (elim (read_length rest) [ none ↦ none | some (n, more) ↦ read_content n more ])
    else none

unfoldable pub read_integers : ℕ → List ℕ → Option (List (List ℕ))
read_integers fuel [] = some []
read_integers zero (b ∷ bs) = none
read_integers (suc fuel) (b ∷ bs) = elim (read_element 2 (b ∷ bs)) [
  | none ↦ none
  | some (content, rest) ↦ elim (read_integers fuel rest) [
    | none ↦ none
    | some more ↦ some (content ∷ more)
  ]
]

unfoldable pub read_sequence : List ℕ → Option (List (List ℕ))
read_sequence der = elim (read_element 48 der) [
  | none ↦ none
  | some (content, []) ↦ read_integers (length content) content
  | some (content, _ ∷ _) ↦ none
]

read_content-append : (xs rest : List ℕ) → read_content (length xs) (xs ++ rest) ≡ some (xs, rest)
unfolding read_content
read_content-append xs rest =
    ground (arith, length-append xs rest, take-append xs rest, drop-append xs rest)

read_element-bytes :
    (tag : ℕ) (content rest : List ℕ)
    → length content < 2 ^ 63
    → read_element tag (tag ∷ ((length_bytes (length content) ++ content) ++ rest))
      ≡ some (content, rest)
unfolding read_element
read_element-bytes tag content rest h =
    let size = read_length-length_bytes (length content) (content ++ rest) h in
    let body = read_content-append content rest in
    let flat = append_assoc (length_bytes (length content)) content rest in
    ground (arith, size, body, flat)

read_integers-fields_bytes :
    (fuel : ℕ) (fields : List (List ℕ))
    → fields_len fields ≤ fuel
    → fields_len fields < 2 ^ 63
    → read_integers fuel (fields_bytes fields) ≡ some (map content_bytes fields)
unfolding read_integers fields_bytes integer_bytes fields_len encoded_len
read_integers-fields_bytes zero [] le lt = refl
read_integers-fields_bytes (suc fuel) [] le lt = refl
read_integers-fields_bytes zero (raw ∷ rest) le lt = absurd (omega arith)
read_integers-fields_bytes (suc fuel) (raw ∷ rest) le lt =
    let size = length-content_bytes raw in
    let head = read_element-bytes 2 (content_bytes raw) (fields_bytes rest) (omega (arith, size)) in
    let tail = read_integers-fields_bytes fuel rest (omega arith) (omega arith) in
    ground (arith, size, head, tail)

-- What pkcs1DER assembles is one SEQUENCE of the INTEGERs it was given, in their order, and nothing else.
pub read_sequence-sequence_bytes :
    (fields : List (List ℕ))
    → fields_len fields < 2 ^ 63
    → read_sequence (sequence_bytes fields) ≡ some (map content_bytes fields)
unfolding read_sequence sequence_bytes
read_sequence-sequence_bytes fields h =
    let size = length-fields_bytes fields in
    let body = fields_bytes fields in
    let outer = read_element-bytes 48 body [] (omega (arith, size)) in
    let flat = append-nil (length_bytes (length body) ++ body) in
    let inner = read_integers-fields_bytes (length body) fields (omega (arith, size)) h in
    ground (arith, size, outer, flat, inner)
