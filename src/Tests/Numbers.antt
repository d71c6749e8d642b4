-- ===== src/Tests/Numbers.antt =====
-- Runs of the DER writer at fixed inputs.
use secmem.Prelude.{ℕ, ◌<◌, ◌^◌, List, [], ◌∷◌, arith}
use secmem.Der.{fields_len, encoded_len, content_len, length_len, is_high}

-- Version 0, an integer with its top bit set, and a small one.
abbrev three : List (List ℕ)
three = [] ∷ (200 ∷ 1 ∷ []) ∷ (3 ∷ []) ∷ []

three_short : fields_len three < 2 ^ 63
unfolding fields_len encoded_len content_len length_len is_high
three_short = omega arith
