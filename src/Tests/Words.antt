-- ===== src/Tests/Words.antt =====
-- Runs of the gather of a word at fixed inputs.
use secmem.Prelude.{ℕ, List, [], ◌∷◌, ◌≡◌, refl}
use secmem.Prelude.Bytes.{codes}
use secmem.Passphrase.{select_word, select_from, gather}

abbrev three_words : List (List ℕ)
three_words = codes "abacus" ∷ codes "zoom" ∷ codes "yo" ∷ []

second :
    select_word (1 ∷ 1 ∷ 1 ∷ 1 ∷ 1 ∷ 1 ∷ []) three_words 1 ≡ (122 ∷ 111 ∷ 111 ∷ 109 ∷ 0 ∷ 0 ∷ [], 4)
unfolding select_word select_from gather
second = refl
