-- ===== src/Passphrase.antt =====
-- secmem-crypto/passphrase.go: the gather of a word, which reads the whole list whatever the draw.
pub mod Word
use secmem.Prelude.{
  ℕ, zero, suc, ◌+◌, ◌-◌, ◌≤◌, ◌<◌, Bool, true, false, if◌then◌else◌, ◌==◌, Option, none, some,
  List, [], ◌∷◌, length, get_elem?, ◌≡◌, refl, ap, ◌∙◌, arith,
}

-- The inner loop: a byte of the candidate, or zero past its end, under the mask.
unfoldable pub gather : (mask : Bool) → (slot w : List ℕ) → List ℕ
gather mask [] w = []
gather mask (s ∷ slot) [] = let rest = gather mask slot [] in (if mask then 0 else s) ∷ rest
gather mask (s ∷ slot) (b ∷ w) = let rest = gather mask slot w in (if mask then b else s) ∷ rest

-- The outer loop from place j, with the length found so far.
unfoldable pub select_from :
    (j idx : ℕ) → (words : List (List ℕ)) → (slot : List ℕ) → (n : ℕ) → List ℕ × ℕ
select_from j idx [] slot n = (slot, n)
select_from j idx (w ∷ words) slot n =
    let mask = j == idx in
    select_from (suc j) idx words (gather mask slot w) (if mask then length w else n)

unfoldable pub select_word : (slot : List ℕ) → (words : List (List ℕ)) → (idx : ℕ) → List ℕ × ℕ
select_word slot words idx = select_from 0 idx words slot 0
