-- ===== src/Passphrase/Word.antt =====
-- secmem-crypto/passphrase.go: selectWord against an index into the list.
use secmem.Prelude.{
  ℕ, zero, suc, ◌+◌, ◌<◌, Bool, true, false, if◌then◌else◌, ◌==◌, Option, none, some, List, [], ◌∷◌,
  length, get_elem?, ◌≡◌, refl, ap, ◌∙◌, arith,
}
use secmem.Passphrase.{gather, select_from, select_word}

-- The front of the word, and zeros behind it.
unfoldable pub padded : (slot w : List ℕ) → List ℕ
padded [] w = []
padded (s ∷ slot) [] = 0 ∷ padded slot []
padded (s ∷ slot) (b ∷ w) = b ∷ padded slot w

-- What an index finds: the word in the slot and its length, or the slot as it was.
abbrev pub indexed : (slot : List ℕ) (n : ℕ) → Option (List ℕ) → List ℕ × ℕ
indexed slot n none = (slot, n)
indexed slot n (some w) = (padded slot w, length w)

gather_without : (slot w : List ℕ) → gather false slot w ≡ slot
unfolding gather
gather_without [] w = refl
gather_without (s ∷ slot) [] = ap (λ r. s ∷ r) (gather_without slot [])
gather_without (s ∷ slot) (b ∷ w) = ap (λ r. s ∷ r) (gather_without slot w)

gather-padded : (slot w : List ℕ) → gather true slot w ≡ padded slot w
unfolding gather padded
gather-padded [] w = refl
gather-padded (s ∷ slot) [] = ap (λ r. 0 ∷ r) (gather-padded slot [])
gather-padded (s ∷ slot) (b ∷ w) = ap (λ r. b ∷ r) (gather-padded slot w)

-- One turn of the outer loop, by the mask.
turn :
    (mask : Bool) (j idx : ℕ) (words : List (List ℕ)) (slot w : List ℕ) (n : ℕ)
    → (j == idx) ≡ mask
    → select_from j idx (w ∷ words) slot n
      ≡ select_from (suc j) idx words (gather mask slot w) (if mask then length w else n)
unfolding select_from
turn mask j idx words slot w n h =
    ap (λ m. select_from (suc j) idx words (gather m slot w) (if m then length w else n)) h

passed_over :
    (j idx : ℕ) (words : List (List ℕ)) (slot w : List ℕ) (n : ℕ)
    → (j == idx) ≡ false
    → select_from j idx (w ∷ words) slot n ≡ select_from (suc j) idx words slot n
passed_over j idx words slot w n h =
    turn false j idx words slot w n h
    ∙ ap (λ s. select_from (suc j) idx words s n) (gather_without slot w)

select_from_past :
    (j idx : ℕ) (words : List (List ℕ)) (slot : List ℕ) (n : ℕ)
    → idx < j
    → select_from j idx words slot n ≡ (slot, n)
unfolding select_from
select_from_past j idx [] slot n h = refl
select_from_past j idx (w ∷ words) slot n h =
    let no : (j == idx) ≡ false = ground (arith, h) in
    passed_over j idx words slot w n no
    ∙ select_from_past (suc j) idx words slot n (omega (arith, h))

select_from-indexed :
    (k j idx : ℕ) (words : List (List ℕ)) (slot : List ℕ) (n : ℕ)
    → idx ≡ j + k
    → select_from j idx words slot n ≡ indexed slot n (get_elem? words k)
unfolding select_from
select_from-indexed k j idx [] slot n h = refl
select_from-indexed zero j idx (w ∷ words) slot n h =
    let hit : (j == idx) ≡ true = ground (arith, h) in
    turn true j idx words slot w n hit
    ∙ select_from_past (suc j) idx words (gather true slot w) (length w) (omega (arith, h))
    ∙ ap (λ s. (s, length w)) (gather-padded slot w)
select_from-indexed (suc k) j idx (w ∷ words) slot n h =
    let no : (j == idx) ≡ false = ground (arith, h) in
    passed_over j idx words slot w n no
    ∙ select_from-indexed k (suc j) idx words slot n (omega (arith, h))

-- The gather is the index: selectWord puts the word at idx into the slot, cut or filled with zeros to
-- the slot's length, and returns the word's length; for an idx outside the list it leaves the slot as it
-- was and returns 0.
pub select_word-indexed :
    (slot : List ℕ) (words : List (List ℕ)) (idx : ℕ)
    → select_word slot words idx ≡ indexed slot 0 (get_elem? words idx)
unfolding select_word
select_word-indexed slot words idx = select_from-indexed idx 0 idx words slot 0 (omega arith)
