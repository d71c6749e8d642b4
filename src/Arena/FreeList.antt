-- ===== src/Arena/FreeList.antt =====
-- securearena.go, the intrusive free list: the links of `slots` read as a list of slot indices.
use secmem.Prelude.{ℕ, ◌<◌, ◌≡◌, refl, sym, ap, subst, ◌∙◌, ◌≢◌, List, [], ◌∷◌, ◌++◌}
use secmem.Arena.{minus_one}

-- Walking the links `next` from `head` visits exactly `fs`, each below `count`, and ends in -1.
abbrev pub Chain : ℕ → (ℕ → ℕ) → ℕ → List ℕ → Type 0
Chain count next head [] = head ≡ minus_one
Chain count next head (i ∷ fs) = (head ≡ i) × (i < count) × Chain count next (next i) fs

-- The last index of the list is `tail`, which is -1 for the empty list.
abbrev pub EndsAt : ℕ → List ℕ → Type 0
EndsAt tail [] = tail ≡ minus_one
EndsAt tail (i ∷ []) = tail ≡ i
EndsAt tail (i ∷ j ∷ fs) = EndsAt tail (j ∷ fs)

abbrev pub NotIn : ℕ → List ℕ → Type 0
NotIn i [] = Unit {0}
NotIn i (j ∷ fs) = (i ≢ j) × NotIn i fs

abbrev pub Distinct : List ℕ → Type 0
Distinct [] = Unit {0}
Distinct (i ∷ fs) = NotIn i fs × Distinct fs

abbrev pub All : (ℕ → Type 0) → List ℕ → Type 0
All P [] = Unit {0}
All P (i ∷ fs) = P i × All P fs

-- The links of slots outside the list do not matter.
pub Chain-congr :
    (count : ℕ) (next next' : ℕ → ℕ) (head : ℕ) (fs : List ℕ)
    → All (λ k. next' k ≡ next k) fs
    → Chain count next head fs
    → Chain count next' head fs
Chain-congr count next next' head [] same c = c
Chain-congr count next next' head (i ∷ fs) same c =
    (c.0, c.1, rw same.0 (Chain-congr count next next' (next i) fs same.1 c.2))

-- What holds of every slot but i holds along a list without i.
pub All-NotIn :
    (P : ℕ → Type 0) (i : ℕ) (fs : List ℕ) → ((k : ℕ) → i ≢ k → P k) → NotIn i fs → All P fs
All-NotIn P i [] all out = tt
All-NotIn P i (k ∷ fs) all out = (all k out.0, All-NotIn P i fs all out.1)

pub All-map :
    (P Q : ℕ → Type 0) (i : ℕ) (fs : List ℕ)
    → ((k : ℕ) → i ≢ k → P k → Q k)
    → NotIn i fs
    → All P fs
    → All Q fs
All-map P Q i [] f out all = tt
All-map P Q i (k ∷ fs) f out all = (f k out.0 all.0, All-map P Q i fs f out.1 all.1)

pub All-snoc : (P : ℕ → Type 0) (j : ℕ) (fs : List ℕ) → All P fs → P j → All P (fs ++ j ∷ [])
All-snoc P j [] all last = (last, tt)
All-snoc P j (k ∷ fs) all last = (all.0, All-snoc P j fs all.1 last)

pub NotIn-unsnoc : (i j : ℕ) (fs : List ℕ) → NotIn i (fs ++ j ∷ []) → NotIn i fs × (i ≢ j)
NotIn-unsnoc i j [] out = (tt, out.0)
NotIn-unsnoc i j (k ∷ fs) out = let (rest, ne) = NotIn-unsnoc i j fs out.1 in ((out.0, rest), ne)

pub NotIn-snoc : (i j : ℕ) (fs : List ℕ) → i ≢ j → NotIn i fs → NotIn i (fs ++ j ∷ [])
NotIn-snoc i j [] ne out = (ne, tt)
NotIn-snoc i j (k ∷ fs) ne out = (out.0, NotIn-snoc i j fs ne out.1)

pub Distinct-snoc : (j : ℕ) (fs : List ℕ) → NotIn j fs → Distinct fs → Distinct (fs ++ j ∷ [])
Distinct-snoc j [] out d = (tt, tt)
Distinct-snoc j (k ∷ fs) out d =
    (NotIn-snoc k j fs (λ e. out.0 (sym e)) d.0, Distinct-snoc j fs out.1 d.1)

pub EndsAt-snoc : (j : ℕ) (fs : List ℕ) → EndsAt j (fs ++ j ∷ [])
EndsAt-snoc j [] = refl
EndsAt-snoc j (i ∷ []) = refl
EndsAt-snoc j (i ∷ k ∷ fs) = EndsAt-snoc j (k ∷ fs)

-- Appending a slot: the last link is pointed at it, and its own ends the list.
pub Chain-snoc :
    (count j tail : ℕ) (next next' : ℕ → ℕ) (head i : ℕ) (fs : List ℕ)
    → j < count
    → next' j ≡ minus_one
    → next' tail ≡ j
    → ((k : ℕ) → k ≢ tail → k ≢ j → next' k ≡ next k)
    → NotIn j (i ∷ fs)
    → Distinct (i ∷ fs)
    → EndsAt tail (i ∷ fs)
    → Chain count next head (i ∷ fs)
    → Chain count next' head ((i ∷ fs) ++ j ∷ [])
Chain-snoc count j tail next next' head i [] lt ends here same out d e c =
    (c.0, c.1, (ap next' (sym e) ∙ here, lt, ends))
Chain-snoc count j tail next next' head i (k ∷ fs) lt ends here same out d e c = (
  c.0,
  c.1,
  rw (same i (not_last tail k fs i e d.0) (λ q. out.0 (sym q)))
      (Chain-snoc count j tail next next' (next i) k fs lt ends here same out.1 d.1 e c.2),
)
  where
    not_last : (t k : ℕ) (fs : List ℕ) (i : ℕ) → EndsAt t (k ∷ fs) → NotIn i (k ∷ fs) → i ≢ t
    not_last t k [] i e out = λ q. out.0 (q ∙ e)
    not_last t k (m ∷ fs) i e out = not_last t m fs i e out.1

-- What has not the property of a list's slots is not on it.
pub NotIn-All : (P : ℕ → Type 0) (i : ℕ) (fs : List ℕ) → All P fs → (P i → ⊥) → NotIn i fs
NotIn-All P i [] all no_i = tt
NotIn-All P i (j ∷ fs) all no_i = (λ e. no_i (subst P (sym e) all.0), NotIn-All P i fs all.1 no_i)

-- The tail of a list that is not empty is on it.
pub EndsAt-All :
    (P : ℕ → Type 0) (tail i : ℕ) (fs : List ℕ) → EndsAt tail (i ∷ fs) → All P (i ∷ fs) → P tail
EndsAt-All P tail i [] e all = subst P (sym e) all.0
EndsAt-All P tail i (k ∷ fs) e all = EndsAt-All P tail k fs e all.1

pub EndsAt-NotIn : (j tail i : ℕ) (fs : List ℕ) → EndsAt tail (i ∷ fs) → NotIn j (i ∷ fs) → j ≢ tail
EndsAt-NotIn j tail i [] e out = λ q. out.0 (q ∙ e)
EndsAt-NotIn j tail i (k ∷ fs) e out = EndsAt-NotIn j tail k fs e out.1

pub All-last : (P : ℕ → Type 0) (j : ℕ) (fs : List ℕ) → All P (fs ++ j ∷ []) → P j
All-last P j [] all = all.0
All-last P j (k ∷ fs) all = All-last P j fs all.1
