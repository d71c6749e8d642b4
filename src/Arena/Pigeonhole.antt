-- ===== src/Arena/Pigeonhole.antt =====
-- A free list of distinct slots is no longer than the arena, so a live slot is always counted.
use secmem.Prelude.{
  ℕ, zero, suc, ◌≤◌, ◌<◌, ◌≡◌, List, [], ◌∷◌, length, arith, if◌then◌else◌, ◌==◌, Bool-cases,
  ==_iff, inl, inr,
}
use secmem.Arena.FreeList.{NotIn, Distinct, All}

without : ℕ → List ℕ → List ℕ
without n [] = []
without n (x ∷ xs) = let rest = without n xs in if x == n then xs else x ∷ rest

length-without : (n : ℕ) (xs : List ℕ) → length xs ≤ suc (length (without n xs))
unfolding without
length-without n [] = omega arith
length-without n (x ∷ xs) = ground (arith, length-without n xs)

NotIn-without : (n i : ℕ) (xs : List ℕ) → NotIn i xs → NotIn i (without n xs)
unfolding without
NotIn-without n i [] out = tt
NotIn-without n i (x ∷ xs) out = elim (Bool-cases (x == n)) [
  | inl e ↦ rw e out.1
  | inr e ↦ rw e (out.0, NotIn-without n i xs out.1)
]

Distinct-without : (n : ℕ) (xs : List ℕ) → Distinct xs → Distinct (without n xs)
unfolding without
Distinct-without n [] d = tt
Distinct-without n (x ∷ xs) d = elim (Bool-cases (x == n)) [
  | inl e ↦ rw e d.1
  | inr e ↦ rw e (NotIn-without n x xs d.0, Distinct-without n xs d.1)
]

below-NotIn : (n : ℕ) (xs : List ℕ) → NotIn n xs → All (λ i. i < suc n) xs → All (λ i. i < n) xs
below-NotIn n [] out all = tt
below-NotIn n (x ∷ xs) out all = (omega (arith, out.0), below-NotIn n xs out.1 all.1)

below-without :
    (n : ℕ) (xs : List ℕ) → Distinct xs → All (λ i. i < suc n) xs → All (λ i. i < n) (without n xs)
unfolding without
below-without n [] d all = tt
below-without n (x ∷ xs) d all = elim (Bool-cases (x == n)) [
  | inl e ↦ let same : x ≡ n = (==_iff x n).0 e in rw e (below-NotIn n xs (rw same at d.0) all.1)
  | inr e ↦ rw e (ground arith, below-without n xs d.1 all.1)
]

-- Distinct numbers below n are at most n.
pub length-le-bound : (n : ℕ) (xs : List ℕ) → Distinct xs → All (λ i. i < n) xs → length xs ≤ n
length-le-bound zero [] d all = omega arith
length-le-bound zero (x ∷ xs) d all = absurd (omega arith)
length-le-bound (suc n) xs d all = omega (
  arith,
  length-without n xs,
  length-le-bound n (without n xs) (Distinct-without n xs d) (below-without n xs d all),
)
