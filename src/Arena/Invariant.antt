-- ===== src/Arena/Invariant.antt =====
-- securearena.go: the invariant of the slot index that its comments state. `fs` is the free list,
-- oldest first, as the abstract view of the links.
use secmem.Prelude.{
  ℕ, ◌+◌, ◌%◌, ◌≤◌, ◌<◌, ◌≡◌, List, length, get_or, set, get_or-set_self, get_or-set_ne, arith,
  if◌then◌else◌, ◌==◌, Bool-cases, ==_iff, inl, inr,
}
use secmem.Arena.{Arena, meta, no_meta, set_next, set_generation, max_int32}
use secmem.Arena.FreeList.{Chain, EndsAt, NotIn, Distinct, All}

abbrev pub next_of : Arena → ℕ → ℕ
next_of a i = (meta a i).next

abbrev pub gen_of : Arena → ℕ → ℕ
gen_of a i = (meta a i).generation

pub record Inv (a : Arena) (fs : List ℕ) : Type 0 where
  pub sized : length a.slots ≡ a.count
  pub narrow : a.count ≤ max_int32
  pub strided : a.stride ≡ a.slot_size + 16
  pub chain : Chain a.count (next_of a) a.free_head fs
  pub ends : EndsAt a.free_tail fs
  pub distinct : Distinct fs
  -- On the list exactly when the generation is even.
  pub free_even : All (λ i. gen_of a i % 2 ≡ 0) fs
  pub live_odd : (i : ℕ) → i < a.count → NotIn i fs → gen_of a i % 2 ≡ 1
  pub counted : a.live + length fs ≡ a.count

pub get_or-set {ℓ} :
    {A : Type ℓ} (xs : List A) (i k : ℕ) (v d : A)
    → i < length xs
    → get_or (set xs i v) k d ≡ (if i == k then v else get_or xs k d)
get_or-set xs i k v d lt = elim (Bool-cases (i == k)) [
  | inl e ↦ let same : i ≡ k = (==_iff i k).0 e in rw (e, ← same) (get_or-set_self xs i v d lt)
  | inr ne ↦ rw ne (get_or-set_ne xs i k v d (λ q. ground arith))
]

pub meta-set_next :
    (a : Arena) (i n k : ℕ)
    → i < length a.slots
    → meta (set_next a i n) k ≡ (if i == k then record (meta a i) { next = n } else meta a k)
meta-set_next a i n k lt = get_or-set a.slots i k (record (meta a i) { next = n }) no_meta lt

pub meta-set_generation :
    (a : Arena) (i g k : ℕ)
    → i < length a.slots
    → meta (set_generation a i g) k
      ≡ (if i == k then record (meta a i) { generation = g } else meta a k)
meta-set_generation a i g k lt =
    get_or-set a.slots i k (record (meta a i) { generation = g }) no_meta lt
