-- ===== src/Arena/Seed.antt =====
-- securearena.go, NewArena: the seeded index satisfies the invariant, with every slot free in
-- ascending order.
use secmem.Prelude.{
  ℕ, zero, suc, ◌+◌, ◌%◌, ◌≤◌, ◌<◌, ◌≡◌, refl, sym, ap, subst, ◌∙◌, List, [], ◌∷◌, length, get_or,
  set, length-set, arith, if◌then◌else◌, ◌==◌, Bool-cases, ==_iff, inl, inr,
}
use secmem.Arena.{Arena, no_meta, minus_one, max_int32, i32}
use secmem.Arena.FreeList.{Chain, EndsAt, NotIn, Distinct, All}
use secmem.Arena.Invariant.{Inv, next_of, gen_of, get_or-set}
use secmem.Arena.New.{seed, seeded, fresh_arena}

-- i, i + 1, ..., with k numbers.
unfoldable pub up_from : ℕ → ℕ → List ℕ
up_from i zero = []
up_from i (suc k) = i ∷ up_from (suc i) k

length-up_from : (i k : ℕ) → length (up_from i k) ≡ k
unfolding up_from
length-up_from i zero = refl
length-up_from i (suc k) = ap suc (length-up_from (suc i) k)

NotIn-up_from : (j i k : ℕ) → j < i → NotIn j (up_from i k)
unfolding up_from
NotIn-up_from j i zero h = tt
NotIn-up_from j i (suc k) h = (λ e. omega arith, NotIn-up_from j (suc i) k (omega arith))

Distinct-up_from : (i k : ℕ) → Distinct (up_from i k)
unfolding up_from
Distinct-up_from i zero = tt
Distinct-up_from i (suc k) = (NotIn-up_from i (suc i) k (omega arith), Distinct-up_from (suc i) k)

EndsAt-up_from : (i k : ℕ) → EndsAt (k + i) (up_from i (suc k))
unfolding up_from
EndsAt-up_from i zero = omega arith
EndsAt-up_from i (suc k) =
    subst (λ t. EndsAt t (up_from (suc i) (suc k))) (omega arith) (EndsAt-up_from (suc i) k)

length-seed : (k i : ℕ) → length (seed k i) ≡ k
unfolding seed
length-seed zero i = refl
length-seed (suc k) i = ap suc (length-seed k (suc i))

get_or-seed :
    (k i j : ℕ)
    → j < k
    → get_or (seed k i) j no_meta ≡ record { generation = 0; next = i32 (j + i + 1) }
unfolding seed
get_or-seed zero i j h = elim h [ ]
get_or-seed (suc k) i zero h = ap (λ n. record { generation = 0; next = i32 n }) (omega arith)
get_or-seed (suc k) i (suc j) h =
    get_or-seed k (suc i) j (omega arith)
    ∙ ap (λ n. record { generation = 0; next = i32 n }) (omega arith)

module _ (slot_size c : ℕ) (small : suc c ≤ max_int32) where
  new : Arena
  new = fresh_arena slot_size (suc c)

  last_in : c < length (seed (suc c) 0)
  last_in = rw (length-seed (suc c) 0) (omega arith)

  meta-new :
      (j : ℕ)
      → j < suc c
      → get_or (seeded (suc c)) j no_meta
        ≡ (if c == j then no_meta else record { generation = 0; next = j + 1 })
  unfolding seeded
  meta-new j lt =
      ap (λ n. get_or (set (seed (suc c) 0) n no_meta) j no_meta) (omega arith)
      ∙ get_or-set (seed (suc c) 0) c j no_meta no_meta last_in
      ∙ ap (λ m. if c == j then no_meta else m)
          (get_or-seed (suc c) 0 j lt ∙ ap (λ n. record { generation = 0; next = n }) (omega arith))

  next-new : (j : ℕ) → j < c → next_of new j ≡ suc j
  unfolding new fresh_arena
  next-new j lt = ground (arith, meta-new j)

  next-new_last : next_of new c ≡ minus_one
  unfolding new fresh_arena
  next-new_last = ground (arith, meta-new c)

  gen-new : (j : ℕ) → j < suc c → gen_of new j ≡ 0
  unfolding new fresh_arena
  gen-new j lt = ground (arith, meta-new j lt)

  links_from : (i k : ℕ) → i + k ≡ c → Chain (suc c) (next_of new) i (up_from i (suc k))
  unfolding up_from
  links_from i zero e =
      (refl, omega arith, subst (λ j. next_of new j ≡ minus_one) (omega arith) next-new_last)
  links_from i (suc k) e = (
    refl,
    omega arith,
    subst (λ h. Chain (suc c) (next_of new) h (up_from (suc i) (suc k)))
        (sym (next-new i (omega arith))) (links_from (suc i) k (omega arith)),
  )

  even_from : (i k : ℕ) → i + k ≤ suc c → All (λ j. gen_of new j % 2 ≡ 0) (up_from i k)
  unfolding up_from
  even_from i zero h = tt
  even_from i (suc k) h =
      (ap (λ g. g % 2) (gen-new i (omega arith)), even_from (suc i) k (omega arith))

  -- Every slot below the bound is on the list.
  on_list : (j i k : ℕ) → i ≤ j → j < i + k → NotIn j (up_from i k) → ⊥
  unfolding up_from
  on_list j i zero le lt out = omega arith
  on_list j i (suc k) le lt out = elim (Bool-cases (j == i)) [
    | inl e ↦ out.0 ((==_iff j i).0 e)
    | inr e ↦ on_list j (suc i) k (ground arith) (omega arith) out.1
  ]

  new-Inv : Inv new (up_from 0 (suc c))
  unfolding new fresh_arena seeded
  new-Inv = record {
    sized = length-set (seed (suc c) 0) _ _ ∙ length-seed (suc c) 0;
    narrow = small;
    strided = refl;
    chain = links_from 0 c (omega arith);
    ends = subst (λ t. EndsAt t (up_from 0 (suc c))) (omega arith) (EndsAt-up_from 0 c);
    distinct = Distinct-up_from 0 (suc c);
    free_even = even_from 0 (suc c) (omega arith);
    live_odd = λ j lt out. absurd (on_list j 0 (suc c) (omega arith) (omega arith) out);
    counted = omega (arith, length-up_from 0 (suc c));
  }

-- The index that NewArena builds for 0 < count ≤ 2 ^ 31 - 1 slots is well-formed, with every slot free
-- in ascending order.
pub fresh_arena-Inv :
    (slot_size count : ℕ)
    → 0 < count
    → count ≤ max_int32
    → Inv (fresh_arena slot_size count) (up_from 0 count)
fresh_arena-Inv slot_size zero pos small = elim pos [ ]
fresh_arena-Inv slot_size (suc c) pos small = unfold new in new-Inv slot_size c small
