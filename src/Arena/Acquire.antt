-- ===== src/Arena/Acquire.antt =====
-- securearena.go, Acquire: it takes the head of the free list.
use secmem.Prelude.{
  ℕ, ◌+◌, ◌%◌, ◌≤◌, ◌<◌, ◌≡◌, refl, sym, ap, subst, ◌∙◌, ◌≢◌, List, [], ◌∷◌, length, get_or, set,
  length-set, arith, if◌then◌else◌, ◌==◌, Bool-cases, ==_iff, inl, inr, false,
}
use secmem.Errors.{ok, err, arena_full}
use secmem.Region.{Mapping}
use secmem.Arena.{
  Arena, SlotMeta, meta, no_meta, minus_one, is_negative, max_int32, u64, acquire_head, acquire,
}
use secmem.Arena.FreeList.{Chain, EndsAt, NotIn, Chain-congr, All-NotIn, All-map}
use secmem.Arena.Invariant.{Inv, next_of, gen_of, get_or-set}

-- The index after Acquire, slot by slot.
pub meta-acquire_head :
    (a : Arena) (k : ℕ)
    → a.free_head < length a.slots
    → meta (acquire_head a).0 k ≡ (
        if a.free_head == k
        then record { generation = u64 (gen_of a a.free_head + 1); next = minus_one }
        else meta a k)
unfolding acquire_head
meta-acquire_head a k lt = ground (
  arith,
  get_or-set unlinked i k claimed no_meta (rw (length-set a.slots i cleared) lt),
  get_or-set a.slots i k cleared no_meta lt,
  get_or-set a.slots i i cleared no_meta lt,
)
  where
    i : ℕ
    i = a.free_head

    cleared : SlotMeta
    cleared = record (meta a i) { next = minus_one }

    unlinked : List SlotMeta
    unlinked = set a.slots i cleared

    claimed : SlotMeta
    claimed = record (get_or unlinked i no_meta) {
      generation = u64 ((get_or unlinked i no_meta).generation + 1);
    }

-- A uint64 that wraps keeps its parity: 2 ^ 64 is even.
pub u64_even : (g : ℕ) → g % 2 ≡ 1 → u64 (g + 1) % 2 ≡ 0
u64_even g h = omega arith

pub u64_odd : (g : ℕ) → g % 2 ≡ 0 → u64 (g + 1) % 2 ≡ 1
u64_odd g h = omega arith

ends-pop :
    (count tail head i : ℕ) (next : ℕ → ℕ) (fs : List ℕ)
    → count ≤ max_int32
    → EndsAt tail (i ∷ fs)
    → Chain count next head fs
    → EndsAt (if is_negative head then minus_one else tail) fs
ends-pop count tail head i next [] small e c = rw c refl
ends-pop count tail head i next (j ∷ fs) small e c =
    let kept : tail ≡ (if is_negative head then minus_one else tail) = ground arith in
    subst (λ t. EndsAt t (j ∷ fs)) kept e

module _ (a : Arena) (fs : List ℕ) (v : Inv a (a.free_head ∷ fs)) where
  within : a.free_head < length a.slots
  within = rw v.sized v.chain.1

  other : (k : ℕ) → a.free_head ≢ k → meta (acquire_head a).0 k ≡ meta a k
  other k ne = ground (arith, meta-acquire_head a k within)

  next_other : (k : ℕ) → a.free_head ≢ k → next_of (acquire_head a).0 k ≡ next_of a k
  next_other k ne = ap (λ (m : SlotMeta). m.next) (other k ne)

  gen_other : (k : ℕ) → a.free_head ≢ k → gen_of (acquire_head a).0 k ≡ gen_of a k
  gen_other k ne = ap (λ (m : SlotMeta). m.generation) (other k ne)

  gen_here : gen_of (acquire_head a).0 a.free_head ≡ u64 (gen_of a a.free_head + 1)
  gen_here =
      let e : meta (acquire_head a).0 a.free_head
          ≡ record { generation = u64 (gen_of a a.free_head + 1); next = minus_one } =
        ground (arith, meta-acquire_head a a.free_head within) in
      ap (λ (m : SlotMeta). m.generation) e

  slot_here :
      (acquire_head a).1 ≡ record { idx = a.free_head; generation = u64 (gen_of a a.free_head + 1) }
  unfolding acquire_head
  slot_here = ground (
    arith,
    get_or-set a.slots a.free_head a.free_head (record (meta a a.free_head) { next = minus_one })
        no_meta within,
  )

  odd_after : (k : ℕ) → k < a.count → NotIn k fs → gen_of (acquire_head a).0 k % 2 ≡ 1
  odd_after k lt out = elim (Bool-cases (a.free_head == k)) [
    | inl e ↦
        let same : a.free_head ≡ k = (==_iff a.free_head k).0 e in
        rw (← same, gen_here) (u64_odd (gen_of a a.free_head) v.free_even.0)
    | inr ne ↦
        let apart : a.free_head ≢ k = λ q. ground arith in
        rw (gen_other k apart) (v.live_odd k lt ((λ q. apart (sym q)), out))
  ]

  -- Popping the head of the list keeps the invariant.
  pub acquire_head-Inv : Inv (acquire_head a).0 fs
  unfolding acquire_head
  acquire_head-Inv = record {
    sized = length-set _ a.free_head _ ∙ length-set a.slots a.free_head _ ∙ v.sized;
    narrow = v.narrow;
    strided = v.strided;
    chain =
        Chain-congr a.count (next_of a) (next_of (acquire_head a).0) (next_of a a.free_head) fs
          (All-NotIn (λ k. next_of (acquire_head a).0 k ≡ next_of a k) a.free_head fs next_other
            v.distinct.0)
          v.chain.2;
    ends =
        ends-pop a.count a.free_tail (next_of a a.free_head) a.free_head (next_of a) fs v.narrow
          v.ends v.chain.2;
    distinct = v.distinct.1;
    free_even =
        All-map (λ k. gen_of a k % 2 ≡ 0) (λ k. gen_of (acquire_head a).0 k % 2 ≡ 0) a.free_head fs
          (λ k ne h. ap (λ g. g % 2) (gen_other k ne) ∙ h) v.distinct.0 v.free_even.1;
    live_odd = odd_after;
    counted = omega (arith, v.counted);
  }

-- What Acquire does when slot i heads the free list `i ∷ fs`.
abbrev pub Acquires : Arena → Mapping → ℕ → List ℕ → Type 0
Acquires a m i fs =
    (b : Arena) × (acquire a m ≡ (b, ok (record { idx = i; generation = u64 (gen_of a i + 1) })))
    × Inv b fs
    × (gen_of b i ≡ u64 (gen_of a i + 1))

acquire-head :
    (a : Arena) (m : Mapping) (fs : List ℕ)
    → Inv a (a.free_head ∷ fs)
    → a.destroyed ≡ false
    → m.wiped ≡ false
    → Acquires a m a.free_head fs
unfolding acquire
acquire-head a m fs v up clean =
    ((acquire_head a).0, ground (arith, slot_here a fs v), acquire_head-Inv a fs v, gen_here a fs v)

-- On a well-formed arena that is not destroyed and not emergency-wiped, while slots are free, Acquire
-- hands out the one at the head of the free list under the slot's generation plus one modulo 2 ^ 64,
-- takes it off the list and keeps the index well-formed.
pub acquire-Inv :
    (a : Arena) (m : Mapping) (i : ℕ) (fs : List ℕ)
    → Inv a (i ∷ fs)
    → a.destroyed ≡ false
    → m.wiped ≡ false
    → Acquires a m i fs
acquire-Inv a m i fs v up clean =
    subst (λ k. Acquires a m k fs) v.chain.0
      (acquire-head a m fs (subst (λ k. Inv a (k ∷ fs)) (sym v.chain.0) v) up clean)

-- On a well-formed arena with no free slot, not destroyed and not emergency-wiped, Acquire reports
-- ErrArenaFull and changes nothing.
pub acquire-full :
    (a : Arena) (m : Mapping)
    → Inv a []
    → a.destroyed ≡ false
    → m.wiped ≡ false
    → acquire a m ≡ (a, err arena_full)
unfolding acquire
acquire-full a m v up clean = ground (arith, v.chain)
