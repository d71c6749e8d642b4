-- ===== src/Arena/Claim.antt =====
-- securearena.go, Release: between the claim and the push a slot is neither live nor free, and the
-- push restores the invariant with the slot as the last free one.
use secmem.Prelude.{
  ℕ, suc, ◌+◌, ◌-◌, ◌%◌, ◌≤◌, ◌<◌, ◌≡◌, refl, sym, ap, subst, ◌∙◌, ◌≢◌, ◌⊎◌, List, [], ◌∷◌, ◌++◌,
  length, length-append, length-set, arith, if◌then◌else◌, ◌==◌, inl, inr, true, false,
}
use secmem.Arena.{Arena, meta, set_generation, minus_one, is_negative, max_int32, u64, push_tail}
use secmem.Arena.FreeList.{
  Chain, EndsAt, NotIn, Distinct, All, All-NotIn, All-map, All-snoc, Chain-congr, Chain-snoc,
  NotIn-unsnoc, Distinct-snoc, EndsAt-snoc, EndsAt-All, EndsAt-NotIn,
}
use secmem.Arena.Invariant.{Inv, next_of, gen_of, meta-set_generation}
use secmem.Arena.Acquire.{u64_even}
use secmem.Arena.Push.{
  live-NotIn, live_pos, gen-push_tail, next-push_behind, next-push_first, length-push_tail,
  push_tail_same, Chain-All,
}

-- The invariant while slot i is claimed: even, and on no list yet.
pub record Claimed (c : Arena) (i : ℕ) (fs : List ℕ) : Type 0 where
  pub sized : length c.slots ≡ c.count
  pub narrow : c.count ≤ max_int32
  pub strided : c.stride ≡ c.slot_size + 16
  pub chain : Chain c.count (next_of c) c.free_head fs
  pub ends : EndsAt c.free_tail fs
  pub distinct : Distinct fs
  pub free_even : All (λ k. gen_of c k % 2 ≡ 0) fs
  pub within : i < c.count
  pub off_list : NotIn i fs
  pub even : gen_of c i % 2 ≡ 0
  pub live_odd : (k : ℕ) → k < c.count → i ≢ k → NotIn k fs → gen_of c k % 2 ≡ 1
  pub live_pos : 0 < c.live
  pub counted : c.live + length fs ≡ c.count

module _ (a : Arena) (i : ℕ) (fs : List ℕ) (v : Inv a fs) (lt : i < a.count)
    (odd : gen_of a i % 2 ≡ 1) where
  claim : Arena
  claim = set_generation a i (u64 (gen_of a i + 1))

  off_list : NotIn i fs
  off_list = live-NotIn a fs i v odd

  meta-claim :
      (k : ℕ)
      → meta claim k
        ≡ (if i == k then record (meta a i) { generation = u64 (gen_of a i + 1) } else meta a k)
  unfolding claim
  meta-claim k = meta-set_generation a i (u64 (gen_of a i + 1)) k (rw v.sized lt)

  next-claim : (k : ℕ) → next_of claim k ≡ next_of a k
  next-claim k = ground (arith, meta-claim k)

  gen-claim_other : (k : ℕ) → i ≢ k → gen_of claim k ≡ gen_of a k
  gen-claim_other k ne = ground (arith, meta-claim k)

  gen-claim_self : gen_of claim i ≡ u64 (gen_of a i + 1)
  gen-claim_self = ground (arith, meta-claim i)

  claim-Claimed' : Claimed claim i fs
  unfolding claim
  claim-Claimed' = record {
    sized = length-set a.slots i _ ∙ v.sized;
    narrow = v.narrow;
    strided = v.strided;
    chain =
        Chain-congr a.count (next_of a) (next_of claim) a.free_head fs
          (All-NotIn (λ k. next_of claim k ≡ next_of a k) i fs (λ k _. next-claim k) off_list)
          v.chain;
    ends = v.ends;
    distinct = v.distinct;
    free_even =
        All-map (λ k. gen_of a k % 2 ≡ 0) (λ k. gen_of claim k % 2 ≡ 0) i fs
          (λ k ne h. ap (λ g. g % 2) (gen-claim_other k ne) ∙ h) off_list v.free_even;
    within = lt;
    off_list = off_list;
    even = ap (λ g. g % 2) gen-claim_self ∙ u64_even (gen_of a i) odd;
    live_odd = λ k k_lt ne out. ap (λ g. g % 2) (gen-claim_other k ne) ∙ v.live_odd k k_lt out;
    live_pos = live_pos a fs i v lt odd;
    counted = v.counted;
  }

  -- The claim of a live slot.
  pub claim-Claimed : Claimed (set_generation a i (u64 (gen_of a i + 1))) i fs
  unfolding claim
  claim-Claimed = claim-Claimed'

snoc_odd :
    (c : Arena) (i : ℕ) (fs : List ℕ)
    → Claimed c i fs
    → (k : ℕ) → k < c.count
    → NotIn k (fs ++ i ∷ [])
    → gen_of c k % 2 ≡ 1
snoc_odd c i fs v k lt out =
    let (rest, ne) = NotIn-unsnoc k i fs out in v.live_odd k lt (λ q. ne (sym q)) rest

length-snoc : (i : ℕ) (fs : List ℕ) → length (fs ++ i ∷ []) ≡ suc (length fs)
length-snoc i fs = omega (arith, length-append fs (i ∷ []))

-- The push on a list whose links and tail are known.
push-Inv_of :
    (c : Arena) (i : ℕ) (fs : List ℕ)
    → Claimed c i fs
    → (c.free_tail < length c.slots) ⊎ (is_negative c.free_tail ≡ true)
    → Chain c.count (next_of (push_tail c i)) (push_tail c i).free_head (fs ++ i ∷ [])
    → Inv (push_tail c i) (fs ++ i ∷ [])
push-Inv_of c i fs v tail_ok chain = record {
  sized = length-push_tail c i slot_in ∙ v.sized ∙ sym same.0;
  narrow = rw same.0 v.narrow;
  strided = same.1 ∙ v.strided ∙ ap (λ n. n + 16) (sym same.2);
  chain = rw same.0 chain;
  ends = subst (λ t. EndsAt t (fs ++ i ∷ [])) (sym same.4) (EndsAt-snoc i fs);
  distinct = Distinct-snoc i fs v.off_list v.distinct;
  free_even =
      All-snoc (λ k. gen_of (push_tail c i) k % 2 ≡ 0) i fs
        (All-map (λ k. gen_of c k % 2 ≡ 0) (λ k. gen_of (push_tail c i) k % 2 ≡ 0) i fs
          (λ k _ h. parity k h) v.off_list v.free_even)
        (parity i v.even);
  live_odd = λ k lt out. ap (λ g. g % 2) (gen k) ∙ snoc_odd c i fs v k (rw same.0 at lt) out;
  counted = omega (arith, same.3, same.0, v.counted, v.live_pos, length-snoc i fs);
}
  where
    slot_in : i < length c.slots
    slot_in = rw v.sized v.within

    same :
        ((push_tail c i).count ≡ c.count)
        × ((push_tail c i).stride ≡ c.stride)
        × ((push_tail c i).slot_size ≡ c.slot_size)
        × ((push_tail c i).live ≡ c.live - 1)
        × ((push_tail c i).free_tail ≡ i)
        × ((push_tail c i).free_head ≡ (if is_negative c.free_tail then i else c.free_head))
    same = push_tail_same c i

    gen : (k : ℕ) → gen_of (push_tail c i) k ≡ gen_of c k
    gen k = gen-push_tail c i slot_in k tail_ok

    parity : (k : ℕ) → gen_of c k % 2 ≡ 0 → gen_of (push_tail c i) k % 2 ≡ 0
    parity k h = ap (λ g. g % 2) (gen k) ∙ h

-- The claimed slot becomes the last free one.
pub push_tail-Inv :
    (c : Arena) (i : ℕ) (fs : List ℕ) → Claimed c i fs → Inv (push_tail c i) (fs ++ i ∷ [])
push_tail-Inv c i [] v = push-Inv_of c i [] v (inr negative) (
  rw ((push_tail_same c i).5, negative) refl,
  v.within,
  next-push_first c i (rw v.sized v.within) i negative ∙ ground arith,
)
  where
    negative : is_negative c.free_tail ≡ true
    negative = ground (arith, v.ends)
push_tail-Inv c i (f ∷ fs) v = push-Inv_of c i (f ∷ fs) v (inl tail_in) (
    subst (λ h. Chain c.count (next_of (push_tail c i)) h ((f ∷ fs) ++ i ∷ [])) (sym head_same)
      (Chain-snoc c.count i c.free_tail (next_of c) (next_of (push_tail c i)) c.free_head f fs
        v.within (link i ∙ ground (arith, tail_ne)) (link c.free_tail ∙ ground arith)
        (λ k a b. link k ∙ ground arith) v.off_list v.distinct v.ends v.chain))
  where
    tail_bound : c.free_tail < c.count
    tail_bound =
        EndsAt-All (λ k. k < c.count) c.free_tail f fs v.ends
          (Chain-All c.count c.free_head (next_of c) (f ∷ fs) v.chain)

    tail_in : c.free_tail < length c.slots
    tail_in = rw v.sized tail_bound

    plus : is_negative c.free_tail ≡ false
    plus = ground (arith, v.narrow, tail_bound)

    tail_ne : i ≢ c.free_tail
    tail_ne = EndsAt-NotIn i c.free_tail f fs v.ends v.off_list

    head_same : (push_tail c i).free_head ≡ c.free_head
    head_same = (push_tail_same c i).5 ∙ rw plus refl

    link :
        (k : ℕ)
        → next_of (push_tail c i) k
          ≡ (if c.free_tail == k then i else if i == k then minus_one else next_of c k)
    link k = next-push_behind c i (rw v.sized v.within) k plus tail_in
