-- ===== src/Arena/Push.antt =====
-- securearena.go, the last part of Release: the claimed slot goes to the tail of the free list.
use secmem.Prelude.{
  ℕ, ◌-◌, ◌%◌, ◌<◌, ◌≡◌, ◌∙◌, ◌⊎◌, List, [], ◌∷◌, length, length-set, arith, if◌then◌else◌, ◌==◌,
  Bool-cases, inl, inr, true, false,
}
use secmem.Arena.{Arena, set_next, minus_one, is_negative, push_tail}
use secmem.Arena.FreeList.{Chain, NotIn, All, NotIn-All}
use secmem.Arena.Pigeonhole.{length-le-bound}
use secmem.Arena.Invariant.{Inv, next_of, gen_of, meta-set_next}

pub Chain-All :
    (count head : ℕ) (next : ℕ → ℕ) (fs : List ℕ)
    → Chain count next head fs
    → All (λ i. i < count) fs
Chain-All count head next [] c = tt
Chain-All count head next (i ∷ fs) c = (c.1, Chain-All count (next i) next fs c.2)

-- A slot that is live is on no free list.
pub live-NotIn : (a : Arena) (fs : List ℕ) (i : ℕ) → Inv a fs → gen_of a i % 2 ≡ 1 → NotIn i fs
live-NotIn a fs i v odd = NotIn-All (λ k. gen_of a k % 2 ≡ 0) i fs v.free_even (λ even. omega arith)

-- So at least one slot is counted as live.
pub live_pos :
    (a : Arena) (fs : List ℕ) (i : ℕ) → Inv a fs → i < a.count → gen_of a i % 2 ≡ 1 → 0 < a.live
live_pos a fs i v lt odd = omega (
  arith,
  v.counted,
  length-le-bound a.count (i ∷ fs) (live-NotIn a fs i v odd, v.distinct)
      (lt, Chain-All a.count a.free_head (next_of a) fs v.chain),
)

gen-set_next : (a : Arena) (i n k : ℕ) → i < length a.slots → gen_of (set_next a i n) k ≡ gen_of a k
gen-set_next a i n k lt = ground (arith, meta-set_next a i n k)

next-set_next :
    (a : Arena) (i n k : ℕ)
    → i < length a.slots
    → next_of (set_next a i n) k ≡ (if i == k then n else next_of a k)
next-set_next a i n k lt = ground (arith, meta-set_next a i n k)

-- The index after the push, by the two branches of its source.
module _ (c : Arena) (i : ℕ) (lt : i < length c.slots) where
  counted_out : Arena
  counted_out = set_next (record c { live = c.live - 1 }) i minus_one

  long : length counted_out.slots ≡ length c.slots
  unfolding counted_out
  long = length-set c.slots i _

  push_first :
      is_negative c.free_tail ≡ true
      → push_tail c i ≡ record counted_out { free_head = i; free_tail = i }
  unfolding push_tail counted_out
  push_first e = ground arith

  push_behind :
      is_negative c.free_tail ≡ false
      → push_tail c i ≡ record (set_next counted_out c.free_tail i) { free_tail = i }
  unfolding push_tail counted_out
  push_behind e = ground arith

  gen-counted_out : (k : ℕ) → gen_of counted_out k ≡ gen_of c k
  unfolding counted_out
  gen-counted_out k = gen-set_next c i minus_one k lt

  next-counted_out : (k : ℕ) → next_of counted_out k ≡ (if i == k then minus_one else next_of c k)
  unfolding counted_out
  next-counted_out k = next-set_next c i minus_one k lt

  pub gen-push_tail :
      (k : ℕ)
      → (c.free_tail < length c.slots) ⊎ (is_negative c.free_tail ≡ true)
      → gen_of (push_tail c i) k ≡ gen_of c k
  gen-push_tail k h = elim (Bool-cases (is_negative c.free_tail)) [
    | inl e ↦ rw (push_first e) (gen-counted_out k)
    | inr e ↦
        rw (push_behind e)
          (gen-set_next counted_out c.free_tail i k (rw long (ground arith)) ∙ gen-counted_out k)
  ]

  pub next-push_behind :
      (k : ℕ)
      → is_negative c.free_tail ≡ false
      → c.free_tail < length c.slots
      → next_of (push_tail c i) k
        ≡ (if c.free_tail == k then i else if i == k then minus_one else next_of c k)
  next-push_behind k e tl =
      rw (push_behind e, next-set_next counted_out c.free_tail i k (rw long tl), next-counted_out k)

  pub next-push_first :
      (k : ℕ)
      → is_negative c.free_tail ≡ true
      → next_of (push_tail c i) k ≡ (if i == k then minus_one else next_of c k)
  next-push_first k e = rw (push_first e) (next-counted_out k)

  pub length-push_tail : length (push_tail c i).slots ≡ length c.slots
  length-push_tail = elim (Bool-cases (is_negative c.free_tail)) [
    | inl e ↦ rw (push_first e) long
    | inr e ↦ rw (push_behind e) (length-set counted_out.slots c.free_tail _ ∙ long)
  ]

-- The fields that the push leaves alone.
pub push_tail_same :
    (c : Arena) (i : ℕ)
    → ((push_tail c i).count ≡ c.count)
      × ((push_tail c i).stride ≡ c.stride)
      × ((push_tail c i).slot_size ≡ c.slot_size)
      × ((push_tail c i).live ≡ c.live - 1)
      × ((push_tail c i).free_tail ≡ i)
      × ((push_tail c i).free_head ≡ (if is_negative c.free_tail then i else c.free_head))
unfolding push_tail
push_tail_same c i = ground arith
