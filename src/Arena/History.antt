-- ===== src/Arena/History.antt =====
-- securearena.go, slotMeta.generation as the ABA guard: a released handle stays refused however its
-- slot is handed out again, until the 64-bit counter has gone round.
use secmem.Prelude.{
  ℕ, suc, ◌+◌, ◌%◌, ◌^◌, ◌≤◌, ◌<◌, ◌≡◌, refl, sym, ap, subst, ◌∙◌, ◌≢◌, ◌⊎◌, List, [], ◌∷◌, ◌++◌,
  length, length-set, ==_iff, arith, if◌then◌else◌, ◌==◌, Bool-cases, inl, inr, true, false, some,
}
use secmem.Errors.{Err, ok}
use secmem.Region.{Mapping}
use secmem.Canary.{Pattern}
use secmem.Arena.{
  Arena, Slot, u64, acquire, acquire_head, is_negative, release, finish_release, is_live,
  set_generation, push_tail,
}
use secmem.Arena.FreeList.{EndsAt-All}
use secmem.Arena.Invariant.{Inv, gen_of, next_of, meta-set_generation}
use secmem.Arena.Acquire.{acquire_head-Inv, meta-acquire_head}
use secmem.Arena.Push.{gen-push_tail, Chain-All, push_tail_same}
use secmem.Arena.Release.{Holds, freed, freed-Inv}

-- A successful Acquire, or a Release of a handle that is in range and odd, as all that Acquire hands
-- out are. The slab may be in any state.
pub data Step (a : Arena) : Arena → Type 0 where
  taken : (m : Mapping) (s : Slot) {b : Arena} → acquire a m ≡ (b, ok s) → Step a b
  given_back :
      (pat : Pattern) (m m' : Mapping) (s : Slot) (e : Err) {b : Arena}
      → s.idx < a.count
      → s.generation % 2 ≡ 1
      → release pat a m s ≡ some (b, m', e)
      → Step a b

pub data Steps (a : Arena) : ℕ → Arena → Type 0 where
  here : Steps a 0 a
  next : {n : ℕ} {b c : Arena} → Steps a n b → Step b c → Steps a (suc n) c

finish_release-pushes :
    (pat : Pattern) (a : Arena) (m : Mapping) (s : Slot) {b : Arena} {m' : Mapping} {e : Err}
    → finish_release pat a m s ≡ some (b, m', e)
    → b ≡ push_tail a s.idx
unfolding finish_release
finish_release-pushes pat a m s h = ground arith

-- A call of Release either changes nothing or frees the slot of a live handle.
pub release-cases :
    (pat : Pattern) (a : Arena) (m : Mapping) (s : Slot) {b : Arena} {m' : Mapping} {e : Err}
    → release pat a m s ≡ some (b, m', e)
    → (b ≡ a) ⊎ ((is_live a s ≡ true) × (b ≡ freed a s))
unfolding release
release-cases pat a m s {b} {m'} {e} h = ground (
  arith,
  finish_release-pushes pat (set_generation a s.idx (u64 (s.generation + 1))) m s {b = b} {m' = m'}
      {e = e},
)

-- A successful Acquire pops the head.
acquire-pops :
    (a : Arena) (m : Mapping) (s : Slot) {b : Arena}
    → acquire a m ≡ (b, ok s)
    → (is_negative a.free_head ≡ false) × (b ≡ (acquire_head a).0)
unfolding acquire
acquire-pops a m s h = ground arith

-- One step advances a slot's counter by at most one, and keeps the index well-formed.
abbrev Advanced : Arena → ℕ → Arena → Type 0
Advanced a n b =
    (fs : List ℕ) × Inv b fs
    × (b.count ≡ a.count)
    × ((i : ℕ)
        → i < a.count
        → (d : ℕ) × (d ≤ n) × (gen_of b i % 2 ^ 64 ≡ (gen_of a i + d) % 2 ^ 64))

same_count_acquire : (a : Arena) → (acquire_head a).0.count ≡ a.count
unfolding acquire_head
same_count_acquire a = refl

acquire-Advanced :
    (a : Arena) (fs : List ℕ)
    → Inv a fs
    → is_negative a.free_head ≡ false
    → Advanced a 1 (acquire_head a).0
acquire-Advanced a [] v plus = absurd (ground (arith, v.chain))
acquire-Advanced a (f ∷ fs) v plus =
    (fs, acquire_head-Inv a fs at_head, same_count_acquire a, grown)
  where
    at_head : Inv a (a.free_head ∷ fs)
    at_head = subst (λ k. Inv a (k ∷ fs)) (sym v.chain.0) v

    inside : a.free_head < length a.slots
    inside = rw (v.sized, v.chain.0) v.chain.1

    grown :
        (i : ℕ)
        → i < a.count
        → (d : ℕ) × (d ≤ 1) × (gen_of (acquire_head a).0 i % 2 ^ 64 ≡ (gen_of a i + d) % 2 ^ 64)
    grown i lt = elim (Bool-cases (a.free_head == i)) [
      | inl e ↦ (1, omega arith, ground (arith, meta-acquire_head a i inside))
      | inr ne ↦ (0, omega arith, ground (arith, meta-acquire_head a i inside))
    ]

tail_ok :
    (a : Arena) (fs : List ℕ)
    → Inv a fs
    → (a.free_tail < length a.slots) ⊎ (is_negative a.free_tail ≡ true)
tail_ok a [] v = inr (ground (arith, v.ends))
tail_ok a (f ∷ fs) v = inl (
    rw v.sized (
      EndsAt-All (λ k. k < a.count) a.free_tail f fs v.ends
        (Chain-All a.count a.free_head (next_of a) (f ∷ fs) v.chain)))

gen-freed :
    (a : Arena) (s : Slot) (fs : List ℕ) (k : ℕ)
    → Inv a fs
    → Holds a s
    → gen_of (freed a s) k ≡ (if s.idx == k then u64 (s.generation + 1) else gen_of a k)
gen-freed a s fs k v h =
    gen-push_tail claimed s.idx (rw (length-set a.slots s.idx _, v.sized) h.inside) k
      (rw (length-set a.slots s.idx _) (tail_ok a fs v))
    ∙ ground (arith, meta-set_generation a s.idx (u64 (s.generation + 1)) k (rw v.sized h.inside))
  where
    claimed : Arena
    claimed = set_generation a s.idx (u64 (s.generation + 1))

freed-Advanced :
    (a : Arena) (s : Slot) (fs : List ℕ) → Inv a fs → Holds a s → Advanced a 1 (freed a s)
freed-Advanced a s fs v h =
    (fs ++ s.idx ∷ [], freed-Inv a s fs v h, (push_tail_same _ s.idx).0, grown)
  where
    grown :
        (i : ℕ)
        → i < a.count
        → (d : ℕ) × (d ≤ 1) × (gen_of (freed a s) i % 2 ^ 64 ≡ (gen_of a i + d) % 2 ^ 64)
    grown i lt = elim (Bool-cases (s.idx == i)) [
      | inl e ↦
          let same : s.idx ≡ i = (==_iff s.idx i).0 e in
          let now : gen_of a i ≡ s.generation =
            subst (λ k. gen_of a k ≡ s.generation) same h.current in
          (
            1,
            omega arith,
            ap (λ g. g % 2 ^ 64) (gen-freed a s fs i v h) ∙ rw e (omega (arith, now)),
          )
      | inr ne ↦
          (0, omega arith, ap (λ g. g % 2 ^ 64) (gen-freed a s fs i v h) ∙ rw ne (omega arith))
    ]

unmoved : (a : Arena) (fs : List ℕ) → Inv a fs → Advanced a 1 a
unmoved a fs v = (fs, v, refl, λ i lt. (0, omega arith, omega arith))

Step-Advanced : {a b : Arena} (fs : List ℕ) → Inv a fs → Step a b → Advanced a 1 b
Step-Advanced {a} {b} fs v (taken m s e) =
    let (plus, same) = acquire-pops a m s e in
    subst (Advanced a 1) (sym same) (acquire-Advanced a fs v plus)
Step-Advanced {a} {b} fs v (given_back pat m m' s e lt odd r) = elim (release-cases pat a m s r) [
  | inl same ↦ subst (Advanced a 1) (sym same) (unmoved a fs v)
  | inr (live, same) ↦ subst (Advanced a 1) (sym same) (
      freed-Advanced a s fs v
        (record { inside = lt; odd = odd; current = (==_iff _ s.generation).0 live }))
]

-- Along any history of n steps the counter of every slot advances by at most n, modulo 2 ^ 64, and
-- the index stays well-formed.
pub Steps-Advanced : {a b : Arena} {n : ℕ} (fs : List ℕ) → Inv a fs → Steps a n b → Advanced a n b
Steps-Advanced fs v here = (fs, v, refl, λ i lt. (0, omega arith, omega arith))
Steps-Advanced {a} {b = c} fs v (next {n = n} {b = b} before st) =
    let (gs, w, same, grown) = Steps-Advanced fs v before in
    let (hs, u, same', grown') = Step-Advanced gs w st in
    (
      hs,
      u,
      same' ∙ same,
      λ i lt.
          let (d, d_le, here_eq) = grown i lt in
          let (d', d'_le, there_eq) = grown' i (rw same lt) in (d' + d, omega arith, omega arith),
    )

-- On a well-formed arena, once Release of a good handle has ended it, the handle is not live after any
-- sequence of Acquires and Releases that follows, if it has fewer than 2 ^ 64 - 1 of them.
pub released-never_live :
    {a b c : Arena} {n : ℕ} (pat : Pattern) (m m' : Mapping) (s : Slot) (e : Err) (fs : List ℕ)
    → Inv a fs
    → Holds a s
    → release pat a m s ≡ some (b, m', e)
    → is_live b s ≡ false
    → Steps b n c
    → n + 1 < 2 ^ 64
    → is_live c s ≡ false
released-never_live {a} {b} {c} {n} pat m m' s e fs v h r dead hist short =
    elim (release-cases pat a m s r) [
      | inl same ↦ absurd (ground (arith, h.current))
      | inr (_, same) ↦
          let w = subst (λ x. Inv x (fs ++ s.idx ∷ [])) (sym same) (freed-Inv a s fs v h) in
          let (gs, u, _, grown) = Steps-Advanced (fs ++ s.idx ∷ []) w hist in
          let freed_gen = ap (λ x. gen_of x s.idx) same ∙ gen-freed a s fs s.idx v h in
          let b_gen : gen_of b s.idx ≡ u64 (s.generation + 1) = ground arith in
          let count_same = ap (λ x. x.count) same ∙ (push_tail_same _ s.idx).0 in
          let (d, d_le, there) = grown s.idx (rw count_same h.inside) in
          let ne : gen_of c s.idx ≢ s.generation = λ q. omega arith in ground arith
    ]
