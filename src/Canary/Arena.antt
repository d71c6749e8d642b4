-- ===== src/Canary/Arena.antt =====
-- canary.go, arenaCanary and bufferCanary: where their zones lie, and what that spares.
use secmem.Prelude.{
  ℕ, zero, suc, ◌+◌, ◌*◌, ◌≤◌, ◌≡◌, ap, inl, inr, ltb, leb, Bool-cases, List, [], ◌∷◌, ◌++◌, arith,
  if◌then◌else◌,
}
use secmem.Canary.{strips, zones, arena_canary, buffer_canary}
use secmem.Canary.Zones.{Ascending}

pub mul_mono : (i j k : ℕ) → i ≤ j → i * k ≤ j * k
mul_mono i j k h = grind arith

Ascending-weaken : (k m : ℕ) (zs : List (ℕ × ℕ)) → k ≤ m → Ascending m zs → Ascending k zs
Ascending-weaken k m [] h up = tt
Ascending-weaken k m ((lo, hi) ∷ zs) h up = (omega arith, up.1, up.2)

-- The zones of the two layouts, with the tail's own test resolved.
pub zones-arena_canary :
    (stride slot_size count inner_len : ℕ)
    → zones (arena_canary stride slot_size count inner_len)
      ≡ strips stride slot_size count 0
        ++ (if ltb (count * stride) inner_len then (count * stride, inner_len) ∷ [] else [])
unfolding zones arena_canary
zones-arena_canary stride slot_size count inner_len =
    elim (Bool-cases (ltb (count * stride) inner_len)) [
      | inl more ↦ rw (more, more)
      | inr exact ↦ rw exact
    ]

pub zones-buffer_canary :
    (usable inner_len : ℕ)
    → zones (buffer_canary usable inner_len)
      ≡ (if ltb usable inner_len then (usable, inner_len) ∷ [] else [])
unfolding zones buffer_canary
zones-buffer_canary usable inner_len = ground arith

-- The strips of slots i to i + n - 1 ascend, and so do zones that start behind the last of them.
strips-Ascending :
    (stride slot_size n i : ℕ) (ws : List (ℕ × ℕ))
    → Ascending ((n + i) * stride) ws
    → Ascending (i * stride) (strips stride slot_size n i ++ ws)
unfolding strips
strips-Ascending stride slot_size zero i ws up =
    Ascending-weaken (i * stride) ((0 + i) * stride) ws (omega arith) up
strips-Ascending stride slot_size (suc n) i ws up =
    let same : (n + suc i) * stride ≡ (suc n + i) * stride = ap (λ t. t * stride) (omega arith) in
    let rest =
      strips-Ascending stride slot_size n (suc i) ws
        (Ascending-weaken _ ((suc n + i) * stride) ws (omega (arith, same)) up) in
    elim (Bool-cases (leb (suc i * stride) (i * stride + slot_size))) [
      | inl skip ↦ rw skip (Ascending-weaken (i * stride) (suc i * stride) _ (omega arith) rest)
      | inr keep ↦ rw keep (omega arith, ground arith, rest)
    ]

pub arena_zones-Ascending :
    (stride slot_size count inner_len : ℕ)
    → Ascending 0 (zones (arena_canary stride slot_size count inner_len))
arena_zones-Ascending stride slot_size count inner_len =
    rw (zones-arena_canary stride slot_size count inner_len) (
      Ascending-weaken 0 (0 * stride) _ (omega arith)
        (strips-Ascending stride slot_size count 0 _ tail))
  where
    tail :
        Ascending
          ((count + 0) * stride)
          (if ltb (count * stride) inner_len then (count * stride, inner_len) ∷ [] else [])
    tail = elim (Bool-cases (ltb (count * stride) inner_len)) [
      | inl more ↦ rw more (omega arith, ground arith, tt)
      | inr exact ↦ rw exact tt
    ]

pub buffer_zones-Ascending :
    (usable inner_len : ℕ) → Ascending 0 (zones (buffer_canary usable inner_len))
buffer_zones-Ascending usable inner_len =
    rw (zones-buffer_canary usable inner_len) (elim (Bool-cases (ltb usable inner_len)) [
      | inl slack ↦ rw slack (omega arith, ground arith, tt)
      | inr exact ↦ rw exact tt
    ])
