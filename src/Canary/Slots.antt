-- ===== src/Canary/Slots.antt =====
-- canary.go: the zones spare the secrets. Arming leaves the bytes of every slot, and of a buffer's
-- data, as they are, and a write that stays inside them keeps the check passing.
use secmem.Prelude.{
  ℕ, zero, suc, ◌+◌, ◌-◌, ◌*◌, ◌≤◌, ◌<◌, ◌≡◌, refl, ◌∙◌, ◌⊎◌, inl, inr, true, ltb, leb, Bool-cases,
  some, List, [], ◌∷◌, ◌++◌, length, slice, write, arith, if◌then◌else◌,
}
use secmem.Prelude.Slices.{length-write, length-slice, slice-write_before, slice-write_after}
use secmem.Canary.{CanaryLayout, in_bounds, strips, zones, arena_canary, buffer_canary, arm, intact}
use secmem.Canary.Pattern.{length-pattern_bytes}
use secmem.Canary.Zones.{Armed, armed_zone, armed_all, arm_lem}
use secmem.Canary.Check.{intact-Armed}
use secmem.Canary.Arena.{mul_mono, zones-arena_canary, zones-buffer_canary}

-- The n bytes from `at` meet none of the zones.
abbrev pub Disjoint : ℕ → ℕ → List (ℕ × ℕ) → Type 0
Disjoint at n [] = Unit {0}
Disjoint at n ((lo, hi) ∷ zs) = ((hi ≤ at) ⊎ (at + n ≤ lo)) × Disjoint at n zs

Disjoint-append :
    (at n : ℕ) (zs ws : List (ℕ × ℕ))
    → Disjoint at n zs
    → Disjoint at n ws
    → Disjoint at n (zs ++ ws)
Disjoint-append at n [] ws d e = e
Disjoint-append at n ((lo, hi) ∷ zs) ws d e = (d.0, Disjoint-append at n zs ws d.1 e)

Disjoint-shorter : (at n m : ℕ) (zs : List (ℕ × ℕ)) → m ≤ n → Disjoint at n zs → Disjoint at m zs
Disjoint-shorter at n m [] h d = tt
Disjoint-shorter at n m ((lo, hi) ∷ zs) h d =
    (elim d.0 [ inl b ↦ inl b | inr a ↦ inr (omega arith) ], Disjoint-shorter at n m zs h d.1)

slice-zone_apart :
    (lo hi at : ℕ) (ys inner : List ℕ)
    → lo ≤ hi
    → (hi ≤ at) ⊎ (at + length ys ≤ lo)
    → slice lo (hi - lo) (write at ys inner) ≡ slice lo (hi - lo) inner
slice-zone_apart lo hi at ys inner h (inl b) =
    slice-write_before lo (hi - lo) at ys inner (omega arith)
slice-zone_apart lo hi at ys inner h (inr a) = slice-write_after lo (hi - lo) at ys inner a

pub Armed-write :
    (p : ℕ → ℕ) (at : ℕ) (ys inner : List ℕ) (zs : List (ℕ × ℕ))
    → Disjoint at (length ys) zs
    → Armed p inner zs
    → Armed p (write at ys inner) zs
Armed-write p at ys inner [] d a = tt
Armed-write p at ys inner ((lo, hi) ∷ zs) d a = (
  λ within.
      let here = rw (length-write at ys inner) at within in
      slice-zone_apart lo hi at ys inner (ground arith) d.0 ∙ a.0 here,
  Armed-write p at ys inner zs d.1 a.1,
)

slice-armed_zone_apart :
    (p : ℕ → ℕ) (at n lo hi : ℕ) (inner : List ℕ)
    → (hi ≤ at) ⊎ (at + n ≤ lo)
    → slice at n (armed_zone p lo hi inner) ≡ slice at n inner
unfolding armed_zone
slice-armed_zone_apart p at n lo hi inner d = elim (Bool-cases (in_bounds lo hi (length inner))) [
  | inr out ↦ rw out
  | inl within ↦ rw within (elim d [
    | inr after ↦ slice-write_before at n lo _ inner after
    | inl before ↦ slice-write_after at n lo _ inner (
        rw
          (
            length-pattern_bytes p 0 (length (slice lo (hi - lo) inner)),
            length-slice lo (hi - lo) inner (ground arith),
          )
          (ground arith))
  ])
]

pub slice-armed_all_apart :
    (p : ℕ → ℕ) (at n : ℕ) (zs : List (ℕ × ℕ)) (inner : List ℕ)
    → Disjoint at n zs
    → slice at n (armed_all p zs inner) ≡ slice at n inner
unfolding armed_all
slice-armed_all_apart p at n [] inner d = refl
slice-armed_all_apart p at n ((lo, hi) ∷ zs) inner d =
    slice-armed_all_apart p at n zs (armed_zone p lo hi inner) d.1
    ∙ slice-armed_zone_apart p at n lo hi inner d.0

strip_apart :
    (stride slot_size i j : ℕ)
    → slot_size ≤ stride
    → (suc i * stride ≤ j * stride) ⊎ (j * stride + slot_size ≤ i * stride + slot_size)
strip_apart stride slot_size i j h = elim (Bool-cases (leb (suc i) j)) [
  | inl before ↦ inl (mul_mono (suc i) j stride (ground arith))
  | inr after ↦ inr (omega (arith, mul_mono j i stride (ground arith)))
]

strips-Disjoint :
    (stride slot_size n i j : ℕ)
    → slot_size ≤ stride
    → Disjoint (j * stride) slot_size (strips stride slot_size n i)
unfolding strips
strips-Disjoint stride slot_size zero i j h = tt
strips-Disjoint stride slot_size (suc n) i j h =
    let rest = strips-Disjoint stride slot_size n (suc i) j h in
    elim (Bool-cases (leb (suc i * stride) (i * stride + slot_size))) [
      | inl skip ↦ rw skip rest
      | inr keep ↦ rw keep (strip_apart stride slot_size i j h, rest)
    ]

-- No zone of an arena meets the bytes of a slot.
pub slot-Disjoint :
    (stride slot_size count inner_len i : ℕ)
    → slot_size ≤ stride
    → i < count
    → Disjoint (i * stride) slot_size (zones (arena_canary stride slot_size count inner_len))
slot-Disjoint stride slot_size count inner_len i h lt =
    rw (zones-arena_canary stride slot_size count inner_len) (
      Disjoint-append (i * stride) slot_size (strips stride slot_size count 0) _
        (strips-Disjoint stride slot_size count 0 i h) tail)
  where
    tail :
        Disjoint
          (i * stride)
          slot_size
          (if ltb (count * stride) inner_len then (count * stride, inner_len) ∷ [] else [])
    tail = elim (Bool-cases (ltb (count * stride) inner_len)) [
      | inr exact ↦ rw exact tt
      | inl more ↦ rw more (inr (omega (arith, mul_mono (suc i) count stride lt)), tt)
    ]

-- The zone of a buffer lies behind its data.
pub data-Disjoint :
    (usable inner_len : ℕ) → Disjoint 0 usable (zones (buffer_canary usable inner_len))
data-Disjoint usable inner_len =
    rw (zones-buffer_canary usable inner_len) (elim (Bool-cases (ltb usable inner_len)) [
      | inr exact ↦ rw exact tt
      | inl slack ↦ rw slack (inr (omega arith), tt)
    ])

-- When a slot is no longer than the stride, arming an arena's strips leaves the bytes of every slot as
-- they were.
pub slice-arm :
    (p : ℕ → ℕ) (stride slot_size count inner_len i : ℕ) (inner : List ℕ)
    → slot_size ≤ stride
    → i < count
    → slice
        (i * stride)
        slot_size
        (arm (some p) (arena_canary stride slot_size count inner_len) inner).0
      ≡ slice (i * stride) slot_size inner
slice-arm p stride slot_size count inner_len i inner h lt =
    rw (arm_lem p (arena_canary stride slot_size count inner_len) inner) (
      slice-armed_all_apart p (i * stride) slot_size _ inner
        (slot-Disjoint stride slot_size count inner_len i h lt))

-- When a slot is no longer than the stride and the strips are intact, a write of at most slot_size
-- bytes at a slot's start leaves them intact.
pub intact-write :
    (p : ℕ → ℕ) (stride slot_size count inner_len i : ℕ) (ys inner : List ℕ)
    → slot_size ≤ stride
    → i < count
    → length ys ≤ slot_size
    → intact (some p) (arena_canary stride slot_size count inner_len) inner ≡ true
    → intact (some p) (arena_canary stride slot_size count inner_len) (write (i * stride) ys inner)
      ≡ true
intact-write p stride slot_size count inner_len i ys inner h lt small ok =
    (intact-Armed p layout (write (i * stride) ys inner)).1 (
      Armed-write p (i * stride) ys inner (zones layout)
        (Disjoint-shorter (i * stride) slot_size (length ys) (zones layout) small
          (slot-Disjoint stride slot_size count inner_len i h lt))
        ((intact-Armed p layout inner).0 ok))
  where
    layout : CanaryLayout
    layout = arena_canary stride slot_size count inner_len
