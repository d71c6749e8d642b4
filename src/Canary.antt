-- ===== src/Canary.antt =====
-- canary.go: the armed ranges around the secrets of a region, and their check.
pub mod Pattern
pub mod Zones
pub mod Check
pub mod Guards
pub mod Arena
pub mod Slots
use Prim.Native.Nat.{bit_or, bit_xor}
use secmem.Prelude.{
  ℕ, zero, suc, ◌+◌, ◌-◌, ◌*◌, ◌%◌, Bool, true, false, ◌&&◌, if◌then◌else◌, ltb, leb, ◌==◌, Option,
  none, some, List, [], ◌∷◌, ◌++◌, length, slice, write,
}
use secmem.Errors.{Err, fail, os_failure}

abbrev pub canary_len : ℕ
canary_len = 16

-- The process-global pattern that canaryInit draws once: none if crypto/rand failed, in which case
-- canaryInitErr is what every call of it returns.
abbrev pub Pattern : Type 0
Pattern = Option (ℕ → ℕ)

abbrev pub canary_init : Pattern → Err
canary_init none = fail os_failure
canary_init (some p) = []

-- The pattern over n bytes from offset i.
unfoldable pub pattern_bytes : (ℕ → ℕ) → ℕ → ℕ → List ℕ
pattern_bytes p i zero = []
pattern_bytes p i (suc n) = p (i % canary_len) ∷ pattern_bytes p (suc i) n

-- fillCanary: the bytes after it, and its error.
unfoldable pub fill_canary : Pattern → List ℕ → List ℕ × Err
fill_canary none b = (b, fail os_failure)
fill_canary (some p) b = (pattern_bytes p 0 (length b), [])

-- The loop of canaryIntact from offset i: `acc |= b[i] ^ canaryPattern[i%canaryLen]`.
unfoldable pub differences : (ℕ → ℕ) → ℕ → ℕ → List ℕ → ℕ
differences p i acc [] = acc
differences p i acc (x ∷ b) = differences p (suc i) (bit_or acc (bit_xor x (p (i % canary_len)))) b

unfoldable pub canary_intact : Pattern → List ℕ → Bool
unfolding differences
canary_intact pat [] = true
canary_intact none (x ∷ b) = false
canary_intact (some p) (x ∷ b) = differences p 0 0 (x ∷ b) == 0

pub record CanaryLayout : Type 0 where
  pub stride : ℕ
  pub slot_size : ℕ
  pub count : ℕ
  pub tail_lo : ℕ
  pub tail_hi : ℕ

-- `canaryLayout{}`.
abbrev pub no_canary : CanaryLayout
no_canary = record { stride = 0; slot_size = 0; count = 0; tail_lo = 0; tail_hi = 0 }

unfoldable pub buffer_canary : ℕ → ℕ → CanaryLayout
buffer_canary usable inner_len =
    if leb inner_len usable
    then no_canary
    else record { stride = 0; slot_size = 0; count = 0; tail_lo = usable; tail_hi = inner_len }

unfoldable pub arena_canary : ℕ → ℕ → ℕ → ℕ → CanaryLayout
arena_canary stride slot_size count inner_len =
    if ltb (count * stride) inner_len
    then record l { tail_lo = count * stride; tail_hi = inner_len }
    else l
  where
    l : CanaryLayout
    l = record { stride = stride; slot_size = slot_size; count = count; tail_lo = 0; tail_hi = 0 }

-- The ranges [lo, hi) that the loop of forEachZone hands out, with k rounds to go from slot i.
unfoldable pub strips : ℕ → ℕ → ℕ → ℕ → List (ℕ × ℕ)
strips stride slot_size zero i = []
strips stride slot_size (suc k) i =
    let rest = strips stride slot_size k (suc i) in
    let lo = i * stride + slot_size in
    let hi = suc i * stride in if leb hi lo then rest else (lo, hi) ∷ rest

unfoldable pub zones : CanaryLayout → List (ℕ × ℕ)
unfolding strips
zones c =
    strips c.stride c.slot_size c.count 0
    ++ (if ltb c.tail_lo c.tail_hi then (c.tail_lo, c.tail_hi) ∷ [] else [])

-- forEachZone over those ranges, for a callback with a state: false stops the walk.
unfoldable pub proceed {ℓ} : {S : Type ℓ} → (S → S) → S × Bool → S
proceed rest (s, true) = rest s
proceed rest (s, false) = s

unfoldable pub visit {ℓ} : {S : Type ℓ} → (ℕ → ℕ → S → S × Bool) → List (ℕ × ℕ) → S → S
visit fn [] s = s
visit fn ((lo, hi) ∷ zs) s = proceed (visit fn zs) (fn lo hi s)

unfoldable pub for_each_zone {ℓ} : {S : Type ℓ} → CanaryLayout → (ℕ → ℕ → S → S × Bool) → S → S
unfolding visit proceed zones
for_each_zone c fn s = visit fn (zones c) s

abbrev pub in_bounds : ℕ → ℕ → ℕ → Bool
in_bounds lo hi len = ltb lo hi && leb hi len

-- The callback of arm: the region's bytes and `err` are what it captures.
unfoldable pub arm_zone : Pattern → ℕ → ℕ → List ℕ × Err → (List ℕ × Err) × Bool
unfolding fill_canary
arm_zone pat lo hi (inner, err) =
    if in_bounds lo hi (length inner)
    then filled (fill_canary pat (slice lo (hi - lo) inner))
    else ((inner, err), true)
  where
    filled : List ℕ × Err → (List ℕ × Err) × Bool
    filled (b, []) = ((write lo b inner, err), true)
    filled (b, e ∷ es) = ((inner, e ∷ es), false)

unfoldable pub arm : Pattern → CanaryLayout → List ℕ → List ℕ × Err
unfolding arm_zone for_each_zone
arm pat c inner = for_each_zone c (arm_zone pat) (inner, [])

-- The callback of intact: `ok` is what it captures.
unfoldable pub check_zone : Pattern → List ℕ → ℕ → ℕ → Bool → Bool × Bool
unfolding canary_intact
check_zone pat inner lo hi ok =
    if in_bounds lo hi (length inner)
    then (if canary_intact pat (slice lo (hi - lo) inner) then (ok, true) else (false, false))
    else (ok, true)

unfoldable pub intact : Pattern → CanaryLayout → List ℕ → Bool
unfolding check_zone for_each_zone
intact pat c inner = for_each_zone c (check_zone pat inner) true
