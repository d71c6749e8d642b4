-- ===== src/Arena/Release.antt =====
-- securearena.go, Release: a live handle frees its slot wiped, a stale one changes nothing, and a
-- read-only slab refuses.
use secmem.Prelude.{
  ℕ, ◌+◌, ◌*◌, ◌%◌, ◌<◌, ◌≡◌, refl, ap, subst, ◌∙◌, ◌≢◌, List, [], ◌∷◌, ◌++◌, slice, arith,
  if◌then◌else◌, true, false, ◌&&◌, not, ◌||◌, some,
}
use secmem.Errors.{Err, fail, canary_violation, read_only}
use secmem.Canary.{Pattern, canary_intact}
use secmem.Region.{Mapping, prot_rw, zeros}
use secmem.Arena.{Arena, Slot, set_generation, u64, is_live, finish_release, release, push_tail}
use secmem.Arena.FreeList.{All-last}
use secmem.Arena.Invariant.{Inv, gen_of}
use secmem.Arena.Claim.{claim-Claimed, push_tail-Inv}
use secmem.Arena.Wipe.{
  SlabOk, slot_bytes, strip_bytes, rearmed, violated, scrubbed, scrub_slot_lem, slot_bytes-scrubbed,
  other-scrubbed, strip_intact-scrubbed,
}

-- A handle that its arena gave out and that is still good.
pub record Holds (a : Arena) (s : Slot) : Type 0 where
  pub inside : s.idx < a.count
  pub odd : s.generation % 2 ≡ 1
  pub current : gen_of a s.idx ≡ s.generation

-- The index after the claim and the push.
abbrev pub freed : Arena → Slot → Arena
freed a s = push_tail (set_generation a s.idx (u64 (s.generation + 1))) s.idx

pub freed-Inv :
    (a : Arena) (s : Slot) (fs : List ℕ) → Inv a fs → Holds a s → Inv (freed a s) (fs ++ s.idx ∷ [])
freed-Inv a s fs v h =
    subst (λ g. Inv (push_tail (set_generation a s.idx (u64 (g + 1))) s.idx) (fs ++ s.idx ∷ []))
      h.current
      (push_tail-Inv _ s.idx fs
        (claim-Claimed a s.idx fs v h.inside (ap (λ g. g % 2) h.current ∙ h.odd)))

finish_release_lem :
    (p : ℕ → ℕ) (a : Arena) (m : Mapping) (s : Slot)
    → a.open_region ≡ true
    → m.prot ≡ prot_rw
    → finish_release (some p) a m s
      ≡ some (
        push_tail a s.idx,
        scrubbed p a m s,
        if violated p a m s then fail canary_violation else [],
      )
unfolding finish_release
finish_release_lem p a m s up w = ground (arith, scrub_slot_lem p a m s w)

-- What Release of the live handle s does to an open slab that it can write.
abbrev pub Releases : (ℕ → ℕ) → Arena → Mapping → Slot → List ℕ → Type 0
Releases p a m s fs =
    (b : Arena) × (m' : Mapping) × (release (some p) a m s
      ≡ some (b, m', if violated p a m s then fail canary_violation else []))
    × Inv b (fs ++ s.idx ∷ [])
    × (is_live b s ≡ false)
    × (slot_bytes a m' s.idx ≡ zeros a.slot_size)
    × ((m.wiped || canary_intact (some p) (strip_bytes a m' s.idx)) ≡ true)

scrubbed-claim :
    (p : ℕ → ℕ) (a : Arena) (m : Mapping) (s : Slot) (g : ℕ)
    → scrubbed p (set_generation a s.idx g) m s ≡ scrubbed p a m s
unfolding scrubbed rearmed
scrubbed-claim p a m s g = refl

violated-claim :
    (p : ℕ → ℕ) (a : Arena) (m : Mapping) (s : Slot) (g : ℕ)
    → violated p (set_generation a s.idx g) m s ≡ violated p a m s
unfolding violated
violated-claim p a m s g = refl

release-finish :
    (pat : Pattern) (a : Arena) (m : Mapping) (s : Slot)
    → Holds a s
    → (a.open_region && (a.read_only && not m.wiped)) ≡ false
    → release pat a m s ≡ finish_release pat (set_generation a s.idx (u64 (s.generation + 1))) m s
unfolding release
release-finish pat a m s h writable = ground arith

pub dead-freed :
    (a : Arena) (s : Slot) (fs : List ℕ) → Inv a fs → Holds a s → is_live (freed a s) s ≡ false
dead-freed a s fs v h =
    let even =
      All-last (λ k. gen_of (freed a s) k % 2 ≡ 0) s.idx fs (freed-Inv a s fs v h).free_even in
    ground (arith, h.odd)

release-scrubs :
    (p : ℕ → ℕ) (a : Arena) (m : Mapping) (s : Slot)
    → SlabOk a m
    → Holds a s
    → a.open_region ≡ true
    → (a.read_only && not m.wiped) ≡ false
    → release (some p) a m s
      ≡ some (freed a s, scrubbed p a m s, if violated p a m s then fail canary_violation else [])
release-scrubs p a m s ok h up writable =
    release-finish (some p) a m s h (ground arith)
    ∙ finish_release_lem p (set_generation a s.idx (u64 (s.generation + 1))) m s up ok.writes
    ∙ rw (
      scrubbed-claim p a m s (u64 (s.generation + 1)),
      violated-claim p a m s (u64 (s.generation + 1)),
    )

-- On a well-formed arena whose slab is open and writable, Release of a live handle does not fault. It
-- zeroes the slot's bytes, puts the slot behind every other free one, ends the handle, leaves the
-- slot's strip armed unless the slab was emergency-wiped before, and reports ErrCanaryViolation exactly
-- when the strip of a slab that was not emergency-wiped had been overwritten.
pub release-live :
    (p : ℕ → ℕ) (a : Arena) (m : Mapping) (s : Slot) (fs : List ℕ)
    → Inv a fs
    → SlabOk a m
    → Holds a s
    → a.open_region ≡ true
    → (a.read_only && not m.wiped) ≡ false
    → Releases p a m s fs
release-live p a m s fs v ok h up writable = (
  freed a s,
  scrubbed p a m s,
  release-scrubs p a m s ok h up writable,
  freed-Inv a s fs v h,
  dead-freed a s fs v h,
  slot_bytes-scrubbed p a m s ok v.strided h.inside,
  ground (arith, strip_intact-scrubbed p a m s ok v.strided h.inside),
)

-- On a well-formed arena whose slab is open and writable, Release of a live handle leaves the bytes of
-- every other slot, and the canary strip behind them, as they were.
pub release-others :
    (p : ℕ → ℕ) (a : Arena) (m : Mapping) (s : Slot) (fs : List ℕ) (j : ℕ) {b : Arena}
    {m' : Mapping} {e : Err}
    → Inv a fs
    → SlabOk a m
    → Holds a s
    → a.open_region ≡ true
    → (a.read_only && not m.wiped) ≡ false
    → release (some p) a m s ≡ some (b, m', e)
    → j ≢ s.idx
    → slice (j * a.stride) a.stride m'.inner ≡ slice (j * a.stride) a.stride m.inner
release-others p a m s fs j {m' = m'} v ok h up writable r ne =
    let same : m' ≡ scrubbed p a m s = ground (arith, release-scrubs p a m s ok h up writable) in
    rw same (other-scrubbed p a m s ok v.strided h.inside j ne)

-- A stale or released handle: nothing changes and no error is reported.
pub release-stale :
    (pat : Pattern) (a : Arena) (m : Mapping) (s : Slot)
    → is_live a s ≡ false
    → release pat a m s ≡ some (a, m, [])
unfolding release
release-stale pat a m s dead = ground arith

-- A read-only slab that was not emergency-wiped refuses, and the slot stays in use and as it was.
pub release-read_only :
    (pat : Pattern) (a : Arena) (m : Mapping) (s : Slot)
    → is_live a s ≡ true
    → a.open_region ≡ true
    → a.read_only ≡ true
    → m.wiped ≡ false
    → release pat a m s ≡ some (a, m, fail read_only)
unfolding release
release-read_only pat a m s live up ro clean = ground arith
