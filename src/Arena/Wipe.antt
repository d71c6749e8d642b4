-- ===== src/Arena/Wipe.antt =====
-- securearena.go, Release: what the wipe of a claimed slot does to the slab.
use secmem.Prelude.{
  ℕ, suc, ◌+◌, ◌-◌, ◌*◌, ◌≤◌, ◌<◌, ◌≡◌, sym, ap, ◌∙◌, ◌≢◌, ◌⊎◌, List, length, length-replicate,
  slice, write, arith, if◌then◌else◌, Bool-cases, ltb, inl, inr, Bool, true, false, not, ◌||◌, some,
}
use secmem.Prelude.Slices.{
  slice-write_self, slice-write_after, slice-write_apart, length-write, length-slice,
}
use secmem.Canary.{canary_intact, fill_canary, pattern_bytes}
use secmem.Canary.Pattern.{length-pattern_bytes, canary_intact_iff}
use secmem.Canary.Arena.{mul_mono}
use secmem.Region.{Mapping, prot_rw, load, store, secure_wipe, zeros}
use secmem.Arena.{Arena, Slot, check_strip, scrub_slot}

-- The slab holds every slot with its strip, and can be written.
pub record SlabOk (a : Arena) (m : Mapping) : Type 0 where
  pub fits : a.count * a.stride ≤ length m.inner
  pub writes : m.prot ≡ prot_rw

-- The bytes of slot i, and those of its strip.
abbrev pub slot_bytes : Arena → Mapping → ℕ → List ℕ
slot_bytes a m i = slice (i * a.stride) a.slot_size m.inner

abbrev pub strip_bytes : Arena → Mapping → ℕ → List ℕ
strip_bytes a m i = slice (i * a.stride + a.slot_size) (a.stride - a.slot_size) m.inner

-- The strip after Release: armed anew if it was found damaged.
unfoldable pub rearmed : (ℕ → ℕ) → Arena → Mapping → Slot → List ℕ
rearmed p a m s =
    if m.wiped || canary_intact (some p) (strip_bytes a m s.idx)
    then m.inner
    else write (s.idx * a.stride + a.slot_size) (pattern_bytes p 0 (length (strip_bytes a m s.idx)))
        m.inner

unfoldable pub violated : (ℕ → ℕ) → Arena → Mapping → Slot → Bool
violated p a m s = not (m.wiped || canary_intact (some p) (strip_bytes a m s.idx))

pub check_strip_lem :
    (p : ℕ → ℕ) (a : Arena) (m : Mapping) (s : Slot)
    → m.prot ≡ prot_rw
    → check_strip (some p) a m s ≡ some (record m { inner = rearmed p a m s }, violated p a m s)
unfolding check_strip load store rearmed violated fill_canary
check_strip_lem p a m s w = ground arith

-- The slab after the scrub.
unfoldable pub scrubbed : (ℕ → ℕ) → Arena → Mapping → Slot → Mapping
scrubbed p a m s = record m {
  inner = write (s.idx * a.stride) (zeros a.slot_size) (rearmed p a m s);
}

pub scrub_slot_lem :
    (p : ℕ → ℕ) (a : Arena) (m : Mapping) (s : Slot)
    → m.prot ≡ prot_rw
    → scrub_slot (some p) a m s ≡ some (scrubbed p a m s, violated p a m s)
unfolding scrub_slot secure_wipe store scrubbed
scrub_slot_lem p a m s w = ground (arith, check_strip_lem p a m s w)

module _ (p : ℕ → ℕ) (a : Arena) (m : Mapping) (s : Slot) (ok : SlabOk a m)
    (strided : a.stride ≡ a.slot_size + 16) (lt : s.idx < a.count) where
  start : ℕ
  start = s.idx * a.stride

  -- The slot with its strip lies inside the slab.
  slot_end : s.idx * a.stride + a.stride ≤ length m.inner
  slot_end = omega (arith, ok.fits, mul_mono (suc s.idx) a.count a.stride lt)

  length-rearmed : length (rearmed p a m s) ≡ length m.inner
  unfolding rearmed
  length-rearmed = ground (
    arith,
    length-write (s.idx * a.stride + a.slot_size)
        (pattern_bytes p 0 (length (strip_bytes a m s.idx))) m.inner,
  )

  -- After the scrub the slot reads zeros.
  pub slot_bytes-scrubbed : slot_bytes a (scrubbed p a m s) s.idx ≡ zeros a.slot_size
  unfolding scrubbed
  slot_bytes-scrubbed =
      ap (λ n. slice (s.idx * a.stride) n (scrubbed p a m s).inner)
        (sym (length-replicate {A = ℕ} a.slot_size 0))
      ∙ slice-write_self (s.idx * a.stride) (zeros a.slot_size) (rearmed p a m s) (
          rw (length-replicate {A = ℕ} a.slot_size 0, length-rearmed)
            (omega (arith, slot_end, strided)))

  strip_size : length (strip_bytes a m s.idx) ≡ 16
  strip_size =
      length-slice (s.idx * a.stride + a.slot_size) (a.stride - a.slot_size) m.inner
        (omega (arith, slot_end, strided))
      ∙ omega (arith, strided)

  pattern_size : length (pattern_bytes p 0 (length (strip_bytes a m s.idx))) ≡ 16
  pattern_size = length-pattern_bytes p 0 (length (strip_bytes a m s.idx)) ∙ strip_size

  slots_apart :
      (j : ℕ)
      → j ≢ s.idx
      → (j * a.stride + a.stride ≤ s.idx * a.stride) ⊎ (s.idx * a.stride + a.stride ≤ j * a.stride)
  slots_apart j ne = elim (Bool-cases (ltb j s.idx)) [
    | inl before ↦ inl (omega (arith, mul_mono (suc j) s.idx a.stride (ground arith)))
    | inr after ↦ inr (omega (arith, mul_mono (suc s.idx) j a.stride (ground arith)))
  ]

  other-rearmed :
      (j : ℕ)
      → j ≢ s.idx
      → slice (j * a.stride) a.stride (rearmed p a m s) ≡ slice (j * a.stride) a.stride m.inner
  unfolding rearmed
  other-rearmed j ne =
      elim (Bool-cases (m.wiped || canary_intact (some p) (strip_bytes a m s.idx))) [
        | inl keep ↦ rw keep
        | inr hit ↦ rw hit (
            slice-write_apart (j * a.stride) a.stride (s.idx * a.stride + a.slot_size) _ m.inner (
              rw pattern_size (elim (slots_apart j ne) [
                | inl before ↦ inl (omega arith)
                | inr after ↦ inr (omega (arith, strided))
              ])))
      ]

  -- Every other slot, its strip included, is as it was.
  pub other-scrubbed :
      (j : ℕ)
      → j ≢ s.idx
      → slice (j * a.stride) a.stride (scrubbed p a m s).inner
        ≡ slice (j * a.stride) a.stride m.inner
  unfolding scrubbed
  other-scrubbed j ne =
      slice-write_apart (j * a.stride) a.stride (s.idx * a.stride) (zeros a.slot_size)
        (rearmed p a m s)
        (rw (length-replicate {A = ℕ} a.slot_size 0) (elim (slots_apart j ne) [
          | inl before ↦ inl before
          | inr after ↦ inr (omega (arith, strided))
        ]))
      ∙ other-rearmed j ne

  strip-scrubbed :
      strip_bytes a (scrubbed p a m s) s.idx
      ≡ slice (s.idx * a.stride + a.slot_size) (a.stride - a.slot_size) (rearmed p a m s)
  unfolding scrubbed
  strip-scrubbed =
      slice-write_after (s.idx * a.stride + a.slot_size) (a.stride - a.slot_size) (s.idx * a.stride)
        (zeros a.slot_size) (rearmed p a m s)
        (rw (length-replicate {A = ℕ} a.slot_size 0) (omega arith))

  strip-rearmed :
      canary_intact (some p) (strip_bytes a m s.idx) ≡ false
      → m.wiped ≡ false
      → slice (s.idx * a.stride + a.slot_size) (a.stride - a.slot_size) (rearmed p a m s)
        ≡ pattern_bytes p 0 16
  unfolding rearmed
  strip-rearmed hit clean =
      rw (clean, hit)
        (rw strip_size (
          ap
            (λ n.
              slice (s.idx * a.stride + a.slot_size) n
                (write (s.idx * a.stride + a.slot_size) (pattern_bytes p 0 16) m.inner))
            (omega (arith, strided, length-pattern_bytes p 0 16))
          ∙ slice-write_self (s.idx * a.stride + a.slot_size) (pattern_bytes p 0 16) m.inner
              (rw (length-pattern_bytes p 0 16) (omega (arith, slot_end, strided)))))

  kept : canary_intact (some p) (strip_bytes a m s.idx) ≡ true → rearmed p a m s ≡ m.inner
  unfolding rearmed
  kept whole = ground arith

  -- Unless an emergency wipe has zeroed the strips, the strip holds the pattern again, whatever was
  -- found there.
  pub strip_intact-scrubbed :
      m.wiped ≡ false → canary_intact (some p) (strip_bytes a (scrubbed p a m s) s.idx) ≡ true
  strip_intact-scrubbed clean = elim (Bool-cases (canary_intact (some p) (strip_bytes a m s.idx))) [
    | inl whole ↦ rw (strip-scrubbed, kept whole) whole
    | inr hit ↦
        rw (strip-scrubbed, strip-rearmed hit clean)
          ((canary_intact_iff p (pattern_bytes p 0 16)).1
            (ap (pattern_bytes p 0) (sym (length-pattern_bytes p 0 16))))
  ]
