-- ===== src/Arena/Borrow.antt =====
-- securearena.go, WithBytesErr: what a borrow reads and can write, and when it is refused.
use secmem.Prelude.{
  ℕ, ◌+◌, ◌*◌, ◌≤◌, ◌≡◌, refl, ◌⊎◌, inl, inr, List, length-take, slice, write, arith, true, false,
  Option, none, some,
}
use secmem.Prelude.Lists
use secmem.Prelude.Slices.{slice-write_apart}
use secmem.Errors.{fail, destroyed, wiped, slot_released}
use secmem.Region.{Mapping, prot_rw, load, store}
use secmem.Arena.{Arena, Slot, is_live, Callback, write_back, with_bytes_err}
use secmem.Arena.Wipe.{slot_bytes}

-- The slab after a callback wrote `bytes` through the slice of slot i.
borrowed : Arena → Mapping → ℕ → Option (List ℕ) → Mapping
borrowed a m i none = m
borrowed a m i (some bytes) = record m {
  inner = write (i * a.stride) (Lists.take a.slot_size bytes) m.inner;
}

write_back_lem :
    (a : Arena) (m : Mapping) (i : ℕ) (w : Option (List ℕ))
    → m.prot ≡ prot_rw
    → write_back (i * a.stride) a.slot_size w m ≡ some (borrowed a m i w)
unfolding store borrowed
write_back_lem a m i none rw_on = refl
write_back_lem a m i (some bytes) rw_on = ground arith

borrowed_apart :
    (a : Arena) (m : Mapping) (i : ℕ) (w : Option (List ℕ)) (at n : ℕ)
    → (at + n ≤ i * a.stride) ⊎ (i * a.stride + a.slot_size ≤ at)
    → slice at n (borrowed a m i w).inner ≡ slice at n m.inner
unfolding borrowed
borrowed_apart a m i none at n h = refl
borrowed_apart a m i (some bytes) at n h =
    slice-write_apart at n (i * a.stride) (Lists.take a.slot_size bytes) m.inner (elim h [
      | inl before ↦ inl before
      | inr after ↦ inr (omega (arith, length-take a.slot_size bytes))
    ])

borrow-runs :
    (a : Arena) (m : Mapping) (s : Slot) (fn : Callback)
    → a.destroyed ≡ false
    → a.open_region ≡ true
    → m.wiped ≡ false
    → m.prot ≡ prot_rw
    → is_live a s ≡ true
    → with_bytes_err a m s fn
      ≡ some (borrowed a m s.idx (fn (slot_bytes a m s.idx)).0, (fn (slot_bytes a m s.idx)).1)
unfolding with_bytes_err load
borrow-runs a m s fn up there clean rw_on live =
    ground (arith, write_back_lem a m s.idx (fn (slot_bytes a m s.idx)).0 rw_on)

-- A borrow through a live handle of an open, writable arena that was not emergency-wiped hands the
-- callback the slot's bytes, reports the callback's error, and, whatever the callback writes and
-- however much, leaves every byte outside the slot's own as it was.
pub with_bytes_err-live :
    (a : Arena) (m : Mapping) (s : Slot) (fn : Callback) (at n : ℕ)
    → a.destroyed ≡ false
    → a.open_region ≡ true
    → m.wiped ≡ false
    → m.prot ≡ prot_rw
    → is_live a s ≡ true
    → (at + n ≤ s.idx * a.stride) ⊎ (s.idx * a.stride + a.slot_size ≤ at)
    → (m' : Mapping) × (with_bytes_err a m s fn ≡ some (m', (fn (slot_bytes a m s.idx)).1))
      × (slice at n m'.inner ≡ slice at n m.inner)
with_bytes_err-live a m s fn at n up there clean rw_on live out =
    let w = (fn (slot_bytes a m s.idx)).0 in
    (
      borrowed a m s.idx w,
      borrow-runs a m s fn up there clean rw_on live,
      borrowed_apart a m s.idx w at n out,
    )

-- A handle that is no longer live is refused, whatever the page protection, and the callback, which
-- could be any, is not called.
pub with_bytes_err-stale :
    (a : Arena) (m : Mapping) (s : Slot) (fn : Callback)
    → a.destroyed ≡ false
    → a.open_region ≡ true
    → m.wiped ≡ false
    → is_live a s ≡ false
    → with_bytes_err a m s fn ≡ some (m, fail slot_released)
unfolding with_bytes_err
with_bytes_err-stale a m s fn up there clean dead = ground arith

-- After Destroy has begun, after it ended, and after an emergency wipe the refusal is ErrDestroyed,
-- ErrDestroyed and ErrWiped, through every handle.
pub with_bytes_err-dead :
    (a : Arena) (m : Mapping) (s : Slot) (fn : Callback)
    → ((a.destroyed ≡ true) → with_bytes_err a m s fn ≡ some (m, fail destroyed))
      × ((a.open_region ≡ false) → with_bytes_err a m s fn ≡ some (m, fail destroyed))
      × ((a.destroyed ≡ false)
          → (a.open_region ≡ true)
          → (m.wiped ≡ true)
          → with_bytes_err a m s fn ≡ some (m, fail wiped))
unfolding with_bytes_err
with_bytes_err-dead a m s fn = (λ d. ground arith, λ c. ground arith, λ up there w. ground arith)
