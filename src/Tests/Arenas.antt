-- ===== src/Tests/Arenas.antt =====
-- securearena.go on a pool of three slots of two bytes.
use secmem.Prelude.{ℕ, ◌+◌, ◌≡◌, refl, true, false, some, [], ◌∷◌, write, arith, replicate}
use secmem.Errors.{Result, fail, ok, canary_violation}
use secmem.Canary.{arm, arena_canary, fill_canary, canary_intact, pattern_bytes}
use secmem.KeyMap.{lookup, insert}
use secmem.Region.{Mapping, prot_rw, load, store, secure_wipe}
use secmem.Registry.{Janitor, empty_janitor, register}
use secmem.Arena.{
  Arena, Slot, Callback, acquire, acquire_head, release, finish_release, scrub_slot, push_tail,
  is_live, check_strip,
}
use secmem.Arena.Invariant.{Inv}
use secmem.Arena.New.{
  Config, Platform, fresh_arena, new_arena, build, check_arguments, gate_insecure,
}
use secmem.Arena.Seed.{up_from, fresh_arena-Inv}
use secmem.Arena.Acquire.{Acquires, acquire-Inv, acquire_head-Inv}
use secmem.Arena.Release.{Holds, Releases, freed, dead-freed, release-live}
use secmem.Arena.Wipe.{SlabOk}
use secmem.Arena.History.{here, next, taken, released-never_live}

abbrev pattern : ℕ → ℕ
pattern i = i + 1

abbrev slab : Mapping
slab = record {
  inner = replicate 64 0;
  prot = prot_rw;
  mapped = true;
  wiped = false;
  cipher = false;
}

abbrev pf : Platform
pf = record { max_int = 9223372036854775807; secure = true; alloc = λ n. some (7, slab) }

abbrev cfg : Config
cfg = record { insecure_fallback = false; unauthenticated_seal = false; closed_at_rest = false }

abbrev pool : Arena
pool = fresh_arena 2 3

pool-Inv : Inv pool (0 ∷ 1 ∷ 2 ∷ [])
unfolding up_from
pool-Inv = fresh_arena-Inv 2 3 (omega arith) (omega arith)

acquire-Inv_example : Acquires pool slab 0 (1 ∷ 2 ∷ [])
unfolding fresh_arena
acquire-Inv_example = acquire-Inv pool slab 0 (1 ∷ 2 ∷ []) pool-Inv refl refl

-- The pool with slot 0 taken, and its handle.
abbrev busy : Arena
busy = (acquire_head pool).0

abbrev first : Slot
first = record { idx = 0; generation = 1 }

busy-Inv : Inv busy (1 ∷ 2 ∷ [])
busy-Inv = acquire_head-Inv pool (1 ∷ 2 ∷ []) (unfold fresh_arena in pool-Inv)

first-Holds : Holds busy first
unfolding fresh_arena acquire_head
first-Holds = record { inside = omega arith; odd = refl; current = refl }

busy-SlabOk : SlabOk busy slab
unfolding fresh_arena acquire_head
busy-SlabOk = record { fits = omega arith; writes = refl }

release-live_example : Releases pattern busy slab first (1 ∷ 2 ∷ [])
unfolding fresh_arena acquire_head
release-live_example =
    release-live pattern busy slab first (1 ∷ 2 ∷ []) busy-Inv busy-SlabOk first-Holds refl refl

abbrev scribble : Callback
scribble b = (some (4 ∷ 5 ∷ 6 ∷ []), [])

-- The pool and its slab after the release: the strip was never armed here, so it is found damaged.
abbrev after : Arena
after = freed busy first

abbrev after_slab : Mapping
after_slab = record slab { inner = write 2 (pattern_bytes pattern 0 16) (replicate 64 0) }

after-released :
    release (some pattern) busy slab first ≡ some (after, after_slab, fail canary_violation)
unfolding fresh_arena acquire_head release finish_release scrub_slot check_strip push_tail
    secure_wipe store load fill_canary canary_intact pattern_bytes
after-released = refl

abbrev retaken : Arena
retaken = (acquire_head after).0

second : acquire after slab ≡ (retaken, ok (record { idx = 1; generation = 1 }))
unfolding fresh_arena acquire acquire_head push_tail
second = refl

released-never_live_example : is_live retaken first ≡ false
released-never_live_example =
    released-never_live (some pattern) slab after_slab first (fail canary_violation) (1 ∷ 2 ∷ [])
      busy-Inv first-Holds after-released (dead-freed busy first (1 ∷ 2 ∷ []) busy-Inv first-Holds)
      (next here (taken slab (record { idx = 1; generation = 1 }) second)) (omega arith)

-- A pool of one slot that is in use.
abbrev single : Arena
single = (acquire_head (fresh_arena 2 1)).0

single-Inv : Inv single []
single-Inv =
    acquire_head-Inv (fresh_arena 2 1) []
      (unfold fresh_arena up_from in fresh_arena-Inv 2 1 (omega arith) (omega arith))

abbrev built : Janitor × Result (Arena × ℕ × Mapping)
built = new_arena pf cfg (some pattern) 2 3 empty_janitor

abbrev built_slab : Mapping
built_slab = record slab {
  inner = (arm (some pattern) (arena_canary 18 2 3 64) (replicate 64 0)).0;
}

built_arena : built ≡ (built.0, ok (record pool { janitor_key = 1 }, 7, built_slab))
unfolding new_arena build check_arguments gate_insecure register arm arena_canary fill_canary
    pattern_bytes fresh_arena lookup insert
built_arena = refl
