-- ===== src/Arena/Destroy.antt =====
-- securearena.go, Destroy: the arena with the janitor, the mappings and the quarantine around it. The
-- slab's identity is an argument.
use secmem.Prelude.{ℕ, ◌≡◌, subst, true, false, not, if◌then◌else◌, some, [], arith}
use secmem.Errors.{Err, err, fail, destroyed}
use secmem.Canary.{Pattern}
use secmem.Region.{Mapping}
use secmem.Registry.{JanitorRegion, peek_any}
use secmem.Registry.Memory.{System, World}
use secmem.Registry.Memory
use secmem.Registry.Release.{Wiped, Freed-Wiped, release-Freed}
use secmem.Arena.{Arena, Slot, Callback, acquire, with_bytes_err}

unfoldable pub destroy : System → Pattern → Arena → World → World × Arena × Err
destroy os pat a w = if not a.open_region then (w, record a { destroyed = true }, []) else (
  released.0,
  record a { destroyed = true; open_region = false; released = true },
  released.1,
)
  where
    released : World × Err
    released = Memory.release os pat a.janitor_key true w

-- What Destroy leaves: a region of zeros that was given up, and an arena that refuses every Acquire
-- and every borrow.
pub record Destroyed (id : ℕ) (r : World × Arena × Err) : Type 0 where
  pub region : Wiped id r.0
  pub acquires : (m : Mapping) → acquire r.1 m ≡ (r.1, err destroyed)
  pub borrows :
      (m : Mapping) (s : Slot) (fn : Callback)
      → with_bytes_err r.1 m s fn ≡ some (m, fail destroyed)
  pub reported : r.1.released ≡ true

-- Destroy of an open arena whose registration is in either set, and whose slab can be made writable,
-- leaves every byte of the slab zero, canary strips included, and the slab given up; from then on
-- Acquire and every borrow report ErrDestroyed, and IsDestroyed reports true.
pub destroy-Destroyed_arena :
    (os : System) (pat : Pattern) (a : Arena) (w : World) (r : JanitorRegion)
    → a.open_region ≡ true
    → peek_any a.janitor_key w.janitor ≡ some r
    → os.restore r.id ≡ []
    → Destroyed r.id (destroy os pat a w)
unfolding destroy acquire with_bytes_err
destroy-Destroyed_arena os pat a w r here filed grant = record {
  region =
      subst (Wiped r.id) (ground arith)
        (Freed-Wiped r w (release-Freed os pat a.janitor_key true w r filed grant));
  acquires = λ m. ground arith;
  borrows = λ m s fn. ground arith;
  reported = ground arith;
}
