-- ===== src/Arena/Construct.antt =====
-- securearena.go, NewArena: what a successful construction gives, and what it refuses.
use native.Mathlib.Nat.{div-add-mod}
use secmem.Prelude.{
  ℕ, ◌+◌, ◌-◌, ◌*◌, ◌/◌, ◌≤◌, ◌<◌, ◌≡◌, sym, subst, List, [], length, arith, Option-cases, inl, inr,
  true, false, some,
}
use secmem.Errors.{ok}
use secmem.Canary.{CanaryLayout, canary_len, arena_canary, arm, intact}
use secmem.Canary.Zones.{arm_lem, length-armed_all}
use secmem.Canary.Check.{intact-arm}
use secmem.Canary.Arena.{arena_zones-Ascending, mul_mono}
use secmem.Region.{Mapping}
use secmem.Registry.{Janitor, JanitorRegion, register}
use secmem.Registry.Sets.{Registers, register-Registers}
use secmem.Arena.{Arena, max_int32}
use secmem.Arena.Invariant.{Inv}
use secmem.Arena.Seed.{up_from, fresh_arena-Inv}
use secmem.Arena.New.{
  Config, Platform, gate_insecure, check_arguments, build, fresh_arena, new_arena,
}

-- What passes the checks: both sizes positive, a count that an int32 holds, and a slab size that an
-- int holds.
pub record Legal (pf : Platform) (cfg : Config) (slot_size count : ℕ) : Type 0 where
  pub slot_pos : 0 < slot_size
  pub count_pos : 0 < count
  pub count_small : count ≤ max_int32
  pub no_overflow : (slot_size + canary_len) * count ≤ pf.max_int
  pub slots_open : cfg.closed_at_rest ≡ false
  pub allowed : gate_insecure pf.secure cfg ≡ []

slab_fits :
    (slot_size count max_int : ℕ)
    → 0 < slot_size
    → 0 < count
    → slot_size ≤ max_int / count - 16
    → (slot_size + 16) * count ≤ max_int
slab_fits slot_size count max_int sp cp h = omega (
  arith,
  mul_mono (slot_size + 16) (max_int / count) count (omega arith),
  div-add-mod max_int count,
)

pub check_arguments-Legal :
    (pf : Platform) (cfg : Config) (slot_size count : ℕ)
    → check_arguments pf cfg slot_size count ≡ []
    → Legal pf cfg slot_size count
unfolding check_arguments
check_arguments-Legal pf cfg slot_size count h = record {
  slot_pos = ground arith;
  count_pos = ground arith;
  count_small = ground arith;
  no_overflow = slab_fits slot_size count pf.max_int (ground arith) (ground arith) (ground arith);
  slots_open = ground arith;
  allowed = ground arith;
}

-- What a new arena is: its arguments were legal, its index has every slot free in ascending order,
-- its strips are armed over a slab that the platform gave, and its key was not in use and is filed
-- with the slab's identity and the armed layout.
pub record Constructed (pf : Platform) (cfg : Config) (p : ℕ → ℕ) (slot_size count : ℕ)
    (j j' : Janitor) (a : Arena) (id : ℕ) (m : Mapping) : Type 0 where
  pub legal : Legal pf cfg slot_size count
  pub index : Inv a (up_from 0 count)
  pub armed :
      intact
        (some p)
        (arena_canary (slot_size + canary_len) slot_size count (length m.inner))
        m.inner
      ≡ true
  pub filed :
      Registers
        (record {
          id = id;
          canary = arena_canary (slot_size + canary_len) slot_size count (length m.inner);
          has_cipher = false;
        })
        j
        j'
        a.janitor_key

abbrev layout : ℕ → ℕ → Mapping → CanaryLayout
layout slot_size count m = arena_canary (slot_size + canary_len) slot_size count (length m.inner)

abbrev entry : ℕ → ℕ → ℕ → Mapping → JanitorRegion
entry slot_size count id m = record {
  id = id;
  canary = layout slot_size count m;
  has_cipher = false;
}

length-armed :
    (p : ℕ → ℕ) (slot_size count : ℕ) (m : Mapping)
    → length (arm (some p) (layout slot_size count m) m.inner).0 ≡ length m.inner
length-armed p slot_size count m =
    rw (arm_lem p (layout slot_size count m) m.inner) (length-armed_all p _ m.inner)

-- The key is no part of the index.
keyed-Inv : (a : Arena) (fs : List ℕ) (key : ℕ) → Inv a fs → Inv (record a { janitor_key = key }) fs
keyed-Inv a fs key v = record {
  sized = v.sized;
  narrow = v.narrow;
  strided = v.strided;
  chain = v.chain;
  ends = v.ends;
  distinct = v.distinct;
  free_even = v.free_even;
  live_odd = v.live_odd;
  counted = v.counted;
}

-- build succeeds only through a registration that was not refused.
build-ok :
    (p : ℕ → ℕ) (slot_size count : ℕ) (j : Janitor) (id : ℕ) (m : Mapping) {j' : Janitor}
    {a : Arena} {id' : ℕ} {m' : Mapping}
    → build (some p) slot_size count j (id, m) ≡ (j', ok (a, id', m'))
    → (register (entry slot_size count id m) j ≡ (j', some a.janitor_key))
      × (a ≡ record (fresh_arena slot_size count) { janitor_key = a.janitor_key })
      × (id' ≡ id)
      × (m' ≡ record m { inner = (arm (some p) (layout slot_size count m) m.inner).0 })
unfolding build
build-ok p slot_size count j id m h = (
  ground (arith, arm_lem p (layout slot_size count m) m.inner),
  ground (arith, arm_lem p (layout slot_size count m) m.inner),
  ground (arith, arm_lem p (layout slot_size count m) m.inner),
  ground (arith, arm_lem p (layout slot_size count m) m.inner),
)

build-Constructed :
    (pf : Platform) (cfg : Config) (p : ℕ → ℕ) (slot_size count : ℕ) (j : Janitor) (id : ℕ)
    (m : Mapping) {j' : Janitor} {a : Arena} {id' : ℕ} {m' : Mapping}
    → Legal pf cfg slot_size count
    → build (some p) slot_size count j (id, m) ≡ (j', ok (a, id', m'))
    → Constructed pf cfg p slot_size count j j' a id' m'
build-Constructed pf cfg p slot_size count j id m {j'} {a} {id'} {m'} legal h =
    let (filed, same_a, same_id, same_m) = build-ok p slot_size count j id m h in
    let long : length m'.inner ≡ length m.inner = rw same_m (length-armed p slot_size count m) in
    record {
      legal = legal;
      index =
          subst (λ b. Inv b (up_from 0 count)) (sym same_a)
            (keyed-Inv (fresh_arena slot_size count) (up_from 0 count) a.janitor_key
              (fresh_arena-Inv slot_size count legal.count_pos legal.count_small));
      armed =
          rw (long, same_m)
            (intact-arm p (layout slot_size count m) m.inner
              (arena_zones-Ascending (slot_size + canary_len) slot_size count (length m.inner)));
      filed = rw (long, same_id) (register-Registers (entry slot_size count id m) j filed);
    }

-- When NewArena succeeds, its arguments were legal, the slab size did not overflow an int, the index
-- is well-formed with every slot free in ascending order, the canary strips are armed, and the slab is
-- registered with the armed layout under a nonzero key that was not in use.
pub new_arena-ok :
    (pf : Platform) (cfg : Config) (p : ℕ → ℕ) (slot_size count : ℕ) (j : Janitor) {j' : Janitor}
    {a : Arena} {id : ℕ} {m : Mapping}
    → new_arena pf cfg (some p) slot_size count j ≡ (j', ok (a, id, m))
    → Constructed pf cfg p slot_size count j j' a id m
unfolding new_arena
new_arena-ok pf cfg p slot_size count j {j'} {a} {id} {m} h =
    elim (Option-cases (pf.alloc ((slot_size + canary_len) * count))) [
      | inl refused ↦ absurd (ground arith)
      | inr ((id0, m0), given) ↦
          build-Constructed pf cfg p slot_size count j id0 m0
            (check_arguments-Legal pf cfg slot_size count (ground arith)) (ground arith)
    ]
