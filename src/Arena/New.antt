-- ===== src/Arena/New.antt =====
-- securearena.go, NewArena: the checks, the slab, the canary strips, the seeded free list and the
-- registration, in that order. options.go: the gate on platforms with no secure memory.
use secmem.Prelude.{
  ℕ, zero, suc, ◌+◌, ◌-◌, ◌*◌, ◌/◌, Bool, true, false, if◌then◌else◌, ltb, ◌==◌, Option, none, some,
  List, [], ◌∷◌, length, set,
}
use secmem.Errors.{
  Err, Result, ok, err, fail, invalid_argument, no_secure_memory, os_failure, key_collision,
}
use secmem.Canary.{Pattern, CanaryLayout, canary_len, arena_canary, arm}
use secmem.Region.{Mapping}
use secmem.Registry.{Janitor, register}
use secmem.Arena.{Arena, SlotMeta, minus_one, max_int32, i32}

-- The fields of a config that the constructors read.
pub record Config : Type 0 where
  pub insecure_fallback : Bool
  pub unauthenticated_seal : Bool
  pub closed_at_rest : Bool

unfoldable pub gate_insecure : Bool → Config → Err
gate_insecure platform_secure cfg =
    if platform_secure then [] else if cfg.insecure_fallback then [] else fail no_secure_memory

-- What the platform answers: the largest int, whether it has lockable memory, and the allocation of
-- n bytes, which is the new mapping with its identity, or none for an error of the system.
pub record Platform : Type 0 where
  pub max_int : ℕ
  pub secure : Bool
  pub alloc : ℕ → Option (ℕ × Mapping)

-- The loop that seeds the free list, with k slots to go from slot i: `next = int32(i + 1)`.
unfoldable pub seed : ℕ → ℕ → List SlotMeta
seed zero i = []
seed (suc k) i = record { generation = 0; next = i32 (i + 1) } ∷ seed k (suc i)

-- `slots[count-1].next = -1`.
unfoldable pub seeded : ℕ → List SlotMeta
unfolding seed
seeded count = set (seed count 0) (count - 1) (record { generation = 0; next = minus_one })

-- The arena over an armed slab, before its key is known.
unfoldable pub fresh_arena : ℕ → ℕ → Arena
unfolding seeded
fresh_arena slot_size count = record {
  open_region = true;
  read_only = false;
  slots = seeded count;
  free_head = 0;
  free_tail = i32 (count - 1);
  live = 0;
  slot_size = slot_size;
  stride = slot_size + canary_len;
  count = count;
  destroyed = false;
  released = false;
  janitor_key = 0;
}

-- The arguments that are refused before anything is allocated.
unfoldable pub check_arguments : Platform → Config → ℕ → ℕ → Err
unfolding gate_insecure
check_arguments pf cfg slot_size count =
    if cfg.closed_at_rest
    then fail invalid_argument
    else if slot_size == 0
    then fail invalid_argument
    else if count == 0
    then fail invalid_argument
    else if ltb max_int32 count
    then fail invalid_argument
    else if ltb (pf.max_int / count - canary_len) slot_size
    then fail invalid_argument
    else gate_insecure pf.secure cfg

-- The slab is armed, indexed and registered. A refused registration gives the slab back.
unfoldable pub build :
    Pattern → ℕ → ℕ → Janitor → ℕ × Mapping → Janitor × Result (Arena × ℕ × Mapping)
unfolding fresh_arena
build pat slot_size count j (id, m) = elim (arm pat canary m.inner).1 [
  | e ∷ es ↦ (j, err os_failure)
  | [] ↦ registered (register (record { id = id; canary = canary; has_cipher = false }) j)
]
  where
    canary : CanaryLayout
    canary = arena_canary (slot_size + canary_len) slot_size count (length m.inner)

    registered : Janitor × Option ℕ → Janitor × Result (Arena × ℕ × Mapping)
    registered (j', none) = (j', err key_collision)
    registered (j', some key) = (
      j',
      ok (
        record (fresh_arena slot_size count) { janitor_key = key },
        id,
        record m { inner = (arm pat canary m.inner).0 },
      ),
    )

-- NewArena: the janitor after it, and the arena with its slab.
unfoldable pub new_arena :
    Platform → Config → Pattern → ℕ → ℕ → Janitor → Janitor × Result (Arena × ℕ × Mapping)
unfolding check_arguments build
new_arena pf cfg pat slot_size count j = elim (check_arguments pf cfg slot_size count) [
  | e ∷ es ↦ (j, err e)
  | [] ↦ elim (pf.alloc ((slot_size + canary_len) * count)) [
    | none ↦ (j, err os_failure)
    | some slab ↦ build pat slot_size count j slab
  ]
]
