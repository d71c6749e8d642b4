-- ===== src/Arena.antt =====
-- securearena.go: the slot pool. An operation takes the arena's state and the mapping of its slab,
-- and returns both; None is a fault of the page protection. The handles are not nil, and the locks
-- are those of BufferLock: each operation here is one that holds the locks which its source takes.
pub mod New
pub mod Construct
pub mod FreeList
pub mod Invariant
pub mod Acquire
pub mod Pigeonhole
pub mod Push
pub mod Claim
pub mod Wipe
pub mod Borrow
pub mod History
pub mod Seed
pub mod Release
pub mod Destroy
use secmem.Prelude.{
  ℕ, zero, suc, ◌+◌, ◌-◌, ◌*◌, ◌/◌, ◌%◌, ◌^◌, Bool, true, false, not, ◌&&◌, ◌||◌, if◌then◌else◌,
  ltb, leb, ◌==◌, Option, none, some, List, [], ◌∷◌, length, get_or, set, slice, write,
}
use secmem.Prelude.Lists
use secmem.Errors.{
  Err, fail, Result, ok, err, destroyed, wiped, read_only, arena_full, slot_released,
  canary_violation,
}
use secmem.Canary.{Pattern, canary_intact, fill_canary}
use secmem.Region.{
  Mapping, Prot, prot_read, prot_rw, load, store, secure_wipe, readable, writable, ◌>>=◌,
}

-- An int32, by its bit pattern.
abbrev pub minus_one : ℕ
minus_one = 4294967295

abbrev pub is_negative : ℕ → Bool
is_negative n = leb 2147483648 n

abbrev pub max_int32 : ℕ
max_int32 = 2147483647

abbrev pub i32 : ℕ → ℕ
i32 n = n % 2 ^ 32

abbrev pub u64 : ℕ → ℕ
u64 n = n % 2 ^ 64

pub record SlotMeta : Type 0 where
  -- uint64; even is free, odd is live.
  pub generation : ℕ
  -- int32; -1 ends the list.
  pub next : ℕ

-- arenaState. `open` is `region.inner != nil`; the mapping, the lock and `wiped` are in the Mapping.
pub record Arena : Type 0 where
  pub open_region : Bool
  pub read_only : Bool
  pub slots : List SlotMeta
  pub free_head : ℕ
  pub free_tail : ℕ
  pub live : ℕ
  pub slot_size : ℕ
  pub stride : ℕ
  pub count : ℕ
  pub destroyed : Bool
  pub released : Bool
  pub janitor_key : ℕ

-- An ArenaSlot of this arena.
pub record Slot : Type 0 where
  pub idx : ℕ
  pub generation : ℕ

abbrev pub no_meta : SlotMeta
no_meta = record { generation = 0; next = minus_one }

abbrev pub meta : Arena → ℕ → SlotMeta
meta a i = get_or a.slots i no_meta

abbrev pub set_next : Arena → ℕ → ℕ → Arena
set_next a i n = record a { slots = set a.slots i (record (meta a i) { next = n }) }

abbrev pub set_generation : Arena → ℕ → ℕ → Arena
set_generation a i g = record a { slots = set a.slots i (record (meta a i) { generation = g }) }

-- Acquire, once its three refusals are past: the slot at the head of the free list.
unfoldable pub acquire_head : Arena → Arena × Slot
acquire_head a = (
  record (set_generation detached i gen) { live = a.live + 1 },
  record { idx = i; generation = gen },
)
  where
    i : ℕ
    i = a.free_head

    head : ℕ
    head = (meta a i).next

    popped : Arena
    popped = record a {
      free_head = head;
      free_tail = if is_negative head then minus_one else a.free_tail;
    }

    detached : Arena
    detached = set_next popped i minus_one

    gen : ℕ
    gen = u64 ((meta detached i).generation + 1)

unfoldable pub acquire : Arena → Mapping → Arena × Result Slot
acquire a m =
    if a.destroyed
    then (a, err destroyed)
    else if m.wiped
    then (a, err wiped)
    else if is_negative a.free_head
    then (a, err arena_full)
    else (let (b, s) = acquire_head a in (b, ok s))

abbrev pub is_live : Arena → Slot → Bool
is_live a s = (meta a s.idx).generation == s.generation

-- What a callback does with the bytes that it borrows: the bytes that it writes over them, if it
-- writes at all, and its error.
abbrev pub Callback : Type 0
Callback = List ℕ → Option (List ℕ) × Err

abbrev pub no_write : Mapping → Option Mapping
no_write m = some m

-- The slice that the callback gets is clamped to the slot: what it writes ends with the slot.
abbrev pub write_back : ℕ → ℕ → Option (List ℕ) → Mapping → Option Mapping
write_back start n none m = some m
write_back start n (some bytes) m = store start (Lists.take n bytes) m

unfoldable pub with_bytes_err : Arena → Mapping → Slot → Callback → Option (Mapping × Err)
unfolding load store
with_bytes_err a m s fn =
    if a.destroyed
    then some (m, fail destroyed)
    else if not a.open_region
    then some (m, fail destroyed)
    else if m.wiped
    then some (m, fail wiped)
    else if not (is_live a s)
    then some (m, fail slot_released)
    else (load start a.slot_size m >>= λ b.
        write_back start a.slot_size (fn b).0 m >>= λ m'. some (m', (fn b).1))
  where
    start : ℕ
    start = s.idx * a.stride

-- The strip check of Release and its re-arming: whether the strip was violated.
unfoldable pub check_strip : Pattern → Arena → Mapping → Slot → Option (Mapping × Bool)
unfolding load store
check_strip pat a m s =
    if m.wiped
    then some (m, false)
    else (load end (a.stride - a.slot_size) m >>= λ strip.
        if canary_intact pat strip
        then some (m, false)
        else (store end (fill_canary pat strip).0 m >>= λ m'. some (m', true)))
  where
    end : ℕ
    end = s.idx * a.stride + a.slot_size

-- The claimed slot goes back to the tail of the free list.
unfoldable pub push_tail : Arena → ℕ → Arena
push_tail a i =
    if is_negative a.free_tail
    then record cleared { free_head = i; free_tail = i }
    else record (set_next cleared a.free_tail i) { free_tail = i }
  where
    cleared : Arena
    cleared = set_next (record a { live = a.live - 1 }) i minus_one

-- The wipe of a claimed slot while the slab is there.
unfoldable pub scrub_slot : Pattern → Arena → Mapping → Slot → Option (Mapping × Bool)
unfolding check_strip secure_wipe
scrub_slot pat a m s = check_strip pat a m s >>= λ r.
    secure_wipe (s.idx * a.stride) a.slot_size r.0 >>= λ m'. some (m', r.1)

-- What follows the claim: the wipe if the slab is there, then the push.
unfoldable pub finish_release : Pattern → Arena → Mapping → Slot → Option (Arena × Mapping × Err)
finish_release pat a m s =
    (if a.open_region then scrub_slot pat a m s else some (m, false)) >>= λ r.
    some (push_tail a s.idx, r.0, if r.1 then fail canary_violation else [])

-- Release. The claim is the compare-and-swap of the generation; nothing runs between the early check
-- and it here, so it fails only when the early check has returned already.
unfoldable pub release : Pattern → Arena → Mapping → Slot → Option (Arena × Mapping × Err)
release pat a m s =
    if not (is_live a s)
    then some (a, m, [])
    else if a.open_region && (a.read_only && not m.wiped)
    then some (a, m, fail read_only)
    else finish_release pat (set_generation a s.idx (u64 (s.generation + 1))) m s

-- ReadOnly and ReadWrite; `refused` is mprotect's answer.
unfoldable pub protect : Bool → Prot → Arena → Mapping → Arena × Mapping × Err
protect to_read prot a m = (record a { read_only = to_read }, record m { prot = prot }, [])

unfoldable pub set_protection : Bool → Err → Arena → Mapping → Arena × Mapping × Err
unfolding protect
set_protection to_read refused a m =
    if not a.open_region
    then (a, m, fail destroyed)
    else if m.wiped
    then (a, m, fail wiped)
    else elim refused [
      | [] ↦ protect to_read (if to_read then prot_read else prot_rw) a m
      | e ∷ es ↦ (a, m, e ∷ es)
    ]

abbrev pub make_read_only : Err → Arena → Mapping → Arena × Mapping × Err
make_read_only = set_protection true

abbrev pub make_read_write : Err → Arena → Mapping → Arena × Mapping × Err
make_read_write = set_protection false
