-- ===== src/Registry.antt =====
-- registry.go: the janitor, its two sets of registrations and the operations on them.
pub mod Sets
pub mod Memory
pub mod Wipe
pub mod WipeAll
pub mod Release
use secmem.Prelude.{
  ℕ, ◌+◌, ◌^◌, ◌%◌, Bool, true, false, if◌then◌else◌, ◌==◌, Option, none, some, List, [],
}
use secmem.KeyMap.{lookup, delete, insert}
use secmem.Canary.{CanaryLayout, no_canary}

-- A janitorRegion. `id` is the identity of its region, its lock and its `wiped` flag; `has_cipher`
-- says whether its sealCipher pointer is set (a buffer) or nil (an arena, or a wiped entry).
pub record JanitorRegion : Type 0 where
  pub id : ℕ
  pub canary : CanaryLayout
  pub has_cipher : Bool

pub record Janitor : Type 0 where
  -- nextJanitorKey, a uint64 counter.
  pub next_key : ℕ
  pub regions : List (ℕ × JanitorRegion)
  pub wiped : List (ℕ × JanitorRegion)

-- What `init` leaves.
abbrev pub empty_janitor : Janitor
empty_janitor = record { next_key = 0; regions = []; wiped = [] }

abbrev pub u64 : ℕ → ℕ
u64 n = n % 2 ^ 64

abbrev pub is_some {ℓ} : {A : Type ℓ} → Option A → Bool
is_some none = false
is_some (some a) = true

-- register: the janitor after it, and the new key unless the registration is refused.
unfoldable pub register : JanitorRegion → Janitor → Janitor × Option ℕ
register r j =
    if key == 0
    then (counted, none)
    else if is_some (lookup key j.regions)
    then (counted, none)
    else if is_some (lookup key j.wiped)
    then (counted, none)
    else (record counted { regions = insert key r j.regions }, some key)
  where
    key : ℕ
    key = u64 (j.next_key + 1)

    counted : Janitor
    counted = record j { next_key = key }

-- take: the registration, out of the live set.
unfoldable pub take : ℕ → Janitor → Janitor × Option JanitorRegion
take key j = (record j { regions = delete key j.regions }, lookup key j.regions)

unfoldable pub take_wiped : ℕ → Janitor → Janitor × Option JanitorRegion
take_wiped key j = (record j { wiped = delete key j.wiped }, lookup key j.wiped)

unfoldable pub take_any : ℕ → Janitor → Janitor × Option JanitorRegion
unfolding take take_wiped
take_any key j = elim (lookup key j.regions) [ some r ↦ take key j | none ↦ take_wiped key j ]

unfoldable pub peek_any : ℕ → Janitor → Option JanitorRegion
peek_any key j = elim (lookup key j.regions) [ some r ↦ some r | none ↦ lookup key j.wiped ]

-- takeAnyIf: only the registration whose lock is `id`.
unfoldable pub take_any_if : ℕ → ℕ → Janitor → Janitor × Option JanitorRegion
take_any_if key id j = elim (lookup key j.regions) [
  | some r ↦ if r.id == id then (record j { regions = delete key j.regions }, some r) else (j, none)
  | none ↦ elim (lookup key j.wiped) [
    | some r ↦ if r.id == id then (record j { wiped = delete key j.wiped }, some r) else (j, none)
    | none ↦ (j, none)
  ]
]

-- The entry that the wiped set keeps: no canary zones, no seal-cipher flag.
abbrev pub retained : JanitorRegion → JanitorRegion
retained r = record r { canary = no_canary; has_cipher = false }

-- moveToWipedIf: the registration as it was, and whether it came from the live set.
unfoldable pub move_to_wiped_if : ℕ → ℕ → Janitor → Janitor × Option (JanitorRegion × Bool)
move_to_wiped_if key id j = elim (lookup key j.regions) [
  | some r ↦
      if r.id == id
      then (
        record j { regions = delete key j.regions; wiped = insert key (retained r) j.wiped },
        some (r, true),
      )
      else (j, none)
  | none ↦ elim (lookup key j.wiped) [
    | some r ↦ if r.id == id then (j, some (r, false)) else (j, none)
    | none ↦ (j, none)
  ]
]

unfoldable pub return_to_live : ℕ → JanitorRegion → Janitor → Janitor
return_to_live key r j = elim (lookup key j.wiped) [
  | some filed ↦
      if filed.id == r.id
      then record j { wiped = delete key j.wiped; regions = insert key r j.regions }
      else j
  | none ↦ j
]
