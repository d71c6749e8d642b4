-- ===== src/Tests/Wipes.antt =====
-- registry.go and quarantine.go on two registrations, one of them behind a held lock.
use secmem.Prelude.{◌≡◌, refl, true, false, ◌==◌, none, [], ◌∷◌, inr, arith}
use secmem.Errors.{fail, os_failure}
use secmem.Canary.{no_canary}
use secmem.KeyMap.{lookup}
use secmem.Region.{Mapping, prot_none}
use secmem.Quarantine.{
  Quarantine, Calls, admits, replaced, enqueue, trim_loop, add_u64, retire_secret_mem,
}
use secmem.Quarantine.Fifo.{Valid, total, Retired, retire_secret_mem-Valid}
use secmem.Arena.{Arena}
use secmem.Arena.New.{fresh_arena}
use secmem.Arena.Destroy.{destroy, Destroyed, destroy-Destroyed_arena}
use secmem.Registry.{JanitorRegion, peek_any}
use secmem.Registry.Sets.{Apart}
use secmem.Registry.Memory.{System, World, wipe_all_in_place, release}
use secmem.Registry.Wipe.{Cleared, Tracks}
use secmem.Registry.WipeAll.{wipe_all_in_place-Cleared, wipe_all_in_place-Tracks}
use secmem.Registry.Release.{release-once}

abbrev calls : Calls
calls = record {
  supported = true;
  keeps_range = false;
  quarantine = λ r. [];
  free = λ r. [];
  release = λ r. [];
}

-- Region 8 cannot be made writable.
abbrev os : System
os = record {
  restore = λ id. elim (id == 8) [ true ↦ fail os_failure | false ↦ [] ];
  advise = λ id. [];
  calls = calls;
  outer = λ id. 4096;
}

abbrev held : Quarantine
held = record {
  limits = record { regions = 2; bytes = 10000 };
  held = record { id = 1; size = 4096 } ∷ record { id = 2; size = 4096 } ∷ [];
  bytes = 8192;
}

held-Valid : Valid held
unfolding total
held-Valid = record { counted = refl; few = omega arith; small = omega arith }

retire_secret_mem-Valid_example :
    Valid (retire_secret_mem calls (record { id = 3; size = 4096 }) held).0
    × Retired calls
        (record { id = 3; size = 4096 })
        held
        (retire_secret_mem calls (record { id = 3; size = 4096 }) held)
unfolding total
retire_secret_mem-Valid_example =
    retire_secret_mem-Valid calls (record { id = 3; size = 4096 }) held held-Valid (omega arith)

-- The third range is held and the oldest goes.
evicts_oldest :
    (retire_secret_mem calls (record { id = 3; size = 4096 }) held).1
    ≡ record { id = 1; size = 4096 } ∷ []
unfolding retire_secret_mem admits replaced enqueue trim_loop add_u64
evicts_oldest = refl

abbrev entry : JanitorRegion
entry = record { id = 7; canary = no_canary; has_cipher = true }

abbrev stuck : JanitorRegion
stuck = record { id = 8; canary = no_canary; has_cipher = false }

abbrev secret : Mapping
secret = record {
  inner = 5 ∷ 6 ∷ [];
  prot = prot_none;
  mapped = true;
  wiped = false;
  cipher = true;
}

abbrev world : World
world = record {
  janitor = record { next_key = 2; regions = (2, stuck) ∷ (1, entry) ∷ []; wiped = [] };
  mem = λ id. secret;
  quarantine = held;
}

sets : Apart world.janitor
unfolding lookup
sets = record { apart = λ k. inr refl }

wipe_all_in_place-Cleared_example :
    Cleared (wipe_all_in_place os none (λ id. true) (λ ks. ks) world).0 7
unfolding peek_any lookup
wipe_all_in_place-Cleared_example =
    wipe_all_in_place-Cleared os none (λ id. true) (λ ks. ks) 1 7 world (λ ks h. h) sets refl refl

wipe_all_in_place-Tracks_example :
    Tracks 2 8 (wipe_all_in_place os none (λ id. true) (λ ks. ks) world).0
unfolding peek_any lookup
wipe_all_in_place-Tracks_example =
    wipe_all_in_place-Tracks os none (λ id. true) (λ ks. ks) 2 8 world
      (record { filed = refl; sets = sets })

release-once_example :
    release os none 1 false (release os none 1 true world).0
    ≡ ((release os none 1 true world).0, [])
release-once_example = release-once os os none 1 true false world sets

-- An arena over region 7.
abbrev pool : Arena
pool = record (fresh_arena 2 3) { janitor_key = 1 }

destroy-Destroyed_arena_example : Destroyed 7 (destroy os none pool world)
unfolding peek_any lookup fresh_arena
destroy-Destroyed_arena_example = destroy-Destroyed_arena os none pool world entry refl refl refl
