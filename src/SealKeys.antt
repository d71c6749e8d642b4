-- ===== src/SealKeys.antt =====
-- sealauth.go, sealKeyring: the process's prekey, how it is made and made again after a wipe, and how
-- a caller gets it.
pub mod Served
pub mod Cleanup
pub mod Rewiped
use secmem.Prelude.{
  ℕ, ◌+◌, Bool, true, false, not, if◌then◌else◌, ◌==◌, Option, none, some, List, [], ◌∷◌, length,
  write,
}
use secmem.Errors.{Err, Error, Result, ok, err, wiped, invalid_argument, os_failure, key_collision}
use secmem.Canary.{Pattern, no_canary}
use secmem.Region.{Mapping, prot_read}
use secmem.Registry.{Janitor, JanitorRegion, register, u64}
use secmem.Registry.Memory.{System, World, set_mem, with_janitor, release}

-- sealKeyring. `region` is the identity of the region, its lock and its wiped flag, which are set and
-- dropped together.
pub record Keyring : Type 0 where
  pub region : Option ℕ
  pub key : ℕ
  -- A uint64.
  pub gen : ℕ

abbrev pub no_keys : Keyring
no_keys = record { region = none; key = 0; gen = 0 }

-- What initLocked rests on: the registry's system, allocSecretMem (the new mapping under its identity,
-- and the length of its data), what rand.Read puts in the region and reports, and mprotect.
pub record Source : Type 0 where
  pub os : System
  pub pattern : Pattern
  pub alloc : Option (ℕ × Mapping × ℕ)
  pub random : List ℕ × Err
  pub protect : Err

-- A wiped predecessor's registration is given back.
unfoldable pub reclaim : Source → Keyring → World → Keyring × World
reclaim s k w = elim k.region [
  | none ↦ (k, w)
  | some id ↦ (record k { region = none; key = 0 }, (release s.os s.pattern k.key false w).0)
]

abbrev pub prekey_entry : ℕ → JanitorRegion
prekey_entry id = record { id = id; canary = no_canary; has_cipher = false }

-- initLocked from the fill on: a failure gives the new registration back.
unfoldable pub fill_prekey : Source → ℕ → ℕ → Mapping → Keyring → World → Keyring × World × Result ℕ
unfolding set_mem
fill_prekey s id key m k w = elim s.random.1 [
  | e ∷ es ↦ (k, (release s.os s.pattern key false filled).0, err e)
  | [] ↦ elim s.protect [
    | e ∷ es ↦ (k, (release s.os s.pattern key false filled).0, err e)
    | [] ↦ (
      record { region = some id; key = key; gen = u64 (k.gen + 1) },
      set_mem id (record m { inner = write 0 s.random.0 m.inner; prot = prot_read }) filled,
      ok id,
    )
  ]
]
  where
    filled : World
    filled = set_mem id (record m { inner = write 0 s.random.0 m.inner }) w

-- initLocked with the old region gone.
unfoldable pub make_prekey : Source → Keyring → World → Keyring × World × Result ℕ
unfolding set_mem fill_prekey
make_prekey s k w = elim s.alloc [
  | none ↦ (k, w, err os_failure)
  | some (id, m, size) ↦
      if not (size == length m.inner)
      then (k, w, err invalid_argument)
      else elim (register (prekey_entry id) w.janitor).1 [
        | none ↦ (k, with_janitor (register (prekey_entry id) w.janitor).0 w, err key_collision)
        | some key ↦
            fill_prekey s id key m k
              (with_janitor (register (prekey_entry id) w.janitor).0 (set_mem id m w))
      ]
]

-- initLocked; on success, the identity of the prekey's region.
unfoldable pub init_locked : Source → Keyring → World → Keyring × World × Result ℕ
unfolding reclaim make_prekey
init_locked s k w = make_prekey s (reclaim s k w).0 (reclaim s k w).1

-- withPrekey under the shared lock: the prekey and its generation for `fn`, or the refusal.
unfoldable pub lend : ℕ → ℕ → World → Result (List ℕ × ℕ)
lend id gen w = if (w.mem id).wiped then err wiped else ok ((w.mem id).inner, gen)

-- withPrekey past initLocked. `others` is what other goroutines do before the shared lock is taken.
unfoldable pub lend_made :
    (World → World) → Keyring × World × Result ℕ → Keyring × World × Result (List ℕ × ℕ)
unfolding lend
lend_made others (k, w, err e) = (k, w, err e)
lend_made others (k, w, ok id) = (k, others w, lend id k.gen (others w))

unfoldable pub with_prekey :
    Source → (World → World) → Keyring → World → Keyring × World × Result (List ℕ × ℕ)
unfolding lend_made init_locked
with_prekey s others k w = elim k.region [
  | none ↦ lend_made others (init_locked s k w)
  | some id ↦
      if (w.mem id).wiped
      then lend_made others (init_locked s k w)
      else lend_made others (k, w, ok id)
]
