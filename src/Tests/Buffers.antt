-- ===== src/Tests/Buffers.antt =====
-- securebuf.go on one buffer of three bytes, with a cipher that adds one to every byte.
use secmem.Prelude.{
  ℕ, List, replicate, length, length-replicate, suc, ◌-◌, ◌≤◌, ◌≡◌, refl, true, false, none, some,
  [], ◌∷◌, map, slice, inr, arith,
}
use secmem.Errors.{Result, ok, err, os_failure}
use secmem.Canary.{fill_canary, no_canary}
use secmem.KeyMap.{insert, lookup}
use secmem.Region.{Mapping, prot_none, prot_rw, zeros}
use secmem.Quarantine.{default_limits}
use secmem.Registry.{register, JanitorRegion, peek_any}
use secmem.Registry.Memory.{World}
use secmem.Arena.New.{gate_insecure, Config, Platform}
use secmem.Buffer.{
  Buffer, Calls, rest_protection, truncate, refuse, wipe_tail, truncated, open_use, close_use,
}
use secmem.Buffer.Seal.{
  Auth, seal, unseal, unsealed, seal_lift, seal_bytes, seal_tagging, seal_authenticate, take_tag,
  seal_close,
}
use secmem.Buffer.Plain.{Holds, seal-Holds}
use secmem.Buffer.Unsealed.{unseal-seal}
use secmem.Buffer.Lifecycle.{
  Env, destroy, new_buffer, fresh_buffer, allocate, new_secure_buffer, close_at_birth, filled,
  fill_initial, copy_in, abandon,
}
use secmem.Buffer.Filled.{new_buffer-holds}
use secmem.Buffer.Lifetime.{Destroyed, destroy-Destroyed}

abbrev cfg : Config
cfg = record { insecure_fallback = false; unauthenticated_seal = false; closed_at_rest = false }

abbrev granted : Calls
granted = record {
  open_protect = [];
  open_relock = [];
  open_back = [];
  close_protect = [];
  change = [];
  lift = [];
  relock = [];
  back = [];
  protect_none = [];
  restore = [];
  reapply = [];
  encrypt = λ xs. ((map suc xs, true), []);
  decrypt = λ xs. (map (λ x. x - 1) xs, []);
}

abbrev auth : Auth
auth = record {
  compute_tag = λ prekey id nonce inner. id ∷ nonce;
  prekey = ok (1 ∷ [], 5);
  nonce = ok (9 ∷ []);
}

abbrev buffer : Buffer
buffer = fresh_buffer cfg 3 7 1

abbrev region : Mapping
region = record {
  inner = 4 ∷ 5 ∷ 6 ∷ [];
  prot = prot_rw;
  mapped = true;
  wiped = false;
  cipher = false;
}

abbrev buffer_sealed : Buffer
buffer_sealed = record buffer {
  sealed = true;
  seal_tagged = true;
  seal_gen = 5;
  seal_nonce = 9 ∷ [];
  seal_tag = 1 ∷ 9 ∷ [];
}

abbrev region_sealed : Mapping
region_sealed = record region { inner = 5 ∷ 6 ∷ 7 ∷ []; prot = prot_none; cipher = true }

seals : seal auth granted buffer region ≡ (buffer_sealed, region_sealed, [])
unfolding seal seal_lift seal_bytes seal_tagging seal_authenticate take_tag seal_close
seals = refl

-- The tag fails, and the encryption is undone.
abbrev untagged : Auth
untagged = record auth { nonce = err os_failure }

seal-Holds_example :
    Holds region.inner (granted.encrypt region.inner).0.0 (seal untagged granted buffer region)
seal-Holds_example = seal-Holds untagged granted buffer region refl refl (inr (refl, inr refl))

unseal-seal_example : unseal auth granted buffer_sealed region_sealed ≡ (
  unsealed buffer_sealed,
  record region_sealed { inner = 4 ∷ 5 ∷ 6 ∷ []; cipher = false; prot = rest_protection buffer },
  [],
)
unseal-seal_example =
    unseal-seal auth granted granted buffer region refl refl refl refl seals refl refl refl refl
      (λ e. absurd (ground arith))

unseal-again : unseal auth granted buffer_sealed region_sealed ≡ (
  unsealed buffer_sealed,
  record region_sealed { inner = 4 ∷ 5 ∷ 6 ∷ []; cipher = false; prot = rest_protection buffer },
  [],
)
unseal-again =
    unseal-seal auth granted granted buffer region refl refl refl refl seals refl refl refl refl
      (λ e. absurd (ground arith))

abbrev entry : JanitorRegion
entry = record { id = 7; canary = no_canary; has_cipher = true }

abbrev env : Env
env = record {
  os = record {
    restore = λ id. [];
    advise = λ id. [];
    calls = record {
      supported = false;
      keeps_range = true;
      quarantine = λ r. [];
      free = λ r. [];
      release = λ r. [];
    };
    outer = λ id. 0;
  };
  calls = granted;
  auth = auth;
  pattern = none;
  insecure = false;
}

abbrev world : World
world = record {
  janitor = record { next_key = 1; regions = (1, entry) ∷ []; wiped = [] };
  mem = λ id. region_sealed;
  quarantine = record { limits = default_limits 64; held = []; bytes = 0 };
}

destroy-Destroyed_example : Destroyed buffer_sealed (destroy env buffer_sealed world)
unfolding peek_any lookup
destroy-Destroyed_example = destroy-Destroyed env buffer_sealed world entry refl refl refl refl

abbrev pf : Platform
pf = record { max_int = 9223372036854775807; secure = true; alloc = λ n. some (7, region) }

abbrev short : Mapping
short = record region { inner = 4 ∷ 0 ∷ 0 ∷ [] }

truncates : truncate granted 1 buffer region ≡ (record buffer { size = 1 }, short, [])
unfolding truncate refuse wipe_tail truncated open_use close_use
truncates = refl

abbrev roomy : Platform
roomy = record {
  max_int = 9223372036854775807;
  secure = true;
  alloc = λ n. some (7, record region { inner = replicate n 0 });
}

abbrev armed_env : Env
armed_env = record env { pattern = some (λ i. i) }

roomy_fits : (n id : ℕ) (m : Mapping) → roomy.alloc n ≡ some (id, m) → n ≤ length m.inner
roomy_fits n id m e = ground (arith, length-replicate {A = ℕ} n 0)

abbrev made : World × List ℕ × Result Buffer
made = new_buffer roomy armed_env cfg (4 ∷ 5 ∷ []) world

made_ok : made ≡ (made.0, zeros 2, ok (fresh_buffer cfg 2 7 2))
unfolding new_buffer allocate new_secure_buffer close_at_birth filled fill_initial open_use
    close_use copy_in abandon register lookup insert fill_canary gate_insecure
made_ok = refl

abbrev secret : List ℕ
secret = 4 ∷ 5 ∷ []

new_buffer-holds_example :
    ((fresh_buffer cfg 2 7 2).size ≡ 2)
    × (slice 0 2 (made.0.mem 7).inner ≡ secret)
    × (r : JanitorRegion) × (peek_any 2 made.0.janitor ≡ some r)
    × (r.id ≡ 7)
new_buffer-holds_example = new_buffer-holds roomy armed_env cfg secret world roomy_fits made_ok
