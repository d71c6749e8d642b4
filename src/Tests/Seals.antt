-- ===== src/Tests/Seals.antt =====
-- sealauth.go on a keyring that has no prekey, one whose random source fails, and one after a wipe.
use secmem.Prelude.{
  ℕ, ◌≡◌, refl, ◌⊎◌, inr, true, false, none, some, List, [], ◌∷◌, ◌%◌, ◌^◌, length, replicate, take,
  arith, length-replicate,
}
use secmem.Errors.{Error, ok, err, fail, os_failure, wiped}
use secmem.Canary.{no_canary}
use secmem.KeyMap.{lookup}
use secmem.Region.{Mapping, prot_rw, zeros}
use secmem.Quarantine.{Calls}
use secmem.Registry.{register, peek_any, empty_janitor}
use secmem.Registry.Sets.{empty-Apart}
use secmem.Registry.Memory.{System, World, set_mem, wipe_all_in_place}
use secmem.Buffer.{Buffer}
use secmem.Buffer.Seal.{Auth, seal_verify}
use secmem.SealTag.{seal_compute_tag, no_prf, tag_len}
use secmem.SealTag.Mac.{hmac, seal_compute_tag-hmac}
use secmem.SealTag.Message.{fields, seal_message-injective}
use secmem.SealKeys.{
  Keyring, Source, no_keys, reclaim, fill_prekey, make_prekey, init_locked, lend, lend_made,
  with_prekey,
}
use secmem.SealKeys.Served.{Lent, with_prekey-Lent}
use secmem.SealKeys.Cleanup.{init_locked-fails}
use secmem.SealKeys.Rewiped.{seal_verify-after_wipe}

-- Not SHA-512, but as long: the length of the text, 64 times.
abbrev digest : List ℕ → List ℕ
digest b = replicate 64 (length b)

abbrev salt : List ℕ
salt = replicate 16 7

seal_compute_tag-hmac_example :
    ((seal_compute_tag digest (1 ∷ 2 ∷ []) 3 salt (4 ∷ [])).1
      ≡ take tag_len (hmac digest (digest (1 ∷ 2 ∷ [])) (fields 3 salt 1 (digest (4 ∷ [])))))
    × ((seal_compute_tag digest (1 ∷ 2 ∷ []) 3 salt (4 ∷ [])).0 ≡ no_prf)
seal_compute_tag-hmac_example =
    seal_compute_tag-hmac digest (λ b. length-replicate {A = ℕ} 64 (length b)) (1 ∷ 2 ∷ []) 3 salt
      (4 ∷ []) refl

abbrev id : ℕ
id = 3

abbrev size : ℕ
size = 5

seal_message-injective_example :
    (id ≡ id)
    × (salt ≡ salt)
    × (size % 2 ^ 64 ≡ size % 2 ^ 64)
    × (digest (4 ∷ []) ≡ digest (4 ∷ []))
seal_message-injective_example =
    seal_message-injective id id salt salt size size (digest (4 ∷ [])) (digest (4 ∷ []))
      (omega arith) (omega arith) refl refl refl refl refl

abbrev calls : Calls
calls = record {
  supported = false;
  keeps_range = false;
  quarantine = λ r. [];
  free = λ r. [];
  release = λ r. [];
}

abbrev os : System
os = record { restore = λ id. []; advise = λ id. []; calls = calls; outer = λ id. 4096 }

abbrev blank : Mapping
blank = record { inner = zeros 2; prot = prot_rw; mapped = true; wiped = false; cipher = false }

abbrev source : Source
source = record {
  os = os;
  pattern = none;
  alloc = some (9, blank, 2);
  random = (3 ∷ 4 ∷ [], []);
  protect = [];
}

abbrev start : World
start = record {
  janitor = empty_janitor;
  mem = λ id. blank;
  quarantine = record { limits = record { regions = 2; bytes = 10000 }; held = []; bytes = 0 };
}

abbrev ring : Keyring
ring = record { region = some 9; key = 1; gen = 1 }

with_prekey-Lent_example :
    Lent [] source no_keys ring (with_prekey source (λ w. w) no_keys start).1 (3 ∷ 4 ∷ []) 1
unfolding with_prekey init_locked reclaim make_prekey fill_prekey lend lend_made register set_mem
    lookup
with_prekey-Lent_example =
    with_prekey-Lent source (λ w. w) no_keys start [] (record { untouched = λ w id d. (d, refl) })
      (record { kept = λ id f d. absurd (ground arith) }) refl

-- A random source that fails.
abbrev dry : Source
dry = record source { random = ([], fail os_failure) }

init_locked-fails_example :
    ((init_locked dry no_keys start).0.region ≡ none)
    × ((init_locked dry no_keys start).0.gen ≡ 0)
    × ((i : ℕ) → peek_any i (init_locked dry no_keys start).1.janitor ≡ peek_any i start.janitor)
unfolding init_locked reclaim make_prekey fill_prekey register lookup
init_locked-fails_example = init_locked-fails dry no_keys start {x = os_failure} empty-Apart refl

-- The prekey of `ring` is registered.
abbrev registered : World
registered = record start {
  janitor = record {
    next_key = 1;
    regions = (1, record { id = 9; canary = no_canary; has_cipher = false }) ∷ [];
    wiped = [];
  };
}

abbrev sealed_buffer : Buffer
sealed_buffer = record {
  present = true;
  id = 5;
  size = 2;
  janitor_key = 2;
  sealed = true;
  read_only = false;
  seal_auth = true;
  seal_tagged = true;
  seal_gen = 1;
  seal_nonce = salt;
  seal_tag = [];
  closed_at_rest = false;
  openers = 0;
}

abbrev auth : Auth
auth = record {
  compute_tag = λ prekey id nonce b. (seal_compute_tag digest prekey id nonce b).1;
  prekey =
      (with_prekey source (λ w. w) ring
        (wipe_all_in_place os none (λ id. true) (λ ks. ks) registered).0).2;
  nonce = ok salt;
}

seal_verify-after_wipe_example :
    (seal_verify auth (6 ∷ []) sealed_buffer ≡ fail wiped)
    ⊎ ((x : Error) × (auth.prekey ≡ err x) × (seal_verify auth (6 ∷ []) sealed_buffer ≡ fail x))
unfolding peek_any lookup
seal_verify-after_wipe_example =
    seal_verify-after_wipe source none (λ w. w) (λ id. true) (λ ks. ks) ring 9 registered auth
      (6 ∷ []) sealed_buffer (λ ks h. h) (record { apart = λ k. inr refl }) refl refl refl refl refl
