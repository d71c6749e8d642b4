-- ===== src/Buffer/Lifecycle.antt =====
-- securebuf.go, the constructors and Destroy: the buffer with the janitor, the mappings and the
-- quarantine around it. A region that a failing constructor gives back unregistered is not filed in
-- the result.
use secmem.Prelude.{
  ℕ, Bool, true, false, not, ◌&&◌, ◌||◌, if◌then◌else◌, ◌==◌, Option, none, some, List, [], ◌∷◌,
  ◌++◌, length, write,
}
use secmem.Prelude.Lists
use secmem.Errors.{
  Err, Result, ok, err, fail, is, wiped, integrity, invalid_argument, os_failure, key_collision,
}
use secmem.Canary.{Pattern, fill_canary, buffer_canary}
use secmem.Region.{Mapping, prot_none, prot_rw, zeros}
use secmem.Registry.{Janitor, JanitorRegion, register}
use secmem.Registry.Memory.{System, World, set_mem, with_janitor, release}
use secmem.Arena.New.{Config, Platform, gate_insecure}
use secmem.Buffer.{Buffer, Calls, open_use, close_use}
use secmem.Buffer.Seal.{Auth, seal_verify}

-- What an operation of a buffer rests on: the registry's calls, the buffer's own, the tag, the canary
-- pattern, and whether the allocation is the insecure fallback.
pub record Env : Type 0 where
  pub os : System
  pub calls : Calls
  pub auth : Auth
  pub pattern : Pattern
  pub insecure : Bool

-- Destroy checks the tag of a sealed buffer that was not emergency-wiped.
unfoldable pub to_verify : Buffer → Mapping → Bool
to_verify b m = b.sealed && (b.seal_tagged && not m.wiped)

-- A decryption before the release; on a failure the cipher flag stays.
unfoldable pub try_decrypt : Calls → Mapping → Mapping
try_decrypt c m =
    if m.cipher
    then (let (bytes, failure) = c.decrypt m.inner in
        elim failure [ e ∷ es ↦ m | [] ↦ record m { inner = bytes; cipher = false } ])
    else m

unfoldable pub integrity_err : Auth → Buffer → Mapping → Err
unfolding to_verify
integrity_err a b m =
    if to_verify b m
    then (if is (seal_verify a m.inner b) integrity then seal_verify a m.inner b else [])
    else []

-- What Destroy does to the region before the release: a report, and a decryption.
unfoldable pub inspect : Env → Buffer → Mapping → Mapping × Err
unfolding to_verify try_decrypt integrity_err
inspect v b m =
    if to_verify b m || m.cipher
    then elim v.calls.lift [
      | e ∷ es ↦ (m, [])
      | [] ↦ (try_decrypt v.calls (record m { prot = prot_rw }), integrity_err v.auth b m)
    ]
    else (m, [])

unfoldable pub destroy : Env → Buffer → World → World × Buffer × Err
unfolding set_mem
destroy v b w = if not b.present then (w, b, []) else (
  released.0,
  record b { present = false; size = 0 },
  (inspect v b (w.mem b.id)).1 ++ released.1,
)
  where
    released : World × Err
    released =
        release v.os v.pattern b.janitor_key true (set_mem b.id (inspect v b (w.mem b.id)).0 w)

-- A constructor that fails destroys the buffer that it made, and drops what that reports.
unfoldable pub abandon : Env → Err → Buffer → World → World × Result Buffer
abandon v [] b w = (w, ok b)
abandon v (e ∷ es) b w = ((destroy v b w).0, err e)

-- newSecureBuffer's state, before it is closed.
abbrev pub fresh_buffer : Config → ℕ → ℕ → ℕ → Buffer
fresh_buffer cfg size id key = record {
  present = true;
  id = id;
  size = size;
  janitor_key = key;
  sealed = false;
  read_only = false;
  seal_auth = not cfg.unauthenticated_seal;
  seal_tagged = false;
  seal_gen = 0;
  seal_nonce = [];
  seal_tag = [];
  closed_at_rest = false;
  openers = 0;
}

-- The birth of a closed-at-rest buffer.
unfoldable pub close_at_birth : Env → Config → Buffer → World → World × Result Buffer
unfolding set_mem
close_at_birth v cfg b w =
    if cfg.closed_at_rest && not v.insecure
    then elim v.calls.protect_none [
      | e ∷ es ↦ abandon v (e ∷ es) b w
      | [] ↦ (
        set_mem b.id (record (w.mem b.id) { prot = prot_none }) w,
        ok (record b { closed_at_rest = true }),
      )
    ]
    else (w, ok b)

abbrev pub buffer_entry : ℕ → ℕ → Mapping → JanitorRegion
buffer_entry size id m = record {
  id = id;
  canary = buffer_canary size (length m.inner);
  has_cipher = true;
}

unfoldable pub new_secure_buffer : Env → Config → ℕ → ℕ → Mapping → World → World × Result Buffer
unfolding set_mem
new_secure_buffer v cfg size id m w = filed (register (buffer_entry size id m) w.janitor)
  where
    filed : Janitor × Option ℕ → World × Result Buffer
    filed (j, none) = (with_janitor j w, err key_collision)
    filed (j, some key) =
        close_at_birth v cfg (fresh_buffer cfg size id key) (with_janitor j (set_mem id m w))

-- What both constructors do up to newSecureBuffer: the gate, the allocation, the canary slack.
unfoldable pub allocate : Platform → Env → Config → ℕ → World → World × Result Buffer
allocate pf v cfg size w = elim (gate_insecure pf.secure cfg) [
  | e ∷ es ↦ (w, err e)
  | [] ↦ elim (pf.alloc size) [
    | none ↦ (w, err os_failure)
    | some slab ↦
        let (slack, failure) = fill_canary v.pattern (Lists.drop size slab.1.inner) in
        elim failure [
          | e ∷ es ↦ (w, err e)
          | [] ↦
              new_secure_buffer v cfg size slab.0
                (record slab.1 { inner = write size slack slab.1.inner }) w
        ]
  ]
]

-- fillInitial past its checks: the copy, and the close.
unfoldable pub copy_in : Env → List ℕ → Buffer → Mapping → World → World × Result Buffer
unfolding set_mem
copy_in v raw b m w =
    let (b', m', failure) = close_use v.calls b (record m { inner = write 0 raw m.inner }) in
    abandon v failure b' (set_mem b.id m' w)

unfoldable pub fill_initial : Env → List ℕ → Buffer → World → World × Result Buffer
unfolding set_mem
fill_initial v raw b w =
    if (w.mem b.id).wiped
    then abandon v (fail wiped) b w
    else (let (b', m', failure) = open_use v.calls b (w.mem b.id) in
        elim failure [
          | e ∷ es ↦ abandon v (e ∷ es) b' (set_mem b.id m' w)
          | [] ↦ copy_in v raw b' m' w
        ])

unfoldable pub filled : Env → List ℕ → World × Result Buffer → World × Result Buffer
filled v raw (w, err e) = (w, err e)
filled v raw (w, ok b) = fill_initial v raw b w

-- NewBuffer: the world after it, the caller's slice after it, and the buffer.
unfoldable pub new_buffer :
    Platform → Env → Config → List ℕ → World → World × List ℕ × Result Buffer
new_buffer pf v cfg raw w =
    if length raw == 0 then (w, raw, err invalid_argument) else (made.0, zeros (length raw), made.1)
  where
    made : World × Result Buffer
    made = filled v raw (allocate pf v cfg (length raw) w)

unfoldable pub new_empty_buffer : Platform → Env → Config → ℕ → World → World × Result Buffer
new_empty_buffer pf v cfg size w =
    if size == 0 then (w, err invalid_argument) else allocate pf v cfg size w
