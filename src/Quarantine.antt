-- ===== src/Quarantine.antt =====
-- quarantine.go: the FIFO of retired reservations, its limits and its evictions. The system calls are
-- arguments; an operation returns the ranges that it hands to the unmap, in the order of the calls.
pub mod Fifo
use secmem.Prelude.{
  ℕ, zero, suc, ◌+◌, ◌-◌, ◌^◌, ◌%◌, Bool, true, false, not, ◌&&◌, ◌||◌, if◌then◌else◌, ltb, leb,
  ◌==◌, List, [], ◌∷◌, ◌++◌, length,
}
use secmem.Errors.{Err, fail, os_failure}

-- A Go int.
pub data ℤ : Type 0 where
  pos : ℕ → ℤ
  negsuc : ℕ → ℤ

-- The outer range of a region: its identity and its length.
pub record Range : Type 0 where
  pub id : ℕ
  pub size : ℕ

-- QuarantineLimits with the clamp of SetQuarantineLimits done: Regions is not negative.
pub record Limits : Type 0 where
  pub regions : ℕ
  pub bytes : ℕ

pub record Quarantine : Type 0 where
  pub limits : Limits
  -- Oldest first.
  pub held : List Range
  -- A uint64.
  pub bytes : ℕ

-- `strconv.IntSize` is the argument.
unfoldable pub default_limits : ℕ → Limits
default_limits int_size =
    if ltb int_size 64
    then record { regions = 64; bytes = 16777216 }
    else record { regions = 4096; bytes = 4294967296 }

-- `bytes -= size` and `bytes += size` on a uint64.
unfoldable pub sub_u64 : ℕ → ℕ → ℕ
sub_u64 n size = (n + (2 ^ 64 - size % 2 ^ 64)) % 2 ^ 64

unfoldable pub add_u64 : ℕ → ℕ → ℕ
add_u64 n size = (n + size) % 2 ^ 64

-- The test of trimLocked's loop, over the reservations that are left.
unfoldable pub over : Limits → List Range → ℕ → Bool
over l rest bytes = ltb l.regions (length rest) || ltb l.bytes bytes

-- The loop of trimLocked: what it evicts, what it keeps, and the byte count.
unfoldable pub trim_loop : Limits → List Range → ℕ → List Range × List Range × ℕ
unfolding over sub_u64
trim_loop l [] bytes = ([], [], bytes)
trim_loop l (r ∷ rest) bytes =
    let (evicted, kept, b) = trim_loop l rest (sub_u64 bytes r.size) in
    if over l (r ∷ rest) bytes then (r ∷ evicted, kept, b) else ([], r ∷ rest, bytes)

unfoldable pub trim_locked : Quarantine → Quarantine × List Range
trim_locked q = (
  record q {
    held = (trim_loop q.limits q.held q.bytes).1;
    bytes = (trim_loop q.limits q.held q.bytes).2;
  },
  (trim_loop q.limits q.held q.bytes).0,
)

-- releaseAll: every range is unmapped, and the first failure is returned.
unfoldable pub release_all : (Range → Err) → List Range → Err
release_all unmap [] = []
release_all unmap (r ∷ rs) =
    let rest = release_all unmap rs in elim (unmap r) [ [] ↦ rest | e ∷ es ↦ e ∷ es ]

unfoldable pub clamp : ℤ → ℕ
clamp (pos n) = n
clamp (negsuc n) = 0

-- SetQuarantineLimits: the quarantine after it, the previous limits, and what it unmaps.
unfoldable pub set_quarantine_limits : ℤ → ℕ → Quarantine → Quarantine × Limits × List Range
set_quarantine_limits regions bytes q = (trimmed.0, q.limits, trimmed.1)
  where
    trimmed : Quarantine × List Range
    trimmed = trim_locked (record q { limits = record { regions = clamp regions; bytes = bytes } })

-- What the platform answers: whether it has the quarantine, quarantineFailureKeepsRange, and the
-- results of quarantineSecretMem, freeSecretMem and releaseQuarantined on a range.
pub record Calls : Type 0 where
  pub supported : Bool
  pub keeps_range : Bool
  pub quarantine : Range → Err
  pub free : Range → Err
  pub release : Range → Err

unfoldable pub admits : Quarantine → Range → Bool
admits q r = ltb 0 q.limits.regions && leb r.size q.limits.bytes

unfoldable pub enqueue : Range → Quarantine → Quarantine × List Range
unfolding trim_locked
enqueue r q = trim_locked (record q { held = q.held ++ r ∷ []; bytes = add_u64 q.bytes r.size })

-- retireSecretMem from the answer of quarantineSecretMem on.
unfoldable pub replaced : Calls → Range → Quarantine → Err → Quarantine × List Range × Err
replaced os r q [] = ((enqueue r q).0, (enqueue r q).1, release_all os.release (enqueue r q).1)
replaced os r q (e ∷ es) = if not os.keeps_range then (q, [], e ∷ es) else (q, r ∷ [], os.free r)

-- retireSecretMem: the quarantine after it, the ranges that it unmaps, and its error.
unfoldable pub retire_secret_mem : Calls → Range → Quarantine → Quarantine × List Range × Err
retire_secret_mem os r q =
    if not os.supported || (r.size == 0)
    then (q, r ∷ [], os.free r)
    else if not (admits q r)
    then (q, r ∷ [], os.free r)
    else replaced os r q (os.quarantine r)

-- quarantineInForce.
unfoldable pub quarantine_in_force : Calls → Quarantine → Bool
quarantine_in_force os q = os.supported && (ltb 0 q.limits.regions && ltb 0 q.limits.bytes)
