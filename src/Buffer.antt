-- ===== src/Buffer.antt =====
-- securebuf.go and closedatrest.go: one buffer's state, its page protection, the open and close of a
-- buffer that is closed at rest, and Truncate. An operation takes the buffer and the mapping of its
-- region, and returns both with its error. A buffer of another goroutine is not seen here: each
-- operation is one that holds the exclusive lock which its source takes. Handles are not nil.
pub mod Seal
pub mod Plain
pub mod Sealed
pub mod Unsealed
pub mod Lifecycle
pub mod Lifetime
pub mod Truncate
pub mod Filled
pub mod Access
pub mod Accessed
pub mod AccessLaws
use secmem.Prelude.{
  ℕ, zero, suc, ◌+◌, ◌-◌, ◌*◌, ◌≤◌, Bool, true, false, not, ◌&&◌, ◌||◌, if◌then◌else◌, ltb, leb,
  ◌==◌, Option, none, some, List, [], ◌∷◌, ◌++◌, length, slice, write,
}
use secmem.Errors.{Err, fail, destroyed, wiped, sealed, read_only, invalid_argument}
use secmem.Region.{Mapping, Prot, prot_none, prot_read, prot_rw, zeros}

-- bufferState. `present` is `region.inner != nil`, `id` the identity of the region and of its lock,
-- `size` is len(data); the flags that are shared with the janitor are in the Mapping.
pub record Buffer : Type 0 where
  pub present : Bool
  pub id : ℕ
  pub size : ℕ
  pub janitor_key : ℕ
  pub sealed : Bool
  pub read_only : Bool
  pub seal_auth : Bool
  pub seal_tagged : Bool
  pub seal_gen : ℕ
  pub seal_nonce : List ℕ
  pub seal_tag : List ℕ
  pub closed_at_rest : Bool
  pub openers : ℕ

-- The answers of the system to the calls of one operation, by the place that makes the call: the
-- protection of an open and its re-lock, of a close, of ReadOnly and ReadWrite, the lift of the
-- protection by Seal, Unseal and Destroy, the re-lock after it, the seal cipher in both directions
-- (`encrypt` also says whether it applied), the no-access step of Seal, the restored protection of
-- Unseal, and the best-effort steps that follow a failure.
pub record Calls : Type 0 where
  pub open_protect : Err
  pub open_relock : Err
  pub open_back : Err
  pub close_protect : Err
  pub change : Err
  pub lift : Err
  pub relock : Err
  pub back : Err
  pub protect_none : Err
  pub restore : Err
  pub reapply : Err
  pub encrypt : List ℕ → (List ℕ × Bool) × Err
  pub decrypt : List ℕ → List ℕ × Err

-- mprotectSecretMem with its answer.
abbrev pub mprotect : Err → Prot → Mapping → Mapping
mprotect [] p m = record m { prot = p }
mprotect (e ∷ es) p m = m

unfoldable pub rest_protection : Buffer → Prot
rest_protection b =
    if b.closed_at_rest then prot_none else if b.read_only then prot_read else prot_rw

unfoldable pub first_open : Calls → Buffer → Mapping → Mapping × Err
first_open c b m = elim c.open_protect [
  | e ∷ es ↦ (m, e ∷ es)
  | [] ↦ elim c.open_relock [
    | e ∷ es ↦ (mprotect c.open_back prot_none (record m { prot = opened }), e ∷ es)
    | [] ↦ (record m { prot = opened }, [])
  ]
]
  where
    opened : Prot
    opened = if b.read_only then prot_read else prot_rw

-- bufferState.open and close.
unfoldable pub open_use : Calls → Buffer → Mapping → Buffer × Mapping × Err
open_use c b m =
    if not b.closed_at_rest
    then (b, m, [])
    else if not (b.openers == 0)
    then (record b { openers = b.openers + 1 }, m, [])
    else (let (m', failure) = first_open c b m in
        elim failure [
          | e ∷ es ↦ (b, m', e ∷ es)
          | [] ↦ (record b { openers = b.openers + 1 }, m', [])
        ])

unfoldable pub close_use : Calls → Buffer → Mapping → Buffer × Mapping × Err
close_use c b m =
    if not b.closed_at_rest
    then (b, m, [])
    else if ltb 0 (b.openers - 1)
    then (record b { openers = b.openers - 1 }, m, [])
    else (
      record b { openers = b.openers - 1 },
      mprotect c.close_protect prot_none m,
      c.close_protect,
    )

-- The refusals that ReadOnly, ReadWrite and Truncate start with.
unfoldable pub refuse : Buffer → Mapping → Err
refuse b m =
    if not b.present
    then fail destroyed
    else if m.wiped
    then fail wiped
    else if b.sealed
    then fail sealed
    else []

-- ReadOnly and ReadWrite past their refusals.
unfoldable pub change_protection : Bool → Calls → Buffer → Mapping → Buffer × Mapping × Err
change_protection to_read c b m =
    if b.closed_at_rest then (record b { read_only = to_read }, m, []) else elim c.change [
      | e ∷ es ↦ (b, m, e ∷ es)
      | [] ↦ (
        record b { read_only = to_read },
        record m { prot = if to_read then prot_read else prot_rw },
        [],
      )
    ]

unfoldable pub set_protection : Bool → Calls → Buffer → Mapping → Buffer × Mapping × Err
set_protection to_read c b m = elim (refuse b m) [
  | e ∷ es ↦ (b, m, e ∷ es)
  | [] ↦ change_protection to_read c b m
]

abbrev pub make_read_only : Calls → Buffer → Mapping → Buffer × Mapping × Err
make_read_only = set_protection true

abbrev pub make_read_write : Calls → Buffer → Mapping → Buffer × Mapping × Err
make_read_write = set_protection false

-- The wipe of the freed tail, between an open and a close.
unfoldable pub wipe_tail : Calls → ℕ → Buffer → Mapping → Buffer × Mapping × Err
wipe_tail c n b m =
    let (b1, m1, failure) = open_use c b m in
    elim failure [
      | e ∷ es ↦ (b1, m1, e ∷ es)
      | [] ↦ close_use c b1 (record m1 { inner = write n (zeros (b.size - n)) m1.inner })
    ]

unfoldable pub truncated : ℕ → Buffer × Mapping × Err → Buffer × Mapping × Err
truncated n (b, m, e ∷ es) = (b, m, e ∷ es)
truncated n (b, m, []) = (record b { size = n }, m, [])

-- Truncate, for n that is not negative.
unfoldable pub truncate : Calls → ℕ → Buffer → Mapping → Buffer × Mapping × Err
truncate c n b m = elim (refuse b m) [
  | e ∷ es ↦ (b, m, e ∷ es)
  | [] ↦
      if b.read_only
      then (b, m, fail read_only)
      else if ltb b.size n
      then (b, m, fail invalid_argument)
      else if ltb n b.size
      then truncated n (wipe_tail c n b m)
      else (record b { size = n }, m, [])
]
