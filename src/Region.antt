-- ===== src/Region.antt =====
-- region.go, and what the mapping of a region is to the code that uses it. One Mapping stands for
-- each allocation, under the identity of its lock: the objects that secRegion, the region's lock and
-- the two shared atomic flags point to.
use secmem.Prelude.{ℕ, Bool, true, false, Option, none, some, List, slice, write, replicate}

-- mprotect's modes 0, 1 and 3.
pub data Prot : Type 0 where
  prot_none prot_read prot_rw : Prot

pub record Mapping : Type 0 where
  -- region.inner. A destroyed owner's is nil, which is the owner's own field.
  pub inner : List ℕ
  pub prot : Prot
  -- False once its owner has given the range up.
  pub mapped : Bool
  -- The flags that the owner and its janitorRegion share: `wiped` and `sealCipher`.
  pub wiped : Bool
  pub cipher : Bool

abbrev pub readable : Prot → Bool
readable prot_none = false
readable _ = true

abbrev pub writable : Prot → Bool
writable prot_rw = true
writable _ = false

-- A read or a write of the secret area: none is the fault that the page protection raises.
unfoldable pub load : ℕ → ℕ → Mapping → Option (List ℕ)
load lo n m = elim (readable m.prot) [ true ↦ some (slice lo n m.inner) | false ↦ none ]

unfoldable pub store : ℕ → List ℕ → Mapping → Option Mapping
store lo bytes m = elim (writable m.prot) [
  | true ↦ some (record m { inner = write lo bytes m.inner })
  | false ↦ none
]

abbrev pub zeros : ℕ → List ℕ
zeros n = replicate n 0

-- secureWipeSlice of n bytes from lo.
unfoldable pub secure_wipe : ℕ → ℕ → Mapping → Option Mapping
unfolding store
secure_wipe lo n m = store lo (zeros n) m

-- A chain of accesses stops at the first fault.
infixl 5 ◌>>=◌
abbrev pub ◌>>=◌ {ℓ κ} : {A : Type ℓ} {B : Type κ} → Option A → (A → Option B) → Option B
none >>= f = none
some a >>= f = f a
