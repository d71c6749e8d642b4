-- ===== src/Errors.antt =====
-- errors.go: the sentinel errors, and the errors that other files make on the spot. A Go `error` is
-- the list of the errors that `errors.Join` and `%w` put together; `nil` is the empty list.
use secmem.Prelude.{Bool, true, false, List, [], ◌∷◌, ◌++◌, ◌≡◌, refl, ◌||◌, arith}

pub data Error : Type 0 where
  destroyed wiped sealed read_only arena_full slot_released no_secure_memory : Error
  integrity canary_violation : Error
  -- errJanitorKeyCollision and errWipeSkipped of registry.go.
  key_collision wipe_skipped : Error
  -- A refusal by an errors.New of the function itself.
  invalid_argument : Error
  -- A failure of the operating system, of crypto/rand or of the seal cipher.
  os_failure : Error

abbrev pub Err : Type 0
Err = List Error

abbrev pub fail : Error → Err
fail e = e ∷ []

-- A Go pair `(value, error)` of which one half is nil.
pub data Result {ℓ} (A : Type ℓ) : Type ℓ where
  ok : A → Result A
  err : Error → Result A

-- errors.Is of one error against a sentinel: the identity, and ErrWiped wraps ErrDestroyed.
unfoldable pub matches : Error → Error → Bool
matches destroyed destroyed = true
matches wiped wiped = true
matches wiped destroyed = true
matches sealed sealed = true
matches read_only read_only = true
matches arena_full arena_full = true
matches slot_released slot_released = true
matches no_secure_memory no_secure_memory = true
matches integrity integrity = true
matches canary_violation canary_violation = true
matches key_collision key_collision = true
matches wipe_skipped wipe_skipped = true
matches invalid_argument invalid_argument = true
matches os_failure os_failure = true
matches _ _ = false

-- errors.Is along a joined error.
unfoldable pub is : Err → Error → Bool
is [] e = false
is (x ∷ xs) e = matches x e || is xs e

or_assoc : (a b c : Bool) → (a || (b || c)) ≡ (a || b || c)
or_assoc a b c = ground arith

-- A joined error is a target's as soon as one of its parts is.
pub is-append : (xs ys : Err) (e : Error) → is (xs ++ ys) e ≡ (is xs e || is ys e)
unfolding is
is-append [] ys e = refl
is-append (x ∷ xs) ys e = rw (is-append xs ys e) (or_assoc (matches x e) (is xs e) (is ys e))
