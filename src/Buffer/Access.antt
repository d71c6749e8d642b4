-- ===== src/Buffer/Access.antt =====
-- securebuf_access.go, with the closed-at-rest forms of closedatrest.go: the access methods of a buffer.
-- A method takes the buffer and the mapping of its region and returns both, with its results. The
-- registers that the methods clear hold no value here.
use secmem.Prelude.{
  ℕ, ◌-◌, Bool, false, if◌then◌else◌, leb, ◌==◌, List, [], ◌∷◌, length, get_or, take, drop, slice,
  write, equal_bytes,
}
use Prim.Native.Nat.{min}
use secmem.Errors.{Err, fail, read_only, invalid_argument}
use secmem.Region.{Mapping}
use secmem.Buffer.{Buffer, Calls, open_use, close_use, refuse}

-- s.data.
abbrev pub data_of : Buffer → Mapping → List ℕ
data_of b m = slice 0 b.size m.inner

-- A step on the memory between an open and a close: borrowClosed, copyClosed, equalClosed. The error
-- of the step comes before the one of the close.
abbrev pub Step {ℓ} : Type ℓ → Type ℓ
Step A = Mapping → Mapping × A × Err

abbrev pub first_error : Err → Err → Err
first_error [] e = e
first_error (x ∷ xs) e = x ∷ xs

unfoldable pub step_closed {ℓ} :
    {A : Type ℓ} → Calls → A → Step A → Buffer → Mapping → Buffer × Mapping × A × Err
step_closed c nothing step b m =
    let (b1, m1, failure) = open_use c b m in
    elim failure [
      | e ∷ es ↦ (b1, m1, nothing, e ∷ es)
      | [] ↦
          let (m2, out, err) = step m1 in
          let (b2, m3, close_err) = close_use c b1 m2 in (b2, m3, out, first_error err close_err)
    ]

unfoldable pub step_open {ℓ} : {A : Type ℓ} → Step A → Buffer → Mapping → Buffer × Mapping × A × Err
step_open step b m = let (m1, out, err) = step m in (b, m1, out, err)

unfoldable pub access {ℓ} :
    {A : Type ℓ} → Calls → A → Step A → Buffer → Mapping → Buffer × Mapping × A × Err
access c nothing step b m =
    if b.closed_at_rest then step_closed c nothing step b m else step_open step b m

-- The steps. A callback leaves the bytes of the slice as it wants; a copy stops at the shorter end.
unfoldable pub call_back : (List ℕ → List ℕ × Err) → Buffer → Step (Unit {0})
call_back fn b m =
    let (bytes, err) = fn (data_of b m) in
    (record m { inner = write 0 (take b.size bytes) m.inner }, tt, err)

unfoldable pub read_range : (off n : ℕ) → Buffer → Step (List ℕ)
read_range off n b m = (m, take n (drop off (data_of b m)), [])

unfoldable pub write_range : (off : ℕ) (src : List ℕ) → Buffer → Step ℕ
write_range off src b m =
    let n = min (length src) (b.size - off) in
    (record m { inner = write off (take n src) m.inner }, n, [])

unfoldable pub compare_data : (other : List ℕ) → Buffer → Step Bool
compare_data other b m = (m, equal_bytes (data_of b m) other, [])

-- WithBytes and WithBytesErr with a callback that is not nil; WithBytes is the one without errors.
unfoldable pub with_bytes_err :
    Calls → (List ℕ → List ℕ × Err) → Buffer → Mapping → Buffer × Mapping × Unit {0} × Err
with_bytes_err c fn b m = elim (refuse b m) [
  | e ∷ es ↦ (b, m, tt, e ∷ es)
  | [] ↦ access c tt (call_back fn b) b m
]

abbrev pub with_bytes :
    Calls → (List ℕ → List ℕ) → Buffer → Mapping → Buffer × Mapping × Unit {0} × Err
with_bytes c fn = with_bytes_err c (λ bytes. (fn bytes, []))

-- ExposeString: the string it returns.
unfoldable pub snapshot : Buffer → Step (List ℕ)
snapshot b m = (m, data_of b m, [])

unfoldable pub expose_string : Calls → Buffer → Mapping → Buffer × Mapping × List ℕ × Err
expose_string c b m = elim (refuse b m) [
  | e ∷ es ↦ (b, m, [], e ∷ es)
  | [] ↦
      let (b1, m1, str, err) = access c [] (snapshot b) b m in
      elim err [ [] ↦ (b1, m1, str, []) | e ∷ es ↦ (b1, m1, [], e ∷ es) ]
]

-- CopyOut of an offset that is not negative: the bytes that are copied to the front of `dst`, whose
-- count is what it returns.
unfoldable pub copy_out :
    Calls → (room off : ℕ) → Buffer → Mapping → Buffer × Mapping × List ℕ × Err
copy_out c room off b m = elim (refuse b m) [
  | e ∷ es ↦ (b, m, [], e ∷ es)
  | [] ↦
      if leb b.size off
      then (b, m, [], fail invalid_argument)
      else access c [] (read_range off room b) b m
]

-- What the mutating methods check after the refusals.
unfoldable pub refuse_write : (off : ℕ) → Buffer → Mapping → Err
refuse_write off b m = elim (refuse b m) [
  | e ∷ es ↦ e ∷ es
  | [] ↦
      if b.read_only then fail read_only else if leb b.size off then fail invalid_argument else []
]

-- CopyIn, and the count it returns.
unfoldable pub copy_in :
    Calls → (src : List ℕ) (off : ℕ) → Buffer → Mapping → Buffer × Mapping × ℕ × Err
copy_in c src off b m = elim (refuse_write off b m) [
  | e ∷ es ↦ (b, m, 0, e ∷ es)
  | [] ↦ access c 0 (write_range off src b) b m
]

-- ByteAt and SetByteAt of an index that is not negative.
unfoldable pub byte_at : Calls → ℕ → Buffer → Mapping → Buffer × Mapping × ℕ × Err
byte_at c i b m = let (b1, m1, bytes, err) = copy_out c 1 i b m in (b1, m1, get_or bytes 0 0, err)

unfoldable pub set_byte_at : Calls → ℕ → ℕ → Buffer → Mapping → Buffer × Mapping × Err
set_byte_at c i v b m = let (b1, m1, n, err) = copy_in c (v ∷ []) i b m in (b1, m1, err)

-- ConstantTimeEqual.
unfoldable pub constant_time_equal :
    Calls → (other : List ℕ) → Buffer → Mapping → Buffer × Mapping × Bool × Err
constant_time_equal c other b m = elim (refuse b m) [
  | e ∷ es ↦ (b, m, false, e ∷ es)
  | [] ↦
      if b.size == length other
      then access c false (compare_data other b) b m
      else (b, m, false, [])
]

-- WriteTo: the copy that is written after the unlock, none where nothing is written, and the writer's
-- answer. A copy whose close failed is wiped.
unfoldable pub write_copy :
    (List ℕ → ℕ × Err) → Buffer × Mapping × List ℕ × Err → Buffer × Mapping × ℕ × Err
write_copy sink (b, m, copy, e ∷ es) = (b, m, 0, e ∷ es)
write_copy sink (b, m, copy, []) = (b, m, (sink copy).0, (sink copy).1)

unfoldable pub write_to : Calls → (List ℕ → ℕ × Err) → Buffer → Mapping → Buffer × Mapping × ℕ × Err
write_to c sink b m = elim (refuse b m) [
  | e ∷ es ↦ (b, m, 0, e ∷ es)
  | [] ↦ write_copy sink (step_closed c [] (snapshot b) b m)
]

-- ReadFrom. io.ReadFull reads `size` bytes without the lock; fewer are no error at the end of the source.
pub data Source : Type 0 where
  filled ended : List ℕ → Source
  failed : List ℕ → Err → Source

unfoldable pub read_size : Buffer → Mapping → ℕ × Err
read_size b m = elim (refuse b m) [
  | e ∷ es ↦ (0, e ∷ es)
  | [] ↦ if b.read_only then (0, fail read_only) else (b.size, [])
]

-- The copy under the exclusive lock, on the buffer as it is then.
unfoldable pub store_read : Calls → List ℕ → Buffer → Mapping → Buffer × Mapping × ℕ × Err
store_read c tmp b m = elim (refuse b m) [
  | e ∷ es ↦ (b, m, 0, e ∷ es)
  | [] ↦
      if b.read_only then (b, m, 0, fail read_only) else step_closed c 0 (write_range 0 tmp b) b m
]

unfoldable pub store_source : Calls → Source → Buffer → Mapping → Buffer × Mapping × ℕ × Err
store_source c (failed tmp e) b m = (b, m, length tmp, e)
store_source c (filled tmp) b m = store_read c tmp b m
store_source c (ended tmp) b m = store_read c tmp b m

-- `between` is what other goroutines do to the buffer while the source is read.
unfoldable pub read_from :
    Calls
    → (source : ℕ → Source) → (between : Buffer → Mapping → Buffer × Mapping) → Buffer
    → Mapping
    → Buffer × Mapping × ℕ × Err
read_from c source between b m =
    let (size, refusal) = read_size b m in
    elim refusal [
      | e ∷ es ↦ (b, m, 0, e ∷ es)
      | [] ↦ let (b1, m1) = between b m in store_source c (source size) b1 m1
    ]
