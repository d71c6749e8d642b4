-- ===== src/Buffer/AccessLaws.antt =====
-- securebuf_access.go: what the access methods promise. A refusal reaches nothing, the canary behind the
-- data is never written, and what was copied in is copied out.
use secmem.Prelude.{
  ℕ, zero, suc, ◌+◌, ◌-◌, ◌≤◌, ◌<◌, Bool, true, false, List, [], ◌∷◌, length, take, drop, slice,
  write, ◌≡◌, ◌≢◌, inl, inr, refl, sym, ap, ◌∙◌, arith, length-take, equal_bytes, equal_bytes_self,
  equal_bytes→eq, ◌↔◌,
}
use Prim.Native.Nat.{min}
use secmem.Prelude.Slices.{drop-write, slice-write_self}
use secmem.Errors.{Err}
use secmem.Region.{Mapping}
use secmem.Buffer.{Buffer, Calls, refuse}
use secmem.Buffer.Access.{
  data_of, access, call_back, read_range, write_range, compare_data, with_bytes_err, copy_out,
  refuse_write, copy_in, byte_at, set_byte_at, constant_time_equal, expose_string, write_to,
}
use secmem.Buffer.Accessed.{access-same, access-inner, access-ok}

-- A buffer that is destroyed, wiped or sealed refuses every access with that error: nothing is read,
-- written or called, and the memory and the buffer stay.
pub refused_access :
    (c : Calls) (b : Buffer) (m : Mapping)
    → refuse b m ≢ []
    → (fn : List ℕ → List ℕ × Err) (sink : List ℕ → ℕ × Err) (src : List ℕ) (off room v : ℕ)
    → (with_bytes_err c fn b m ≡ (b, m, tt, refuse b m))
      × (copy_out c room off b m ≡ (b, m, [], refuse b m))
      × (copy_in c src off b m ≡ (b, m, 0, refuse b m))
      × (byte_at c off b m ≡ (b, m, 0, refuse b m))
      × (set_byte_at c off v b m ≡ (b, m, refuse b m))
      × (constant_time_equal c src b m ≡ (b, m, false, refuse b m))
      × (expose_string c b m ≡ (b, m, [], refuse b m))
      × (write_to c sink b m ≡ (b, m, 0, refuse b m))
unfolding with_bytes_err copy_out copy_in refuse_write byte_at set_byte_at constant_time_equal
    expose_string write_to
refused_access c b m h fn sink src off room v = (
  ground arith,
  ground arith,
  ground arith,
  ground arith,
  ground arith,
  ground arith,
  ground arith,
  ground arith,
)

module _ {ℓ} {A : Type ℓ} where
  drop_past :
      (size lo : ℕ) (ys xs : List A)
      → lo + length ys ≤ size
      → drop size (write lo ys xs) ≡ drop size xs
  drop_past size lo ys xs h = drop-write size lo ys xs h

  slice_within :
      (off n size : ℕ) (xs : List A)
      → off + n ≤ size
      → take n (drop off (take size xs)) ≡ slice off n xs
  slice_within zero zero size xs h = refl
  slice_within zero (suc n) zero xs h = absurd (omega arith)
  slice_within zero (suc n) (suc size) [] h = refl
  slice_within zero (suc n) (suc size) (x ∷ xs) h =
      ap (◌∷◌ x) (slice_within zero n size xs (omega arith))
  slice_within (suc off) n zero xs h = absurd (omega arith)
  slice_within (suc off) zero (suc size) [] h = refl
  slice_within (suc off) (suc n) (suc size) [] h = refl
  slice_within (suc off) n (suc size) (x ∷ xs) h = slice_within off n size xs (omega arith)

-- The step of a write and of a callback stays inside the data.
write_range-tail :
    (off : ℕ) (src : List ℕ) (b : Buffer) (m : Mapping)
    → off < b.size
    → drop b.size (write_range off src b m).0.inner ≡ drop b.size m.inner
unfolding write_range
write_range-tail off src b m h =
    let n = min (length src) (b.size - off) in
    drop-write b.size off (take n src) m.inner (omega (arith, length-take n src))

call_back-tail :
    (fn : List ℕ → List ℕ × Err) (b : Buffer) (m : Mapping)
    → drop b.size (call_back fn b m).0.inner ≡ drop b.size m.inner
unfolding call_back
call_back-tail fn b m =
    let bytes = (fn (data_of b m)).0 in
    drop-write b.size 0 (take b.size bytes) m.inner (omega (arith, length-take b.size bytes))

-- CopyIn writes inside the data alone, whatever its outcome: the canary and all else behind it stay.
pub copy_in-tail :
    (c : Calls) (src : List ℕ) (off : ℕ) (b : Buffer) (m : Mapping)
    → drop b.size (copy_in c src off b m).1.inner ≡ drop b.size m.inner
unfolding copy_in refuse_write
copy_in-tail c src off b m = elim (access-inner c 0 (write_range off src b) b m) [
  | inl same ↦ ground (arith, same)
  | inr (m0, before, after) ↦ ground (arith, before, after, write_range-tail off src b m0)
]

-- A callback's slice ends where the data ends: whatever it writes, what lies behind stays.
pub with_bytes_err-tail :
    (c : Calls) (fn : List ℕ → List ℕ × Err) (b : Buffer) (m : Mapping)
    → drop b.size (with_bytes_err c fn b m).1.inner ≡ drop b.size m.inner
unfolding with_bytes_err
with_bytes_err-tail c fn b m = elim (access-inner c tt (call_back fn b) b m) [
  | inl same ↦ ground (arith, same)
  | inr (m0, before, after) ↦ ground (arith, before, after, call_back-tail fn b m0)
]

-- No access changes the buffer's own state: its count of openers comes back to what it was.
access-Buffer :
    (c : Calls) (b : Buffer) (m : Mapping) (fn : List ℕ → List ℕ × Err) (src : List ℕ)
    (off room : ℕ)
    → ((with_bytes_err c fn b m).0 ≡ b)
      × ((copy_out c room off b m).0 ≡ b)
      × ((copy_in c src off b m).0 ≡ b)
      × ((constant_time_equal c src b m).0 ≡ b)
unfolding with_bytes_err copy_out copy_in constant_time_equal
access-Buffer c b m fn src off room = (
  ground (arith, access-same c tt (call_back fn b) b m),
  ground (arith, access-same c [] (read_range off room b) b m),
  ground (arith, access-same c 0 (write_range off src b) b m),
  ground (arith, access-same c false (compare_data src b) b m),
)

-- CopyIn that succeeds writes the front of the source at the offset, as much of it as there is room.
copy_in-ok :
    (c : Calls) (src : List ℕ) (off : ℕ) (b : Buffer) (m : Mapping) {b1 : Buffer} {m1 : Mapping}
    {n : ℕ}
    → copy_in c src off b m ≡ (b1, m1, n, [])
    → (off < b.size)
      × (n ≡ min (length src) (b.size - off))
      × (b1 ≡ b)
      × (m1.inner ≡ write off (take n src) m.inner)
unfolding copy_in refuse_write write_range
copy_in-ok c src off b m {b1} {m1} {n} h =
    let inside : off < b.size = ground arith in
    let ran : access c 0 (write_range off src b) b m ≡ (b1, m1, n, []) = ground arith in
    let (m0, before, after, count) = access-ok c 0 (write_range off src b) b m {b1 = b1} ran in
    let same = access-same c 0 (write_range off src b) b m in
    (inside, count, ap (λ r. r.0) (sym ran) ∙ same, cc (before, after, count))

pub copy_out-ok :
    (c : Calls) (room off : ℕ) (b : Buffer) (m : Mapping) {b1 : Buffer} {m1 : Mapping}
    {out : List ℕ}
    → copy_out c room off b m ≡ (b1, m1, out, [])
    → out ≡ take room (drop off (data_of b m))
unfolding copy_out read_range
copy_out-ok c room off b m {b1} {m1} {out} h =
    let ran : access c [] (read_range off room b) b m ≡ (b1, m1, out, []) = ground arith in
    let (m0, before, after, result) = access-ok c [] (read_range off room b) b m {b1 = b1} ran in
    cc (result, before)

-- What CopyIn wrote, CopyOut of the same range reads back, in a buffer whose data is mapped: the front
-- of the source, as much of it as there is room behind the offset.
pub copy_out-copy_in :
    (c c' : Calls) (src : List ℕ) (off : ℕ) (b : Buffer) (m : Mapping) {b1 b2 : Buffer}
    {m1 m2 : Mapping} {n : ℕ} {out : List ℕ}
    → b.size ≤ length m.inner
    → copy_in c src off b m ≡ (b1, m1, n, [])
    → copy_out c' n off b1 m1 ≡ (b2, m2, out, [])
    → (n ≡ min (length src) (b.size - off)) × (out ≡ take n src)
copy_out-copy_in c c' src off b m {b1} {b2} {m1} {m2} {n} {out} fits inward outward =
    let (inside, count, same, bytes) = copy_in-ok c src off b m {b1 = b1} {m1 = m1} inward in
    let size : length (take n src) ≡ n = omega (arith, length-take n src) in
    let read = copy_out-ok c' n off b1 m1 {b1 = b2} {m1 = m2} outward in
    let cut = slice_within off n b.size m1.inner (omega arith) in
    let back = slice-write_self off (take n src) m.inner (omega (arith, size)) in
    (
      count,
      read
          ∙ ap (λ (x : Buffer). take n (drop off (take x.size m1.inner))) same
          ∙ cut
          ∙ ap (slice off n) bytes
          ∙ ap (λ k. slice off k (write off (take n src) m.inner)) (sym size)
          ∙ back,
    )

compare_data-ok :
    (c : Calls) (other : List ℕ) (b : Buffer) (m : Mapping) {b1 : Buffer} {m1 : Mapping}
    {equal : Bool}
    → access c false (compare_data other b) b m ≡ (b1, m1, equal, [])
    → equal ≡ equal_bytes (data_of b m) other
unfolding compare_data
compare_data-ok c other b m {b1} {m1} {equal} h =
    let (m0, before, after, result) = access-ok c false (compare_data other b) b m {b1 = b1} h in
    cc (result, before)

-- A comparison that reports no error answers true exactly when the data is the other slice, in a buffer
-- whose data is mapped.
pub constant_time_equal_iff :
    (c : Calls) (other : List ℕ) (b : Buffer) (m : Mapping) {b1 : Buffer} {m1 : Mapping}
    {equal : Bool}
    → b.size ≤ length m.inner
    → constant_time_equal c other b m ≡ (b1, m1, equal, [])
    → (equal ≡ true) ↔ (data_of b m ≡ other)
unfolding constant_time_equal
constant_time_equal_iff c other b m {b1} {m1} {equal} fits h = (
  λ t. ground (
    arith,
    compare_data-ok c other b m {b1 = b1} {m1 = m1} {equal = equal},
    equal_bytes→eq (data_of b m) other,
  ),
  λ same.
      let size : length other ≡ b.size =
        ap length (sym same) ∙ omega (arith, length-take b.size m.inner) in
      ground (
        arith,
        size,
        compare_data-ok c other b m {b1 = b1} {m1 = m1} {equal = equal},
        ap (λ bytes. equal_bytes bytes other) same ∙ equal_bytes_self other,
      ),
)
