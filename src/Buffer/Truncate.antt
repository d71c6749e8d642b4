-- ===== src/Buffer/Truncate.antt =====
-- securebuf.go, Truncate: the tail reads zeros, the rest is as it was.
use secmem.Prelude.{
  ℕ, ◌-◌, ◌≤◌, ◌≡◌, refl, sym, ap, ◌∙◌, if◌then◌else◌, ltb, Bool-cases, inl, inr, List, [], length,
  length-replicate, slice, write, arith,
}
use secmem.Prelude.Slices.{slice-write_self, slice-write_before}
use secmem.Region.{Mapping, zeros}
use secmem.Buffer.{Buffer, Calls, first_open, open_use, close_use, wipe_tail, truncated, truncate}

-- An open and a close leave the bytes as they are.
open_bytes :
    (c : Calls) (b : Buffer) (m : Mapping)
    → ((open_use c b m).1.inner ≡ m.inner) × ((open_use c b m).0.size ≡ b.size)
unfolding open_use first_open
open_bytes c b m = (ground arith, ground arith)

close_bytes :
    (c : Calls) (b : Buffer) (m : Mapping)
    → ((close_use c b m).1.inner ≡ m.inner) × ((close_use c b m).0.size ≡ b.size)
unfolding close_use
close_bytes c b m = (ground arith, ground arith)

tail_bytes :
    (c : Calls) (n : ℕ) (b : Buffer) (m : Mapping) {b1 : Buffer} {m1 : Mapping}
    → wipe_tail c n b m ≡ (b1, m1, [])
    → m1.inner ≡ write n (zeros (b.size - n)) m.inner
unfolding wipe_tail
tail_bytes c n b m {b1} {m1} e =
    let opened = open_use c b m in
    let (same, _) = open_bytes c b m in
    let (kept, _) =
      close_bytes c opened.0
        (record opened.1 { inner = write n (zeros (b.size - n)) opened.1.inner }) in
    let cleared : m1.inner ≡ write n (zeros (b.size - n)) opened.1.inner = ground arith in
    cleared ∙ ap (write n (zeros (b.size - n))) same

-- The region after a Truncate that reported no error.
truncate-bytes :
    (c : Calls) (n : ℕ) (b : Buffer) (m : Mapping) {b1 : Buffer} {m1 : Mapping}
    → truncate c n b m ≡ (b1, m1, [])
    → (n ≤ b.size)
      × (b1.size ≡ n)
      × (m1.inner ≡ (if ltb n b.size then write n (zeros (b.size - n)) m.inner else m.inner))
unfolding truncate truncated
truncate-bytes c n b m {b1} {m1} e = (
  ground arith,
  ground arith,
  ground (arith, tail_bytes c n b m {b1 = (wipe_tail c n b m).0} {m1 = (wipe_tail c n b m).1}),
)

-- The bytes of a region of which [n, size) was wiped, where there is anything to wipe.
wiped_slices :
    (n size : ℕ) (xs : List ℕ)
    → n ≤ size
    → size ≤ length xs
    → (slice 0 n (if ltb n size then write n (zeros (size - n)) xs else xs) ≡ slice 0 n xs)
      × (slice n (size - n) (if ltb n size then write n (zeros (size - n)) xs else xs)
          ≡ zeros (size - n))
wiped_slices n size xs le fits = elim (Bool-cases (ltb n size)) [
  | inl some_left ↦ rw some_left (
    slice-write_before 0 n n (zeros (size - n)) xs (omega arith),
    ap (λ k. slice n k (write n (zeros (size - n)) xs))
          (sym (length-replicate {A = ℕ} (size - n) 0))
        ∙ slice-write_self n (zeros (size - n)) xs
            (rw (length-replicate {A = ℕ} (size - n) 0) (omega arith)),
  )
  | inr none_left ↦
      let nothing : size - n ≡ 0 = ground arith in rw (none_left, nothing) (refl, refl)
]

-- A Truncate to n that reports no error was asked for no more than the length, makes n the length,
-- leaves the first n bytes as they were, and leaves zeros from there to the old length, whether the
-- buffer is closed at rest or not.
pub truncate-wipes :
    (c : Calls) (n : ℕ) (b : Buffer) (m : Mapping) {b1 : Buffer} {m1 : Mapping}
    → b.size ≤ length m.inner
    → truncate c n b m ≡ (b1, m1, [])
    → (n ≤ b.size)
      × (b1.size ≡ n)
      × (slice 0 n m1.inner ≡ slice 0 n m.inner)
      × (slice n (b.size - n) m1.inner ≡ zeros (b.size - n))
truncate-wipes c n b m {b1} {m1} fits e =
    let (le, size, same) = truncate-bytes c n b m {b1 = b1} {m1 = m1} e in
    let (front, back) = wiped_slices n b.size m.inner le fits in
    (le, size, rw same front, rw same back)
