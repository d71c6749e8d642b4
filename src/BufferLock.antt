-- ===== src/BufferLock.antt =====
-- buflock.go: the readers-writer lock of a region. A function is one atomic step on the lock's fields:
-- an atomic add, or a section under the mutex up to its end or to a wait; where it may broadcast on the
-- condition variable, it says whether it did. A wait whose condition does not hold is none, and is tried
-- again after a broadcast.
pub mod Steps
use secmem.Prelude.{
  ℕ, zero, suc, ◌+◌, ◌-◌, ◌^◌, ◌%◌, Bool, true, false, not, ◌&&◌, ◌||◌, if◌then◌else◌, ltb, ◌==◌,
  Option, none, some,
}

-- bufferRWLock; `readers` is an int32 by its bit pattern, and the condition variable is in what the steps
-- broadcast.
pub record BufferLock : Type 0 where
  pub readers : ℕ
  pub writers_waiting : ℕ
  pub writer_active : Bool
  pub readers_waiting : ℕ

abbrev pub new_buffer_lock : BufferLock
new_buffer_lock = record {
  readers = 0;
  writers_waiting = 0;
  writer_active = false;
  readers_waiting = 0;
}

-- bufMaxReaders, and `-bufMaxReaders` as an int32.
abbrev pub max_readers : ℕ
max_readers = 1073741824

abbrev pub bias : ℕ
bias = 3221225472

-- `readers.Add(n)`, and the tests that an int32 is positive and negative.
unfoldable pub add_readers : ℕ → BufferLock → BufferLock
add_readers n l = record l { readers = (l.readers + n) % 2 ^ 32 }

abbrev pub positive : ℕ → Bool
positive n = ltb 0 n && ltb n 2147483648

abbrev pub negative : ℕ → Bool
negative n = not (ltb n 2147483648)

-- rLock: the optimistic add, and whether that was all.
unfoldable pub r_lock : BufferLock → BufferLock × Bool
r_lock l = (add_readers 1 l, positive (add_readers 1 l).readers)

-- rLockSlow up to its wait, and what follows the wait.
unfoldable pub r_park : BufferLock → BufferLock × Bool
r_park l =
    let undone = add_readers 4294967295 l in
    (record undone { readers_waiting = l.readers_waiting + 1 }, undone.readers == bias)

unfoldable pub r_enroll : BufferLock → Option BufferLock
r_enroll l =
    if l.writer_active || ltb 0 l.writers_waiting
    then none
    else some (record (add_readers 1 l) { readers_waiting = l.readers_waiting - 1 })

-- rUnlock: the add, and the broadcast that follows it under the mutex, as one step.
unfoldable pub r_unlock : BufferLock → BufferLock × Bool
r_unlock l =
    let left = add_readers 4294967295 l in (left, negative left.readers && (left.readers == bias))

-- lock up to its wait, and what follows the wait.
unfoldable pub lock_enter : BufferLock → BufferLock
lock_enter l =
    if (l.writers_waiting + 1 == 1) && not l.writer_active
    then record (add_readers bias l) { writers_waiting = l.writers_waiting + 1 }
    else record l { writers_waiting = l.writers_waiting + 1 }

unfoldable pub lock_acquire : BufferLock → Option BufferLock
lock_acquire l =
    if l.writer_active || not (l.readers == bias)
    then none
    else some (record l { writers_waiting = l.writers_waiting - 1; writer_active = true })

unfoldable pub try_lock : BufferLock → BufferLock × Bool
try_lock l =
    if l.writer_active || ltb 0 l.writers_waiting
    then (l, false)
    else if l.readers == 0
    then (record l { readers = bias; writer_active = true }, true)
    else (l, false)

unfoldable pub unlock : BufferLock → BufferLock × Bool
unlock l =
    if l.writers_waiting == 0
    then (record (add_readers max_readers l) { writer_active = false }, true)
    else (record l { writer_active = false }, true)
