-- ===== src/BufferLock/Steps.antt =====
-- buflock.go: any number of goroutines on one lock, as interleaved steps, and what every reachable
-- state has. The state counts the goroutines at each point of the code: readers that hold the lock,
-- readers between their optimistic add and its undo, readers in the wait, and writers in theirs.
use secmem.Prelude.{
  ℕ, ◌+◌, ◌-◌, ◌<◌, ◌≡◌, refl, ◌⊎◌, inl, true, false, ◌||◌, if◌then◌else◌, ltb, none, some, Option,
  Bool, ◌≢◌, arith,
}
use secmem.BufferLock.{
  BufferLock, new_buffer_lock, max_readers, bias, add_readers, r_lock, r_park, r_enroll, r_unlock,
  lock_enter, lock_acquire, try_lock, unlock,
}

pub record Goroutines : Type 0 where
  pub lock : BufferLock
  pub reading : ℕ
  pub undoing : ℕ

abbrev pub start : Goroutines
start = record { lock = new_buffer_lock; reading = 0; undoing = 0 }

-- One step of one goroutine. A reader enters only while fewer than 2 ^ 30 - 1 others are counted, the
-- bound that the comment on bufMaxReaders relies on.
pub data Step (g : Goroutines) : Goroutines → Type 0 where
  read_fast :
      g.reading + g.undoing + 1 < max_readers
      → (r_lock g.lock).1 ≡ true
      → Step g (record g { lock = (r_lock g.lock).0; reading = g.reading + 1 })
  read_slow :
      g.reading + g.undoing + 1 < max_readers
      → (r_lock g.lock).1 ≡ false
      → Step g (record g { lock = (r_lock g.lock).0; undoing = g.undoing + 1 })
  undo : 0 < g.undoing → Step g (record g { lock = (r_park g.lock).0; undoing = g.undoing - 1 })
  enroll :
      {l : BufferLock}
      → 0 < g.lock.readers_waiting
      → g.reading + g.undoing + 1 < max_readers
      → r_enroll g.lock ≡ some l
      → Step g (record g { lock = l; reading = g.reading + 1 })
  read_end :
      0 < g.reading → Step g (record g { lock = (r_unlock g.lock).0; reading = g.reading - 1 })
  write_wait : Step g (record g { lock = lock_enter g.lock })
  write_start :
      {l : BufferLock}
      → 0 < g.lock.writers_waiting
      → lock_acquire g.lock ≡ some l
      → Step g (record g { lock = l })
  write_try : Step g (record g { lock = (try_lock g.lock).0 })
  write_end : g.lock.writer_active ≡ true → Step g (record g { lock = (unlock g.lock).0 })

pub data Reachable : Goroutines → Type 0 where
  initial : Reachable start
  after : {g h : Goroutines} → Reachable g → Step g h → Reachable h

-- The word counts the readers, under the bias while a writer is active or waits; an active writer is
-- alone.
pub record Inv (g : Goroutines) : Type 0 where
  pub word :
      g.lock.readers
      ≡ g.reading
        + g.undoing
        + (if g.lock.writer_active || ltb 0 g.lock.writers_waiting then bias else 0)
  pub room : g.reading + g.undoing < max_readers
  pub alone : (g.lock.writer_active ≡ false) ⊎ (g.reading ≡ 0)

start-Inv : Inv start
start-Inv = record { word = refl; room = omega arith; alone = inl refl }

Step-Inv : {g h : Goroutines} → Inv g → Step g h → Inv h
unfolding r_lock r_park r_enroll r_unlock lock_enter lock_acquire try_lock unlock add_readers
Step-Inv v (read_fast room fast) = record {
  word = ground arith;
  room = ground arith;
  alone = ground arith;
}
Step-Inv v (read_slow room slow) = record {
  word = ground arith;
  room = ground arith;
  alone = ground arith;
}
Step-Inv v (undo some_one) = record {
  word = ground arith;
  room = ground arith;
  alone = ground arith;
}
Step-Inv v (enroll waits room e) = record {
  word = ground arith;
  room = ground arith;
  alone = ground arith;
}
Step-Inv v (read_end some_one) = record {
  word = ground arith;
  room = ground arith;
  alone = ground arith;
}
Step-Inv v write_wait = record { word = ground arith; room = ground arith; alone = ground arith }
Step-Inv v (write_start waits e) = record {
  word = ground arith;
  room = ground arith;
  alone = ground arith;
}
Step-Inv v write_try = record { word = ground arith; room = ground arith; alone = ground arith }
Step-Inv v (write_end active) = record {
  word = ground arith;
  room = ground arith;
  alone = ground arith;
}

Reachable-Inv : {g : Goroutines} → Reachable g → Inv g
Reachable-Inv initial = start-Inv
Reachable-Inv (after r s) = Step-Inv (Reachable-Inv r) s

-- In every reachable state with a writer active and fewer than 2 ^ 30 - 1 readers counted, no
-- reader holds the lock, and neither the fast path, nor the wait of a parked reader, nor that of
-- another writer, nor tryLock lets anyone in.
pub writer-alone :
    {g : Goroutines}
    → Reachable g
    → g.lock.writer_active ≡ true
    → g.reading + g.undoing + 1 < max_readers
    → (g.reading ≡ 0)
      × ((r_lock g.lock).1 ≡ false)
      × (r_enroll g.lock ≡ none)
      × (lock_acquire g.lock ≡ none)
      × ((try_lock g.lock).1 ≡ false)
unfolding r_lock r_enroll lock_acquire try_lock add_readers
writer-alone r active room =
    let v = Reachable-Inv r in
    (ground (arith, v.alone), ground (arith, v.word), ground arith, ground arith, ground arith)

-- In every reachable state with a writer waiting and fewer than 2 ^ 30 - 1 readers counted, no new
-- reader gets in, on the fast path or out of the wait, and tryLock does not overtake the writer.
pub writer-preferred :
    {g : Goroutines}
    → Reachable g
    → 0 < g.lock.writers_waiting
    → g.reading + g.undoing + 1 < max_readers
    → ((r_lock g.lock).1 ≡ false) × (r_enroll g.lock ≡ none) × ((try_lock g.lock).1 ≡ false)
unfolding r_lock r_enroll try_lock add_readers
writer-preferred r waits room =
    let v = Reachable-Inv r in (ground (arith, v.word), ground arith, ground arith)

-- In every reachable state with a waiting writer and none active, once no reader holds the lock and
-- none is before its undo, the writer's condition holds and it gets the lock.
pub writer-enters :
    {g : Goroutines}
    → Reachable g
    → 0 < g.lock.writers_waiting
    → g.lock.writer_active ≡ false
    → g.reading ≡ 0
    → g.undoing ≡ 0
    → (l : BufferLock) × (lock_acquire g.lock ≡ some l) × (l.writer_active ≡ true)
unfolding lock_acquire
writer-enters {g} r waits free none_reads none_undoes =
    let v = Reachable-Inv r in
    (
      record g.lock { writers_waiting = g.lock.writers_waiting - 1; writer_active = true },
      ground (arith, v.word),
      refl,
    )

-- Whether a step broadcasts on the condition variable.
unfoldable pub broadcasts : {g h : Goroutines} → Step g h → Bool
broadcasts (read_fast room fast) = false
broadcasts (read_slow room slow) = false
broadcasts {g} (undo some_one) = (r_park g.lock).1
broadcasts (enroll waits room e) = false
broadcasts {g} (read_end some_one) = (r_unlock g.lock).1
broadcasts write_wait = false
broadcasts (write_start waits e) = false
broadcasts write_try = false
broadcasts {g} (write_end active) = (unlock g.lock).1

-- The two waits, how many goroutines are in each, and what one of these does when it is woken.
pub data Wait : Type 0 where
  to_read : Wait
  to_write : Wait

abbrev pub parked : Wait → BufferLock → ℕ
parked to_read l = l.readers_waiting
parked to_write l = l.writers_waiting

abbrev pub retry : Wait → BufferLock → Option BufferLock
retry to_read l = r_enroll l
retry to_write l = lock_acquire l

writer_woken :
    {g h : Goroutines}
    → Inv g
    → (s : Step g h) → 0 < g.lock.writers_waiting
    → lock_acquire g.lock ≡ none
    → lock_acquire h.lock ≢ none
    → broadcasts s ≡ true
unfolding broadcasts r_lock r_park r_enroll r_unlock lock_enter lock_acquire try_lock unlock
    add_readers
writer_woken v (read_fast room fast) waits shut enters = absurd (ground (arith, v.word))
writer_woken v (read_slow room slow) waits shut enters = absurd (ground (arith, v.word))
writer_woken v (undo some_one) waits shut enters = ground (arith, v.word)
writer_woken v (enroll ready room e) waits shut enters = absurd (ground arith)
writer_woken v (read_end some_one) waits shut enters = ground (arith, v.word)
writer_woken v write_wait waits shut enters = absurd (ground arith)
writer_woken v (write_start ready e) waits shut enters = absurd (ground arith)
writer_woken v write_try waits shut enters = absurd (ground arith)
writer_woken v (write_end active) waits shut enters = ground arith

reader_woken :
    {g h : Goroutines}
    → (s : Step g h) → r_enroll g.lock ≡ none
    → r_enroll h.lock ≢ none
    → broadcasts s ≡ true
unfolding broadcasts r_lock r_park r_enroll r_unlock lock_enter lock_acquire try_lock unlock
    add_readers
reader_woken (read_fast room fast) shut enters = absurd (ground arith)
reader_woken (read_slow room slow) shut enters = absurd (ground arith)
reader_woken (undo some_one) shut enters = absurd (ground arith)
reader_woken (enroll ready room e) shut enters = absurd (ground arith)
reader_woken (read_end some_one) shut enters = absurd (ground arith)
reader_woken write_wait shut enters = absurd (ground arith)
reader_woken (write_start ready e) shut enters = absurd (ground arith)
reader_woken write_try shut enters = absurd (ground arith)
reader_woken (write_end active) shut enters = ground arith

-- No wake-up is lost: from every reachable state, a step after which a waiter would get in that would
-- not have before it, a parked reader or a waiting writer, broadcasts on the condition variable.
pub last_reader-wakes :
    {g h : Goroutines} (k : Wait)
    → Reachable g
    → (s : Step g h) → 0 < parked k g.lock
    → retry k g.lock ≡ none
    → retry k h.lock ≢ none
    → broadcasts s ≡ true
last_reader-wakes to_read r s waits shut enters = reader_woken s shut enters
last_reader-wakes to_write r s waits shut enters =
    writer_woken (Reachable-Inv r) s waits shut enters

-- In every reachable state with no reader counted, none waiting to write and no writer active, the word
-- is zero, as in a new lock, and tryLock succeeds.
pub idle-zero :
    {g : Goroutines}
    → Reachable g
    → g.lock.writers_waiting ≡ 0
    → g.lock.writer_active ≡ false
    → g.reading + g.undoing ≡ 0
    → (g.lock.readers ≡ 0) × ((try_lock g.lock).1 ≡ true)
unfolding try_lock
idle-zero r none_waits free none_reads =
    let v = Reachable-Inv r in (ground (arith, v.word), ground (arith, v.word))
