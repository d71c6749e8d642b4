-- ===== src/Tests/Locks.antt =====
-- buflock.go: a writer alone, a writer behind a reader, and a new lock.
use secmem.Prelude.{◌≡◌, refl, true, false, none, ◌≢◌, arith}
use secmem.BufferLock.{
  BufferLock, r_lock, r_enroll, r_unlock, lock_enter, lock_acquire, try_lock, add_readers,
}
use secmem.BufferLock.Steps.{
  Goroutines, start, Step, read_end, to_write, broadcasts, Reachable, initial, after, read_fast,
  write_wait, write_start, writer-alone, writer-preferred, last_reader-wakes,
}

abbrev waiting : BufferLock
waiting = record {
  readers = 3221225472;
  writers_waiting = 1;
  writer_active = false;
  readers_waiting = 0;
}

abbrev waits : Goroutines
waits = record start { lock = waiting }

waits-Reachable : Reachable waits
unfolding lock_enter add_readers
waits-Reachable = after initial write_wait

abbrev holds : Goroutines
holds = record start { lock = record waiting { writers_waiting = 0; writer_active = true } }

holds-Reachable : Reachable holds
unfolding lock_acquire
holds-Reachable = after waits-Reachable (write_start (omega arith) refl)

abbrev behind : Goroutines
behind = record { lock = record waiting { readers = 3221225473 }; reading = 1; undoing = 0 }

behind-Reachable : Reachable behind
unfolding lock_enter r_lock add_readers
behind-Reachable = after (after initial (read_fast (omega arith) refl)) write_wait

shut_before : lock_acquire behind.lock ≡ none
unfolding lock_acquire
shut_before = refl

open_after : lock_acquire waiting ≢ none
unfolding lock_acquire
open_after e = cc

writer-alone_example :
    (holds.reading ≡ 0)
    × ((r_lock holds.lock).1 ≡ false)
    × (r_enroll holds.lock ≡ none)
    × (lock_acquire holds.lock ≡ none)
    × ((try_lock holds.lock).1 ≡ false)
writer-alone_example = writer-alone holds-Reachable refl (omega arith)

writer-preferred_example :
    ((r_lock behind.lock).1 ≡ false)
    × (r_enroll behind.lock ≡ none)
    × ((try_lock behind.lock).1 ≡ false)
writer-preferred_example = writer-preferred behind-Reachable (omega arith) (omega arith)

last_reader_out : Step behind (record waits { reading = 0 })
unfolding r_unlock add_readers
last_reader_out = read_end (omega arith)

last_reader-wakes_example : broadcasts last_reader_out ≡ true
last_reader-wakes_example =
    last_reader-wakes to_write behind-Reachable last_reader_out (omega arith) shut_before open_after
