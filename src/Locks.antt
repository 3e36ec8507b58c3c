-- ===== src/Locks.antt =====
-- The locks on files of pkg/fscache/access_cache.go: in-memory maps of read and write locks.
-- Each function here runs under the mutex of its map in the source, but for the two that combine
-- others, CreateWriteLock and CreateExclusiveWriteLock.
pub mod Exclusive
pub mod Race
mod Tests
use go_aptcacher.Base.{ℕ, Bool, true, false, Option, none, some, if◌then◌else◌, is_some}
use go_aptcacher.Base.Text.{Text}
use go_aptcacher.Base.Map.{Map, lookup, insert, delete}
use go_aptcacher.Keys.{lock_key}

-- A time.Time, in nanoseconds from the zero time on.
abbrev pub Time : Type 0
Time = ℕ

abbrev pub zero_time : Time
zero_time = 0

-- The fields `memoryFileReadLock` and `memoryFileWriteLock`.
pub record Locks : Type 0 where
  pub read_lock : Map Time
  pub write_lock : Map Time

abbrev pub or_zero : Option Time → Bool × Time
or_zero none = (false, zero_time)
or_zero (some t) = (true, t)

-- CreateFileLock, memoryFileReadLockWrite
unfoldable pub create_file_lock : ℕ → Text → Text → Time → Locks → Locks
create_file_lock protocol domain path now l = record l {
  read_lock = insert (lock_key protocol domain path) now l.read_lock;
}

-- RemoveFileLock, memoryFileReadLockDelete
unfoldable pub remove_file_lock : ℕ → Text → Text → Locks → Locks
remove_file_lock protocol domain path l = record l {
  read_lock = delete (lock_key protocol domain path) l.read_lock;
}

-- HasFileLock, memoryFileReadLockRead
unfoldable pub has_file_lock : ℕ → Text → Text → Locks → Bool × Time
has_file_lock protocol domain path l = or_zero (lookup (lock_key protocol domain path) l.read_lock)

-- HasWriteLock
unfoldable pub has_write_lock : ℕ → Text → Text → Locks → Bool × Time
has_write_lock protocol domain path l =
    or_zero (lookup (lock_key protocol domain path) l.write_lock)

-- The assignment of CreateWriteLock, under the mutex.
unfoldable pub put_write_lock : ℕ → Text → Text → Time → Locks → Locks
put_write_lock protocol domain path now l = record l {
  write_lock = insert (lock_key protocol domain path) now l.write_lock;
}

pub data LockError : Type 0 where
  already_exists : LockError

-- CreateWriteLock
unfoldable pub create_write_lock : ℕ → Text → Text → Time → Locks → Option LockError × Locks
unfolding put_write_lock has_write_lock
create_write_lock protocol domain path now l =
    if (has_write_lock protocol domain path l).0
    then (some already_exists, l)
    else (none, put_write_lock protocol domain path now l)

-- DeleteWriteLock
unfoldable pub delete_write_lock : ℕ → Text → Text → Locks → Locks
delete_write_lock protocol domain path l = record l {
  write_lock = delete (lock_key protocol domain path) l.write_lock;
}

abbrev succeeded : Option LockError × Locks → Bool × Locks
succeeded (none, l) = (true, l)
succeeded (some e, l) = (false, l)

-- CreateExclusiveWriteLock, where no other goroutine comes in between
unfoldable pub create_exclusive_write_lock : ℕ → Text → Text → Time → Locks → Bool × Locks
unfolding create_write_lock has_write_lock has_file_lock
create_exclusive_write_lock protocol domain path now l =
    if (has_write_lock protocol domain path l).0
    then (false, l)
    else if (has_file_lock protocol domain path l).0
    then (false, l)
    else succeeded (create_write_lock protocol domain path now l)
