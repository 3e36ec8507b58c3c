-- ===== src/Locks/Tests.antt =====
-- Runs of the locks of pkg/fscache/access_cache.go.
use go_aptcacher.Base.{◌≡◌, refl, false, List, [], ◌∷◌, arith}
use go_aptcacher.Base.Text.{Text, codes, text_eq}
use go_aptcacher.Base.Map.{lookup, insert, keys}
use go_aptcacher.Keys.{lock_key}
use go_aptcacher.Locks.Exclusive
use go_aptcacher.Locks.Exclusive.{
  IsExclusive, Call, takes, releases, reads, run_calls, run_calls-IsExclusive,
}
use go_aptcacher.Locks.Race
use go_aptcacher.Locks.Race.{Step, Reach, owner, idle, written, two_owners}
use go_aptcacher.Locks.{Locks, create_exclusive_write_lock, has_write_lock, has_file_lock}

abbrev host : Text
host = codes "deb.debian.org"

abbrev file : Text
file = codes "/a.deb"

abbrev free : Locks
free = record { read_lock = []; write_lock = [] }

key_is : lock_key 1 host file ≡ codes "1deb.debian.org/a.deb"
unfolding lock_key
key_is = refl

-- A second writer is turned away.
second_writer :
    (create_exclusive_write_lock 0 host file 7 (create_exclusive_write_lock 0 host file 5 free).1).0
    ≡ false
unfolding create_exclusive_write_lock lock_key lookup insert text_eq
second_writer = refl

abbrev start : Exclusive.System
start = record { locks = free; holders = [] }

abbrev calls : List Call
calls =
    takes 1 0 host file 5
    ∷ takes 2 0 host file 6
    ∷ releases 0 host file
    ∷ reads 0 host file 7
    ∷ takes 2 0 host file 8
    ∷ []

start-IsExclusive : IsExclusive start
unfolding lookup keys
start-IsExclusive = record { one_holder = tt; lock_held = λ k. refl }

run_calls-IsExclusive_example : IsExclusive (run_calls calls start)
run_calls-IsExclusive_example = run_calls-IsExclusive calls start start-IsExclusive

abbrev both_idle : Race.System
both_idle = record { locks = free; pc = λ t. idle }

two_owners_example :
    (r : Race.System) × (r' : Race.System) × Reach 0 host file both_idle r
    × (r.pc 1 ≡ owner)
    × (r.pc 2 ≡ owner)
    × Step 0 host file r r'
    × (r'.pc 2 ≡ owner)
    × (written 0 host file r'.locks ≡ false)
unfolding has_write_lock has_file_lock lookup
two_owners_example = two_owners 0 host file 1 2 5 6 both_idle (omega arith) refl refl refl refl
