-- ===== src/Locks/Exclusive.antt =====
-- CreateExclusiveWriteLock and DeleteWriteLock (pkg/fscache/access_cache.go) where calls do not
-- overlap: what they do on every branch, and mutual exclusion.
use go_aptcacher.Base.{
  ℕ, ◌≡◌, inl, inr, refl, Bool, true, false, ◌||◌, List, [], ◌∷◌, arith, if◌then◌else◌, is_some,
  Bool-cases,
}
use go_aptcacher.Base.Text.{Text, text_eq, text_eq_iff}
use go_aptcacher.Base.Map.{
  Map, keys, Absent, Distinct, lookup, insert, lookup-insert, lookup-delete, lookup-cons,
  Absent-of_lookup, lookup-of_Absent,
}
use go_aptcacher.Keys.{lock_key}
use go_aptcacher.Locks.{
  Time, Locks, delete_write_lock, create_exclusive_write_lock, remove_file_lock, create_file_lock,
}

-- Some lock, of either kind, is held for the key.
abbrev pub is_locked : Text → Locks → Bool
is_locked k l = is_some (lookup k l.write_lock) || is_some (lookup k l.read_lock)

-- The call succeeds exactly when neither a write lock nor a read lock is held. Then it writes the
-- lock with the time of the call and changes nothing else; otherwise it changes nothing.
create_exclusive_write_lock_lem :
    (protocol : ℕ) (domain path : Text) (now : Time) (l : Locks)
    → create_exclusive_write_lock protocol domain path now l ≡ (
        if is_locked (lock_key protocol domain path) l then (false, l) else (
          true,
          record l { write_lock = insert (lock_key protocol domain path) now l.write_lock },
        ))
unfolding create_exclusive_write_lock
create_exclusive_write_lock_lem protocol domain path now l = ground arith

-- The locks, and the threads that went on with a write, with the key of the lock that each took.
pub record System : Type 0 where
  pub locks : Locks
  pub holders : Map ℕ

-- One of the threads that hold the key lets go.
pub drop_first : Text → Map ℕ → Map ℕ
drop_first k [] = []
drop_first k ((j, t) ∷ m) = if text_eq j k then m else (j, t) ∷ drop_first k m

-- Whole calls of the program, one after the other. `takes` goes on only if the call succeeds.
pub data Call : Type 0 where
  takes : (thread protocol : ℕ) (domain path : Text) (now : Time) → Call
  releases : (protocol : ℕ) (domain path : Text) → Call
  reads : (protocol : ℕ) (domain path : Text) (now : Time) → Call
  read_ends : (protocol : ℕ) (domain path : Text) → Call

go_on : ℕ → Text → Map ℕ → Bool × Locks → System
go_on t k holders (true, l) = record { locks = l; holders = (k, t) ∷ holders }
go_on t k holders (false, l) = record { locks = l; holders = holders }

pub run_call : Call → System → System
run_call (takes t p d path now) s =
    go_on t (lock_key p d path) s.holders (create_exclusive_write_lock p d path now s.locks)
run_call (releases p d path) s = record {
  locks = delete_write_lock p d path s.locks;
  holders = drop_first (lock_key p d path) s.holders;
}
run_call (reads p d path now) s = record s { locks = create_file_lock p d path now s.locks }
run_call (read_ends p d path) s = record s { locks = remove_file_lock p d path s.locks }

pub run_calls : List Call → System → System
run_calls [] s = s
run_calls (c ∷ cs) s = run_calls cs (run_call c s)

-- A key has at most one holder, and it has one exactly while its write lock is in the map.
pub record IsExclusive (s : System) : Type 0 where
  pub one_holder : Distinct (keys s.holders)
  pub lock_held : (k : Text) → is_some (lookup k s.locks.write_lock) ≡ is_some (lookup k s.holders)

drop_first-cons :
    (k j : Text) (t : ℕ) (m : Map ℕ)
    → drop_first k ((j, t) ∷ m) ≡ (if text_eq j k then m else (j, t) ∷ drop_first k m)
unfolding drop_first
drop_first-cons k j t m = refl

-- With one holder for each key, that key has none afterwards.
lookup-drop_first :
    (k i : Text) (m : Map ℕ)
    → Distinct (keys m)
    → is_some (lookup i (drop_first k m)) ≡ (if text_eq k i then false else is_some (lookup i m))
unfolding keys
lookup-drop_first k i [] h = unfold drop_first lookup in ground arith
lookup-drop_first k i ((j, t) ∷ m) h = elim (Bool-cases (text_eq j k)) [
  | inl e ↦ ground (
    arith,
    drop_first-cons k j t m,
    lookup-cons i j t m,
    lookup-of_Absent j m h.0,
    text_eq_iff j k,
    text_eq_iff k i,
    text_eq_iff j i,
  )
  | inr e ↦ ground (
    arith,
    drop_first-cons k j t m,
    lookup-cons i j t m,
    lookup-cons i j t (drop_first k m),
    lookup-drop_first k i m h.1,
    text_eq_iff j k,
    text_eq_iff k i,
    text_eq_iff j i,
  )
]

Absent-drop_first : (i k : Text) (m : Map ℕ) → Absent i (keys m) → Absent i (keys (drop_first k m))
unfolding keys drop_first
Absent-drop_first i k [] h = tt
Absent-drop_first i k ((j, t) ∷ m) h = elim (Bool-cases (text_eq j k)) [
  | inl e ↦ rw e h.1
  | inr e ↦ rw e (h.0, Absent-drop_first i k m h.1)
]

Distinct-drop_first : (k : Text) (m : Map ℕ) → Distinct (keys m) → Distinct (keys (drop_first k m))
unfolding keys drop_first
Distinct-drop_first k [] h = tt
Distinct-drop_first k ((j, t) ∷ m) h = elim (Bool-cases (text_eq j k)) [
  | inl e ↦ rw e h.1
  | inr e ↦ rw e (Absent-drop_first j k m h.0, Distinct-drop_first k m h.1)
]

takes-IsExclusive :
    (t p : ℕ) (d path : Text) (now : Time) (s : System)
    → IsExclusive s
    → IsExclusive (run_call (takes t p d path now) s)
unfolding run_call go_on keys
takes-IsExclusive t p d path now s v =
    let k = lock_key p d path in
    elim (Bool-cases (is_locked k s.locks)) [
      | inl e ↦ rw (create_exclusive_write_lock_lem, e) v
      | inr e ↦
          rw (create_exclusive_write_lock_lem, e)
            (record {
              one_holder =
                  (Absent-of_lookup k s.holders (ground (arith, v.lock_held k)), v.one_holder);
              lock_held = λ j. ground (
                arith,
                lookup-insert k j now s.locks.write_lock,
                lookup-cons j k t s.holders,
                v.lock_held j,
              );
            })
    ]

run_call-IsExclusive : (c : Call) (s : System) → IsExclusive s → IsExclusive (run_call c s)
run_call-IsExclusive (takes t p d path now) s v = takes-IsExclusive t p d path now s v
run_call-IsExclusive (releases p d path) s v =
    let k = lock_key p d path in
    unfold run_call delete_write_lock in
    record {
      one_holder = Distinct-drop_first k s.holders v.one_holder;
      lock_held = λ j. ground (
        arith,
        lookup-delete k j s.locks.write_lock,
        lookup-drop_first k j s.holders v.one_holder,
        v.lock_held j,
      );
    }
run_call-IsExclusive (reads p d path now) s v =
    unfold run_call create_file_lock in
    record { one_holder = v.one_holder; lock_held = v.lock_held }
run_call-IsExclusive (read_ends p d path) s v =
    unfold run_call remove_file_lock in
    record { one_holder = v.one_holder; lock_held = v.lock_held }

-- Calls that take, release and look at locks, in any order and on any files, keep at most one
-- holder for each key, and keep the write lock of a key exactly while it has a holder, provided
-- that no call begins before the one before it has ended.
pub run_calls-IsExclusive :
    (cs : List Call) (s : System) → IsExclusive s → IsExclusive (run_calls cs s)
unfolding run_calls
run_calls-IsExclusive [] s v = v
run_calls-IsExclusive (c ∷ cs) s v =
    run_calls-IsExclusive cs (run_call c s) (run_call-IsExclusive c s v)
