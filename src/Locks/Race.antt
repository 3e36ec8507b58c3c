-- ===== src/Locks/Race.antt =====
-- CreateExclusiveWriteLock (pkg/fscache/access_cache.go) where calls overlap. It looks at the locks
-- three times and then writes, each under its mutex but with the mutex free in between.
use go_aptcacher.Base.{
  ℕ, ◌≡◌, ◌≢◌, refl, sym, ap, ◌∙◌, Bool, true, false, arith, ◌==◌, if◌then◌else◌,
}
use go_aptcacher.Base.Text.{Text}
use go_aptcacher.Base.Map.{lookup-delete_self}
use go_aptcacher.Locks.{
  Time, Locks, or_zero, has_write_lock, has_file_lock, put_write_lock, delete_write_lock,
}

-- Where a thread stands in the call, and behind one that succeeded.
pub data Pc : Type 0 where
  idle no_writer no_reader no_writer_again owner : Pc

pub record System : Type 0 where
  pub locks : Locks
  pub pc : ℕ → Pc

pub move : ℕ → Pc → (ℕ → Pc) → ℕ → Pc
move t c f u = if u == t then c else f u

abbrev pub goto : ℕ → Pc → System → System
goto t c s = record s { pc = move t c s.pc }

module _ (protocol : ℕ) (domain path : Text) where
  abbrev pub written : Locks → Bool
  written l = (has_write_lock protocol domain path l).0

  abbrev pub read : Locks → Bool
  read l = (has_file_lock protocol domain path l).0

  -- The steps of threads that all want the lock of one file. A look that finds a lock ends
  -- the call.
  pub data Step (s : System) : System → Type 0 where
    look_writer : (t : ℕ) → s.pc t ≡ idle → written s.locks ≡ false → Step s (goto t no_writer s)
    look_reader : (t : ℕ) → s.pc t ≡ no_writer → read s.locks ≡ false → Step s (goto t no_reader s)
    look_again :
        (t : ℕ) → s.pc t ≡ no_reader → written s.locks ≡ false → Step s (goto t no_writer_again s)
    sees_writer : (t : ℕ) → s.pc t ≡ idle → written s.locks ≡ true → Step s s
    sees_reader : (t : ℕ) → s.pc t ≡ no_writer → read s.locks ≡ true → Step s (goto t idle s)
    sees_writer_again :
        (t : ℕ) → s.pc t ≡ no_reader → written s.locks ≡ true → Step s (goto t idle s)
    put :
        (t : ℕ) (now : Time)
        → s.pc t ≡ no_writer_again
        → Step s
            (goto t owner (record s { locks = put_write_lock protocol domain path now s.locks }))
    release :
        (t : ℕ)
        → s.pc t ≡ owner
        → Step s (goto t idle (record s { locks = delete_write_lock protocol domain path s.locks }))

  pub data Reach (s : System) : System → Type 0 where
    here : Reach s s
    next : {t u : System} → Reach s t → Step t u → Reach s u

  written-delete : (l : Locks) → written (delete_write_lock protocol domain path l) ≡ false
  unfolding has_write_lock delete_write_lock
  written-delete l = ap (λ o. (or_zero o).0) (lookup-delete_self _ l.write_lock)

  Reach-trans : {s t u : System} → Reach s t → Reach t u → Reach s u
  Reach-trans r here = r
  Reach-trans r (next q st) = next (Reach-trans r q) st

  -- A thread that finds no lock comes as far as the write.
  Reach-checks :
      (t : ℕ) (s : System)
      → s.pc t ≡ idle
      → written s.locks ≡ false
      → read s.locks ≡ false
      → (r : System) × Reach s r
        × (r.locks ≡ s.locks)
        × (r.pc t ≡ no_writer_again)
        × ((u : ℕ) → u ≢ t → r.pc u ≡ s.pc u)
  Reach-checks t s h w f =
      let s1 = goto t no_writer s in
      let s2 = goto t no_reader s1 in
      let s3 = goto t no_writer_again s2 in
      let step1 : Step s s1 = look_writer t h w in
      let step2 : Step s1 s2 = look_reader t (unfold move in ground arith) f in
      let step3 : Step s2 s3 = look_again t (unfold move in ground arith) w in
      (
        s3,
        next (next (next here step1) step2) step3,
        refl,
        unfold move in ground arith,
        λ u ne. unfold move in ground arith,
      )

  -- Two threads that want the lock of a file which nobody has locked may both get it; and when
  -- one of them lets go, the other goes on with no lock in the map.
  pub two_owners :
      (t u : ℕ) (now later : Time) (s : System)
      → t ≢ u
      → s.pc t ≡ idle
      → s.pc u ≡ idle
      → written s.locks ≡ false
      → read s.locks ≡ false
      → (r : System) × (r' : System) × Reach s r
        × (r.pc t ≡ owner)
        × (r.pc u ≡ owner)
        × Step r r'
        × (r'.pc u ≡ owner)
        × (written r'.locks ≡ false)
  two_owners t u now later s ne ht hu w f =
      let (a, to_a, locks_a, pc_a, others_a) = Reach-checks t s ht w f in
      let (b, to_b, locks_b, pc_b, others_b) =
        Reach-checks u a (others_a u (λ e. ne (sym e)) ∙ hu) (rw locks_a w) (rw locks_a f) in
      let c = goto t owner (record b { locks = put_write_lock protocol domain path now b.locks }) in
      let e =
        goto u owner (record c { locks = put_write_lock protocol domain path later c.locks }) in
      let g = goto t idle (record e { locks = delete_write_lock protocol domain path e.locks }) in
      let ready = others_b t ne ∙ pc_a in
      let owns : e.pc t ≡ owner = unfold move in ground arith in
      (
        e,
        g,
        next (next (Reach-trans to_a to_b) (put t now ready))
            (put u later (unfold move in ground arith)),
        owns,
        unfold move in ground arith,
        release t owns,
        unfold move in ground arith,
        written-delete e.locks,
      )
