-- ===== src/Stats/Persist/Atomic.antt =====
-- The outcomes of flushStatsToDisk (pkg/fscache/stats.go).
use go_aptcacher.Base.{
  ◌≡◌, ◌≢◌, ◌⊎◌, inl, inr, refl, true, false, [], ◌∷◌, none, arith, is_some, All, ap,
}
use go_aptcacher.Base.Map.{Map, keys}
use go_aptcacher.Stats.Day.{parse_day}
use go_aptcacher.Stats.Persist.{
  Disk, Fault, no_fault, keep_days, load_stats_from_disk, flush_stats_to_disk,
}
use go_aptcacher.Stats.{StatsEntry, Stats}

-- Every key is a date.
abbrev pub AllDays : Map StatsEntry → Type 0
AllDays m = All (λ k. is_some (parse_day k) ≡ true) (keys m)

pub keep_days_all : (m : Map StatsEntry) → AllDays m → keep_days m ≡ m
unfolding keep_days keys
keep_days_all [] a = refl
keep_days_all ((k, e) ∷ m) a =
    rw a.0 (ap (λ (r : Map StatsEntry). (k, e) ∷ r) (keep_days_all m a.1))

-- A flush that reports an error has left the statistics and the file as they were, and a flush of
-- changed statistics that reports none has made them clean and leaves a file from which any
-- process loads the same days, whose keys are dates.
pub flush_outcome :
    (fault : Fault) (s : Stats) (d : Disk) (other : Stats)
    → s.dirty ≡ true
    → AllDays s.by_date
    → let r = flush_stats_to_disk fault s d in
      ((r.0 ≢ none) × (r.1 ≡ s) × (r.2.file ≡ d.file))
      ⊎ ((r.0 ≡ none)
          × (r.1 ≡ record s { dirty = false })
          × ((load_stats_from_disk r.2.file other).1.by_date ≡ s.by_date))
unfolding flush_stats_to_disk load_stats_from_disk
flush_outcome no_fault s d other h a =
    inr (ground arith, ground arith, ground (arith, keep_days_all s.by_date a))
flush_outcome _ s d other h a = inl (ground arith, ground arith, ground arith)
