-- ===== src/Stats/Persist.antt =====
-- The statistics file of pkg/fscache/stats.go: loadStatsFromDisk and flushStatsToDisk, the latter in
-- the three parts that its locks leave other goroutines to run between.
pub mod Atomic
pub mod Restart
use go_aptcacher.Base.{
  ℕ, Bool, true, false, List, [], ◌∷◌, Option, none, some, ◌==◌, if◌then◌else◌, is_some,
}
use go_aptcacher.Base.Text.{Text}
use go_aptcacher.Base.Map.{Map}
use go_aptcacher.Stats.Day.{parse_day}
use go_aptcacher.Stats.{StatsEntry, Stats}

-- What a read of a file of statistics finds: no file, a file that cannot be read, one that is no
-- JSON of a persistedStats, or the version and the days of one.
pub data StatsFile : Type 0 where
  missing unreadable garbage : StatsFile
  payload : ℕ → Map StatsEntry → StatsFile

-- `.stats.json` and `.stats.json.tmp`.
pub record Disk : Type 0 where
  pub file : StatsFile
  pub tmp : StatsFile

pub data StatsError : Type 0 where
  read_failed unmarshal_failed mkdir_failed write_failed rename_failed : StatsError

-- The loop of loadStatsFromDisk: days that do not parse are left out.
unfoldable pub keep_days : Map StatsEntry → Map StatsEntry
keep_days [] = []
keep_days ((day, e) ∷ m) =
    let rest = keep_days m in if is_some (parse_day day) then (day, e) ∷ rest else rest

-- loadStatsFromDisk
unfoldable pub load_stats_from_disk : StatsFile → Stats → Option StatsError × Stats
load_stats_from_disk missing s = (none, s)
load_stats_from_disk unreadable s = (some read_failed, s)
load_stats_from_disk garbage s = (some unmarshal_failed, s)
load_stats_from_disk (payload version daily) s =
    (none, record { by_date = keep_days daily; dirty = false; revision = 0 })

-- flushStatsToDisk up to the first RUnlock: the revision and a copy of the days, if they changed.
unfoldable pub begin_flush : Stats → Option (ℕ × Map StatsEntry)
begin_flush s = if s.dirty then some (s.revision, s.by_date) else none

-- What the file system does to the write. A WriteFile that fails leaves any `tmp` behind.
pub data Fault : Type 0 where
  no_fault : Fault
  mkdir_fault : Fault
  write_fault : StatsFile → Fault
  rename_fault : Fault

-- From json.Marshal (which has no error for this type) to os.Rename.
unfoldable pub write_stats : Fault → Map StatsEntry → Disk → Option StatsError × Disk
write_stats no_fault daily d = (none, record { file = payload 1 daily; tmp = missing })
write_stats mkdir_fault daily d = (some mkdir_failed, d)
write_stats (write_fault left) daily d = (some write_failed, record d { tmp = left })
write_stats rename_fault daily d = (some rename_failed, record d { tmp = payload 1 daily })

-- The last locked part: only if nothing was tracked since the copy are the days clean.
unfoldable pub end_flush : ℕ → Stats → Stats
end_flush revision s = if s.revision == revision then record s { dirty = false } else s

-- The rest of flushStatsToDisk behind the write.
after_write : ℕ → Stats → Option StatsError × Disk → Option StatsError × Stats × Disk
unfolding end_flush
after_write revision s (none, d) = (none, end_flush revision s, d)
after_write revision s (some e, d) = (some e, s, d)

-- flushStatsToDisk with nothing in between.
unfoldable pub flush_stats_to_disk : Fault → Stats → Disk → Option StatsError × Stats × Disk
unfolding begin_flush write_stats after_write
flush_stats_to_disk fault s d = elim (begin_flush s) [
  | none ↦ (none, s, d)
  | some (revision, daily) ↦ after_write revision s (write_stats fault daily d)
]
