-- ===== src/Stats/Listing.antt =====
-- The rows of GetStatsSnapshot (pkg/fscache/stats.go): how many, in what order, with what counters.
use go_aptcacher.Base.{◌≡◌, true, List}
use go_aptcacher.Base.Text.{Text}
use go_aptcacher.Base.Map.{Map}
use go_aptcacher.Stats.Day.{Date, is_date, format_day}
use go_aptcacher.Stats.{StatsEntry, Stats, StatsDay, day_stats}

-- A key of the map that is a date in the layout of the program.
abbrev pub IsDay : Text → Type 0
IsDay day = (d : Date) × (is_date d ≡ true) × (day ≡ format_day d)

abbrev pub day_of : StatsDay → Text
day_of r = format_day r.date

-- The row shows the counters that the map has for its day.
abbrev pub Shows : Map StatsEntry → StatsDay → Type 0
Shows m r = r.counters ≡ day_stats (day_of r) m
