-- ===== src/Stats/Tests.antt =====
-- Runs of pkg/fscache/stats.go on small inputs.
use go_aptcacher.Base.{◌≡◌, ◌≢◌, ◌⊎◌, refl, true, false, List, [], ◌∷◌, none, some, arith}
use go_aptcacher.Base.Int.{pos, negsuc}
use go_aptcacher.Base.Text.{codes}
use go_aptcacher.Base.Map.{lookup, insert, keys}
use go_aptcacher.Stats.Day.{Date, parse_day, is_date}
use go_aptcacher.Stats.Events.{Event, cached, tunnelled, track, tally}
use go_aptcacher.Stats.Persist.Atomic.{flush_outcome}
use go_aptcacher.Stats.Persist.Restart.{
  System, Reach, here, next, tracks, begins, writes, ends, boot, idle, writing, written,
  clean_restart,
}
use go_aptcacher.Stats.Persist.{
  Disk, missing, no_fault, rename_fault, load_stats_from_disk, flush_stats_to_disk, begin_flush,
  write_stats, end_flush,
}
use go_aptcacher.Stats.{no_stats, Stats, track_request, non_negative}

abbrev new_year : Date
new_year = record { year = 2026; month = 1; day = 1 }

abbrev leap_day : Date
leap_day = record { year = 2024; month = 2; day = 29 }

abbrev empty : Stats
empty = record { by_date = []; dirty = false; revision = 0 }

abbrev events : List Event
events =
    cached new_year true (pos 10)
    ∷ tunnelled leap_day (pos 7)
    ∷ cached leap_day false (pos 5)
    ∷ cached new_year false (negsuc 0)
    ∷ []

days_parse :
    (parse_day (codes "2024-02-29") ≡ some leap_day)
    × (parse_day (codes "2026-02-29") ≡ none)
    × (parse_day (codes "2026-1-01") ≡ none)
unfolding parse_day
days_parse = (refl, refl, refl)

-- The tally of the requests of `events`.
tally-events : tally events ≡ record {
  requests = 4;
  hits = 1;
  misses = 2;
  tunnel = 1;
  traffic_down = 12;
  traffic_up = 22;
  tunnel_transfer = 7;
}
unfolding tally non_negative
tally-events = refl

abbrev two_days : Stats
two_days = record {
  by_date = (codes "2024-02-29", no_stats) ∷ (codes "2026-01-01", no_stats) ∷ [];
  dirty = true;
  revision = 2;
}

abbrev no_files : Disk
no_files = record { file = missing; tmp = missing }

flush_outcome_example :
    let r = flush_stats_to_disk rename_fault two_days no_files in
    ((r.0 ≢ none) × (r.1 ≡ two_days) × (r.2.file ≡ no_files.file))
    ⊎ ((r.0 ≡ none)
        × (r.1 ≡ record two_days { dirty = false })
        × ((load_stats_from_disk r.2.file empty).1.by_date ≡ two_days.by_date))
unfolding keys parse_day
flush_outcome_example = flush_outcome rename_fault two_days no_files empty refl (refl, (refl, tt))

abbrev hit : Event
hit = cached new_year true (pos 10)

abbrev tracked : System
tracked = record (boot no_files) { stats = track hit (boot no_files).stats }

abbrev copied : System
copied = record tracked { flusher = writing 1 tracked.stats.by_date }

abbrev saved : System
saved = record copied {
  disk = (write_stats no_fault tracked.stats.by_date no_files).1;
  flusher = written 1;
}

abbrev done : System
done = record saved { stats = end_flush 1 saved.stats; flusher = idle }

run_to_done : Reach (boot no_files) done
unfolding is_date begin_flush track load_stats_from_disk track_request write_stats lookup insert
run_to_done =
    next
      (next
        (next (next here (tracks (boot no_files) hit refl (omega arith)))
          (begins tracked 1 tracked.stats.by_date refl refl))
        (writes copied 1 tracked.stats.by_date no_fault refl))
      (ends saved 1 refl)

clean_restart_example : (boot done.disk).stats.by_date ≡ done.stats.by_date
unfolding end_flush track load_stats_from_disk track_request
clean_restart_example = clean_restart no_files run_to_done refl
