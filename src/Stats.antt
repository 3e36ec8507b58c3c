-- ===== src/Stats.antt =====
-- pkg/fscache/stats.go: request statistics per day, their snapshot, and their file.
-- A `*statsEntry` is only read and written under `statsMux`, so a day's entry is a value of the map.
pub mod Day
pub mod Events
pub mod Totals
pub mod Order
pub mod Newest
pub mod Listing
pub mod Persist
mod Tests
use go_aptcacher.Base.{
  ℕ, zero, suc, ◌+◌, ◌*◌, ◌%◌, Bool, true, false, ◌||◌, not, List, [], ◌∷◌, ◌++◌, reverse, Option,
  none, some, ltb, leb, ◌==◌, if◌then◌else◌, length, uint64_mod, is_some,
}
use go_aptcacher.Base.Int.{ℤ, pos, negsuc, pos_part, is_pos}
use go_aptcacher.Base.Text.{Text}
use go_aptcacher.Base.Map.{Map, lookup, insert, keys}
use Day.{Date, format_day, parse_day, sort}

pub record StatsEntry : Type 0 where
  pub requests : ℕ
  pub hits : ℕ
  pub misses : ℕ
  pub tunnel : ℕ
  pub traffic_down : ℕ
  pub traffic_up : ℕ
  pub tunnel_transfer : ℕ

abbrev pub no_stats : StatsEntry
no_stats = record {
  requests = 0;
  hits = 0;
  misses = 0;
  tunnel = 0;
  traffic_down = 0;
  traffic_up = 0;
  tunnel_transfer = 0;
}

-- The fields `statsByDate`, `statsDirty` and `statsRevision` of an FSCache.
pub record Stats : Type 0 where
  pub by_date : Map StatsEntry
  pub dirty : Bool
  pub revision : ℕ

-- uint64 addition.
abbrev pub add64 : ℕ → ℕ → ℕ
add64 a b = (a + b) % uint64_mod

-- nonNegativeInt64ToUint64. The decimal text of a positive int64 always parses as a uint64.
unfoldable pub non_negative : ℤ → ℕ
non_negative v = if is_pos v then pos_part v else 0

-- dayStatsLocked: the entry of a day, a new one if there is none.
unfoldable pub day_stats : Text → Map StatsEntry → StatsEntry
day_stats day m = elim (lookup day m) [ none ↦ no_stats | some e ↦ e ]

-- What both kinds of request do with the entry of the day.
unfoldable pub count_request : Bool → ℕ → StatsEntry → StatsEntry
count_request true n e = record e {
  requests = add64 e.requests 1;
  hits = add64 e.hits 1;
  traffic_up = add64 e.traffic_up n;
}
count_request false n e = record e {
  requests = add64 e.requests 1;
  misses = add64 e.misses 1;
  traffic_down = add64 e.traffic_down n;
  traffic_up = add64 e.traffic_up n;
}

unfoldable pub count_tunnel : ℕ → StatsEntry → StatsEntry
count_tunnel n e = record e {
  requests = add64 e.requests 1;
  tunnel = add64 e.tunnel 1;
  traffic_down = add64 e.traffic_down n;
  traffic_up = add64 e.traffic_up n;
  tunnel_transfer = add64 e.tunnel_transfer n;
}

abbrev pub touch : Text → (StatsEntry → StatsEntry) → Stats → Stats
touch day f s = record s {
  by_date = insert day (f (day_stats day s.by_date)) s.by_date;
  dirty = true;
  revision = add64 s.revision 1;
}

-- TrackRequest; `today` is what the clock says.
unfoldable pub track_request : Date → Bool → ℤ → Stats → Stats
unfolding count_request non_negative
track_request today cache_hit transferred s =
    touch (format_day today) (count_request cache_hit (non_negative transferred)) s

-- TrackTunnelRequest.
unfoldable pub track_tunnel_request : Date → ℤ → Stats → Stats
unfolding count_tunnel non_negative
track_tunnel_request today transferred s =
    touch (format_day today) (count_tunnel (non_negative transferred)) s

-- GetStatsSnapshot

-- A row of the snapshot: a StatsDay is a date with the counters of an entry.
pub record StatsDay : Type 0 where
  pub date : Date
  pub counters : StatsEntry

-- `time.Now()` where there is no day, and the zero time where the first day does not parse.
pub data OldestDay : Type 0 where
  on : Date → OldestDay
  now : OldestDay
  zero_time : OldestDay

pub record StatsSnapshot : Type 0 where
  pub totals : StatsEntry
  pub daily : List StatsDay
  pub oldest_day : OldestDay

unfoldable pub add_entry : StatsEntry → StatsEntry → StatsEntry
add_entry t e = record {
  requests = add64 t.requests e.requests;
  hits = add64 t.hits e.hits;
  misses = add64 t.misses e.misses;
  tunnel = add64 t.tunnel e.tunnel;
  traffic_down = add64 t.traffic_down e.traffic_down;
  traffic_up = add64 t.traffic_up e.traffic_up;
  tunnel_transfer = add64 t.tunnel_transfer e.tunnel_transfer;
}

-- The first loop: the totals over the sorted days. A missing key reads as the zero entry.
unfoldable pub add_days : Map StatsEntry → StatsEntry → List Text → StatsEntry
unfolding day_stats
add_days m t [] = t
add_days m t (day ∷ days) = add_days m (add_entry t (day_stats day m)) days

-- The second loop, over the days from the last to the first, with `limit - len(stats.Daily)` as the
-- places left.
unfoldable pub list_days : Map StatsEntry → ℕ → List Text → List StatsDay
unfolding day_stats
list_days m zero days = []
list_days m (suc room) [] = []
list_days m (suc room) (day ∷ days) = elim (parse_day day) [
  | none ↦ list_days m (suc room) days
  | some date ↦ record { date = date; counters = day_stats day m } ∷ list_days m room days
]

unfoldable pub oldest : List Text → OldestDay
oldest [] = now
oldest (day ∷ days) = elim (parse_day day) [ none ↦ zero_time | some date ↦ on date ]

-- `limit <= 0 || limit > len(keys)`.
unfoldable pub effective_limit : ℤ → ℕ → ℕ
effective_limit limit n = if not (is_pos limit) || ltb n (pos_part limit) then n else pos_part limit

unfoldable pub get_stats_snapshot : ℤ → Stats → StatsSnapshot
get_stats_snapshot limit s =
    let days = sort (keys s.by_date) in
    record {
      totals = add_days s.by_date no_stats days;
      daily = list_days s.by_date (effective_limit limit (length days)) (reverse days);
      oldest_day = oldest days;
    }
