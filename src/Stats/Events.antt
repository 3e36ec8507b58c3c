-- ===== src/Stats/Events.antt =====
-- Sequences of tracked requests of pkg/fscache/stats.go, and what each adds to each counter.
use go_aptcacher.Base.{ℕ, ◌+◌, ◌%◌, ◌≡◌, refl, Bool, true, false, List, [], ◌∷◌, arith, uint64_mod}
use go_aptcacher.Base.Int.{ℤ}
use go_aptcacher.Stats.Day.{Date}
use go_aptcacher.Stats.{
  StatsEntry, no_stats, Stats, add_entry, count_request, count_tunnel, non_negative, track_request,
  track_tunnel_request,
}

pub data Event : Type 0 where
  cached : Date → Bool → ℤ → Event
  tunnelled : Date → ℤ → Event

unfoldable pub track : Event → Stats → Stats
track (cached d hit n) s = track_request d hit n s
track (tunnelled d n) s = track_tunnel_request d n s

unfoldable pub track_all : List Event → Stats → Stats
unfolding track
track_all [] s = s
track_all (e ∷ es) s = track_all es (track e s)

-- What one request is to add to the counters, whatever the day.
abbrev pub contribution : Event → StatsEntry
contribution (cached d true n) = record no_stats {
  requests = 1;
  hits = 1;
  traffic_up = non_negative n;
}
contribution (cached d false n) = record no_stats {
  requests = 1;
  misses = 1;
  traffic_down = non_negative n;
  traffic_up = non_negative n;
}
contribution (tunnelled d n) = record no_stats {
  requests = 1;
  tunnel = 1;
  traffic_down = non_negative n;
  traffic_up = non_negative n;
  tunnel_transfer = non_negative n;
}

-- The requests summed up with no days and no map.
unfoldable pub tally : List Event → StatsEntry
unfolding add_entry
tally [] = no_stats
tally (e ∷ es) = add_entry (contribution e) (tally es)

-- The names of the counters.
pub data Counter : Type 0 where
  requests hits misses tunnel traffic_down traffic_up tunnel_transfer : Counter

abbrev pub pick : Counter → StatsEntry → ℕ
pick requests e = e.requests
pick hits e = e.hits
pick misses e = e.misses
pick tunnel e = e.tunnel
pick traffic_down e = e.traffic_down
pick traffic_up e = e.traffic_up
pick tunnel_transfer e = e.tunnel_transfer

pub pick-add_entry :
    (c : Counter) (a b : StatsEntry) → pick c (add_entry a b) ≡ (pick c a + pick c b) % uint64_mod
unfolding add_entry
pick-add_entry requests a b = refl
pick-add_entry _ a b = refl

pub pick-no_stats : (c : Counter) → pick c no_stats ≡ 0
pick-no_stats requests = refl
pick-no_stats _ = refl

pub entry_ext : (a b : StatsEntry) → ((c : Counter) → pick c a ≡ pick c b) → a ≡ b
entry_ext a b h =
    cc (h requests, h hits, h misses, h tunnel, h traffic_down, h traffic_up, h tunnel_transfer)

-- The update that each event makes to the entry of its day.
abbrev pub count : Event → StatsEntry → StatsEntry
count (cached d hit n) = count_request hit (non_negative n)
count (tunnelled d n) = count_tunnel (non_negative n)

pub pick-count :
    (c : Counter) (ev : Event) (e : StatsEntry)
    → pick c (count ev e) % uint64_mod ≡ (pick c e + pick c (contribution ev)) % uint64_mod
unfolding count_request count_tunnel
pick-count requests (cached d true n) e = omega arith
pick-count requests (cached d false n) e = omega arith
pick-count requests (tunnelled d n) e = omega arith
pick-count _ (cached d true n) e = omega arith
pick-count _ (cached d false n) e = omega arith
pick-count _ (tunnelled d n) e = omega arith
