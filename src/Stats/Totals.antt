-- ===== src/Stats/Totals.antt =====
-- The totals of GetStatsSnapshot (pkg/fscache/stats.go) against a plain sum over the requests.
use go_aptcacher.Base.{ℕ, ◌+◌, ◌<◌, List, [], ◌∷◌, arith, uint64_mod}
use go_aptcacher.Base.Text.{Text}
use go_aptcacher.Base.Map.{Map, keys, Distinct, Distinct-insert}
use go_aptcacher.Stats.Events.{
  Event, cached, tunnelled, track, track_all, contribution, tally, Counter, pick, pick-add_entry,
  pick-no_stats,
}
use go_aptcacher.Stats.{StatsEntry, Stats, day_stats, track_request, track_tunnel_request}

-- The sum of a counter over some days, and over all entries.
weight : Counter → Map StatsEntry → List Text → ℕ
weight c m [] = 0
weight c m (k ∷ ks) = pick c (day_stats k m) + weight c m ks

total : Counter → Map StatsEntry → ℕ
total c [] = 0
total c ((k, e) ∷ m) = pick c e + total c m

Distinct-track :
    (ev : Event) (s : Stats) → Distinct (keys s.by_date) → Distinct (keys (track ev s).by_date)
unfolding track track_request track_tunnel_request
Distinct-track (cached d hit n) s h = Distinct-insert _ _ s.by_date h
Distinct-track (tunnelled d n) s h = Distinct-insert _ _ s.by_date h

pub Distinct-track_all :
    (es : List Event) (s : Stats)
    → Distinct (keys s.by_date)
    → Distinct (keys (track_all es s).by_date)
unfolding track_all
Distinct-track_all [] s h = h
Distinct-track_all (e ∷ es) s h = Distinct-track_all es (track e s) (Distinct-track e s h)

pick-tally : (c : Counter) (es : List Event) → pick c (tally es) < uint64_mod
unfolding tally
pick-tally c [] = omega (arith, pick-no_stats c)
pick-tally c (e ∷ es) = omega (arith, pick-add_entry c (contribution e) (tally es))
