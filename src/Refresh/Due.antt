-- ===== src/Refresh/Due.antt =====
-- When evaluateRefresh of pkg/fscache/evaluate.go lets a file be looked up at its origin.
use go_aptcacher.Base.{◌+◌, ◌≤◌, ◌<◌, ◌≡◌, ◌*◌, true, false, arith}
use go_aptcacher.Base.Text.{Text}
use go_aptcacher.FilePath.{base}
use go_aptcacher.LocalPath.{Url, Layout, build_local_path}
use go_aptcacher.Locks.{Time}
use go_aptcacher.Refresh.{recheck_timeout, evaluate_refresh, minute, hour}

recheck_timeout_bounds :
    (path filename : Text)
    → (5 * minute ≤ recheck_timeout path filename) × (recheck_timeout path filename ≤ 168 * hour)
unfolding recheck_timeout
recheck_timeout_bounds path filename = (ground arith, ground arith)

-- evaluateRefresh says of no file, index files of repositories included, that it is due again within
-- five minutes of its last check. (cacheRefresh takes the files that are connected to a changed one
-- along without asking evaluateRefresh.)
pub evaluate_refresh_early :
    (layout : Layout) (now : Time) (u : Url) (last_checked : Time)
    → now ≤ last_checked + 5 * minute
    → evaluate_refresh layout now u last_checked ≡ false
unfolding evaluate_refresh
evaluate_refresh_early layout now u last_checked h =
    ground (arith, (recheck_timeout_bounds u.path (base (build_local_path layout u))).0)

-- evaluateRefresh says of every file, of whatever kind, that it is due again more than a week after
-- its last check.
pub evaluate_refresh_late :
    (layout : Layout) (now : Time) (u : Url) (last_checked : Time)
    → last_checked + 168 * hour < now
    → evaluate_refresh layout now u last_checked ≡ true
unfolding evaluate_refresh
evaluate_refresh_late layout now u last_checked h =
    ground (arith, (recheck_timeout_bounds u.path (base (build_local_path layout u))).1)
