-- ===== src/Refresh/Tests.antt =====
-- Runs of refreshFile and evaluateRefresh (pkg/fscache/evaluate.go).
use go_aptcacher.Base.{◌*◌, ◌≡◌, true, false, [], ◌++◌, none, some, arith}
use go_aptcacher.Base.Int.{ℤ}
use go_aptcacher.Base.Text.{Text, codes}
use go_aptcacher.LocalPath.{Url}
use go_aptcacher.Access.{AccessEntry, no_entry, Env}
use go_aptcacher.Refresh.{evaluate_refresh, minute, hour}
use go_aptcacher.Refresh.Download.{Response, no_fault}
use go_aptcacher.Refresh.Answer.{State, Tools, refresh_file}
use go_aptcacher.Refresh.Agreement.{Concluded, refresh_file-Concluded}
use go_aptcacher.Refresh.Due.{evaluate_refresh_early, evaluate_refresh_late}

abbrev release : Url
release = record {
  scheme = codes "http";
  host = codes "deb.debian.org";
  path = codes "/debian/dists/sid/Release";
  raw_query = [];
}

abbrev env : Env
env = record {
  layout = record { cache_path = codes "/c"; custom_cache_path = none };
  urls = record {
    string = λ u. u.scheme ++ codes "://" ++ u.host ++ u.path;
    parse = λ t. some release;
  };
}

-- The hash is a stand-in: the bytes themselves.
abbrev tools : Tools
tools = record {
  env = env;
  now = 1000;
  today = record { year = 2025; month = 1; day = 2 };
  parse_time = λ t. none;
  sha256 = λ t. t;
  file_system = record { stat_is_dir = λ p. some true; statfs = λ p. some (1000000, ℤ.pos 4096) };
  fault = no_fault;
  temp = codes "/c/tmp";
}

abbrev start : State
start = record {
  cache = record { access_cache = []; files = [] };
  files = [];
  stats = record { by_date = []; dirty = false; revision = 0 };
}

abbrev response : Response
response = record {
  status = 200;
  last_modified = [];
  etag = codes "v2";
  content_length = ℤ.pos 5;
  body = codes "Suite";
}

abbrev name : Text
name = codes "/c/deb.debian.org/debian/dists/sid/Release"

abbrev last_access : AccessEntry
last_access = record no_entry { etag = codes "v1"; url = some release }

refresh_file-Concluded_example :
    Concluded tools name release release start
      (refresh_file tools name release release last_access (some response) start)
refresh_file-Concluded_example =
    refresh_file-Concluded tools name release release start last_access (some response)

evaluate_refresh_early_example : evaluate_refresh env.layout (5 * minute) release 0 ≡ false
evaluate_refresh_early_example =
    evaluate_refresh_early env.layout (5 * minute) release 0 (omega arith)

evaluate_refresh_late_example : evaluate_refresh env.layout (169 * hour) release 0 ≡ true
evaluate_refresh_late_example =
    evaluate_refresh_late env.layout (169 * hour) release 0 (omega arith)
