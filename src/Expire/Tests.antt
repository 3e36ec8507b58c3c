-- ===== src/Expire/Tests.antt =====
-- Runs of GetUnusedFiles (pkg/fscache/expire.go) and DeleteFile (pkg/fscache/localfile.go).
use go_aptcacher.Base.{ℕ, refl, false, [], ◌∷◌, ◌++◌, none, All, arith}
use mathlib.Core.List.{Memᴰ}
use go_aptcacher.Base.Text.{Text, codes, text_eq}
use go_aptcacher.Base.Map.{lookup}
use go_aptcacher.Keys.{access_cache_key}
use go_aptcacher.LocalPath.{Url}
use go_aptcacher.Access.{
  no_entry, Record, Env, AccessCache, normalize_access_entry, build_access_url, protocol_scheme,
}
use go_aptcacher.Access.Flush.{snapshot_access_cache}
use go_aptcacher.Expire.{get_unused_files, load_access_cache_records_from_disk}
use go_aptcacher.Expire.Complete.{get_unused_files_complete}
use go_aptcacher.Expire.Stale.{Stale, get_unused_files-Stale}

abbrev env : Env
env = record {
  layout = record { cache_path = codes "/c"; custom_cache_path = none };
  urls = record { string = λ u. u.scheme ++ codes "://" ++ u.host ++ u.path; parse = λ t. none };
}

abbrev used_at : Text → ℕ → Record
used_at path time = record {
  entry = record no_entry { last_accessed = time };
  protocol = 0;
  domain = codes "deb.debian.org";
  path = path;
  marked_for_deletion = false;
  marked_at = 0;
  dirty = false;
}

abbrev cache : AccessCache
cache = record {
  access_cache =
      (access_cache_key 0 (codes "deb.debian.org") (codes "/old"), used_at (codes "/old") 5)
      ∷ (access_cache_key 0 (codes "deb.debian.org") (codes "/new"), used_at (codes "/new") 500)
      ∷ [];
  files = [];
}

get_unused_files-Stale_example : All (Stale env 100 cache) (get_unused_files env 7 100 cache)
get_unused_files-Stale_example = get_unused_files-Stale env 100 cache 7

abbrev old_url : Url
old_url = record {
  scheme = codes "http";
  host = codes "deb.debian.org";
  path = codes "/old";
  raw_query = [];
}

old-Stale : Stale env 100 cache old_url
old-Stale = record {
  key = access_cache_key 0 (codes "deb.debian.org") (codes "/old");
  stale = used_at (codes "/old") 5;
  is_effective =
      unfold lookup snapshot_access_cache load_access_cache_records_from_disk access_cache_key
        text_eq in
      refl;
  used = omega arith;
  old = omega arith;
  named = unfold normalize_access_entry build_access_url protocol_scheme in refl;
}

get_unused_files_complete_example : Memᴰ old_url (get_unused_files env 7 100 cache)
get_unused_files_complete_example =
    get_unused_files_complete env 100 cache 7 old_url (omega arith) old-Stale
