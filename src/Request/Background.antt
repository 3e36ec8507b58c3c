-- ===== src/Request/Background.antt =====
-- What goes on behind a request: buildRefreshRequest and cacheRefresh of pkg/fscache/evaluate.go,
-- GetFileByPath of pkg/fscache/access_cache.go, backgroundFileTasks of pkg/fscache/request_get.go, and
-- the goroutines of pkg/fscache/async.go.
use go_aptcacher.Base.{
  ℕ, Bool, true, false, List, [], ◌∷◌, ◌++◌, Option, none, some, if◌then◌else◌, ◌==◌,
}
use go_aptcacher.Base.Text.{Text, codes, is_empty, text_eq, has_prefix}
use go_aptcacher.Base.Map.{Map, lookup}
use go_aptcacher.FilePath.{base}
use go_aptcacher.FilePath.Resolve.{resolve_reference}
use go_aptcacher.LocalPath.{Url, build_local_path, determine_protocol_from_url}
use go_aptcacher.Access.{AccessEntry}
use go_aptcacher.Access.Methods.{get, hit, add_url_if_not_exists}
use go_aptcacher.Connect.{header_set}
use go_aptcacher.Stats.{track_request}
use go_aptcacher.Refresh.{evaluate_refresh}
use go_aptcacher.Refresh.Download.{Response}
use go_aptcacher.Refresh.Answer.{
  State, Refreshed, changed, unchanged, no_response, not_downloaded, refresh_file,
}
use go_aptcacher.Request.{Server, Task, track, background}
use go_aptcacher.Request.Messages.{Header}

abbrev pub or_url : Option Url → Url → Url
or_url none u = u
or_url (some v) u = v

unfoldable pub set_unless : Bool → Text → Text → Header → Header
unfolding header_set
set_unless absent key value header = if absent then header else header_set key value header

abbrev indexes : Text → List Text
indexes directory =
    (directory ++ codes "/Packages")
    ∷ (directory ++ codes "/Packages.gz")
    ∷ (directory ++ codes "/Packages.bz2")
    ∷ (directory ++ codes "/Packages.xz")
    ∷ []

-- ConnectedFiles
abbrev pub connected_files : Map (List Text)
connected_files =
    (
      codes "InRelease",
      codes "Release"
          ∷ codes "Release.gpg"
          ∷ (indexes (codes "main/binary-amd64")
              ++ (indexes (codes "main/binary-i386")
                  ++ (indexes (codes "main/binary-arm64")
                      ++ (indexes (codes "main/binary-armhf")
                          ++ indexes (codes "main/binary-all"))))),
    )
    ∷ (codes "Release", codes "Release.gpg" ∷ codes "InRelease" ∷ [])
    ∷ (codes "Release.gpg", codes "Release" ∷ codes "InRelease" ∷ [])
    ∷ []

unfoldable pub connected_of : Option (List Text) → List Text
connected_of none = []
connected_of (some files) = files

module _ (s : Server) where
  -- The header of buildRefreshRequest.
  unfoldable pub refresh_header : AccessEntry → Header
  unfolding set_unless header_set
  refresh_header last_access =
      set_unless (is_empty last_access.sha256) (codes "X-Sha256") last_access.sha256 (
        set_unless (last_access.remote_last_modified == 0) (codes "If-Modified-Since")
          (s.format_http last_access.remote_last_modified)
          (set_unless (is_empty last_access.etag) (codes "If-None-Match") last_access.etag (
            header_set (codes "X-Action") (codes "refresh") (
              header_set (codes "User-Agent")
                (codes "GoAptCacher/"
                  ++ (s.version ++ codes " (+https://gitlab.com/bella.network/goaptcacher)"))
                []))))

  -- The answer of the origin, if the URL can be parsed.
  unfoldable pub refresh_answer : AccessEntry → Option Url → Option Response
  unfolding refresh_header
  refresh_answer last_access none = none
  refresh_answer last_access (some u) = s.refresh_origin u (refresh_header last_access)

  -- refreshFile, for the local file of a URL. An entry that Get returns has a URL of its own.
  unfoldable pub refresh_from_origin : Url → AccessEntry → State → Refreshed × State
  unfolding refresh_answer
  refresh_from_origin u last_access store =
      let access_url = or_url last_access.url u in
      refresh_file s.tools (build_local_path s.tools.env.layout u) access_url u last_access
        (refresh_answer last_access (s.tools.env.urls.parse (s.tools.env.urls.string access_url)))
        store

  abbrev pub empty_url : Url
  empty_url = record { scheme = []; host = []; path = []; raw_query = [] }

  unfoldable pub resolve_in : Option Url → Text → Url
  unfolding resolve_reference
  resolve_in none path = record empty_url { path = resolve_reference [] path }
  resolve_in (some origin) path = record origin {
    path = resolve_reference origin.path path;
    raw_query = [];
  }

  -- GetFileByPath, for a path that is not empty.
  unfoldable pub get_file_by_path : Text → Text → Option Url
  unfolding resolve_in
  get_file_by_path origin_url path =
      let resolved : Option Url = some (resolve_in (s.tools.env.urls.parse origin_url) path) in
      if has_prefix (codes "http://") path
      then s.tools.env.urls.parse path
      else if has_prefix (codes "https://") path
      then s.tools.env.urls.parse path
      else resolved

  -- The refresh of a connected file that has an entry.
  unfoldable pub refresh_entry : Url → (AccessEntry × Bool) → State → State
  unfolding refresh_from_origin
  refresh_entry u (last_access, false) store = store
  refresh_entry u (last_access, true) store = (refresh_from_origin u last_access store).1

  unfoldable pub refresh_connected : Option Url → State → State
  unfolding refresh_entry
  refresh_connected none store = store
  refresh_connected (some u) store =
      let protocol = if text_eq u.scheme (codes "https") then 1 else 0 in
      let looked_up = get s.tools.env protocol u.host u.path store.cache in
      refresh_entry u looked_up.0 (record store { cache = looked_up.1 })

  -- The loop of cacheRefresh.
  unfoldable pub refresh_all : Text → List Text → State → State
  unfolding refresh_connected get_file_by_path
  refresh_all origin_url [] store = store
  refresh_all origin_url (file ∷ files) store =
      refresh_all origin_url files (refresh_connected (get_file_by_path origin_url file) store)

  unfoldable pub after_refresh : Text → List Text → Refreshed × State → State
  unfolding refresh_all
  after_refresh origin_url files (changed, store) = refresh_all origin_url files store
  after_refresh origin_url files (unchanged, store) = store
  after_refresh origin_url files (no_response, store) = store
  after_refresh origin_url files (not_downloaded error, store) = store

  -- cacheRefresh
  unfoldable pub cache_refresh : Url → AccessEntry → State → State
  unfolding after_refresh refresh_from_origin connected_of
  cache_refresh u last_access store =
      let name = build_local_path s.tools.env.layout u in
      after_refresh (s.tools.env.urls.string (or_url last_access.url u))
        (connected_of (lookup (base name) connected_files))
        (refresh_from_origin u last_access store)

  -- hitAsync and addURLIfNotExistsAsync, in their order.
  unfoldable pub hit_and_url : ℕ → Url → State → State
  hit_and_url protocol u store =
      let e = s.tools.env in
      record store {
        cache =
            add_url_if_not_exists e protocol u.host u.path (e.urls.string u)
              (hit e s.tools.now protocol u.host u.path store.cache);
      }

  unfoldable pub background_for : ℕ → Url → AccessEntry × Bool → State → State
  unfolding cache_refresh hit_and_url
  background_for protocol u (last_access, false) store = store
  background_for protocol u (last_access, true) store = hit_and_url protocol u (
      if evaluate_refresh s.tools.env.layout s.tools.now u last_access.last_checked
      then cache_refresh u last_access store
      else store)

  -- backgroundFileTasks, whose own goroutines run in one order here.
  unfoldable pub background_file_tasks : Url → State → State
  unfolding background_for
  background_file_tasks u store =
      let protocol = determine_protocol_from_url u in
      let looked_up = get s.tools.env protocol u.host u.path store.cache in
      background_for protocol u looked_up.0 (record store { cache = looked_up.1 })

  unfoldable pub run_task : Task → State → State
  unfolding background_file_tasks
  run_task (track cache_hit transferred) store = record store {
    stats = track_request s.tools.today cache_hit transferred store.stats;
  }
  run_task (background u) store = background_file_tasks u store

  -- The goroutines that requests have started, one after the other.
  unfoldable pub run_tasks : List Task → State → State
  unfolding run_task
  run_tasks [] store = store
  run_tasks (task ∷ tasks) store = run_tasks tasks (run_task task store)
