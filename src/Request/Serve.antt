-- ===== src/Request/Serve.antt =====
-- serveGETRequest of pkg/fscache/request_get.go: what serves a file from the disk, and what waits for
-- the write lock of a file that is not there.
use go_aptcacher.Base.{
  ℕ, zero, suc, Bool, true, false, not, ◌&&◌, ◌++◌, Option, none, some, if◌then◌else◌, length,
  is_some,
}
use go_aptcacher.Base.Int.{ℤ, is_pos, eqb_ℤ}
use go_aptcacher.Base.Text.{Text, codes, contains}
use go_aptcacher.Base.Map.{lookup, delete}
use go_aptcacher.Keys.{itoa}
use go_aptcacher.LocalPath.{Url, build_local_path, determine_protocol_from_url}
use go_aptcacher.Locks.{
  create_file_lock, remove_file_lock, create_exclusive_write_lock, delete_write_lock,
}
use go_aptcacher.Access.{AccessEntry, no_entry, access_cache_meta_path}
use go_aptcacher.Access.Methods.{get, set, delete_entry}
use go_aptcacher.Connect.{header_set}
use go_aptcacher.Refresh.{is_repository_metadata_path, evaluate_refresh}
use go_aptcacher.Request.{World, Server, track, background}
use go_aptcacher.Request.Messages.{
  Client, ClientRequest, set_header, header_add, http_error, serve_file,
}
use go_aptcacher.Request.Background.{refresh_from_origin}
use go_aptcacher.Request.Fetch.{start, fetch_and_serve_cache_miss}

-- os.Stat of a file, by the content that the file has.
abbrev pub stat : Text → World → Option Text
stat name w = lookup name w.store.files

unfoldable pub delete_lock : ℕ → Url → World → World
delete_lock protocol u w = record w { locks = delete_write_lock protocol u.host u.path w.locks }

-- The file is missing, or not of the size of its entry.
unfoldable pub is_stale : AccessEntry → Option Text → Bool
is_stale last_access none = true
is_stale last_access (some content) =
    is_pos last_access.size && not (eqb_ℤ (ℤ.pos (length content)) last_access.size)

abbrev pub Run : Type 0
Run = Client × World → Option (Client × World)

-- The deferred DeleteWriteLock.
unfoldable pub unlock_after : ℕ → Url → Option (Client × World) → Option (Client × World)
unfolding delete_lock
unlock_after protocol u none = none
unlock_after protocol u (some (c, w)) = some (c, delete_lock protocol u w)

-- The file may be served without a look at the access cache.
unfoldable pub is_pool_file : Text → Bool
is_pool_file name = contains (codes "/pool/") name && not (contains (codes "/dists/") name)

module _ (s : Server) where
  unfoldable pub file_locked : ℕ → Url → World → World
  file_locked protocol u w = record w {
    locks = create_file_lock protocol u.host u.path s.tools.now w.locks;
  }

  unfoldable pub file_unlocked : ℕ → Url → World → World
  file_unlocked protocol u w = record w { locks = remove_file_lock protocol u.host u.path w.locks }

  -- The part of serveLocalFile under the file lock.
  unfoldable pub serve_content :
      ClientRequest → Text → Option Text → Client × World → Client × World
  unfolding http_error header_set serve_file start
  serve_content r name none (c, w) = (http_error (codes "Error accessing cached file") 500 c, w)
  serve_content r name (some content) (c, w) = (
    serve_file s.otherwise r (s.format_http (s.mod_time name)) content (
        set_header (codes "Last-Modified") (s.format_http (s.mod_time name)) (
          set_header (codes "Content-Type") (codes "application/octet-stream") (
            set_header (codes "Content-Length") (itoa (length content))
              (set_header (codes "X-Cache") (codes "HIT") c)))),
    start (track true (ℤ.pos (length content))) w,
  )

  -- serveLocalFile
  unfoldable pub serve_local_file : ClientRequest → Text → Client × World → Client × World
  unfolding serve_content file_locked file_unlocked
  serve_local_file r name (c, w) =
      let protocol = determine_protocol_from_url r.url in
      let served = serve_content r name (stat name w) (c, file_locked protocol r.url w) in
      (served.0, file_unlocked protocol r.url served.1)

  -- serveLocalFile, and then the start of backgroundFileTasks.
  unfoldable pub serve_cached : ClientRequest → Text → Client × World → Client × World
  unfolding serve_local_file start
  serve_cached r name cw =
      let served = serve_local_file r name cw in (served.0, start (background r.url) served.1)

  -- refreshStaleMetadataBeforeServe, once it has its lock or not.
  unfoldable pub refresh_locked : Bool → ℕ → Url → AccessEntry → World → World
  unfolding delete_lock refresh_from_origin
  refresh_locked false protocol u last_access w = w
  refresh_locked true protocol u last_access w =
      delete_lock protocol u (record w { store = (refresh_from_origin s u last_access w.store).1 })

  unfoldable pub take_lock : ℕ → Url → World → Bool × World
  take_lock protocol u w =
      let taken = create_exclusive_write_lock protocol u.host u.path s.tools.now w.locks in
      (taken.0, record w { locks = taken.1 })

  -- refreshStaleMetadataBeforeServe
  unfoldable pub refresh_stale_metadata_before_serve : ℕ → Url → AccessEntry → World → World
  unfolding refresh_locked take_lock
  refresh_stale_metadata_before_serve protocol u last_access w =
      let taken = take_lock protocol u w in
      if is_repository_metadata_path u.path
        && evaluate_refresh s.tools.env.layout s.tools.now u last_access.last_checked
      then refresh_locked taken.0 protocol u last_access taken.1
      else w

  -- Delete, and os.Remove of the file.
  unfoldable pub drop_stale : ℕ → Url → Text → World → World
  drop_stale protocol u name w =
      let e = s.tools.env in
      record w {
        store = record w.store {
          cache =
              delete_entry e (s.removes (access_cache_meta_path e protocol u.host u.path)) protocol
                u.host u.path w.store.cache;
          files = if s.removes name then delete name w.store.files else w.store.files;
        };
      }

  -- Get, in the world.
  unfoldable pub get_entry : ℕ → Url → World → (AccessEntry × Bool) × World
  get_entry protocol u w =
      let found = get s.tools.env protocol u.host u.path w.store.cache in
      (found.0, record w { store = record w.store { cache = found.1 } })

  -- The entry that serveRecoveredCacheMiss makes of a file that has none.
  unfoldable pub recovered_entry : Url → Text → Text → AccessEntry
  recovered_entry u name content = record no_entry {
    remote_last_modified = s.mod_time name;
    last_accessed = s.tools.now;
    url = some u;
    size = ℤ.pos (length content);
    sha256 = s.tools.sha256 content;
  }

  -- serveRecoveredCacheMiss, and after it fetchAndServeCacheMiss where it has not answered; `again` is
  -- serveGETRequest.
  unfoldable pub recover_or_fetch : Run → ℕ → ClientRequest → Text → Option Text → Run
  unfolding fetch_and_serve_cache_miss http_error recovered_entry header_add
  recover_or_fetch again protocol r name none cw = some (fetch_and_serve_cache_miss s protocol r cw)
  recover_or_fetch again protocol r name (some content) (c, w) =
      if s.faults.hash
      then some (http_error (codes "Error generating file hash") 500 c, w)
      else again (
        record c { header = header_add (codes "X-Cache") (codes "ROUNDTRIP") c.header },
        record w {
          store = record w.store {
            cache =
                set s.tools.env protocol r.url.host r.url.path (recovered_entry r.url name content)
                  w.store.cache;
          };
        },
      )

  unfoldable pub serve_with_lock : Run → ℕ → ClientRequest → Run
  unfolding get_entry recover_or_fetch
  serve_with_lock again protocol r (c, w) =
      let name = build_local_path s.tools.env.layout r.url in
      let found = get_entry protocol r.url w in
      if found.0.1
      then again (c, found.1)
      else recover_or_fetch again protocol r name (stat name found.1) (c, found.1)

  -- serveGETRequestCacheMiss, with the attempts that are left: `retry` is 26 less these. `held` says
  -- whether a call of it further out has the write lock; only `others` looks at it.
  unfoldable pub serve_get_request_cache_miss : Run → Bool → ℕ → ClientRequest → Run
  unfolding http_error take_lock serve_with_lock unlock_after
  serve_get_request_cache_miss again held zero r (c, w) =
      some
        (http_error (codes "File is currently being downloaded, please try again later") 500 c, w)
  serve_get_request_cache_miss again held (suc left) r (c, w) =
      let protocol = determine_protocol_from_url r.url in
      let taken = take_lock protocol r.url w in
      let retried = serve_get_request_cache_miss again held left r (c, s.others held taken.1) in
      if taken.0
      then unlock_after protocol r.url (serve_with_lock again protocol r (c, taken.1))
      else retried

  -- `Set` of the headers that every answer has.
  unfoldable pub basic_headers : Client → Client
  unfolding header_set
  basic_headers c =
      set_header (codes "X-Proxy-Server") (codes "GoAptCacher/" ++ s.version)
        (set_header (codes "Connection") (codes "keep-alive") c)

  unfoldable pub serve_found :
      (Run)
      → ℕ
      → ClientRequest
      → Text
      → (AccessEntry × Bool) × World
      → Client
      → Option (Client × World)
  unfolding is_stale drop_stale serve_cached refresh_stale_metadata_before_serve
  serve_found miss protocol r name ((last_access, false), w) c = miss (c, w)
  serve_found miss protocol r name ((last_access, true), w) c =
      if is_stale last_access (stat name w)
      then miss (c, drop_stale protocol r.url name w)
      else some (
          serve_cached r name (c, refresh_stale_metadata_before_serve protocol r.url last_access w))

  -- serveGETRequest, on fuel for its calls of itself.
  unfoldable pub serve_get_request : ℕ → Bool → ClientRequest → Run
  unfolding basic_headers is_pool_file serve_cached serve_found get_entry
      serve_get_request_cache_miss
  serve_get_request zero held r cw = none
  serve_get_request (suc fuel) held r (c, w) =
      let protocol = determine_protocol_from_url r.url in
      let name = build_local_path s.tools.env.layout r.url in
      let again = serve_get_request fuel true r in
      if is_pool_file name && is_some (stat name w)
      then some (serve_cached r name (basic_headers c, w))
      else serve_found (serve_get_request_cache_miss again held 26 r) protocol r name
          (get_entry protocol r.url w) (basic_headers c)
