-- ===== src/Request/Fetch.antt =====
-- The download of a file for a client that asks for it: fetchAndServeCacheMiss and
-- streamCacheMissResponse of pkg/fscache/request_get.go, and the functions that they call.
use go_aptcacher.Base.{
  ℕ, Bool, true, false, not, ◌&&◌, ◌||◌, [], ◌∷◌, ◌++◌, Option, none, some, if◌then◌else◌, ◌==◌,
  length, take, is_some,
}
use go_aptcacher.Base.Int.{ℤ, is_pos}
use go_aptcacher.Base.Text.{Text, codes, is_empty}
use go_aptcacher.Base.Map.{insert, delete}
use go_aptcacher.LocalPath.{Url, build_local_path}
use go_aptcacher.Locks.{Time}
use go_aptcacher.Access.{AccessEntry}
use go_aptcacher.Access.Methods.{set}
use go_aptcacher.Storage.{ensure_disk_space}
use go_aptcacher.Connect.{header_get, header_set}
use go_aptcacher.Request.{
  Task, track, World, Upstream, Server, copy_response_headers, upstream_header, is_cut_off,
}
use go_aptcacher.Request.Messages.{
  Client, ClientRequest, send_status, send_body, set_header, http_error,
}

-- `go` of a task.
unfoldable pub start : Task → World → World
start task w = record w { started = w.started ++ task ∷ [] }

-- The deferred os.Remove of the temporary file.
unfoldable pub without_file : Text → World → World
without_file name w = record w { store = record w.store { files = delete name w.store.files } }

module _ (s : Server) where
  unfoldable pub set_last_modified : Option Time → Client → Client
  unfolding header_set
  set_last_modified none c = c
  set_last_modified (some t) c = set_header (codes "Last-Modified") (s.format_rfc1123 t) c

  -- setConditionalCacheMissHeaders
  unfoldable pub set_conditional_cache_miss_headers : Upstream → Client → Client
  unfolding header_get header_set set_last_modified
  set_conditional_cache_miss_headers resp c =
      let last_modified = header_get (codes "Last-Modified") resp.header in
      let etag = header_get (codes "Etag") resp.header in
      let dated =
        if is_empty last_modified
        then c
        else set_last_modified (s.tools.parse_time last_modified) c in
      if is_empty etag then dated else set_header (codes "Etag") etag dated

  -- prepareCacheMissTarget, and whether the request goes on.
  unfoldable pub prepare_cache_miss_target : Text → Upstream → Client → Client × Bool
  unfolding http_error copy_response_headers set_conditional_cache_miss_headers header_set
  prepare_cache_miss_target name resp c =
      if s.faults.mkdir
      then (http_error (codes "Error creating cache directory") 500 c, false)
      else if is_pos resp.content_length
          && is_some (ensure_disk_space s.tools.file_system name resp.content_length)
      then (http_error (codes "Insufficient storage on cache server") 507 c, false)
      else (
        set_conditional_cache_miss_headers resp (
            set_header (codes "X-Cache") (codes "MISS")
              (record c { header = copy_response_headers c.header resp.header })),
        true,
      )

  -- buildTempCachePath
  unfoldable pub build_temp_cache_path : Text → Text
  build_temp_cache_path name = name ++ codes "." ++ s.random_name ++ codes ".partial"

  -- createCacheMissTempFile
  unfoldable pub create_cache_miss_temp_file : Upstream → Client → Client × Bool
  unfolding http_error
  create_cache_miss_temp_file resp c =
      if s.faults.create
      then (c, false)
      else if is_pos resp.content_length && s.faults.preallocate
      then (http_error (codes "Error reserving storage") 500 c, false)
      else (c, true)

  unfoldable pub copied : Option ℕ → Upstream → Client → Client × Bool
  unfolding send_body
  copied (some n) resp c = (send_body (take n resp.body) c, false)
  copied none resp c = (send_body resp.body c, not s.faults.close)

  -- streamResponseToClientAndCache, for a response whose body goes out in one write.
  unfoldable pub stream_response_to_client_and_cache : Upstream → Client → Client × Bool
  unfolding send_status copied
  stream_response_to_client_and_cache resp c = copied s.faults.copy resp (send_status resp.status c)

  -- parseLastModifiedForMetadata
  unfoldable pub parse_last_modified_for_metadata : Text → Time
  parse_last_modified_for_metadata last_modified =
      if is_empty last_modified
      then s.tools.now
      else (elim (s.tools.parse_time last_modified) [ none ↦ s.tools.now | some t ↦ t ])

  -- finalizeCacheMissFile. (The times of files are the file system's, and not set here.)
  unfoldable pub finalize_cache_miss_file : Client → Client × Bool
  unfolding http_error
  finalize_cache_miss_file c =
      if s.faults.rename then (http_error (codes "Error renaming file") 500 c, false) else (c, true)

  -- The entry that streamCacheMissResponse sets.
  unfoldable pub miss_entry : ClientRequest → Upstream → AccessEntry
  unfolding parse_last_modified_for_metadata header_get
  miss_entry r resp = record {
    last_accessed = s.tools.now;
    last_checked = s.tools.now;
    remote_last_modified =
        parse_last_modified_for_metadata (header_get (codes "Last-Modified") resp.header);
    etag = header_get (codes "Etag") resp.header;
    url = some r.url;
    size = ℤ.pos (length resp.body);
    sha256 = s.tools.sha256 resp.body;
  }

  -- The end of streamCacheMissResponse, once the file has its name.
  unfoldable pub record_cache_miss : ℕ → ClientRequest → Upstream → World → World
  unfolding miss_entry start
  record_cache_miss protocol r resp w =
      let name = build_local_path s.tools.env.layout r.url in
      start (track false (ℤ.pos (length resp.body))) (record w {
        store = record w.store {
          cache = set s.tools.env protocol r.url.host r.url.path (miss_entry r resp) w.store.cache;
          files = insert name resp.body (delete (build_temp_cache_path name) w.store.files);
        };
      })

  -- streamCacheMissResponse
  unfoldable pub stream_cache_miss_response :
      ℕ → ClientRequest → Upstream → Client × World → Client × World
  unfolding prepare_cache_miss_target create_cache_miss_temp_file
      stream_response_to_client_and_cache finalize_cache_miss_file record_cache_miss without_file
      is_cut_off
  stream_cache_miss_response protocol r resp (c, w) =
      let name = build_local_path s.tools.env.layout r.url in
      let failed = without_file (build_temp_cache_path name) w in
      let prepared = prepare_cache_miss_target name resp c in
      let created = create_cache_miss_temp_file resp prepared.0 in
      let streamed = stream_response_to_client_and_cache resp created.0 in
      let finished = finalize_cache_miss_file streamed.0 in
      if not prepared.1
      then (prepared.0, w)
      else if not created.1
      then (created.0, failed)
      else if not streamed.1 || is_cut_off resp
      then (streamed.0, failed)
      else if not finished.1
      then (finished.0, failed)
      else (finished.0, record_cache_miss protocol r resp w)

  unfoldable pub serve_upstream :
      ℕ → ClientRequest → Option Upstream → Client × World → Client × World
  unfolding http_error stream_cache_miss_response
  serve_upstream protocol r none (c, w) = (http_error (codes "Error fetching file") 500 c, w)
  serve_upstream protocol r (some resp) (c, w) =
      if resp.status == 200
      then stream_cache_miss_response protocol r resp (c, w)
      else (http_error (codes "Error fetching file") 404 c, w)

  -- The request to the origin, if its URL can be parsed.
  unfoldable pub serve_requested : ℕ → ClientRequest → Option Url → Client × World → Client × World
  unfolding http_error serve_upstream upstream_header
  serve_requested protocol r none (c, w) = (http_error (codes "Error creating request") 500 c, w)
  serve_requested protocol r (some u) (c, w) =
      serve_upstream protocol r (s.origin u (upstream_header s r)) (c, w)

  -- fetchAndServeCacheMiss
  unfoldable pub fetch_and_serve_cache_miss : ℕ → ClientRequest → Client × World → Client × World
  unfolding serve_requested
  fetch_and_serve_cache_miss protocol r cw =
      serve_requested protocol r (s.tools.env.urls.parse (s.tools.env.urls.string r.url)) cw
