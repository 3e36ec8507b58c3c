-- ===== src/Request/Hit.antt =====
-- What serveGETRequest of pkg/fscache/request_get.go serves from the disk.
use go_aptcacher.Base.{
  ℕ, suc, ◌≡◌, refl, ap, ◌∙◌, Bool, true, false, ◌&&◌, [], ◌∷◌, ◌++◌, Option, none, some, List,
  if◌then◌else◌, is_some, length, arith,
}
use go_aptcacher.Base.Int.{ℤ}
use go_aptcacher.Base.Text.{Text, codes, text_eq}
use go_aptcacher.Base.Map.{Map, lookup, lookup-insert, lookup-insert_self}
use go_aptcacher.Keys.{itoa}
use go_aptcacher.LocalPath.{build_local_path}
use go_aptcacher.Locks.{Locks, create_file_lock, remove_file_lock}
use go_aptcacher.Access.{AccessEntry}
use go_aptcacher.Access.Methods.{get}
use go_aptcacher.Connect.{header_get, header_set, first_value}
use go_aptcacher.Refresh.{evaluate_refresh}
use go_aptcacher.Request.{World, Server, Task, track, background}
use go_aptcacher.Request.Messages.{
  Header, Client, ClientRequest, send_status, send_body, serve_file, is_file_path, is_plain,
}
use go_aptcacher.Request.Fetch.{start}
use go_aptcacher.Request.Ends.{protocol}
use go_aptcacher.Request.Serve.{
  stat, serve_content, serve_local_file, serve_cached, refresh_stale_metadata_before_serve,
  is_stale, file_locked, file_unlocked, get_entry, is_pool_file, basic_headers, serve_found,
  serve_get_request, serve_get_request_cache_miss,
}

header_get-set_other :
    (k j v : Text) (h : Header)
    → text_eq j k ≡ false
    → header_get k (header_set j v h) ≡ header_get k h
unfolding header_get header_set
header_get-set_other k j v h e = rw (lookup-insert j k (v ∷ []) h) (rw e refl)

header_get-set_self : (k v : Text) (h : Header) → header_get k (header_set k v h) ≡ v
unfolding header_get header_set
header_get-set_self k v h = ap first_value (lookup-insert_self k (v ∷ []) h)

abbrev x_cache : Text
x_cache = codes "X-Cache"

-- Another header leaves it as it is.
header_get-set_x_cache :
    (j v : Text) (h : Header)
    → text_eq j x_cache ≡ false
    → header_get x_cache (header_set j v h) ≡ header_get x_cache h
header_get-set_x_cache j v h e = header_get-set_other x_cache j v h e

module _ (s : Server) (r : ClientRequest) (content : Text) where
  -- The request asks for the whole file of a path that http.ServeFile serves.
  abbrev pub WantsFile : Type 0
  WantsFile = is_file_path r.url.path && is_plain r ≡ true

  -- The client was sent the content, marked as a hit; files, statistics and write locks are as they
  -- were, and two goroutines were started.
  pub record Hit (c : Client) (w : World) (x : Client × World) : Type 0 where
    pub header : Header
    pub sent : x.0.sent ≡ some (200, header)
    pub marked : header_get (codes "X-Cache") header ≡ codes "HIT"
    pub body : x.0.body ≡ c.body ++ content
    pub files : x.1.store.files ≡ w.store.files
    pub stats : x.1.store.stats ≡ w.store.stats
    pub write_lock : x.1.locks.write_lock ≡ w.locks.write_lock
    pub started :
        x.1.started
        ≡ (w.started ++ track true (ℤ.pos (length content)) ∷ []) ++ background r.url ∷ []

  serve_file-whole :
      (last_modified : Text) (c : Client)
      → WantsFile
      → c.sent ≡ none
      → (header : Header) × ((serve_file s.otherwise r last_modified content c).sent
          ≡ some (200, header))
        × (header_get (codes "X-Cache") header ≡ header_get (codes "X-Cache") c.header)
        × ((serve_file s.otherwise r last_modified content c).body ≡ c.body ++ content)
  unfolding serve_file send_status send_body
  serve_file-whole last_modified c plain h =
      let dated = header_set (codes "Last-Modified") last_modified c.header in
      let ranged = header_set (codes "Accept-Ranges") (codes "bytes") dated in
      let kept : header_get x_cache
            (header_set (codes "Content-Length") (itoa (length content)) ranged)
          ≡ header_get x_cache c.header =
        header_get-set_x_cache (codes "Content-Length") _ ranged (unfold text_eq in refl)
        ∙ (header_get-set_x_cache (codes "Accept-Ranges") _ dated (unfold text_eq in refl)
            ∙ header_get-set_x_cache (codes "Last-Modified") last_modified c.header
                (unfold text_eq in refl)) in
      rw plain (rw h (_, refl, kept, refl))

  -- serveLocalFile and the start of the background tasks.
  serve_cached-Hit :
      (name : Text) (c : Client) (w : World)
      → WantsFile
      → c.sent ≡ none
      → lookup name w.store.files ≡ some content
      → Hit c w (serve_cached s r name (c, w))
  unfolding serve_cached serve_local_file serve_content file_locked file_unlocked start
      create_file_lock remove_file_lock
  serve_cached-Hit name c w plain h file = rw file (
      let date = s.format_http (s.mod_time name) in
      let marked = header_set x_cache (codes "HIT") c.header in
      let sized = header_set (codes "Content-Length") (itoa (length content)) marked in
      let typed = header_set (codes "Content-Type") (codes "application/octet-stream") sized in
      let dated = header_set (codes "Last-Modified") date typed in
      let kept : header_get x_cache dated ≡ codes "HIT" =
        header_get-set_x_cache (codes "Last-Modified") date typed (unfold text_eq in refl)
        ∙ (header_get-set_x_cache (codes "Content-Type") _ sized (unfold text_eq in refl)
            ∙ (header_get-set_x_cache (codes "Content-Length") _ marked (unfold text_eq in refl)
                ∙ header_get-set_self x_cache (codes "HIT") c.header)) in
      let served = serve_file-whole date (record c { header = dated }) plain h in
      record {
        header = served.0;
        sent = served.1;
        marked = served.2 ∙ kept;
        body = served.3;
        files = refl;
        stats = refl;
        write_lock = refl;
        started = refl;
      })

  module _ (c : Client) (w : World) where
    abbrev name : Text
    name = build_local_path s.tools.env.layout r.url

    -- The call returns, with a hit.
    pub data Serves : Option (Client × World) → Type 0 where
      serves : (x : Client × World) → Hit c w x → Serves (some x)

    Serves-if :
        (b : Bool) {x y : Option (Client × World)}
        → (b ≡ true → Serves x)
        → (b ≡ false → Serves y)
        → Serves (if b then x else y)
    Serves-if true h k = h refl
    Serves-if false h k = k refl

    module _ (plain : WantsFile) (open_ : c.sent ≡ none)
        (file : lookup name w.store.files ≡ some content) where
      -- A hit from a world with the same files, statistics, locks and goroutines.
      cached-Hit :
          (after : World)
          → after.store.files ≡ w.store.files
          → after.store.stats ≡ w.store.stats
          → after.locks ≡ w.locks
          → after.started ≡ w.started
          → Hit c w (serve_cached s r name (basic_headers s c, after))
      cached-Hit after files stats locks started =
          let hit =
            serve_cached-Hit name (basic_headers s c) after plain (unfold basic_headers in open_)
              (ap (λ (m : Map Text). lookup name m) files ∙ file) in
          record {
            header = hit.header;
            sent = hit.sent;
            marked = hit.marked;
            body = unfold basic_headers in hit.body;
            files = hit.files ∙ files;
            stats = hit.stats ∙ stats;
            write_lock = hit.write_lock ∙ ap (λ (l : Locks). l.write_lock) locks;
            started =
                hit.started
                ∙ ap
                    (λ (l : List Task).
                      (l ++ track true (ℤ.pos (length content)) ∷ []) ++ background r.url ∷ [])
                    started;
          }

      early-same :
          (entry : AccessEntry) (after : World)
          → evaluate_refresh s.tools.env.layout s.tools.now r.url entry.last_checked ≡ false
          → refresh_stale_metadata_before_serve s (protocol s r) r.url entry after ≡ after
      unfolding refresh_stale_metadata_before_serve
      early-same entry after early = rw early (ground arith)

      found-Serves :
          (found : (AccessEntry × Bool) × World) (miss : Client × World → Option (Client × World))
          → found.1.store.files ≡ w.store.files
          → found.1.store.stats ≡ w.store.stats
          → found.1.locks ≡ w.locks
          → found.1.started ≡ w.started
          → found.0.1 ≡ true
          → is_stale found.0.0 (some content) ≡ false
          → evaluate_refresh s.tools.env.layout s.tools.now r.url found.0.0.last_checked ≡ false
          → Serves (serve_found s miss (protocol s r) r name found (basic_headers s c))
      unfolding serve_found
      found-Serves ((entry, false), after) miss files stats locks started hit fresh early =
          absurd (cc (hit))
      found-Serves ((entry, true), after) miss files stats locks started hit fresh early =
          let here : stat name after ≡ some content =
            ap (λ (m : Map Text). lookup name m) files ∙ file in
          Serves-if (is_stale entry (stat name after)) (λ e. absurd (cc (e, fresh, here)))
            (λ e.
              rw (early-same entry after early)
                (serves _ (cached-Hit after files stats locks started)))

      -- A pool file needs no entry.
      pub pool-Serves :
          (fuel : ℕ) (held : Bool)
          → is_pool_file name ≡ true
          → Serves (serve_get_request s (suc fuel) held r (c, w))
      unfolding serve_get_request
      pool-Serves fuel held pool =
          Serves-if (is_pool_file name && is_some (stat name w))
            (λ e. serves _ (cached-Hit w refl refl refl refl))
            (λ e. absurd (ground (arith, pool, file)))

      -- A GET of a file that has an entry of its size, which was checked lately, is answered with the
      -- file, and the origin is not asked.
      pub serve_get_request-Serves :
          (fuel : ℕ) (held : Bool) (entry : AccessEntry)
          → (get s.tools.env (protocol s r) r.url.host r.url.path w.store.cache).0 ≡ (entry, true)
          → is_stale entry (some content) ≡ false
          → evaluate_refresh s.tools.env.layout s.tools.now r.url entry.last_checked ≡ false
          → Serves (serve_get_request s (suc fuel) held r (c, w))
      unfolding serve_get_request get_entry
      serve_get_request-Serves fuel held entry hit fresh early =
          Serves-if (is_pool_file name && is_some (stat name w))
            (λ e. serves _ (cached-Hit w refl refl refl refl))
            (λ e.
              found-Serves (get_entry s (protocol s r) r.url w)
                (serve_get_request_cache_miss s (serve_get_request s fuel true r) held 26 r) refl
                refl refl refl (ap (λ x. x.1) hit) (rw (ap (λ x. x.0) hit) fresh)
                (rw (ap (λ x. x.0) hit) early))
