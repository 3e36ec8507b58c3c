-- ===== src/Request/Again.antt =====
-- A file that a client asks for twice: the second request is answered from the cache
-- (pkg/fscache/request_get.go).
pub mod Recorded
use go_aptcacher.Base.{
  ℕ, suc, ◌+◌, ◌*◌, ◌≤◌, ◌≡◌, ◌≢◌, refl, sym, ap, ◌∙◌, Bool, true, false, not, ◌&&◌, [], ◌∷◌, ◌++◌,
  List, Option, none, some, if◌then◌else◌, Bool-cases, inl, inr, is_some, length, length-append,
  arith, ==_iff, ◌||◌,
}
use mathlib.Core.Path.{subst}
use go_aptcacher.Base.Int.{ℤ, is_pos}
use go_aptcacher.Base.Text.{Text}
use go_aptcacher.Base.Map.{lookup, lookup-delete_self}
use go_aptcacher.Keys.{lock_key}
use go_aptcacher.LocalPath.{Url, build_local_path}
use go_aptcacher.Locks.{
  Time, delete_write_lock, has_write_lock, has_file_lock, create_exclusive_write_lock,
  create_write_lock,
}
use go_aptcacher.Access.{AccessEntry, Record, AccessCache}
use go_aptcacher.Access.Methods.{get, get_access_cache_record, keep_loaded, entry_of}
use go_aptcacher.Storage.{ensure_disk_space}
use go_aptcacher.Refresh.Answer.{State}
use go_aptcacher.Refresh.{evaluate_refresh, minute}
use go_aptcacher.Refresh.Due.{evaluate_refresh_early}
use go_aptcacher.Request.{World, Task, Upstream, Server, no_faults, upstream_header, is_cut_off}
use go_aptcacher.Request.Messages.{Header, Client, ClientRequest}
use go_aptcacher.Request.Fetch.{
  start, prepare_cache_miss_target, create_cache_miss_temp_file, copied,
  stream_response_to_client_and_cache, finalize_cache_miss_file, record_cache_miss,
  stream_cache_miss_response, serve_upstream, serve_requested, fetch_and_serve_cache_miss,
  miss_entry,
}
use go_aptcacher.Request.Ends.{protocol}
use go_aptcacher.Request.Outcome.{
  Kept, Fetched, refused, unanswered, broken_off, stored, fetch_and_serve_cache_miss-Fetched,
}
use go_aptcacher.Request.Outcome.Steps.{SentStatus}
use go_aptcacher.Request.Hit.{WantsFile, Serves, serve_get_request-Serves}
use go_aptcacher.Request.Serve.{
  Run, stat, take_lock, get_entry, delete_lock, recover_or_fetch, serve_with_lock, unlock_after,
  serve_get_request_cache_miss, is_pool_file, basic_headers, serve_found, serve_get_request,
  is_stale,
}
use go_aptcacher.Request.Again.Recorded.{faultless, later, name, Stored, get-none, fetch-Stored}

module _ (s : Server) (r : ClientRequest) (resp : Upstream) where
  -- What two requests for a file come to: the first one, and any later one within five minutes.
  pub record Twice (c : Client) (first : Option (Client × World)) (later_requests : World → Type 0)
      : Type 0 where
    pub after_first : Client × World
    pub returned : first ≡ some after_first
    pub sent : SentStatus 200 after_first.0
    pub body : after_first.0.body ≡ c.body ++ resp.body
    pub unlocked :
        (has_write_lock (protocol s r) r.url.host r.url.path after_first.1.locks).0 ≡ false
    pub then_hits : later_requests after_first.1

module _ (s : Server) (r : ClientRequest) (resp : Upstream) (u : Url)
    (parses : s.tools.env.urls.parse (s.tools.env.urls.string r.url) ≡ some u)
    (answers : s.origin u (upstream_header s r) ≡ some resp) (found_it : resp.status ≡ 200)
    (whole : is_cut_off resp ≡ false)
    (space : is_pos resp.content_length
        && is_some (
            ensure_disk_space s.tools.file_system
              (build_local_path s.tools.env.layout r.url)
              resp.content_length)
      ≡ false) where
  abbrev server : Server
  server = faultless s

  module _ (c : Client) (w : World) where
    -- The first request returns; its download is recorded, and the lock is free again.
    data First : Option (Client × World) → Type 0 where
      first :
          (x : Client × World)
          → Stored server r c w resp x
          → (has_write_lock (protocol s r) r.url.host r.url.path x.1.locks).0 ≡ false
          → First (some x)

    First-if :
        (b b' : Bool) (x y : Option (Client × World))
        → b ≡ b'
        → First (if b' then x else y)
        → First (if b then x else y)
    First-if b b' x y h k = rw h k

    -- The other client differs in headers only.
    unlock-First :
        (c' : Client) (w' : World)
        → c'.body ≡ c.body
        → c'.sent ≡ none
        → First (
            unlock_after
              (protocol s r)
              r.url
              (some (fetch_and_serve_cache_miss server (protocol s r) r (c', w'))))
    unfolding unlock_after delete_lock
    unlock-First c' w' same open_ =
        let done = fetch-Stored s r resp u parses answers found_it whole space c' w' open_ in
        let x = fetch_and_serve_cache_miss server (protocol s r) r (c', w') in
        first (x.0, delete_lock (protocol s r) r.url x.1)
          (record {
            sent = done.sent;
            body = done.body ∙ ap (λ (t : Text). t ++ resp.body) same;
            file = done.file;
            entry = done.entry;
          })
          (unfold has_write_lock delete_write_lock in
            rw
              (lookup-delete_self (lock_key (protocol s r) r.url.host r.url.path)
                x.1.locks.write_lock)
              refl)

    module _ (again : Run) (c' : Client) (w' : World) (same : c'.body ≡ c.body)
        (open_ : c'.sent ≡ none)
        (unwritten : (has_write_lock (protocol s r) r.url.host r.url.path w'.locks).0 ≡ false)
        (unread : (has_file_lock (protocol s r) r.url.host r.url.path w'.locks).0 ≡ false)
        (absent : (get s.tools.env (protocol s r) r.url.host r.url.path w'.store.cache).0.1 ≡ false)
        (no_file : lookup (name s r c w) w'.store.files ≡ none) where
      locked-First :
          (w'' : World)
          → w''.store ≡ w'.store
          → First (
              unlock_after
                (protocol s r)
                r.url
                (serve_with_lock server again (protocol s r) r (c', w'')))
      unfolding serve_with_lock get_entry recover_or_fetch
      locked-First w'' h =
          let empty : (get s.tools.env (protocol s r) r.url.host r.url.path w''.store.cache).0.1
              ≡ false =
            ap (λ (t : State). (get s.tools.env (protocol s r) r.url.host r.url.path t.cache).0.1) h
            ∙ absent in
          let gone : lookup (name s r c w) w''.store.files ≡ none =
            ap (λ (t : State). lookup (name s r c w) t.files) h ∙ no_file in
          rw empty (rw gone (unlock-First c' _ same open_))

      miss-First :
          (left : ℕ) → First (serve_get_request_cache_miss server again false (suc left) r (c', w'))
      unfolding serve_get_request_cache_miss
      miss-First left =
          First-if (take_lock server (protocol s r) r.url w').0 true _ _
            (unfold take_lock create_exclusive_write_lock create_write_lock in
              rw (unwritten, unread) refl)
            (locked-First (take_lock server (protocol s r) r.url w').1 (unfold take_lock in refl))

    module _ (open_ : c.sent ≡ none)
        (unwritten : (has_write_lock (protocol s r) r.url.host r.url.path w.locks).0 ≡ false)
        (unread : (has_file_lock (protocol s r) r.url.host r.url.path w.locks).0 ≡ false)
        (absent : (get s.tools.env (protocol s r) r.url.host r.url.path w.store.cache).0.1 ≡ false)
        (no_file : lookup (name s r c w) w.store.files ≡ none) where
      found-First :
          (found : (AccessEntry × Bool) × World) (miss : Run)
          → found.0.1 ≡ false
          → First (miss (basic_headers s c, found.1))
          → First
              (serve_found server miss (protocol s r) r (name s r c w) found (basic_headers s c))
      unfolding serve_found
      found-First ((entry, true), w') miss h k = absurd (cc (h))
      found-First ((entry, false), w') miss h k = k

      serve-First : (fuel : ℕ) → First (serve_get_request server (suc fuel) false r (c, w))
      unfolding serve_get_request basic_headers get_entry
      serve-First fuel =
          let emptied = get-none s (protocol s r) r.url.host r.url.path w.store.cache absent in
          First-if (is_pool_file (name s r c w) && is_some (stat (name s r c w) w)) false _ _
            (rw no_file (ground arith))
            (found-First (get_entry s (protocol s r) r.url w)
              (serve_get_request_cache_miss server (serve_get_request server fuel true r) false 26
                r)
              absent
              (miss-First (serve_get_request server fuel true r) (basic_headers s c)
                (get_entry s (protocol s r) r.url w).1 refl open_ unwritten unread
                (rw emptied absent) no_file 25))

  miss_entry-fresh : is_stale (miss_entry server r resp) (some resp.body) ≡ false
  unfolding is_stale miss_entry
  miss_entry-fresh = ground arith

  module _ (c c' : Client) (w : World) (header : Header) (remote_addr : Text) (now : Time)
      (origin : Url → Header → Option Upstream) (fuel fuel' : ℕ) where
    abbrev other_request : ClientRequest
    other_request = record r { header = header; remote_addr = remote_addr }

    -- A client that asks for a file which is neither in the cache nor locked is sent the status 200 and
    -- the body that the origin answers, if the status of the answer is 200 and its size is the announced
    -- one; the lock is free afterwards. If then a client asks for the whole file, within five minutes,
    -- it gets the same bytes from the cache, marked as a hit, whatever the origin would answer by then.
    -- Nothing fails on the way of the first request, and the free space suffices.
    pub serve_get_request_again :
        c.sent ≡ none
        → c'.sent ≡ none
        → (has_write_lock (protocol s r) r.url.host r.url.path w.locks).0 ≡ false
        → (has_file_lock (protocol s r) r.url.host r.url.path w.locks).0 ≡ false
        → (get s.tools.env (protocol s r) r.url.host r.url.path w.store.cache).0.1 ≡ false
        → lookup (name s r c w) w.store.files ≡ none
        → WantsFile s other_request resp.body
        → now ≤ s.tools.now + 5 * minute
        → Twice s r resp c (serve_get_request server (suc fuel) false r (c, w)) (λ w'.
          Serves
            (later now origin s)
            other_request
            resp.body
            c'
            w'
            (serve_get_request (later now origin s) (suc fuel') false other_request (c', w')))
    unfolding miss_entry
    serve_get_request_again open_ open_' unwritten unread absent no_file plain soon =
        twice (serve-First c w open_ unwritten unread absent no_file fuel)
      where
        twice :
            {o : Option (Client × World)}
            → First c w o
            → Twice s r resp c o (λ w'.
              Serves
                (later now origin s)
                other_request
                resp.body
                c'
                w'
                (serve_get_request (later now origin s) (suc fuel') false other_request (c', w')))
        twice (first x done unlocked) = record {
          after_first = x;
          returned = refl;
          sent = done.sent;
          body = done.body;
          unlocked = unlocked;
          then_hits =
              serve_get_request-Serves (later now origin s) other_request resp.body c' x.1 plain
                open_' done.file fuel' false (miss_entry server r resp) done.entry miss_entry-fresh
                (evaluate_refresh_early s.tools.env.layout now r.url s.tools.now soon);
        }
