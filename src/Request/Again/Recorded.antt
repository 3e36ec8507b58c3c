-- ===== src/Request/Again/Recorded.antt =====
-- A download for a client on whose way nothing fails (pkg/fscache/request_get.go).
use go_aptcacher.Base.{
  ℕ, ◌≡◌, ◌≢◌, refl, sym, ap, Bool, true, false, not, ◌&&◌, [], ◌∷◌, ◌++◌, List, Option, none, some,
  if◌then◌else◌, is_some, length, length-append, arith, ==_iff, ◌||◌,
}
use mathlib.Core.Path.{subst}
use go_aptcacher.Base.Int.{is_pos}
use go_aptcacher.Base.Text.{Text}
use go_aptcacher.Base.Map.{lookup}
use go_aptcacher.LocalPath.{Url, build_local_path}
use go_aptcacher.Locks.{Time}
use go_aptcacher.Access.{AccessEntry, Record, AccessCache}
use go_aptcacher.Access.Methods.{get, get_access_cache_record, keep_loaded, entry_of}
use go_aptcacher.Storage.{ensure_disk_space}
use go_aptcacher.Connect.{header_get}
use go_aptcacher.Request.{World, Upstream, Server, no_faults, upstream_header, is_cut_off}
use go_aptcacher.Request.Messages.{Header, Client, ClientRequest}
use go_aptcacher.Request.Fetch.{
  start, prepare_cache_miss_target, create_cache_miss_temp_file, copied,
  stream_response_to_client_and_cache, finalize_cache_miss_file, record_cache_miss,
  stream_cache_miss_response, serve_upstream, serve_requested, fetch_and_serve_cache_miss,
  miss_entry,
}
use go_aptcacher.Request.Ends.{protocol}
use go_aptcacher.Request.Outcome.{
  Fetched, refused, unanswered, broken_off, stored, fetch_and_serve_cache_miss-Fetched,
}
use go_aptcacher.Request.Outcome.Steps.{SentStatus}

-- A server on whose side nothing fails.
abbrev pub faultless : Server → Server
faultless s = record s { faults = no_faults }

-- The server at another time, with another origin.
abbrev pub later : Time → (Url → Header → Option Upstream) → Server → Server
later now origin s = record s { tools = record s.tools { now = now }; origin = origin }

snoc-ne : {A : Type 0} (xs : List A) (x : A) → xs ++ x ∷ [] ≢ xs
snoc-ne xs x h = omega (arith, ap length h, length-append xs (x ∷ []))

module _ (s : Server) (r : ClientRequest) (c : Client) (w : World) where
  abbrev pub name : Text
  name = build_local_path s.tools.env.layout r.url

  -- A download that was recorded, seen from the client and from the cache.
  pub record Stored (resp : Upstream) (x : Client × World) : Type 0 where
    pub sent : SentStatus 200 x.0
    pub body : x.0.body ≡ c.body ++ resp.body
    pub file : lookup name x.1.store.files ≡ some resp.body
    pub entry :
        (get s.tools.env (protocol s r) r.url.host r.url.path x.1.store.cache).0
        ≡ (miss_entry s r resp, true)

  Stored-Fetched :
      (resp : Upstream) (u : Url) (x : Client × World)
      → s.tools.env.urls.parse (s.tools.env.urls.string r.url) ≡ some u
      → s.origin u (upstream_header s r) ≡ some resp
      → x.1.started ≢ w.started
      → Fetched s (protocol s r) r c w x
      → Stored resp x
  unfolding miss_entry header_get
  Stored-Fetched resp u _ hu ho ne (refused c' w' kept _) = absurd (ne kept.started)
  Stored-Fetched resp u _ hu ho ne (unanswered c' w' kept _ _) = absurd (ne kept.started)
  Stored-Fetched resp u _ hu ho ne (broken_off c' w' kept _) = absurd (ne kept.started)
  Stored-Fetched resp u _ hu ho ne
        (stored c' w' u' resp' hu' ho' ok cut sent body file entry st lk) =
      let same : resp' ≡ resp = cc (hu, hu', ho, ho') in
      subst (λ (x : Upstream). Stored x (c', w')) same
        (record { sent = sent; body = body; file = file; entry = entry })

-- Where all four steps go on, the download is recorded.
steps_on :
    (p k d e : Client × Bool) (cut : Bool) (w w' after : World)
    → p.1 ≡ true
    → k.1 ≡ true
    → d.1 ≡ true
    → cut ≡ false
    → e.1 ≡ true
    → (let ended : Client × World =
          (if not p.1
            then (p.0, w)
            else if not k.1
            then (k.0, w')
            else if not d.1 || cut
            then (d.0, w')
            else if not e.1
            then (e.0, w')
            else (e.0, after)) in
        ended.1)
      ≡ after
steps_on (p, true) (k, true) (d, true) (e, true) false w w' after hp hk hd hc he = refl
steps_on (p, false) _ _ _ _ w w' after hp hk hd hc he = absurd (cc (hp))
steps_on (p, true) (k, false) _ _ _ w w' after hp hk hd hc he = absurd (cc (hk))
steps_on (p, true) (k, true) (d, false) _ _ w w' after hp hk hd hc he = absurd (cc (hd))
steps_on (p, true) (k, true) (d, true) _ true w w' after hp hk hd hc he = absurd (cc (hc))
steps_on (p, true) (k, true) (d, true) (e, false) false w w' after hp hk hd hc he = absurd (cc (he))

-- A Get that finds nothing changes nothing.
module _ (key : Text) (f : Record → AccessEntry) where
  entry_of-none :
      (o l : Option Record) (c : AccessCache)
      → (entry_of f (keep_loaded key o l c)).0.1 ≡ false
      → (entry_of f (keep_loaded key o l c)).1 ≡ c
  unfolding entry_of keep_loaded
  entry_of-none (some r) l c h = absurd (cc (h))
  entry_of-none none (some r) c h = absurd (cc (h))
  entry_of-none none none c h = refl

pub get-none :
    (s : Server) (p : ℕ) (domain path : Text) (c : AccessCache)
    → (get s.tools.env p domain path c).0.1 ≡ false
    → (get s.tools.env p domain path c).1 ≡ c
unfolding get get_access_cache_record
get-none s p domain path c h = entry_of-none _ _ _ _ c h

module _ (s : Server) (r : ClientRequest) (resp : Upstream) (u : Url)
    (parses : s.tools.env.urls.parse (s.tools.env.urls.string r.url) ≡ some u)
    (answers : s.origin u (upstream_header s r) ≡ some resp) (found_it : resp.status ≡ 200)
    (whole : is_cut_off resp ≡ false)
    (space : is_pos resp.content_length
        && is_some (
            ensure_disk_space s.tools.file_system
              (build_local_path s.tools.env.layout r.url)
              resp.content_length)
      ≡ false) where
  abbrev server : Server
  server = faultless s

  module _ (c : Client) (w : World) where
    prepare-on : (prepare_cache_miss_target server (name s r c w) resp c).1 ≡ true
    unfolding prepare_cache_miss_target
    prepare-on = rw space refl

    create-on : (k : Client) → (create_cache_miss_temp_file server resp k).1 ≡ true
    unfolding create_cache_miss_temp_file
    create-on k = ground arith

    stream-recorded :
        (stream_cache_miss_response server (protocol s r) r resp (c, w)).1
        ≡ record_cache_miss server (protocol s r) r resp w
    unfolding stream_cache_miss_response
    stream-recorded =
        let p = prepare_cache_miss_target server (name s r c w) resp c in
        let k = create_cache_miss_temp_file server resp p.0 in
        let d = stream_response_to_client_and_cache server resp k.0 in
        steps_on p k d (finalize_cache_miss_file server d.0) (is_cut_off resp) w _ _ prepare-on
          (create-on p.0) (unfold stream_response_to_client_and_cache copied in refl) whole
          (unfold finalize_cache_miss_file in refl)

    upstream-recorded :
        (serve_upstream server (protocol s r) r (some resp) (c, w)).1
        ≡ record_cache_miss server (protocol s r) r resp w
    unfolding serve_upstream
    upstream-recorded = rw ((==_iff resp.status 200).1 found_it) stream-recorded

    requested-recorded :
        (serve_requested server (protocol s r) r (some u) (c, w)).1
        ≡ record_cache_miss server (protocol s r) r resp w
    unfolding serve_requested upstream_header
    requested-recorded =
        subst
          (λ (o : Option Upstream).
            (serve_upstream server (protocol s r) r o (c, w)).1
            ≡ record_cache_miss server (protocol s r) r resp w)
          (sym answers) upstream-recorded

    fetch-recorded :
        (fetch_and_serve_cache_miss server (protocol s r) r (c, w)).1
        ≡ record_cache_miss server (protocol s r) r resp w
    unfolding fetch_and_serve_cache_miss
    fetch-recorded = rw parses (requested-recorded)

    pub fetch-Stored :
        c.sent ≡ none
        → Stored server r c w resp (fetch_and_serve_cache_miss server (protocol s r) r (c, w))
    unfolding upstream_header
    fetch-Stored h =
        Stored-Fetched server r c w resp u _ parses answers
          (rw fetch-recorded (unfold record_cache_miss start in snoc-ne w.started _))
          (fetch_and_serve_cache_miss-Fetched server (protocol s r) r c w h)
