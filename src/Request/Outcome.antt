-- ===== src/Request/Outcome.antt =====
-- How the download of a file for a client (fetchAndServeCacheMiss of pkg/fscache/request_get.go) ends.
pub mod Steps
use go_aptcacher.Base.{
  ℕ, ◌+◌, ◌≤◌, ◌≡◌, refl, sym, ap, ◌∙◌, Bool, true, false, not, ◌&&◌, ◌||◌, [], ◌∷◌, ◌++◌, Option,
  none, some, arith, if◌then◌else◌, Bool-cases, inl, inr, ◌⊎◌, is_some, ◌==◌, ==_iff, length, take,
}
use go_aptcacher.Base.Int.{ℤ, is_pos}
use go_aptcacher.Base.Text.{Text, codes, is_empty}
use go_aptcacher.Base.Map.{Map, lookup, insert, delete, lookup-insert_self}
use go_aptcacher.LocalPath.{Url, build_local_path}
use go_aptcacher.Access.{AccessEntry, normalize_access_entry}
use go_aptcacher.Access.Methods.{get}
use go_aptcacher.Access.Methods.Lookups.{get-set}
use go_aptcacher.Storage.{ensure_disk_space}
use go_aptcacher.Connect.{header_get, first_value}
use go_aptcacher.Refresh.Outcome.{delete-twice}
use go_aptcacher.Request.{World, Upstream, Server, upstream_header, is_cut_off}
use go_aptcacher.Request.Messages.{
  Header, Client, ClientRequest, send_status, send_body, http_error,
}
use go_aptcacher.Request.Outcome.Steps.{
  Refused, SentStatus, http_error-Refused, Stepped, prepare-Stepped, create-Stepped, streamed-Sent,
  streamed-body, finish-Sent, finish-body,
}
use go_aptcacher.Request.Fetch.{
  without_file, set_last_modified, set_conditional_cache_miss_headers, prepare_cache_miss_target,
  build_temp_cache_path, create_cache_miss_temp_file, copied, stream_response_to_client_and_cache,
  finalize_cache_miss_file, parse_last_modified_for_metadata, miss_entry, record_cache_miss,
  stream_cache_miss_response, serve_upstream, serve_requested, fetch_and_serve_cache_miss, start,
}

module _ (s : Server) (protocol : ℕ) (r : ClientRequest) (c : Client) (w : World) where
  abbrev pub name : Text
  name = build_local_path s.tools.env.layout r.url

  -- Nothing is recorded, and no file has changed but the temporary one.
  pub record Kept (after : World) : Type 0 where
    pub cache : after.store.cache ≡ w.store.cache
    pub stats : after.store.stats ≡ w.store.stats
    pub locks : after.locks ≡ w.locks
    pub started : after.started ≡ w.started
    pub files :
        delete (build_temp_cache_path s name) after.store.files
        ≡ delete (build_temp_cache_path s name) w.store.files

  -- What Get is to find of an answer: the first ETag and Last-Modified field, or the time of the
  -- download in place of a date that is missing or cannot be read.
  abbrev pub entry_of : Upstream → AccessEntry
  entry_of resp = record {
    last_accessed = s.tools.now;
    last_checked = s.tools.now;
    remote_last_modified =
        parse_last_modified_for_metadata s
          (first_value (lookup (codes "Last-Modified") resp.header));
    etag = first_value (lookup (codes "Etag") resp.header);
    url = some r.url;
    size = ℤ.pos (length resp.body);
    sha256 = s.tools.sha256 resp.body;
  }

  -- The ways in which a download ends.
  pub data Fetched : Client × World → Type 0 where
    refused : (c' : Client) (w' : World) → Kept w' → Refused c' → Fetched (c', w')
    unanswered :
        (c' : Client) (w' : World)
        → Kept w'
        → c'.sent ≡ none
        → s.faults.create ≡ true
        → Fetched (c', w')
    broken_off : (c' : Client) (w' : World) → Kept w' → SentStatus 200 c' → Fetched (c', w')
    stored :
        (c' : Client) (w' : World) (u : Url) (resp : Upstream)
        → s.tools.env.urls.parse (s.tools.env.urls.string r.url) ≡ some u
        → s.origin u (upstream_header s r) ≡ some resp
        → resp.status ≡ 200
        → is_cut_off resp ≡ false
        → SentStatus 200 c'
        → c'.body ≡ c.body ++ resp.body
        → lookup name w'.store.files ≡ some resp.body
        → (get s.tools.env protocol r.url.host r.url.path w'.store.cache).0 ≡ (entry_of resp, true)
        → w'.store.stats ≡ w.store.stats
        → w'.locks ≡ w.locks
        → Fetched (c', w')

  Kept-refl : Kept w
  Kept-refl = record { cache = refl; stats = refl; locks = refl; started = refl; files = refl }

  Kept-without : Kept (without_file (build_temp_cache_path s name) w)
  unfolding without_file
  Kept-without = record {
    cache = refl;
    stats = refl;
    locks = refl;
    started = refl;
    files = delete-twice (build_temp_cache_path s name) w.store.files;
  }

  -- The four steps of streamCacheMissResponse, each of which may end it.
  steps-Fetched :
      (prepared created streamed finished : Client × Bool) (cut : Bool) (after : World)
      → (prepared.1 ≡ false
          → Refused prepared.0 ⊎ ((prepared.0.sent ≡ none) × (s.faults.create ≡ true)))
      → (prepared.1 ≡ true
          → created.1 ≡ false
          → Refused created.0 ⊎ ((created.0.sent ≡ none) × (s.faults.create ≡ true)))
      → (prepared.1 ≡ true → created.1 ≡ true → SentStatus 200 streamed.0)
      → (SentStatus 200 streamed.0 → finished.1 ≡ false → SentStatus 200 finished.0)
      → (prepared.1 ≡ true
          → created.1 ≡ true
          → streamed.1 ≡ true
          → cut ≡ false
          → finished.1 ≡ true
          → Fetched (finished.0, after))
      → Fetched (
          if not prepared.1
          then (prepared.0, w)
          else if not created.1
          then (created.0, without_file (build_temp_cache_path s name) w)
          else if not streamed.1 || cut
          then (streamed.0, without_file (build_temp_cache_path s name) w)
          else if not finished.1
          then (finished.0, without_file (build_temp_cache_path s name) w)
          else (finished.0, after))
  steps-Fetched (p, false) _ _ _ _ after hp hc hs hf hd = elim (hp refl) [
    | inl e ↦ refused p _ Kept-refl e
    | inr e ↦ unanswered p _ Kept-refl e.0 e.1
  ]
  steps-Fetched (p, true) (k, false) _ _ _ after hp hc hs hf hd = elim (hc refl refl) [
    | inl e ↦ refused k _ Kept-without e
    | inr e ↦ unanswered k _ Kept-without e.0 e.1
  ]
  steps-Fetched (p, true) (k, true) (d, false) _ _ after hp hc hs hf hd =
      broken_off d _ Kept-without (hs refl refl)
  steps-Fetched (p, true) (k, true) (d, true) _ true after hp hc hs hf hd =
      broken_off d _ Kept-without (hs refl refl)
  steps-Fetched (p, true) (k, true) (d, true) (e, false) false after hp hc hs hf hd =
      broken_off e _ Kept-without (hf (hs refl refl) refl)
  steps-Fetched (p, true) (k, true) (d, true) (e, true) false after hp hc hs hf hd =
      hd refl refl refl refl refl

  record-stored :
      (resp : Upstream) (u : Url) (k : Client)
      → s.tools.env.urls.parse (s.tools.env.urls.string r.url) ≡ some u
      → s.origin u (upstream_header s r) ≡ some resp
      → resp.status ≡ 200
      → is_cut_off resp ≡ false
      → SentStatus 200 k
      → k.body ≡ c.body ++ resp.body
      → Fetched (k, record_cache_miss s protocol r resp w)
  unfolding record_cache_miss start normalize_access_entry
  record-stored resp u k hu ho hs hc sent body =
      stored k _ u resp hu ho hs hc sent body
        (lookup-insert_self name resp.body (delete (build_temp_cache_path s name) w.store.files))
        (ap (λ x. x.0)
            (get-set s.tools.env protocol r.url.host r.url.path (miss_entry s r resp) w.store.cache)
          ∙ (unfold miss_entry header_get in refl))
        refl refl

  stream-Fetched :
      (resp : Upstream) (u : Url)
      → c.sent ≡ none
      → s.tools.env.urls.parse (s.tools.env.urls.string r.url) ≡ some u
      → s.origin u (upstream_header s r) ≡ some resp
      → resp.status ≡ 200
      → Fetched (stream_cache_miss_response s protocol r resp (c, w))
  unfolding stream_cache_miss_response
  stream-Fetched resp u h hu ho hs =
      let prepared = prepare_cache_miss_target s name resp c in
      let created = create_cache_miss_temp_file s resp prepared.0 in
      let streamed = stream_response_to_client_and_cache s resp created.0 in
      let finished = finalize_cache_miss_file s streamed.0 in
      let p = prepare-Stepped s name resp c h in
      let open_ = λ (e : prepared.1 ≡ true). (p.same e).0 ∙ h in
      let k = λ (e : prepared.1 ≡ true). create-Stepped s resp prepared.0 (open_ e) in
      let sent = λ (e : prepared.1 ≡ true) (q : created.1 ≡ true).
        streamed-Sent s resp created.0 hs (((k e).same q).0 ∙ open_ e) in
      steps-Fetched prepared created streamed finished (is_cut_off resp)
        (record_cache_miss s protocol r resp w) p.ended (λ e. (k e).ended) sent
        (λ z _. finish-Sent s streamed.0 z)
        (λ e q d cut f.
          record-stored resp u finished.0 hu ho hs cut (finish-Sent s streamed.0 (sent e q)) (
            ap (λ (x : Client). x.body) (finish-body s streamed.0 f)
            ∙ (streamed-body s resp created.0 d
                ∙ ap (λ (t : Text). t ++ resp.body) (((k e).same q).1 ∙ (p.same e).1))))

  serve_upstream-Fetched :
      (answer : Option Upstream) (u : Url)
      → c.sent ≡ none
      → s.tools.env.urls.parse (s.tools.env.urls.string r.url) ≡ some u
      → s.origin u (upstream_header s r) ≡ answer
      → Fetched (serve_upstream s protocol r answer (c, w))
  unfolding serve_upstream
  serve_upstream-Fetched none u h hu ho =
      refused _ w Kept-refl (http_error-Refused (codes "Error fetching file") 500 c h (omega arith))
  serve_upstream-Fetched (some resp) u h hu ho = elim (Bool-cases (resp.status == 200)) [
    | inl e ↦ rw e (stream-Fetched resp u h hu ho ((==_iff resp.status 200).0 e))
    | inr e ↦ rw e (
        refused _ w Kept-refl
          (http_error-Refused (codes "Error fetching file") 404 c h (omega arith)))
  ]

  fetched-Fetched :
      (parsed : Option Url)
      → s.tools.env.urls.parse (s.tools.env.urls.string r.url) ≡ parsed
      → c.sent ≡ none
      → Fetched (serve_requested s protocol r parsed (c, w))
  unfolding serve_requested
  fetched-Fetched none hu h =
      refused _ w Kept-refl
        (http_error-Refused (codes "Error creating request") 500 c h (omega arith))
  fetched-Fetched (some u) hu h = serve_upstream-Fetched _ u h hu refl

  -- Every download for a client, whatever the origin answers and whatever fails, ends in one of these
  -- ways. The client was sent an error; or nothing, if the temporary file could not be created; or the
  -- status 200 of a download that failed later; and then the metadata, the locks and all files but the
  -- temporary one are as they were. Or the client was sent the status 200 and the whole body of the
  -- answer of the origin, whose status was 200 and whose body is not of another size than announced;
  -- then the file holds that body, and Get finds its URL, its size, its hash, the ETag and the
  -- Last-Modified date of the answer, and the time of the download.
  pub fetch_and_serve_cache_miss-Fetched :
      c.sent ≡ none → Fetched (fetch_and_serve_cache_miss s protocol r (c, w))
  unfolding fetch_and_serve_cache_miss
  fetch_and_serve_cache_miss-Fetched h =
      fetched-Fetched (s.tools.env.urls.parse (s.tools.env.urls.string r.url)) refl h
