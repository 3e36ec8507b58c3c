-- ===== src/Request/HeadGet.antt =====
-- A HEAD request and a later GET request for the same file (pkg/fscache/request_head.go,
-- pkg/fscache/download.go, pkg/fscache/request_get.go).
use go_aptcacher.Base.{ℕ, suc, ◌≡◌, refl, sym, ap, ◌∙◌, true, false, Option, none, some, arith}
use mathlib.Core.Path.{subst}
use go_aptcacher.Base.Text.{Text}
use go_aptcacher.Base.Map.{lookup, lookup-insert_self}
use go_aptcacher.LocalPath.{Url, build_local_path}
use go_aptcacher.Locks.{Time}
use go_aptcacher.Request.{World, Upstream, Server, is_cut_off}
use go_aptcacher.Request.Messages.{Header, Client, ClientRequest}
use go_aptcacher.Request.Serve.{stat, is_pool_file, serve_get_request}
use go_aptcacher.Request.Head.{
  simple_header, with_file, chtimes_fails, copied_simple, download_response, download_parsed,
  download_file_simple, head_after, head_downloaded, head_found, serve_head_request,
}
use go_aptcacher.Request.Hit.{WantsFile, Serves, pool-Serves}
use go_aptcacher.Request.Again.Recorded.{faultless, later}

module _ (s : Server) (r : ClientRequest) (c : Client) (w : World) (u : Url) (resp : Upstream)
    (parses : s.tools.env.urls.parse (s.tools.env.urls.string r.url) ≡ some u)
    (answers : s.origin u (simple_header s) ≡ some resp) (whole : is_cut_off resp ≡ false) where
  abbrev name : Text
  name = build_local_path s.tools.env.layout r.url

  chtimes_work : chtimes_fails (faultless s) resp ≡ false
  unfolding chtimes_fails
  chtimes_work = ground arith

  copied : copied_simple (faultless s) none name resp w ≡ (true, with_file name resp.body w)
  unfolding copied_simple
  copied = rw whole (rw chtimes_work refl)

  downloaded :
      download_file_simple (faultless s) (s.tools.env.urls.string r.url) name w
      ≡ (true, with_file name resp.body w)
  unfolding download_file_simple download_parsed
  downloaded = rw parses (
      subst
        (λ (o : Option Upstream).
          download_response (faultless s) name o w ≡ (true, with_file name resp.body w))
        (sym answers) (unfold download_response in copied))

  head_after-world :
      (t : Server) (n : Text) (content : Option Text) (cw : Client × World)
      → (head_after t n content cw).1 ≡ cw.1
  unfolding head_after
  head_after-world t n none (d, v) = refl
  head_after-world t n (some x) (d, v) = refl

  serve_head-stores :
      stat name w ≡ none
      → (serve_head_request (faultless s) r (c, w)).1 ≡ with_file name resp.body w
  unfolding serve_head_request head_found head_downloaded
  serve_head-stores h =
      rw h (rw downloaded (head_after-world (faultless s) name _ (c, with_file name resp.body w)))

  -- A HEAD for a file that is not there stores the body of whatever the origin answers, an error page
  -- too, if it is not of another size than announced; for a file of a pool, every later GET for the
  -- whole file is answered with that body and the status 200, marked as a hit, as long as the file is
  -- there. Nothing fails on the way of the HEAD.
  pub serve_head_request_poisons :
      (c' : Client) (header : Header) (remote_addr : Text) (now : Time)
      (origin : Url → Header → Option Upstream) (fuel : ℕ)
      → stat name w ≡ none
      → is_pool_file name ≡ true
      → c'.sent ≡ none
      → WantsFile s (record r { header = header; remote_addr = remote_addr }) resp.body
      → Serves
          (later now origin s)
          (record r { header = header; remote_addr = remote_addr })
          resp.body
          c'
          (serve_head_request (faultless s) r (c, w)).1
          (serve_get_request
            (later now origin s)
            (suc fuel)
            false
            (record r { header = header; remote_addr = remote_addr })
            (c', (serve_head_request (faultless s) r (c, w)).1))
  serve_head_request_poisons c' header remote_addr now origin fuel absent pool open_ plain =
      let r' : ClientRequest = record r { header = header; remote_addr = remote_addr } in
      let stored : lookup name (serve_head_request (faultless s) r (c, w)).1.store.files
          ≡ some resp.body =
        ap (λ (x : World). lookup name x.store.files) (serve_head-stores absent)
        ∙ (unfold with_file in lookup-insert_self name resp.body w.store.files) in
      pool-Serves (later now origin s) r' resp.body c' (serve_head_request (faultless s) r (c, w)).1
        plain open_ stored fuel false pool
