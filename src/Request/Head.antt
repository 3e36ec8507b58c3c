-- ===== src/Request/Head.antt =====
-- HEAD requests and the choice of a handler: pkg/fscache/request_head.go, downloadFileSimple of
-- pkg/fscache/download.go, and ServeFromRequest of pkg/fscache/fscache.go.
use go_aptcacher.Base.{
  ℕ, Bool, true, false, ◌&&◌, [], ◌∷◌, ◌++◌, Option, none, some, if◌then◌else◌, length, is_some,
}
use go_aptcacher.Base.Text.{Text, codes, is_empty, text_eq}
use go_aptcacher.Base.Map.{insert}
use go_aptcacher.Keys.{itoa}
use go_aptcacher.LocalPath.{Url, build_local_path}
use go_aptcacher.Connect.{header_get, header_set}
use go_aptcacher.Request.{World, Upstream, Server, is_cut_off}
use go_aptcacher.Request.Messages.{Header, Client, ClientRequest, set_header, http_error}
use go_aptcacher.Request.Fetch.{without_file}
use go_aptcacher.Request.Serve.{Run, stat, serve_get_request}

-- os.Create and io.Copy of a body.
unfoldable pub with_file : Text → Text → World → World
with_file name body w = record w {
  store = record w.store { files = insert name body w.store.files };
}

module _ (s : Server) where
  -- os.Chtimes is called for a header that http.ParseTime reads, and fails.
  unfoldable pub chtimes_fails : Upstream → Bool
  unfolding header_get
  chtimes_fails resp =
      let last_modified = header_get (codes "Last-Modified") resp.header in
      if is_empty last_modified
      then false
      else (is_some (s.parse_http_time last_modified) && s.faults.chtimes)

  unfoldable pub copied_simple : Option ℕ → Text → Upstream → World → Bool × World
  unfolding without_file with_file is_cut_off chtimes_fails
  copied_simple (some n) name resp w = (false, without_file name w)
  copied_simple none name resp w =
      if is_cut_off resp
      then (false, without_file name w)
      else if chtimes_fails resp
      then (false, with_file name resp.body w)
      else (true, with_file name resp.body w)

  -- downloadFileSimple, from the response on.
  unfoldable pub download_response : Text → Option Upstream → World → Bool × World
  unfolding copied_simple
  download_response name none w = (false, w)
  download_response name (some resp) w =
      if s.faults.create then (false, w) else copied_simple s.faults.copy name resp w

  abbrev pub simple_header : Header
  simple_header =
      (
        codes "User-Agent",
        (codes "GoAptCacher/"
              ++ (s.version ++ codes " (+https://gitlab.com/bella.network/goaptcacher)"))
            ∷ [],
      )
      ∷ []

  unfoldable pub download_parsed : Text → Option Url → World → Bool × World
  unfolding download_response
  download_parsed name none w = (false, w)
  download_parsed name (some u) w = download_response name (s.origin u simple_header) w

  -- downloadFileSimple, whether it succeeds.
  unfoldable pub download_file_simple : Text → Text → World → Bool × World
  unfolding download_parsed
  download_file_simple url name w = download_parsed name (s.tools.env.urls.parse url) w

  -- The headers for a file, with whether it was in the cache.
  unfoldable pub head_headers : Text → Text → Text → Client → Client
  unfolding header_set
  head_headers x_cache name content c =
      set_header (codes "Last-Modified") (s.format_http (s.mod_time name)) (
        set_header (codes "Content-Type") (codes "application/octet-stream") (
          set_header (codes "Content-Length") (itoa (length content))
            (set_header (codes "X-Cache") x_cache c)))

  unfoldable pub head_after : Text → Option Text → Client × World → Client × World
  unfolding head_headers http_error
  head_after name none (c, w) = (http_error (codes "Error reading file") 500 c, w)
  head_after name (some content) (c, w) = (head_headers (codes "MISS") name content c, w)

  unfoldable pub head_downloaded : Text → Client → Bool × World → Client × World
  unfolding head_after http_error
  head_downloaded name c (false, w) = (http_error (codes "Error downloading file") 500 c, w)
  head_downloaded name c (true, w) = head_after name (stat name w) (c, w)

  unfoldable pub head_found : ClientRequest → Text → Option Text → Client × World → Client × World
  unfolding head_headers head_downloaded download_file_simple
  head_found r name (some content) (c, w) = (head_headers (codes "HIT") name content c, w)
  head_found r name none (c, w) =
      head_downloaded name c (download_file_simple (s.tools.env.urls.string r.url) name w)

  -- serveHEADRequest
  unfoldable pub serve_head_request : ClientRequest → Client × World → Client × World
  unfolding head_found
  serve_head_request r cw =
      let name = build_local_path s.tools.env.layout r.url in head_found r name (stat name cw.1) cw

  -- validateRequest: the request with its host, if that is a DNS name. The Host of the request and
  -- govalidator.IsDNSName are arguments.
  unfoldable pub validate_request : (Text → Bool) → Text → ClientRequest → Option ClientRequest
  validate_request is_dns_name host r =
      let named =
        if is_empty r.url.host then record r { url = record r.url { host = host } } else r in
      if is_empty named.url.host
      then none
      else if is_dns_name named.url.host
      then some named
      else none

  unfoldable pub serve_method : ℕ → Text → Option ClientRequest → Run
  unfolding serve_head_request serve_get_request http_error
  serve_method fuel method none (c, w) = some (http_error (codes "Invalid request") 400 c, w)
  serve_method fuel method (some r) (c, w) =
      if text_eq method (codes "GET")
      then serve_get_request s fuel false r (c, w)
      else if text_eq method (codes "HEAD")
      then some (serve_head_request r (c, w))
      else some (http_error (codes "Method not allowed") 405 c, w)

  -- ServeFromRequest, on the fuel of a GET request.
  unfoldable pub serve_from_request : (Text → Bool) → ℕ → Text → Text → ClientRequest → Run
  unfolding validate_request serve_method
  serve_from_request is_dns_name fuel method host r cw =
      serve_method fuel method (validate_request is_dns_name host r) cw
