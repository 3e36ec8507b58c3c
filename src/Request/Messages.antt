-- ===== src/Request/Messages.antt =====
-- What net/http gives the handlers of pkg/fscache/request_get.go: the header map of a message, and the
-- response that a handler writes (http.ResponseWriter, http.Error, http.ServeFile).
use go_aptcacher.Base.{
  ℕ, ◌+◌, ◌-◌, Bool, true, false, ◌&&◌, ◌||◌, List, [], ◌∷◌, ◌++◌, Option, none, some,
  if◌then◌else◌, leb, ◌==◌, length,
}
use go_aptcacher.Base.Text.{Text, codes, is_empty, text_eq, has_suffix}
use go_aptcacher.Base.Map.{Map, lookup, insert, delete}
use go_aptcacher.FilePath.{split}
use go_aptcacher.Keys.{itoa}
use go_aptcacher.LocalPath.{Url, replace}
use go_aptcacher.Connect.{header_get, header_set}

-- http.Header, with keys in canonical form.
abbrev pub Header : Type 0
Header = Map (List Text)

abbrev pub values_of : Option (List Text) → List Text
values_of none = []
values_of (some vs) = vs

-- http.Header.Add, for a key in its canonical form.
unfoldable pub header_add : Text → Text → Header → Header
header_add key value header = insert key (values_of (lookup key header) ++ value ∷ []) header

unfoldable pub upper : Bool → ℕ → ℕ
upper first c =
    if first
    then (if leb b'a' c && leb c b'z' then c - 32 else c)
    else (if leb b'A' c && leb c b'Z' then c + 32 else c)

unfoldable pub canonical_from : Bool → Text → Text
unfolding upper
canonical_from first [] = []
canonical_from first (c ∷ cs) = upper first c ∷ canonical_from (c == b'-') cs

-- http.CanonicalHeaderKey, for a key of letters, digits and dashes.
unfoldable pub canonical_header_key : Text → Text
unfolding canonical_from
canonical_header_key key = canonical_from true key

-- What a handler has made of a response: its header map, the status and the header that were sent, and
-- the body.
pub record Client : Type 0 where
  pub header : Header
  pub sent : Option (ℕ × Header)
  pub body : Text

-- WriteHeader
unfoldable pub send_status : ℕ → Client → Client
send_status status c = elim c.sent [
  | none ↦ record c { sent = some (status, c.header) }
  | some s ↦ c
]

-- Write
unfoldable pub send_body : Text → Client → Client
unfolding send_status
send_body p c = record (send_status 200 c) { body = c.body ++ p }

-- w.Header().Set(key, value)
abbrev pub set_header : Text → Text → Client → Client
set_header key value c = record c { header = header_set key value c.header }

-- http.Error
unfoldable pub http_error : Text → ℕ → Client → Client
unfolding send_body send_status
http_error message status c = send_body (message ++ codes "\n") (
    send_status status (
      set_header (codes "X-Content-Type-Options") (codes "nosniff") (
        set_header (codes "Content-Type") (codes "text/plain; charset=utf-8")
          (record c { header = delete (codes "Content-Length") c.header }))))

-- A request as the cache gets it.
pub record ClientRequest : Type 0 where
  pub url : Url
  pub header : Header
  pub remote_addr : Text

unfoldable pub has_dot_dot : List Text → Bool
has_dot_dot [] = false
has_dot_dot (p ∷ ps) = text_eq p (codes "..") || has_dot_dot ps

-- The request asks for the whole file, unconditionally.
unfoldable pub is_plain : ClientRequest → Bool
unfolding header_get
is_plain r =
    is_empty (header_get (codes "If-Match") r.header)
    && is_empty (header_get (codes "If-Unmodified-Since") r.header)
    && is_empty (header_get (codes "If-None-Match") r.header)
    && is_empty (header_get (codes "If-Modified-Since") r.header)
    && is_empty (header_get (codes "Range") r.header)

-- The paths that http.ServeFile answers with a file.
unfoldable pub is_file_path : Text → Bool
unfolding has_dot_dot
is_file_path path =
    if has_dot_dot (split (replace b'\\' b'/' path))
    then false
    else (if has_suffix (codes "/index.html") path then false else true)

-- http.ServeFile for a regular file with a content and a time of modification. The answer to ranges and
-- conditions, and to the paths that it refuses or redirects, is an argument.
module _ (otherwise : ClientRequest → Text → Text → Client → Client) where
  unfoldable pub serve_file : ClientRequest → Text → Text → Client → Client
  unfolding send_status send_body
  serve_file r last_modified content c =
      if is_file_path r.url.path && is_plain r
      then send_body content (
          send_status 200 (
            set_header (codes "Content-Length") (itoa (length content)) (
              set_header (codes "Accept-Ranges") (codes "bytes")
                (set_header (codes "Last-Modified") last_modified c))))
      else otherwise r last_modified content c
