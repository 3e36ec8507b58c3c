-- ===== src/Request.antt =====
-- The requests to the cache: pkg/fscache/request_get.go, pkg/fscache/request_head.go,
-- pkg/fscache/download.go, and ServeFromRequest of pkg/fscache/fscache.go.
pub mod Messages
pub mod Fetch
pub mod Background
pub mod Serve
pub mod Head
pub mod Headers
mod Tests
pub mod HeadGet
pub mod Ends
pub mod Again
pub mod Hit
pub mod Outcome
use go_aptcacher.Base.{
  ℕ, Bool, true, false, not, ◌&&◌, ◌||◌, List, [], ◌∷◌, ◌++◌, Option, none, some, if◌then◌else◌,
  length, is_some,
}
use go_aptcacher.Base.Int.{ℤ, is_pos, eqb_ℤ}
use go_aptcacher.Base.Text.{Text, codes}
use go_aptcacher.LocalPath.{Url}
use go_aptcacher.Locks.{Time, Locks}
use go_aptcacher.Connect.{header_set}
use go_aptcacher.Refresh.{contains_text}
use go_aptcacher.Refresh.Download.{Response}
use go_aptcacher.Refresh.Answer.{State, Tools}
use go_aptcacher.Request.Messages.{Header, header_add, canonical_header_key, Client, ClientRequest}

-- What a request leaves to goroutines of its own.
pub data Task : Type 0 where
  -- trackRequestAsync
  track : Bool → ℤ → Task
  -- backgroundFileTasks
  background : Url → Task

-- What the requests share, and the goroutines that they started.
pub record World : Type 0 where
  pub store : State
  pub locks : Locks
  pub started : List Task

-- A response of the origin; `body` is what can be read of it.
pub record Upstream : Type 0 where
  pub status : ℕ
  pub header : Header
  pub content_length : ℤ
  pub body : Text

-- What fails on the way of a request; a copy that fails does so after some bytes.
pub record Faults : Type 0 where
  pub mkdir : Bool
  pub create : Bool
  pub preallocate : Bool
  pub copy : Option ℕ
  pub close : Bool
  pub rename : Bool
  pub hash : Bool
  pub chtimes : Bool

abbrev pub no_faults : Faults
no_faults = record {
  mkdir = false;
  create = false;
  preallocate = false;
  copy = none;
  close = false;
  rename = false;
  hash = false;
  chtimes = false;
}

-- What a request reads: the libraries and the clock (`tools`), the origin, the file system, and what
-- others do while it sleeps.
pub record Server : Type 0 where
  pub tools : Tools
  pub version : Text
  pub origin : Url → Header → Option Upstream
  -- Its answer to the request of a refresh.
  pub refresh_origin : Url → Header → Option Response
  pub faults : Faults
  -- uuid.New().String()
  pub random_name : Text
  pub mod_time : Text → Time
  -- Whether os.Remove removes a file that is there.
  pub removes : Text → Bool
  -- The layouts time.RFC1123 and http.TimeFormat, for times in UTC.
  pub format_rfc1123 : Time → Text
  pub format_http : Time → Text
  -- http.ParseTime
  pub parse_http_time : Text → Option Time
  -- http.ServeFile where it does not send the whole file.
  pub otherwise : ClientRequest → Text → Text → Client → Client
  -- The others, while the request sleeps for a second; the argument is whether it holds the write lock
  -- of its file itself.
  pub others : Bool → World → World

-- hopByHopHeaders
abbrev pub hop_by_hop_headers : List Text
hop_by_hop_headers =
    codes "Connection"
    ∷ codes "Proxy-Connection"
    ∷ codes "Keep-Alive"
    ∷ codes "Proxy-Authenticate"
    ∷ codes "Proxy-Authorization"
    ∷ codes "Te"
    ∷ codes "Trailer"
    ∷ codes "Transfer-Encoding"
    ∷ codes "Upgrade"
    ∷ []

unfoldable pub is_hop_by_hop : Text → Bool
unfolding contains_text canonical_header_key
is_hop_by_hop key = contains_text hop_by_hop_headers (canonical_header_key key)

abbrev pub conditional_headers : List Text
conditional_headers = codes "If-Modified-Since" ∷ codes "If-None-Match" ∷ codes "E-Tag" ∷ []

-- skipRequestHeaderForCacheMiss
unfoldable pub skip_request_header_for_cache_miss : Text → Bool
unfolding contains_text is_hop_by_hop
skip_request_header_for_cache_miss key =
    if contains_text conditional_headers key then true else is_hop_by_hop key

unfoldable pub add_values : Text → List Text → Header → Header
unfolding header_add
add_values key [] header = header
add_values key (v ∷ vs) header = add_values key vs (header_add key v header)

-- The loop over a header that adds to another one what is not skipped, in copyResponseHeaders and in
-- newCacheMissUpstreamRequest.
unfoldable pub add_headers : (Text → Bool) → Header → Header → Header
unfolding add_values
add_headers skip [] dst = dst
add_headers skip ((key, values) ∷ src) dst =
    add_headers skip src (if skip key then dst else add_values key values dst)

-- copyResponseHeaders
unfoldable pub copy_response_headers : Header → Header → Header
unfolding add_headers is_hop_by_hop
copy_response_headers dst src = add_headers is_hop_by_hop src dst

module _ (s : Server) where
  -- The header of newCacheMissUpstreamRequest.
  unfoldable pub upstream_header : ClientRequest → Header
  unfolding add_headers skip_request_header_for_cache_miss header_set
  upstream_header r =
      header_set (codes "X-Proxy-Server")
        (codes "GoAptCacher/"
          ++ s.version
          ++ codes " (+https://gitlab.com/bella.network/goaptcacher)")
        (header_set (codes "X-Forwarded-For") r.remote_addr
          (add_headers skip_request_header_for_cache_miss r.header []))

-- The response is not of the size that it announces.
unfoldable pub is_cut_off : Upstream → Bool
is_cut_off resp =
    is_pos resp.content_length && not (eqb_ℤ resp.content_length (ℤ.pos (length resp.body)))
