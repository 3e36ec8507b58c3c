-- ===== src/Request/Tests.antt =====
-- Runs of the requests to the cache (pkg/fscache/request_get.go, pkg/fscache/request_head.go).
use go_aptcacher.Base.{◌≡◌, refl, true, false, [], ◌∷◌, ◌++◌, none, some, arith}
use go_aptcacher.Base.Int.{ℤ}
use go_aptcacher.Base.Text.{codes, text_eq, contains, trim_right, trim_left, to_lower, has_suffix}
use go_aptcacher.Base.Map.{lookup, keys}
use go_aptcacher.FilePath.{join_paths}
use go_aptcacher.LocalPath.{Url, build_local_path}
use go_aptcacher.Locks.{has_write_lock, has_file_lock}
use go_aptcacher.Access.Methods.{get, get_access_cache_record}
use go_aptcacher.Access.Disk.{load_access_cache_record, decode}
use go_aptcacher.Storage.{ensure_disk_space}
use go_aptcacher.Refresh.Answer.{Tools}
use go_aptcacher.Refresh.Download.{no_fault}
use go_aptcacher.Request.{
  World, Server, Upstream, no_faults, is_cut_off, copy_response_headers, upstream_header,
}
use go_aptcacher.Connect.{header_get}
use go_aptcacher.Request.Messages.{Client, ClientRequest, is_file_path, is_plain}
use go_aptcacher.Request.Fetch.{fetch_and_serve_cache_miss, miss_entry}
use go_aptcacher.Request.Serve.{serve_get_request, is_pool_file}
use go_aptcacher.Request.Head.{serve_head_request}
use go_aptcacher.Request.Headers.{connection_fields, withheld_fields, forwarded_headers}
use go_aptcacher.Request.Headers.Values.{all_values}
use go_aptcacher.Request.Messages.{canonical_header_key}
use mathlib.Core.List.{Memᴰ}
use go_aptcacher.Base.{◌⊎◌}
use go_aptcacher.Request.Ends.{Returns, serve_get_request-Returns}
use go_aptcacher.Request.Outcome.{Fetched, fetch_and_serve_cache_miss-Fetched}
use go_aptcacher.Request.Hit.{Serves}
use go_aptcacher.Request.Again.Recorded.{faultless, later}
use go_aptcacher.Request.Again.{Twice, serve_get_request_again}
use go_aptcacher.Request.HeadGet.{serve_head_request_poisons}

abbrev deb : Url
deb = record {
  scheme = codes "http";
  host = codes "deb.debian.org";
  path = codes "/debian/pool/a.deb";
  raw_query = [];
}

-- The hash is a stand-in: the bytes themselves.
abbrev tools : Tools
tools = record {
  env = record {
    layout = record { cache_path = codes "/c"; custom_cache_path = none };
    urls = record {
      string = λ u. u.scheme ++ codes "://" ++ u.host ++ u.path;
      parse = λ t. some deb;
    };
  };
  now = 1000;
  today = record { year = 2025; month = 1; day = 2 };
  parse_time = λ t. none;
  sha256 = λ t. t;
  file_system = record { stat_is_dir = λ p. some true; statfs = λ p. some (1000000, ℤ.pos 4096) };
  fault = no_fault;
  temp = codes "/c/tmp";
}

-- An error page.
abbrev missing : Upstream
missing = record { status = 404; header = []; content_length = ℤ.pos 4; body = codes "gone" }

abbrev deb_file : Upstream
deb_file = record {
  status = 200;
  header = (codes "Etag", codes "v1" ∷ []) ∷ (codes "Connection", codes "close" ∷ []) ∷ [];
  content_length = ℤ.pos 3;
  body = codes "deb";
}

abbrev server : Upstream → Server
server answer = record {
  tools = tools;
  version = codes "1.0";
  origin = λ u h. some answer;
  refresh_origin = λ u h. none;
  faults = no_faults;
  random_name = codes "uuid";
  mod_time = λ t. 7;
  removes = λ t. true;
  format_rfc1123 = λ t. codes "date UTC";
  format_http = λ t. codes "date GMT";
  parse_http_time = λ t. none;
  otherwise = λ r t x c. c;
  others = λ held w. w;
}

abbrev request : ClientRequest
request = record {
  url = deb;
  header = (codes "Accept", codes "a" ∷ codes "b" ∷ []) ∷ (codes "Te", codes "trailers" ∷ []) ∷ [];
  remote_addr = codes "10.0.0.1:80";
}

abbrev client : Client
client = record { header = []; sent = none; body = [] }

abbrev world : World
world = record {
  store = record {
    cache = record { access_cache = []; files = [] };
    files = [];
    stats = record { by_date = []; dirty = false; revision = 0 };
  };
  locks = record { read_lock = []; write_lock = [] };
  started = [];
}

serve_get_request-Returns_example :
    Returns (serve_get_request (server deb_file) 2 false request (client, world))
serve_get_request-Returns_example =
    serve_get_request-Returns (server deb_file) request (λ w h. h) 0 client world

fetch_and_serve_cache_miss-Fetched_example :
    Fetched
      (server deb_file)
      0
      request
      client
      world
      (fetch_and_serve_cache_miss (server deb_file) 0 request (client, world))
fetch_and_serve_cache_miss-Fetched_example =
    fetch_and_serve_cache_miss-Fetched (server deb_file) 0 request client world refl

serve_get_request_again_example :
    Twice
      (server deb_file)
      request
      deb_file
      client
      (serve_get_request (faultless (server deb_file)) 2 false request (client, world))
      (λ w. Serves (later 2000 (λ u h. none) (server deb_file)) request deb_file.body client w (
        serve_get_request (later 2000 (λ u h. none) (server deb_file)) 1 false request (client, w)))
unfolding is_cut_off lookup is_pool_file contains build_local_path join_paths text_eq trim_right
    trim_left to_lower is_file_path has_suffix is_plain get has_write_lock has_file_lock
    ensure_disk_space get_access_cache_record load_access_cache_record decode
serve_get_request_again_example =
    serve_get_request_again (server deb_file) request deb_file deb refl refl refl refl refl client
      client world request.header request.remote_addr 2000 (λ u h. none) 1 0 refl refl refl refl
      refl refl refl (omega arith)

-- The ETag of the answer is recorded: net/http keeps it under its canonical name.
etag_recorded : (miss_entry (server deb_file) request deb_file).etag ≡ codes "v1"
unfolding miss_entry header_get lookup text_eq
etag_recorded = refl

forwarded_headers_example :
    ((Memᴰ (codes "Etag") connection_fields
        × (all_values (codes "Etag") (copy_response_headers [] deb_file.header) ≡ []))
      ⊎ ((¬ Memᴰ (codes "Etag") connection_fields)
          × (all_values (codes "Etag") (copy_response_headers [] deb_file.header)
              ≡ [] ++ all_values (codes "Etag") deb_file.header)))
    × ((Memᴰ (codes "Etag") withheld_fields
          × (all_values (codes "Etag") (upstream_header (server deb_file) request) ≡ []))
        ⊎ ((¬ Memᴰ (codes "Etag") withheld_fields)
            × (all_values (codes "Etag") (upstream_header (server deb_file) request)
                ≡ all_values (codes "Etag") request.header)))
unfolding keys text_eq lookup canonical_header_key
forwarded_headers_example =
    forwarded_headers (server deb_file) request [] deb_file.header (codes "Etag")
      ((refl, tt), (tt, tt)) ((refl, tt), (tt, tt)) refl refl refl

serve_head_request_poisons_example :
    Serves
      (later 2000 (λ u h. none) (server missing))
      request
      missing.body
      client
      (serve_head_request (faultless (server missing)) request (client, world)).1
      (serve_get_request
        (later 2000 (λ u h. none) (server missing))
        1
        false
        request
        (client, (serve_head_request (faultless (server missing)) request (client, world)).1))
unfolding is_cut_off lookup is_pool_file contains build_local_path join_paths text_eq trim_right
    trim_left to_lower is_file_path has_suffix is_plain
serve_head_request_poisons_example =
    serve_head_request_poisons (server missing) request client world deb missing refl refl refl
      client request.header request.remote_addr 2000 (λ u h. none) 0 refl refl refl refl
