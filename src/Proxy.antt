-- ===== src/Proxy.antt =====
-- What the proxy does with a request: handleRequest of cmd/goaptcacher/proxy.go, and checkOverrides of
-- cmd/goaptcacher/overrides.go.
pub mod Policy
pub mod Overrides
mod Tests
use go_aptcacher.Base.{
  ℕ, ◌+◌, Bool, true, false, not, ◌&&◌, ◌||◌, List, [], ◌∷◌, ◌++◌, if◌then◌else◌, ◌==◌, length,
}
use go_aptcacher.Base.Text.{Text, codes, is_empty, text_eq, has_prefix, has_suffix}
use go_aptcacher.LocalPath.{Url}

-- The fields of an http.Request that are read; `tls` is whether r.TLS is set.
pub record Request : Type 0 where
  pub method : Text
  pub host : Text
  pub url : Url
  pub tls : Bool

pub record RemapEntry : Type 0 where
  pub from : Text
  pub to : Text

-- The fields of Config that decide about a request.
pub record Config : Type 0 where
  pub domains : List Text
  pub passthrough_domains : List Text
  pub ubuntu_server : Text
  pub debian_server : Text
  pub remap : List RemapEntry
  pub prevent : Bool
  pub intercept : Bool

-- loadedDomains, as main sets it.
abbrev pub loaded_domains : Config → ℕ
loaded_domains c = length c.domains + length c.passthrough_domains

-- What the proxy answers: a page of its own, an error, or one of the handlers.
pub data Route : Type 0 where
  index_request not_acceptable favicon robots index_redirect security_txt : Route
  forbidden method_not_allowed : Route
  handle_tunnel handle_connect handle_http : Request → Route

abbrev pub get_method : Text
get_method = codes "GET"

abbrev pub head_method : Text
head_method = codes "HEAD"

abbrev pub connect_method : Text
connect_method = codes "CONNECT"

-- Whether the host ends in one of the names, or one of them with the port of HTTPS.
unfoldable pub in_domains : Text → List Text → Bool
in_domains host [] = false
in_domains host (d ∷ ds) =
    (has_suffix d host || has_suffix (d ++ codes ":443") host) || in_domains host ds

-- The scheme of a direct request.
unfoldable pub set_scheme : Request → Request
set_scheme r =
    if is_empty r.url.scheme
    then record r { url = record r.url { scheme = if r.tls then codes "https" else codes "http" } }
    else r

-- The last switch, with the flag `passthrough`.
unfoldable pub route_method : Config → Bool → Request → Route
route_method c passthrough r =
    if text_eq r.method connect_method
    then (if c.prevent
        then forbidden
        else if passthrough || not c.intercept
        then handle_tunnel r
        else handle_connect r)
    else if text_eq r.method get_method || text_eq r.method head_method
    then (if passthrough || (loaded_domains c == 0) then handle_tunnel r else handle_http r)
    else method_not_allowed

-- The checks of the host.
unfoldable pub route_host : Config → Request → Route
unfolding in_domains set_scheme route_method
route_host c r =
    let passthrough = in_domains r.host c.passthrough_domains in
    if (in_domains r.host c.domains || passthrough) || (loaded_domains c == 0)
    then route_method c passthrough (set_scheme r)
    else forbidden

-- handleRequest
unfoldable pub handle_request : Config → Request → Route
unfolding route_host
handle_request c r =
    let connects = text_eq r.method connect_method in
    let gets = text_eq r.method get_method in
    if not connects && has_prefix (codes "/_goaptcacher/") r.url.path
    then index_request
    else if not connects && text_eq r.url.path (codes "/")
    then not_acceptable
    else if gets && text_eq r.url.path (codes "/favicon.ico")
    then favicon
    else if gets && text_eq r.url.path (codes "/robots.txt")
    then robots
    else if gets && text_eq r.url.path (codes "/_goaptcacher")
    then index_redirect
    else if gets && text_eq r.url.path (codes "/.well-known/security.txt")
    then security_txt
    else route_host c r

-- strings.Split(s, "/"): the part before the first slash, and strings.Join of the others.
unfoldable pub split_server : Text → Text × Text
split_server [] = ([], [])
split_server (c ∷ cs) =
    let rest = split_server cs in if c == b'/' then ([], cs) else (c ∷ rest.0, rest.1)

-- The loop over config.Remap.
unfoldable pub remap_path : List RemapEntry → Text → Text
remap_path [] path = path
remap_path (m ∷ ms) path = remap_path ms (if text_eq path m.from then m.to else path)

abbrev pub with_path : Text → Request → Request
with_path path r = record r { url = record r.url { path = path } }

-- The assignments that send a request to a server of the configuration.
unfoldable pub send_to : Text × Text → Request → Request
send_to (host, path) r =
    let moved : Request = record r { host = host; url = record r.url { host = host } } in
    if is_empty path then moved else with_path (path ++ r.url.path) moved

unfoldable pub override_ubuntu : Text → Request → Request
unfolding split_server send_to
override_ubuntu server r =
    if is_empty server
    then r
    else if has_suffix (codes "archive.ubuntu.com") r.host
        || (has_suffix (codes ".archive.ubuntu.com") r.host
            && not (text_eq r.host (split_server server).0))
    then send_to (split_server server) r
    else r

abbrev pub is_security_path : Text → Bool
is_security_path path =
    ((has_prefix (codes "/debian-security/") path
        || has_prefix (codes "/debian-security-debug/") path)
      || has_prefix (codes "/debian-debug/") path)
    || has_prefix (codes "/debian-ports/") path

-- The first rule for Debian hosts.
unfoldable pub override_debian_mirror : Text × Text → Request → Request
unfolding send_to
override_debian_mirror target r =
    if (has_suffix (codes "debian.org") r.host && has_prefix (codes "ftp.") r.host)
      && not (text_eq r.host target.0)
    then send_to target r
    else r

-- The rules for deb.debian.org.
unfoldable pub override_deb : Text × Text → Request → Request
unfolding send_to
override_deb target r =
    if text_eq r.host (codes "deb.debian.org")
    then (if has_prefix (codes "/debian/") r.url.path
        then send_to target r
        else if is_security_path r.url.path
        then send_to (codes "security.debian.org", []) r
        else r)
    else r

unfoldable pub override_debian : Text → Request → Request
unfolding split_server override_debian_mirror override_deb
override_debian server r =
    if is_empty server
    then r
    else override_deb (split_server server) (override_debian_mirror (split_server server) r)

-- checkOverrides
unfoldable pub check_overrides : Config → Request → Request
unfolding override_ubuntu override_debian remap_path
check_overrides c r =
    override_debian c.debian_server
      (override_ubuntu c.ubuntu_server (with_path (remap_path c.remap r.url.path) r))
