-- ===== src/Proxy/Tests.antt =====
-- Runs of handleRequest (cmd/goaptcacher/proxy.go) and checkOverrides (cmd/goaptcacher/overrides.go).
use go_aptcacher.Base.{◌≡◌, ◌≢◌, refl, inl, true, false, [], ◌∷◌, if◌then◌else◌, arith}
use go_aptcacher.Base.Text.{Text, codes, text_eq, has_prefix, has_suffix}
use go_aptcacher.Proxy.{
  Request, Config, handle_request, handle_http, handle_tunnel, set_scheme, in_domains,
  check_overrides, override_ubuntu, override_debian_mirror, split_server, send_to, get_method,
  route_host, route_method, loaded_domains,
}
use go_aptcacher.Proxy.Policy.{Under, plain_host, handle_request-caches, handle_request-serves}
use go_aptcacher.Proxy.Overrides.{IsConsistent, check_overrides-IsConsistent}

abbrev config : Config
config = record {
  domains = codes "ubuntu.com" ∷ [];
  passthrough_domains = codes "esm.ubuntu.com" ∷ [];
  ubuntu_server = codes "at.archive.ubuntu.com/mirror";
  debian_server = [];
  remap = [];
  prevent = true;
  intercept = true;
}

abbrev request : Text → Request
request host = record {
  method = get_method;
  host = host;
  url = record { scheme = codes "http"; host = host; path = codes "/ubuntu/a.deb"; raw_query = [] };
  tls = false;
}

-- A host is let in by the end of its name, wherever that begins.
abbrev look_alike : Text
look_alike = codes "evilubuntu.com"

some_domain : loaded_domains config ≢ 0
some_domain = omega arith

handle_request-serves_example : handle_request config (request look_alike) ≡ (
    if in_domains look_alike config.passthrough_domains
    then handle_tunnel (set_scheme (request look_alike))
    else handle_http (set_scheme (request look_alike)))
handle_request-serves_example =
    handle_request-serves config (request look_alike) refl (unfold text_eq has_prefix in refl)
      (inl (plain_host (codes "evil") refl)) some_domain

handle_request-caches_example :
    Under look_alike config.domains × (¬ Under look_alike config.passthrough_domains)
handle_request-caches_example = handle_request-caches config (request look_alike) some_domain (
    unfold handle_request route_host route_method in_domains has_suffix set_scheme text_eq
      has_prefix in
    refl)

abbrev own_server : Text
own_server = codes "at.archive.ubuntu.com"

check_overrides-IsConsistent_example : IsConsistent (check_overrides config (request own_server))
check_overrides-IsConsistent_example = check_overrides-IsConsistent config (request own_server) refl

-- Both rules are given their own hosts: the Ubuntu one puts the path in front of the path again.
own_host_moved :
    (override_ubuntu config.ubuntu_server (request own_server)).url.path
    ≡ codes "mirror/ubuntu/a.deb"
unfolding override_ubuntu send_to split_server has_suffix has_prefix
own_host_moved = refl

abbrev debian_mirror : Text
debian_mirror = codes "ftp.at.debian.org/mirror"

own_host_kept :
    override_debian_mirror (split_server debian_mirror) (request (codes "ftp.at.debian.org"))
    ≡ request (codes "ftp.at.debian.org")
unfolding override_debian_mirror send_to split_server has_suffix has_prefix text_eq
own_host_kept = refl

abbrev remapping : Config
remapping = record config {
  debian_server = debian_mirror;
  remap = record { from = codes "/old/a.deb"; to = codes "/new/a.deb" } ∷ [];
}
