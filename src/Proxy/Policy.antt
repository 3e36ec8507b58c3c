-- ===== src/Proxy/Policy.antt =====
-- The policy of handleRequest (cmd/goaptcacher/proxy.go): which requests are cached or intercepted.
use go_aptcacher.Base.{
  ◌≡◌, ◌≢◌, refl, sym, ap, ◌∙◌, ◌⊎◌, inl, inr, Bool, true, false, ◌||◌, List, [], ◌∷◌, ◌++◌,
  reverse, none, some, arith, if◌then◌else◌, Bool-cases, Option-cases, if_true, ◌==◌,
}
use mathlib.Core.List.{reverse-append, reverse-reverse}
use go_aptcacher.Base.Text.{
  Text, codes, text_eq, text_eq_iff, has_prefix, has_suffix, cut_prefix, cut_prefix-append,
  cut_prefix_split,
}
use go_aptcacher.Proxy.{
  Request, Config, Route, index_request, not_acceptable, favicon, robots, index_redirect,
  security_txt, forbidden, method_not_allowed, handle_tunnel, handle_connect, handle_http,
  get_method, connect_method, in_domains, set_scheme, route_method, route_host, handle_request,
  loaded_domains,
}

-- The host is the name of a domain, behind any bytes, and perhaps with the port of HTTPS.
pub data Under (host : Text) : List Text → Type 0 where
  plain_host : {d : Text} {ds : List Text} (front : Text) → host ≡ front ++ d → Under host (d ∷ ds)
  with_port :
      {d : Text} {ds : List Text} (front : Text)
      → host ≡ front ++ (d ++ codes ":443")
      → Under host (d ∷ ds)
  later : {d : Text} {ds : List Text} → Under host ds → Under host (d ∷ ds)

has_prefix_cut : (p s : Text) (rest : Text) → cut_prefix p s ≡ some rest → has_prefix p s ≡ true
unfolding has_prefix
has_prefix_cut p s rest h = rw (h, has_prefix) refl

has_prefix_split : (p s : Text) → has_prefix p s ≡ true → (rest : Text) × (s ≡ p ++ rest)
has_prefix_split p s h = elim (Option-cases (cut_prefix p s)) [
  | inl e ↦ absurd (cc (h, no_prefix e))
  | inr x ↦ (x.0, cut_prefix_split p s x.1)
]
  where
    no_prefix : cut_prefix p s ≡ none → has_prefix p s ≡ false
    no_prefix e = unfold has_prefix in rw (e, has_prefix) refl

pub has_suffix_split : (d s : Text) → has_suffix d s ≡ true → (front : Text) × (s ≡ front ++ d)
unfolding has_suffix
has_suffix_split d s h =
    let (rest, e) = has_prefix_split (reverse d) (reverse s) h in
    (
      reverse rest,
      sym (reverse-reverse s)
          ∙ (ap reverse e
              ∙ (reverse-append (reverse d) rest
                  ∙ ap (λ (x : Text). reverse rest ++ x) (reverse-reverse d))),
    )

pub has_suffix-append : (front d : Text) → has_suffix d (front ++ d) ≡ true
unfolding has_suffix
has_suffix-append front d = rw (reverse-append front d) (
    has_prefix_cut (reverse d) (reverse d ++ reverse front) (reverse front)
      (cut_prefix-append (reverse d) (reverse front)))

pub in_domains-Under : (host : Text) (ds : List Text) → in_domains host ds ≡ true → Under host ds
unfolding in_domains
in_domains-Under host [] h = absurd (cc (h))
in_domains-Under host (d ∷ ds) h = elim (Bool-cases (has_suffix d host)) [
  | inl plain ↦ let (front, e) = has_suffix_split d host plain in plain_host front e
  | inr not_plain ↦ elim (Bool-cases (has_suffix (d ++ codes ":443") host)) [
    | inl port ↦
        let (front, e) = has_suffix_split (d ++ codes ":443") host port in with_port front e
    | inr no_port ↦ later (in_domains-Under host ds (cc (h, not_plain, no_port)))
  ]
]

pub Under-in_domains : (host : Text) (ds : List Text) → Under host ds → in_domains host ds ≡ true
unfolding in_domains
Under-in_domains host [] u = elim u [ ]
Under-in_domains host (d ∷ ds) (plain_host front e) =
    ground (arith, ap (has_suffix d) e ∙ has_suffix-append front d)
Under-in_domains host (d ∷ ds) (with_port front e) =
    ground
      (arith, ap (has_suffix (d ++ codes ":443")) e ∙ has_suffix-append front (d ++ codes ":443"))
Under-in_domains host (d ∷ ds) (later u) = ground (arith, Under-in_domains host ds u)

-- Routes that put the response in the cache, or read the requests of the client to do so.
abbrev pub caches : Route → Bool
caches (handle_http r) = true
caches (handle_connect r) = true
caches index_request = false
caches not_acceptable = false
caches favicon = false
caches robots = false
caches index_redirect = false
caches security_txt = false
caches forbidden = false
caches method_not_allowed = false
caches (handle_tunnel r) = false

route_method-caches :
    (c : Config) (passthrough : Bool) (r : Request)
    → caches (route_method c passthrough r) ≡ true
    → passthrough ≡ false
unfolding route_method
route_method-caches c passthrough r h = ground arith

handle_request-route_host :
    (c : Config) (r : Request) → caches (handle_request c r) ≡ true → caches (route_host c r) ≡ true
unfolding handle_request
handle_request-route_host c r h = ground arith

route_host-caches :
    (c : Config) (r : Request)
    → loaded_domains c ≢ 0
    → caches (route_host c r) ≡ true
    → (in_domains r.host c.domains ≡ true) × (in_domains r.host c.passthrough_domains ≡ false)
unfolding route_host
route_host-caches c r some_domain h =
    let passthrough = in_domains r.host c.passthrough_domains in
    let method = route_method-caches c passthrough (set_scheme r) in
    elim (Bool-cases passthrough) [
      | inl p ↦
          let routed : caches (route_method c passthrough (set_scheme r)) ≡ true = ground arith in
          absurd (cc (p, method routed))
      | inr p ↦ (ground arith, p)
    ]

-- What is cached or intercepted is for a host that ends in one of the configured domains, if there
-- are any, and in none of the passthrough domains.
pub handle_request-caches :
    (c : Config) (r : Request)
    → loaded_domains c ≢ 0
    → caches (handle_request c r) ≡ true
    → Under r.host c.domains × (¬ Under r.host c.passthrough_domains)
handle_request-caches c r some_domain h =
    let (inside, outside) = route_host-caches c r some_domain (handle_request-route_host c r h) in
    (
      in_domains-Under r.host c.domains inside,
      λ u. cc (outside, Under-in_domains r.host c.passthrough_domains u),
    )

-- The paths that the proxy answers itself for a GET.
abbrev pub is_own_page : Text → Bool
is_own_page path =
    (has_prefix (codes "/_goaptcacher/") path || text_eq path (codes "/"))
    || ((text_eq path (codes "/favicon.ico") || text_eq path (codes "/robots.txt"))
        || (text_eq path (codes "/_goaptcacher")
            || text_eq path (codes "/.well-known/security.txt")))

handle_request-get :
    (c : Config) (r : Request)
    → r.method ≡ get_method
    → is_own_page r.url.path ≡ false
    → handle_request c r ≡ route_host c r
unfolding handle_request
handle_request-get c r gets no_page =
    let no_connect : text_eq r.method connect_method ≡ false =
      ap (λ (m : Text). text_eq m connect_method) gets ∙ (unfold text_eq in refl) in
    ground arith

set_scheme-method : (r : Request) → (set_scheme r).method ≡ r.method
unfolding set_scheme
set_scheme-method r = ground arith

route_method-get :
    (c : Config) (passthrough : Bool) (r : Request)
    → r.method ≡ get_method
    → loaded_domains c ≢ 0
    → route_method c passthrough r ≡ (if passthrough then handle_tunnel r else handle_http r)
unfolding route_method
route_method-get c passthrough r gets some_domain =
    let no_connect : text_eq r.method connect_method ≡ false =
      ap (λ (m : Text). text_eq m connect_method) gets ∙ (unfold text_eq in refl) in
    let is_get = (text_eq_iff r.method get_method).1 gets in ground arith

-- A GET of a path that is not one of the proxy's own pages, for a host that ends in a configured
-- domain or a passthrough domain, is tunnelled if the host ends in a passthrough domain, and else
-- goes to the cache, with the scheme filled in. (The name of the domain may begin anywhere in that
-- of the host.) Domains are configured.
pub handle_request-serves :
    (c : Config) (r : Request)
    → r.method ≡ get_method
    → is_own_page r.url.path ≡ false
    → Under r.host c.domains ⊎ Under r.host c.passthrough_domains
    → loaded_domains c ≢ 0
    → handle_request c r ≡ (
        if in_domains r.host c.passthrough_domains
        then handle_tunnel (set_scheme r)
        else handle_http (set_scheme r))
unfolding route_host
handle_request-serves c r gets no_page under some_domain =
    handle_request-get c r gets no_page
    ∙ (if_true _ _ (found under)
        ∙ route_method-get c (in_domains r.host c.passthrough_domains) (set_scheme r)
            (set_scheme-method r ∙ gets) some_domain)
  where
    found :
        Under r.host c.domains ⊎ Under r.host c.passthrough_domains
        → ((in_domains r.host c.domains || in_domains r.host c.passthrough_domains)
            || (loaded_domains c == 0))
          ≡ true
    found (inl u) = ground (arith, Under-in_domains r.host c.domains u)
    found (inr u) = ground (arith, Under-in_domains r.host c.passthrough_domains u)

route_method-prevent :
    (c : Config) (passthrough : Bool) (r : Request)
    → r.method ≡ connect_method
    → c.prevent ≡ true
    → route_method c passthrough r ≡ forbidden
unfolding route_method
route_method-prevent c passthrough r connects prevent =
    let is_connect = (text_eq_iff r.method connect_method).1 connects in ground arith

route_host-prevent :
    (c : Config) (r : Request)
    → r.method ≡ connect_method
    → c.prevent ≡ true
    → route_host c r ≡ forbidden
unfolding route_host
route_host-prevent c r connects prevent = ground (
  arith,
  route_method-prevent c (in_domains r.host c.passthrough_domains) (set_scheme r)
      (set_scheme-method r ∙ connects) prevent,
)

-- With `https.prevent`, every CONNECT is answered with an error.
pub handle_request-prevent :
    (c : Config) (r : Request)
    → r.method ≡ connect_method
    → c.prevent ≡ true
    → handle_request c r ≡ forbidden
unfolding handle_request
handle_request-prevent c r connects prevent =
    let is_connect = (text_eq_iff r.method connect_method).1 connects in
    let no_get : text_eq r.method get_method ≡ false =
      ap (λ (m : Text). text_eq m get_method) connects ∙ (unfold text_eq in refl) in
    ground (arith, route_host-prevent c r connects prevent)
