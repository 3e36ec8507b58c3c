-- ===== src/Intercept/San.antt =====
-- The names of a certificate: addSANEntry and its helpers of pkg/httpsintercept/httpsintercept.go.
use go_aptcacher.Base.{Bool, ◌||◌, false, List, [], ◌∷◌, ◌++◌, Option, none, some, if◌then◌else◌}
use go_aptcacher.Base.Text.{Text, codes, text_eq, is_empty, trim_space}
use go_aptcacher.Sources.{trim_suffix}
use go_aptcacher.LocalPath.{trim_prefix}

-- The two lists of names in a template; an address is its text in the one form that net.IP.String gives.
pub record Template : Type 0 where
  pub dns_names : List Text
  pub ip_addresses : List Text

unfoldable pub contains_text : Text → List Text → Bool
contains_text s [] = false
contains_text s (t ∷ ts) = let rest = contains_text s ts in text_eq t s || rest

-- appendUniqueIP and appendUniqueDNS, on one of the lists.
unfoldable pub append_unique : Text → List Text → List Text
unfolding contains_text
append_unique s ts = if contains_text s ts then ts else ts ++ s ∷ []

-- net.ParseIP and net.SplitHostPort
module _ (parse_ip : Text → Option Text) (split_host_port : Text → Option Text) where
  unfoldable pub add_parsed : Text → Option Text → Template → Template
  unfolding append_unique
  add_parsed host none t = record t { dns_names = append_unique host t.dns_names }
  add_parsed host (some ip) t = record t { ip_addresses = append_unique ip t.ip_addresses }

  -- addSANEntry
  unfoldable pub add_san_entry : Text → Template → Template
  unfolding add_parsed
  add_san_entry host t = if is_empty host then t else add_parsed host (parse_ip host) t

  abbrev pub host_or : Text → Option Text → Text
  host_or s none = s
  host_or s (some host) = host

  -- normalizeSANHost
  unfoldable pub normalize_san_host : Text → Text
  unfolding trim_suffix trim_prefix
  normalize_san_host host =
      if is_empty host
      then []
      else let trimmed = trim_space host in
        trim_suffix (codes "]")
          (trim_prefix (codes "[") (host_or trimmed (split_host_port trimmed)))

  -- The names that newProxyCertificateTemplate gives a certificate.
  unfoldable pub template_names : Text → Text → Template
  unfolding add_san_entry normalize_san_host
  template_names requested_hostname domain =
      add_san_entry (normalize_san_host domain)
        (add_san_entry requested_hostname (record { dns_names = []; ip_addresses = [] }))
