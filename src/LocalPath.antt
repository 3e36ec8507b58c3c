-- ===== src/LocalPath.antt =====
-- buildLocalPath of pkg/fscache/fscache.go: the file under the cache directory for a URL; and the
-- protocol numbers.
pub mod Confined
mod Tests
use go_aptcacher.Base.{
  ℕ, Bool, true, false, not, ◌&&◌, ◌||◌, List, [], ◌∷◌, ◌++◌, map, reverse, Option, none, some, leb,
  ◌==◌, if◌then◌else◌,
}
use go_aptcacher.Base.Text.{
  Text, codes, is_empty, cut_prefix, has_prefix, has_suffix, text_eq, to_lower, trim, trim_space,
}
use go_aptcacher.FilePath.{clean, join_paths}

-- The fields of a url.URL that the program's URLs set. Only the first three are read.
pub record Url : Type 0 where
  pub scheme : Text
  pub host : Text
  pub path : Text
  pub raw_query : Text

-- url.URL.Hostname, of package net/url

-- The text from the last colon on, and the text before it.
unfoldable pub last_colon : Text → Option (Text × Text)
last_colon [] = none
last_colon (c ∷ cs) = elim (last_colon cs) [
  | some (before, from) ↦ some (c ∷ before, from)
  | none ↦ if c == b':' then some ([], c ∷ cs) else none
]

unfoldable pub all_digits : Text → Bool
all_digits [] = true
all_digits (c ∷ cs) = leb b'0' c && leb c b'9' && all_digits cs

-- validOptionalPort, on a text that begins with a colon
unfoldable pub valid_port : Text → Bool
unfolding all_digits
valid_port [] = true
valid_port (c ∷ cs) = all_digits cs

unfoldable pub drop_last : Text → Text
drop_last [] = []
drop_last (c ∷ []) = []
drop_last (c ∷ d ∷ cs) = c ∷ drop_last (d ∷ cs)

unfoldable pub without_port : Text → Text
unfolding last_colon valid_port
without_port h = elim (last_colon h) [
  | none ↦ h
  | some (before, from) ↦ if valid_port from then before else h
]

-- The brackets of an IPv6 address.
unfoldable pub without_brackets : Text → Text
unfolding drop_last
without_brackets [] = []
without_brackets (c ∷ cs) =
    if c == b'[' && has_suffix (b']' ∷ []) (c ∷ cs) then drop_last cs else c ∷ cs

unfoldable pub hostname : Url → Text
unfolding without_port without_brackets
hostname u = without_brackets (without_port u.host)

abbrev pub is_dot : ℕ → Bool
is_dot c = c == b'.'

-- strings.ReplaceAll of one byte.
abbrev pub replace : ℕ → ℕ → Text → Text
replace a b = map (λ c. if c == a then b else c)

abbrev pub invalid_host : Text
invalid_host = codes "_invalid_host"

unfoldable pub or_else : Text → Text → Text
or_else [] t = t
or_else (c ∷ cs) t = c ∷ cs

-- The directory of a host.
unfoldable pub host_directory : Url → Text
unfolding hostname or_else
host_directory u =
    let host = or_else (hostname u) u.host in
    let host = trim is_dot (to_lower (trim_space host)) in
    replace b'\\' b'_' (replace b'/' b'_' (or_else host invalid_host))

unfoldable pub trim_prefix : Text → Text → Text
unfolding cut_prefix
trim_prefix p s = elim (cut_prefix p s) [ none ↦ s | some rest ↦ rest ]

-- The path below the directory of the host.
unfoldable pub relative_path : Url → Text
unfolding trim_prefix
relative_path u = trim_prefix (b'/' ∷ []) (clean (b'/' ∷ replace b'\\' b'/' u.path))

-- The two fields of an FSCache that it reads.
pub record Layout : Type 0 where
  pub cache_path : Text
  pub custom_cache_path : Option (Url → Text)

unfoldable pub build_local_path : Layout → Url → Text
unfolding host_directory relative_path
build_local_path l u = elim l.custom_cache_path [
  | some f ↦ f u
  | none ↦ join_paths (clean l.cache_path ∷ host_directory u ∷ relative_path u ∷ [])
]

-- DetermineProtocol: 1 for https, 0 for all else. Only ASCII letters have one of "https" for
-- their lower case.
unfoldable pub determine_protocol : Text → ℕ
determine_protocol scheme = if text_eq (to_lower scheme) (codes "https") then 1 else 0

unfoldable pub determine_protocol_from_url : Url → ℕ
unfolding determine_protocol
determine_protocol_from_url u = determine_protocol u.scheme
