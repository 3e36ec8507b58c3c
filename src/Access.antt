-- ===== src/Access.antt =====
-- The access cache of pkg/fscache/access_cache.go: metadata records in memory, by key, and their
-- files next to the cached files. A `*accessCacheRecord` is changed under `accessCacheMux` only, and
-- the calls here run one after the other, so a record is a value of the map.
pub mod Disk
pub mod Methods
pub mod Flush
mod Tests
use go_aptcacher.Base.{
  ℕ, Bool, true, false, not, ◌&&◌, ◌||◌, List, [], ◌∷◌, ◌++◌, Option, none, some, ◌==◌,
  if◌then◌else◌,
}
use go_aptcacher.Base.Int.{ℤ}
use go_aptcacher.Base.Text.{Text, codes, is_empty, text_eq}
use go_aptcacher.Base.Map.{Map}
use go_aptcacher.LocalPath.{Url, Layout, build_local_path}
use go_aptcacher.Locks.{Time, zero_time}

pub record AccessEntry : Type 0 where
  pub last_accessed : Time
  pub last_checked : Time
  pub remote_last_modified : Time
  pub etag : Text
  pub url : Option Url
  pub size : ℤ
  pub sha256 : Text

abbrev pub no_entry : AccessEntry
no_entry = record {
  last_accessed = zero_time;
  last_checked = zero_time;
  remote_last_modified = zero_time;
  etag = [];
  url = none;
  size = ℤ.pos 0;
  sha256 = [];
}

-- accessCacheRecord
pub record Record : Type 0 where
  pub entry : AccessEntry
  pub protocol : ℕ
  pub domain : Text
  pub path : Text
  pub marked_for_deletion : Bool
  pub marked_at : Time
  pub dirty : Bool

-- accessEntryJSON
pub record AccessEntryJson : Type 0 where
  pub protocol : ℕ
  pub domain : Text
  pub path : Text
  pub url : Text
  pub last_accessed : Time
  pub last_checked : Time
  pub remote_last_modified : Time
  pub etag : Text
  pub size : ℤ
  pub sha256 : Text
  pub marked_for_deletion : Bool
  pub marked_at : Time

-- What a metadata file holds: the JSON of a payload, which json.Unmarshal reads back as it was
-- marshalled, or bytes that it refuses.
pub data MetaFile : Type 0 where
  payload : AccessEntryJson → MetaFile
  garbage : MetaFile

-- URL.String and url.Parse of package net/url.
pub record UrlText : Type 0 where
  pub string : Url → Text
  pub parse : Text → Option Url

-- What the operations read of an FSCache and its surroundings.
pub record Env : Type 0 where
  pub layout : Layout
  pub urls : UrlText

-- The field `accessCache`, and the files of the cache directory that can be read.
pub record AccessCache : Type 0 where
  pub access_cache : Map Record
  pub files : Map MetaFile

abbrev pub meta_suffix : Text
meta_suffix = codes ".access.json"

-- protocolScheme
unfoldable pub protocol_scheme : ℕ → Text
protocol_scheme protocol = if protocol == 1 then codes "https" else codes "http"

-- buildAccessURL
unfoldable pub build_access_url : ℕ → Text → Text → Url
unfolding protocol_scheme
build_access_url protocol domain path = record {
  scheme = protocol_scheme protocol;
  host = domain;
  path = path;
  raw_query = [];
}

-- normalizeAccessEntry
unfoldable pub normalize_access_entry : ℕ → Text → Text → AccessEntry → AccessEntry
normalize_access_entry protocol domain path entry = elim entry.url [
  | none ↦ record entry { url = some (build_access_url protocol domain path) }
  | some u ↦ entry
]

module _ (e : Env) where
  -- accessCacheMetaPath
  unfoldable pub access_cache_meta_path : ℕ → Text → Text → Text
  access_cache_meta_path protocol domain path =
      build_local_path e.layout (build_access_url protocol domain path) ++ meta_suffix

  -- GetURL
  unfoldable pub get_url : ℕ → Text → Text → Text
  get_url protocol domain path =
      if protocol == 1
      then e.urls.string
          (record { scheme = codes "https"; host = domain; path = path; raw_query = [] })
      else e.urls.string
          (record { scheme = codes "http"; host = domain; path = path; raw_query = [] })
