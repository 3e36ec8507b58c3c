-- ===== src/Access/Disk.antt =====
-- The metadata files of pkg/fscache/access_cache.go: writeAccessCacheRecord and
-- loadAccessCacheRecord.
pub mod Json
pub mod RoundTrip
use go_aptcacher.Base.{ℕ, Bool, true, false, List, [], ◌∷◌, ◌++◌, Option, none, some, if◌then◌else◌}
use go_aptcacher.Base.Text.{Text, codes, is_empty}
use go_aptcacher.Base.Map.{Map, lookup, insert, delete}
use go_aptcacher.LocalPath.{Url}
use go_aptcacher.Access.Disk.Json.{json_text}
use go_aptcacher.Access.{
  AccessEntry, Record, AccessEntryJson, MetaFile, payload, garbage, Env, build_access_url,
  access_cache_meta_path, get_url,
}

-- What goes wrong on the way of a write, if anything does. json.Marshal refuses times behind the year
-- 9999; a WriteFile that fails may leave part of its file.
pub data Fault : Type 0 where
  no_fault mkdir_fault marshal_fault write_fault rename_fault : Fault

pub data WriteError : Type 0 where
  mkdir_failed marshal_failed write_failed rename_failed : WriteError

abbrev pub tmp_suffix : Text
tmp_suffix = codes ".tmp"

-- The second `if` of the URL's text, whose `then` part is an argument.
unfoldable pub text_or : Text → Text → Text
text_or [] t = t
text_or (c ∷ s) t = c ∷ s

module _ (e : Env) where
  unfoldable pub url_string : Record → Text
  unfolding text_or
  url_string r =
      text_or (elim r.entry.url [ none ↦ [] | some u ↦ e.urls.string u ])
        (get_url e r.protocol r.domain r.path)

  -- What the file of a record holds, as Unmarshal reads it.
  unfoldable pub to_payload : Record → AccessEntryJson
  unfolding json_text
  to_payload r = record {
    protocol = r.protocol;
    domain = json_text r.domain;
    path = json_text r.path;
    url = json_text (url_string r);
    last_accessed = r.entry.last_accessed;
    last_checked = r.entry.last_checked;
    remote_last_modified = r.entry.remote_last_modified;
    etag = json_text r.entry.etag;
    size = r.entry.size;
    sha256 = json_text r.entry.sha256;
    marked_for_deletion = r.marked_for_deletion;
    marked_at = r.marked_at;
  }

  -- The calls that make the directory, marshal the record, and write and rename its file.
  unfoldable pub write_file :
      Fault → Text → AccessEntryJson → Map MetaFile → Option WriteError × Map MetaFile
  write_file no_fault path json files =
      (none, insert path (payload json) (delete (path ++ tmp_suffix) files))
  write_file mkdir_fault path json files = (some mkdir_failed, files)
  write_file marshal_fault path json files = (some marshal_failed, files)
  write_file write_fault path json files =
      (some write_failed, insert (path ++ tmp_suffix) garbage files)
  write_file rename_fault path json files =
      (some rename_failed, insert (path ++ tmp_suffix) (payload json) files)

  -- writeAccessCacheRecord
  unfoldable pub write_access_cache_record :
      Fault → Record → Map MetaFile → Option WriteError × Map MetaFile
  unfolding write_file
  write_access_cache_record fault r files =
      write_file fault (access_cache_meta_path e r.protocol r.domain r.path) (to_payload r) files

  -- The URL of a payload, the one of the entry's key where there is none that parses.
  unfoldable pub payload_url : Text → Option Url
  payload_url [] = none
  payload_url (c ∷ s) = e.urls.parse (c ∷ s)

  unfoldable pub url_or : Option Url → Url → Url
  url_or none u = u
  url_or (some v) u = v

  unfoldable pub from_payload : ℕ → Text → Text → AccessEntryJson → Record
  unfolding payload_url url_or
  from_payload protocol domain path p = record {
    entry = record {
      last_accessed = p.last_accessed;
      last_checked = p.last_checked;
      remote_last_modified = p.remote_last_modified;
      etag = p.etag;
      url = some (url_or (payload_url p.url) (build_access_url protocol domain path));
      size = p.size;
      sha256 = p.sha256;
    };
    protocol = protocol;
    domain = domain;
    path = path;
    marked_for_deletion = p.marked_for_deletion;
    marked_at = p.marked_at;
    dirty = false;
  }

  unfoldable pub decode : ℕ → Text → Text → Option MetaFile → Option Record
  unfolding from_payload
  decode protocol domain path none = none
  decode protocol domain path (some garbage) = none
  decode protocol domain path (some (payload p)) = some (from_payload protocol domain path p)

  -- loadAccessCacheRecord
  unfoldable pub load_access_cache_record : ℕ → Text → Text → Map MetaFile → Option Record
  unfolding decode
  load_access_cache_record protocol domain path files =
      decode protocol domain path (lookup (access_cache_meta_path e protocol domain path) files)
