-- ===== src/Expire.antt =====
-- The expiry of pkg/fscache/expire.go, the records that it looks at
-- (pkg/fscache/access_cache.go: loadAccessCacheRecordFromFile, collectAccessCacheRecords), and DeleteFile
-- of pkg/fscache/localfile.go.
pub mod Stale
pub mod Complete
pub mod Delete
mod Tests
use go_aptcacher.Base.{
  ℕ, ◌+◌, Bool, true, false, not, ◌&&◌, ◌||◌, List, [], ◌∷◌, ◌++◌, Option, none, some,
  if◌then◌else◌, ltb, ◌==◌,
}
use go_aptcacher.Base.Text.{Text, codes, is_empty, cut_prefix, has_suffix}
use go_aptcacher.Base.Map.{Map, lookup, insert, delete}
use go_aptcacher.FilePath.{clean}
use go_aptcacher.Keys.{access_cache_key}
use go_aptcacher.LocalPath.{Url, build_local_path, determine_protocol, determine_protocol_from_url}
use go_aptcacher.Locks.{Time}
use go_aptcacher.Access.{
  AccessEntry, Record, AccessEntryJson, MetaFile, payload, garbage, Env, AccessCache, meta_suffix,
  build_access_url, normalize_access_entry,
}
use go_aptcacher.Access.Disk.{payload_url, url_or}
use go_aptcacher.Access.Flush.{snapshot_access_cache}
use go_aptcacher.Access.Methods.{delete_entry}

-- What names the entry of a record: protocol, domain and path.
pub record Place : Type 0 where
  pub protocol : ℕ
  pub domain : Text
  pub path : Text

abbrev pub non_empty_or : Text → Text → Text
non_empty_or [] t = t
non_empty_or (c ∷ s) t = c ∷ s

-- The place of a payload: what its URL says, where it says it.
unfoldable pub payload_place : Option Url → AccessEntryJson → Place
payload_place none p = record { protocol = p.protocol; domain = p.domain; path = p.path }
payload_place (some u) p = record {
  protocol = if is_empty u.scheme then p.protocol else determine_protocol u.scheme;
  domain = non_empty_or u.host p.domain;
  path = non_empty_or u.path p.path;
}

-- strings.SplitN(rel, "/", 2): the first part, and the other one if there is a slash.
unfoldable pub split_two : Text → Text × Option Text
split_two [] = ([], none)
split_two (c ∷ cs) =
    let rest = split_two cs in if c == b'/' then ([], some cs) else (c ∷ rest.0, rest.1)

-- strings.TrimSuffix(s, suffix), if the suffix is there.
unfoldable pub cut_suffix : Text → Text → Option Text
cut_suffix suffix [] = none
cut_suffix suffix (c ∷ cs) =
    let rest = cut_suffix suffix cs in
    elim rest [
      | some s ↦ some (c ∷ s)
      | none ↦ elim (cut_prefix suffix (c ∷ cs)) [
        | some [] ↦ some []
        | some (d ∷ ds) ↦ none
        | none ↦ none
      ]
    ]

-- What the path of a metadata file below the cache directory says of a place that lacks a part.
unfoldable pub place_of_parts : Text × Option Text → Place → Place
place_of_parts (first, rest) p = record p {
  domain = non_empty_or p.domain first;
  path = elim rest [ none ↦ p.path | some s ↦ non_empty_or p.path (b'/' ∷ s) ];
}

abbrev pub lacks_part : Place → Bool
lacks_part p = is_empty p.domain || is_empty p.path

module _ (e : Env) where
  -- filepath.Rel from the cache directory, for the paths below it that WalkDir gives, without the
  -- suffix of metadata files.
  unfoldable pub relative_meta_path : Text → Option Text
  unfolding cut_suffix
  relative_meta_path meta_path =
      elim (cut_prefix (clean e.layout.cache_path ++ codes "/") meta_path) [
        | none ↦ none
        | some rel ↦ cut_suffix meta_suffix rel
      ]

  unfoldable pub complete_place : Text → Place → Place
  unfolding place_of_parts relative_meta_path split_two
  complete_place meta_path p =
      if lacks_part p
      then (elim (relative_meta_path meta_path) [
        | none ↦ p
        | some rel ↦ place_of_parts (split_two rel) p
      ])
      else p

  unfoldable pub record_at : Place → Option Url → AccessEntryJson → Record
  unfolding url_or
  record_at place url p = record {
    entry = record {
      last_accessed = p.last_accessed;
      last_checked = p.last_checked;
      remote_last_modified = p.remote_last_modified;
      etag = p.etag;
      url = some (url_or e url (build_access_url place.protocol place.domain place.path));
      size = p.size;
      sha256 = p.sha256;
    };
    protocol = place.protocol;
    domain = place.domain;
    path = place.path;
    marked_for_deletion = p.marked_for_deletion;
    marked_at = p.marked_at;
    dirty = false;
  }

  -- loadAccessCacheRecordFromFile
  unfoldable pub load_access_cache_record_from_file : Text → MetaFile → Option Record
  unfolding payload_place complete_place record_at payload_url
  load_access_cache_record_from_file meta_path garbage = none
  load_access_cache_record_from_file meta_path (payload p) =
      let url = payload_url e p.url in
      let place = complete_place meta_path (payload_place url p) in
      if lacks_part place then none else some (record_at place url p)

  unfoldable pub keep_record : Option Record → Map Record → Map Record
  keep_record none m = m
  keep_record (some r) m = insert (access_cache_key r.protocol r.domain r.path) r m

  -- loadAccessCacheRecordsFromDisk, where the directory can be read; the files are those below it,
  -- the last one that is visited first.
  unfoldable pub load_access_cache_records_from_disk : Map MetaFile → Map Record
  unfolding load_access_cache_record_from_file keep_record
  load_access_cache_records_from_disk [] = []
  load_access_cache_records_from_disk ((path, file) ∷ files) =
      let rest = load_access_cache_records_from_disk files in
      if has_suffix meta_suffix path
      then keep_record (load_access_cache_record_from_file path file) rest
      else rest

  -- The records in memory take the place of those from the disk.
  unfoldable pub overlay : Map Record → Map Record → Map Record
  overlay [] disk = disk
  overlay ((k, r) ∷ memory) disk = insert k r (overlay memory disk)

  -- collectAccessCacheRecords
  unfoldable pub collect_access_cache_records : AccessCache → Map Record
  unfolding overlay load_access_cache_records_from_disk snapshot_access_cache
  collect_access_cache_records c =
      overlay (snapshot_access_cache c.access_cache) (load_access_cache_records_from_disk c.files)

  abbrev pub entry_url : Record → Option Url
  entry_url r = (normalize_access_entry r.protocol r.domain r.path r.entry).url

  abbrev pub add_url : Option Url → List Url → List Url
  add_url none urls = urls
  add_url (some u) urls = u ∷ urls

  -- The loop of GetUnusedFiles.
  unfoldable pub unused_records : Time → Map Record → List Url
  unused_records cutoff [] = []
  unused_records cutoff ((k, r) ∷ m) =
      let rest = unused_records cutoff m in
      if not (r.entry.last_accessed == 0) && ltb r.entry.last_accessed cutoff
      then add_url (entry_url r) rest
      else rest

  -- GetUnusedFiles; `cutoff` is what AddDate gives for the days before now.
  unfoldable pub get_unused_files : ℕ → Time → AccessCache → List Url
  unfolding collect_access_cache_records unused_records
  get_unused_files days cutoff c =
      if days == 0 then [] else unused_records cutoff (collect_access_cache_records c)

-- What os.Remove does.
pub data Removal : Type 0 where
  removed not_exist remove_failed : Removal

module _ (e : Env) where
  -- DeleteFile, whether it succeeds; `meta_removed` is whether Delete can remove the metadata file.
  unfoldable pub delete_file :
      Removal → Bool → Url → AccessCache × Map Text → Bool × (AccessCache × Map Text)
  delete_file removed meta_removed u (c, files) = (
    true,
    (
      delete_entry e meta_removed (determine_protocol_from_url u) u.host u.path c,
      delete (build_local_path e.layout u) files,
    ),
  )
  delete_file not_exist meta_removed u (c, files) =
      (true, (delete_entry e meta_removed (determine_protocol_from_url u) u.host u.path c, files))
  delete_file remove_failed meta_removed u (c, files) = (false, (c, files))
