-- ===== src/Access/Methods.antt =====
-- The methods on the records of pkg/fscache/access_cache.go, one caller at a time.
pub mod Calls
pub mod Lookups
pub mod Keyed
pub mod Others
use go_aptcacher.Base.{
  ℕ, Bool, true, false, not, ◌||◌, List, [], ◌∷◌, Option, none, some, if◌then◌else◌,
}
use go_aptcacher.Base.Int.{ℤ}
use go_aptcacher.Base.Text.{Text, text_eq}
use go_aptcacher.Base.Map.{Map, lookup, insert, delete}
use go_aptcacher.Keys.{access_cache_key}
use go_aptcacher.LocalPath.{Url}
use go_aptcacher.Locks.{Time, zero_time}
use go_aptcacher.Access.{
  AccessEntry, no_entry, Record, MetaFile, Env, AccessCache, build_access_url,
  normalize_access_entry, access_cache_meta_path,
}
use go_aptcacher.Access.Disk.{load_access_cache_record}

-- fs.accessCache[key] = record
unfoldable pub put : Text → Record → AccessCache → AccessCache
put key r c = record c { access_cache = insert key r c.access_cache }

-- A record that was found in memory, else one that was loaded from its file and is kept. (The second
-- look at the map, under the lock, finds what the first did: no other caller runs between them.)
unfoldable pub keep_loaded :
    Text → Option Record → Option Record → AccessCache → Option Record × AccessCache
unfolding put
keep_loaded key (some r) loaded c = (some r, c)
keep_loaded key none none c = (none, c)
keep_loaded key none (some r) c = (some r, put key r c)

-- The new record of setAccessCacheRecord, where the map has none.
unfoldable pub record_or : ℕ → Text → Text → Option Record → Record
record_or protocol domain path (some r) = r
record_or protocol domain path none = record {
  entry = no_entry;
  protocol = protocol;
  domain = domain;
  path = path;
  marked_for_deletion = false;
  marked_at = zero_time;
  dirty = false;
}

unfoldable pub set_dirty : Bool × Record → Record
set_dirty (changed, r) = if changed then record r { dirty = true } else r

-- setAccessCacheRecord, its `update` a function to whether it changed the record, and the record.
-- It looks for the record in memory only.
unfoldable pub set_access_cache_record :
    ℕ → Text → Text → (Record → Bool × Record) → AccessCache → AccessCache
unfolding record_or set_dirty put
set_access_cache_record protocol domain path update c =
    let key = access_cache_key protocol domain path in
    put key (set_dirty (update (record_or protocol domain path (lookup key c.access_cache)))) c

-- The assignments of Set, SetSHA256, UpdateFile, AddURLIfNotExists, Hit, UpdateLastChecked and
-- MarkForDeletion to the fields of a record.
unfoldable pub set_entry : AccessEntry → Record → Bool × Record
set_entry entry r =
    (true, record r { entry = entry; marked_for_deletion = false; marked_at = zero_time })

unfoldable pub set_sha256_field : Url → Text → Record → Bool × Record
set_sha256_field url sha256 r = elim r.entry.url [
  | none ↦ (true, record r { entry = record r.entry { sha256 = sha256; url = some url } })
  | some u ↦
      (not (text_eq r.entry.sha256 sha256), record r { entry = record r.entry { sha256 = sha256 } })
]

unfoldable pub update_file_fields : Url → Time → Text → ℤ → Time → Record → Bool × Record
update_file_fields url last_modified etag size now r = (
  true,
  record r {
    entry = record r.entry {
      url = some url;
      remote_last_modified = last_modified;
      last_checked = now;
      etag = etag;
      size = size;
    };
    marked_for_deletion = false;
    marked_at = zero_time;
  },
)

unfoldable pub hit_field : Time → Record → Record
hit_field now r = record r { entry = record r.entry { last_accessed = now }; dirty = true }

unfoldable pub last_checked_field : Time → Record → Record
last_checked_field now r = record r { entry = record r.entry { last_checked = now }; dirty = true }

unfoldable pub mark_fields : Time → Record → Record
mark_fields now r = record r { marked_for_deletion = true; marked_at = now; dirty = true }

-- A change of the record that getAccessCacheRecord returned, if it did.
unfoldable pub change : Text → (Record → Record) → Option Record × AccessCache → AccessCache
unfolding put
change key f (none, c) = c
change key f (some r, c) = put key (f r) c

unfoldable pub entry_of :
    (Record → AccessEntry) → Option Record × AccessCache → (AccessEntry × Bool) × AccessCache
entry_of f (none, c) = ((no_entry, false), c)
entry_of f (some r, c) = ((f r, true), c)

unfoldable pub sha256_of : Option Record × AccessCache → (Text × Bool) × AccessCache
sha256_of (none, c) = (([], false), c)
sha256_of (some r, c) = ((r.entry.sha256, true), c)

unfoldable pub parsed_or : Option Url → Url → Url
parsed_or none u = u
parsed_or (some v) u = v

module _ (e : Env) where
  -- getAccessCacheRecord
  unfoldable pub get_access_cache_record :
      ℕ → Text → Text → AccessCache → Option Record × AccessCache
  unfolding keep_loaded
  get_access_cache_record protocol domain path c =
      let key = access_cache_key protocol domain path in
      keep_loaded key (lookup key c.access_cache)
        (load_access_cache_record e protocol domain path c.files) c

  -- Get
  unfoldable pub get : ℕ → Text → Text → AccessCache → (AccessEntry × Bool) × AccessCache
  unfolding entry_of
  get protocol domain path c =
      entry_of (λ r. normalize_access_entry protocol domain path r.entry)
        (get_access_cache_record protocol domain path c)

  -- GetSHA256
  unfoldable pub get_sha256 : ℕ → Text → Text → AccessCache → (Text × Bool) × AccessCache
  unfolding sha256_of
  get_sha256 protocol domain path c = sha256_of (get_access_cache_record protocol domain path c)

  -- SetSHA256
  unfoldable pub set_sha256 : ℕ → Text → Text → Text → AccessCache → AccessCache
  unfolding set_sha256_field
  set_sha256 protocol domain path sha256 =
      set_access_cache_record protocol domain path
        (set_sha256_field (build_access_url protocol domain path) sha256)

  -- Set
  unfoldable pub set : ℕ → Text → Text → AccessEntry → AccessCache → AccessCache
  unfolding set_entry
  set protocol domain path entry =
      set_access_cache_record protocol domain path
        (set_entry (normalize_access_entry protocol domain path entry))

  -- Delete, where os.Remove does its work or does not.
  unfoldable pub delete_entry : Bool → ℕ → Text → Text → AccessCache → AccessCache
  delete_entry removed protocol domain path c = record {
    access_cache = delete (access_cache_key protocol domain path) c.access_cache;
    files =
        if removed then delete (access_cache_meta_path e protocol domain path) c.files else c.files;
  }

  -- Hit
  unfoldable pub hit : Time → ℕ → Text → Text → AccessCache → AccessCache
  unfolding change hit_field
  hit now protocol domain path c =
      change (access_cache_key protocol domain path) (hit_field now)
        (get_access_cache_record protocol domain path c)

  -- UpdateLastChecked
  unfoldable pub update_last_checked : Time → ℕ → Text → Text → AccessCache → AccessCache
  unfolding change last_checked_field
  update_last_checked now protocol domain path c =
      change (access_cache_key protocol domain path) (last_checked_field now)
        (get_access_cache_record protocol domain path c)

  -- MarkForDeletion
  unfoldable pub mark_for_deletion : Time → ℕ → Text → Text → AccessCache → AccessCache
  unfolding change mark_fields
  mark_for_deletion now protocol domain path c =
      change (access_cache_key protocol domain path) (mark_fields now)
        (get_access_cache_record protocol domain path c)

  -- UpdateFile
  unfoldable pub update_file :
      Time → ℕ → Text → Text → Text → Time → Text → ℤ → AccessCache → AccessCache
  unfolding update_file_fields parsed_or
  update_file now protocol domain path url_text last_modified etag size =
      set_access_cache_record protocol domain path (
        update_file_fields
          (parsed_or (e.urls.parse url_text) (build_access_url protocol domain path)) last_modified
          etag size now)

  unfoldable pub url_field : Url → Record → Bool × Record
  url_field url r =
      let changed : Bool × Record =
        (true, record r { entry = record r.entry { url = some url } }) in
      elim r.entry.url [
        | none ↦ changed
        | some u ↦ if text_eq (e.urls.string u) (e.urls.string url) then (false, r) else changed
      ]

  -- AddURLIfNotExists
  unfoldable pub add_url_if_not_exists : ℕ → Text → Text → Text → AccessCache → AccessCache
  unfolding url_field parsed_or
  add_url_if_not_exists protocol domain path url_text =
      set_access_cache_record protocol domain path
        (url_field (parsed_or (e.urls.parse url_text) (build_access_url protocol domain path)))
