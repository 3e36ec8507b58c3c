-- ===== src/Access/Methods/Calls.antt =====
-- The calls of the methods of pkg/fscache/access_cache.go, as values, and what they have in common.
use go_aptcacher.Base.{ℕ, ◌≡◌, Bool, some}
use go_aptcacher.Base.Int.{ℤ}
use go_aptcacher.Base.Text.{Text}
use go_aptcacher.Base.Map.{lookup}
use go_aptcacher.Keys.{access_cache_key}
use go_aptcacher.Locks.{Time}
use go_aptcacher.Access.{AccessEntry, Record, Env, AccessCache}
use go_aptcacher.Access.Methods.{
  get, get_sha256, set_sha256, set, delete_entry, hit, update_last_checked, mark_for_deletion,
  update_file, add_url_if_not_exists,
}

pub data Call : Type 0 where
  call_get call_get_sha256 : Call
  call_set : AccessEntry → Call
  call_set_sha256 : Text → Call
  call_delete : Bool → Call
  call_hit call_update_last_checked call_mark_for_deletion : Time → Call
  call_update_file : Time → Text → Time → Text → ℤ → Call
  call_add_url_if_not_exists : Text → Call

module _ (e : Env) (protocol : ℕ) (domain path : Text) where
  -- The state after a call for the entry.
  unfoldable pub run_call : Call → AccessCache → AccessCache
  run_call call_get c = (get e protocol domain path c).1
  run_call call_get_sha256 c = (get_sha256 e protocol domain path c).1
  run_call (call_set entry) c = set e protocol domain path entry c
  run_call (call_set_sha256 sha256) c = set_sha256 e protocol domain path sha256 c
  run_call (call_delete removed) c = delete_entry e removed protocol domain path c
  run_call (call_hit now) c = hit e now protocol domain path c
  run_call (call_update_last_checked now) c = update_last_checked e now protocol domain path c
  run_call (call_mark_for_deletion now) c = mark_for_deletion e now protocol domain path c
  run_call (call_update_file now url last_modified etag size) c =
      update_file e now protocol domain path url last_modified etag size c
  run_call (call_add_url_if_not_exists url) c = add_url_if_not_exists e protocol domain path url c

-- The key of the fields of a record.
abbrev pub record_key : Record → Text
record_key r = access_cache_key r.protocol r.domain r.path

-- Every record stands at the key of its fields.
abbrev pub IsKeyed : AccessCache → Type 0
IsKeyed c = (k : Text) (r : Record) → lookup k c.access_cache ≡ some r → record_key r ≡ k
