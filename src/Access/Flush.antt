-- ===== src/Access/Flush.antt =====
-- flushAccessCache and snapshotAccessCache of pkg/fscache/access_cache.go. Between the locks of a
-- flush no other caller runs here.
pub mod Settled
pub mod Saves
pub mod Outcome
use go_aptcacher.Base.{Bool, true, false, List, [], ◌∷◌, Option, none, some, if◌then◌else◌}
use go_aptcacher.Base.Text.{Text}
use go_aptcacher.Base.Map.{Map, lookup, insert}
use go_aptcacher.Access.{Record, MetaFile, Env, AccessCache}
use go_aptcacher.Access.Disk.{Fault, WriteError, write_access_cache_record}

-- The keys that a flush starts from.
unfoldable pub dirty_keys : Map Record → List Text
dirty_keys [] = []
dirty_keys ((k, r) ∷ m) = let rest = dirty_keys m in if r.dirty then k ∷ rest else rest

-- `current.dirty = true` after a failed write, where the key has a record that is not dirty.
unfoldable pub mark_again : Text → Option Record → Map Record → Map Record
mark_again k none m = m
mark_again k (some r) m = if r.dirty then m else insert k (record r { dirty = true }) m

unfoldable pub after_write : Text → Map Record → Option WriteError × Map MetaFile → AccessCache
unfolding mark_again
after_write k m (none, files) = record { access_cache = m; files = files }
after_write k m (some error, files) = record {
  access_cache = mark_again k (lookup k m) m;
  files = files;
}

-- snapshotAccessCache
unfoldable pub snapshot_access_cache : Map Record → Map Record
snapshot_access_cache [] = []
snapshot_access_cache ((k, r) ∷ m) = (k, record r { dirty = false }) ∷ snapshot_access_cache m

module _ (e : Env) where
  unfoldable pub flush_found : Fault → Text → Option Record → AccessCache → AccessCache
  unfolding after_write
  flush_found fault k none c = c
  flush_found fault k (some r) c =
      if r.dirty
      then after_write k (insert k (record r { dirty = false }) c.access_cache)
          (write_access_cache_record e fault r c.files)
      else c

  -- The loop of flushAccessCache, where the faults of a write depend on the key.
  unfoldable pub flush_keys : (Text → Fault) → List Text → AccessCache → AccessCache
  unfolding flush_found
  flush_keys faults [] c = c
  flush_keys faults (k ∷ ks) c =
      flush_keys faults ks (flush_found (faults k) k (lookup k c.access_cache) c)

  -- flushAccessCache
  unfoldable pub flush_access_cache : (Text → Fault) → AccessCache → AccessCache
  unfolding dirty_keys flush_keys
  flush_access_cache faults c = flush_keys faults (dirty_keys c.access_cache) c
