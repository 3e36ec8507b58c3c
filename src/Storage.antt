-- ===== src/Storage.antt =====
-- Disk space and page cache: pkg/fscache/storage.go and pkg/fscache/cache_drop_writer.go.
pub mod Space
pub mod Drop
mod Tests
use go_aptcacher.Base.{
  ℕ, ◌+◌, ◌-◌, ◌*◌, ◌/◌, ◌%◌, ◌^◌, Bool, true, false, not, List, [], ◌∷◌, ◌++◌, Option, none, some,
  ltb, leb, ◌==◌, if◌then◌else◌, uint64_mod,
}
use go_aptcacher.Base.Int.{ℤ, pos_part, is_pos}
use go_aptcacher.Base.Text.{Text}
use go_aptcacher.FilePath.{dir}

-- What os.Stat (is it a directory?) and unix.Statfs (Bavail and Bsize) answer for each path.
pub record FileSystem : Type 0 where
  pub stat_is_dir : Text → Option Bool
  pub statfs : Text → Option (ℕ × ℤ)

pub data SpaceError : Type 0 where
  statfs_failed invalid_block_size insufficient_space : SpaceError

-- The directory that statfs is asked about.
unfoldable pub space_directory : FileSystem → Text → Text
space_directory fs path = elim (fs.stat_is_dir path) [
  | some is_dir ↦ if is_dir then path else dir path
  | none ↦ dir path
]

-- The product of bits.Mul64, held at the largest uint64 if its high word is not 0.
unfoldable pub free_bytes : ℕ → ℕ → ℕ
free_bytes available block_size =
    if not (available * block_size / uint64_mod == 0)
    then uint64_mod - 1
    else available * block_size % uint64_mod

unfoldable pub compare_space : Option (ℕ × ℤ) → ℕ → Option SpaceError
unfolding free_bytes
compare_space none required = some statfs_failed
compare_space (some (available, block_size)) required =
    if not (is_pos block_size)
    then some invalid_block_size
    else if ltb (free_bytes available (pos_part block_size)) required
    then some insufficient_space
    else none

-- ensureDiskSpace; the decimal text of a positive int64 always parses as a uint64.
unfoldable pub ensure_disk_space : FileSystem → Text → ℤ → Option SpaceError
unfolding space_directory compare_space
ensure_disk_space fs path required =
    if not (is_pos required)
    then none
    else compare_space (fs.statfs (space_directory fs path)) (pos_part required)

-- cacheDropWriter; `dropped` has the calls of `dropRange` so far, as offset and length.
pub record CacheDropWriter : Type 0 where
  pub offset : ℕ
  pub pending : ℕ
  pub chunk : ℕ
  pub threshold : ℕ
  pub enabled : Bool
  pub dropped : List (ℕ × ℕ)

-- newCacheDropWriterWithDropRange
abbrev pub new_cache_drop_writer : ℕ → ℕ → CacheDropWriter
new_cache_drop_writer threshold chunk = record {
  offset = 0;
  pending = 0;
  chunk = chunk;
  threshold = threshold;
  enabled = false;
  dropped = [];
}

-- dropRange over what is pending, whose errors are ignored.
unfoldable pub drop_pending : CacheDropWriter → CacheDropWriter
drop_pending w = record w {
  dropped = w.dropped ++ (w.offset - w.pending, w.pending) ∷ [];
  pending = 0;
}

-- The end of Write, for `n` bytes once the writer is enabled.
unfoldable pub count_pending : ℕ → CacheDropWriter → CacheDropWriter
unfolding drop_pending
count_pending n w =
    let w = record w { pending = w.pending + n } in
    if leb w.chunk w.pending then drop_pending w else w

-- Write, where the file took `n` bytes.
unfoldable pub write : ℤ → CacheDropWriter → CacheDropWriter
unfolding count_pending
write n w =
    if not (is_pos n)
    then w
    else let w' = record w { offset = w.offset + pos_part n } in
      if w.enabled
      then count_pending (pos_part n) w'
      else if ltb w'.offset w.threshold
      then w'
      else count_pending (pos_part n) (record w' { enabled = true; pending = 0 })

-- DropCache
unfoldable pub drop_cache : CacheDropWriter → CacheDropWriter
unfolding drop_pending
drop_cache w =
    if not w.enabled
    then w
    else let w = if ltb 0 w.pending then drop_pending w else w in
      record w { dropped = w.dropped ++ (0, 0) ∷ [] }
