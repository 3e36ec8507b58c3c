-- ===== src/Storage/Tests.antt =====
-- Runs of pkg/fscache/storage.go and pkg/fscache/cache_drop_writer.go.
use go_aptcacher.Base.{◌≡◌, refl, true, not, ◌||◌, List, [], ◌∷◌, ◌^◌, none, some, arith, is_some}
use go_aptcacher.Base.Int.{ℤ, pos, negsuc, pos_part, is_pos}
use go_aptcacher.Base.Text.{codes}
use go_aptcacher.Storage.Space.{has_room, ensure_disk_space_lem}
use go_aptcacher.Storage.Drop.{IsSound, write_all, write_all-IsSound}
use go_aptcacher.Storage.{
  FileSystem, CacheDropWriter, new_cache_drop_writer, space_directory, ensure_disk_space,
  insufficient_space, write,
}

-- Every path is a directory of a full terabyte and more.
abbrev disk : FileSystem
disk = record { stat_is_dir = λ p. some true; statfs = λ p. some (2 ^ 62, pos 4096) }

abbrev full : FileSystem
full = record { stat_is_dir = λ p. some true; statfs = λ p. some (1, pos 4096) }

space_examples :
    (ensure_disk_space disk (codes "/c") (pos 5000) ≡ none)
    × (ensure_disk_space full (codes "/c") (pos 5000) ≡ some insufficient_space)
    × (ensure_disk_space full (codes "/c") (negsuc 0) ≡ none)
unfolding ensure_disk_space
space_examples = (refl, refl, refl)

ensure_disk_space_lem_example :
    is_some (ensure_disk_space disk (codes "/c") (pos 5000))
    ≡ not (
        not (is_pos (pos 5000))
        || has_room (disk.statfs (space_directory disk (codes "/c"))) (pos_part (pos 5000)))
ensure_disk_space_lem_example = ensure_disk_space_lem disk (codes "/c") (pos 5000) (omega arith)

abbrev sizes : List ℤ
sizes = pos 6 ∷ pos 6 ∷ negsuc 0 ∷ pos 3 ∷ pos 4 ∷ []

abbrev writer : CacheDropWriter
writer = write_all sizes (new_cache_drop_writer 10 5)

writer_ranges : (writer.dropped ≡ (6, 6) ∷ (12, 7) ∷ []) × (writer.pending ≡ 0)
unfolding write_all write
writer_ranges = (refl, refl)

write_all-IsSound_example : IsSound (write_all sizes (new_cache_drop_writer 10 5))
write_all-IsSound_example = write_all-IsSound 10 5 sizes (omega arith) (omega arith)
