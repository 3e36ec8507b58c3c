-- ===== src/Storage/Space.antt =====
-- ensureDiskSpace (pkg/fscache/storage.go) against exact arithmetic.
use go_aptcacher.Base.{
  ℕ, ◌*◌, ◌^◌, ◌<◌, ◌≡◌, refl, Bool, false, not, ◌&&◌, ◌||◌, Option, none, some, arith, leb,
  is_some, Bool-cases, inl, inr,
}
use go_aptcacher.Base.Int.{ℤ, pos_part, is_pos}
use go_aptcacher.Base.Text.{Text}
use go_aptcacher.Storage.{FileSystem, space_directory, free_bytes, compare_space, ensure_disk_space}

-- There is room by the answer of statfs, in numbers of any size.
abbrev pub has_room : Option (ℕ × ℤ) → ℕ → Bool
has_room none required = false
has_room (some (available, block_size)) required =
    is_pos block_size && leb required (available * pos_part block_size)

free_bytes_lem :
    (a b required : ℕ) → required < 2 ^ 63 → leb required (free_bytes a b) ≡ leb required (a * b)
unfolding free_bytes
free_bytes_lem a b required h = ground arith

compare_space_lem :
    (answer : Option (ℕ × ℤ)) (required : ℕ)
    → required < 2 ^ 63
    → is_some (compare_space answer required) ≡ not (has_room answer required)
unfolding compare_space
compare_space_lem none required h = refl
compare_space_lem (some (available, block_size)) required h =
    ground (arith, free_bytes_lem available (pos_part block_size) required h)

-- A size that is an int64 passes if it is not positive, or if the file system of the directory
-- reports at least that many free bytes, with no overflow of available blocks times block size.
pub ensure_disk_space_lem :
    (fs : FileSystem) (path : Text) (required : ℤ)
    → pos_part required < 2 ^ 63
    → is_some (ensure_disk_space fs path required)
      ≡ not (
          not (is_pos required)
          || has_room (fs.statfs (space_directory fs path)) (pos_part required))
unfolding ensure_disk_space
ensure_disk_space_lem fs path required h =
    let answer = fs.statfs (space_directory fs path) in
    elim (Bool-cases (is_pos required)) [
      | inl e ↦ rw e (compare_space_lem answer (pos_part required) h)
      | inr e ↦ rw e
    ]
