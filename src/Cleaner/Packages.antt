-- ===== src/Cleaner/Packages.antt =====
-- The reader of Packages indexes of pkg/debrepocleaner/debrepocleaner.go: parsePackages and
-- parsePackagesFile.
use go_aptcacher.Base.{
  Bool, true, ◌&&◌, List, [], ◌∷◌, Option, none, some, if◌then◌else◌, ltb, length,
}
use go_aptcacher.Base.Text.{Text, codes, is_empty, cut_prefix, has_suffix, trim_space}
use go_aptcacher.Base.Map.{Map, insert}
use go_aptcacher.Sources.Scan.{
  split_by, is_newline, drop_last_empty, max_scan_token_size, scan_lines,
}
use go_aptcacher.Cleaner.Checksum.{
  ChecksumAlgorithm, ChecksumValue, Hashes, no_hashes, set_hash, select_preferred_checksum_value,
  checksum_algorithm_from_package_field,
}

-- What an io.Reader gives, and whether it then ends without an error.
pub record Stream : Type 0 where
  pub content : Text
  pub whole : Bool

-- The variables of parsePackages.
pub record IndexState : Type 0 where
  pub filename : Text
  pub hashes : Hashes
  pub packages : Map ChecksumValue

abbrev insert_checksum : Text → Option ChecksumValue → Map ChecksumValue → Map ChecksumValue
insert_checksum f none m = m
insert_checksum f (some v) m = insert f v m

-- The end of a paragraph.
unfoldable kept_packages : IndexState → Map ChecksumValue
unfolding select_preferred_checksum_value
kept_packages t =
    if is_empty t.filename
    then t.packages
    else insert_checksum t.filename (select_preferred_checksum_value t.hashes) t.packages

unfoldable hash_line : Option (ChecksumAlgorithm × Text) → Text → IndexState → IndexState
unfolding kept_packages
hash_line (some p) line t = record t { hashes = set_hash p.0 p.1 t.hashes }
hash_line none line t =
    if is_empty line
    then record { filename = []; hashes = no_hashes; packages = kept_packages t }
    else t

unfoldable index_line : Option Text → Text → IndexState → IndexState
unfolding hash_line checksum_algorithm_from_package_field
index_line (some after) line t = record t { filename = trim_space after }
index_line none line t = hash_line (checksum_algorithm_from_package_field line) line t

-- The loop of parsePackages.
unfoldable index_lines : List Text → IndexState → IndexState
unfolding index_line
index_lines [] t = t
index_lines (line ∷ lines) t =
    index_lines lines (index_line (cut_prefix (codes "Filename:") line) line t)

-- No line is too long for the buffer of the scanner.
unfoldable all_fit : List Text → Bool
all_fit [] = true
all_fit (l ∷ ls) = ltb (length l) max_scan_token_size && all_fit ls

-- `scanner.Err() == nil`
unfoldable scans : Stream → Bool
unfolding all_fit split_by drop_last_empty
scans r = all_fit (drop_last_empty (split_by is_newline r.content)) && r.whole

-- parsePackages
unfoldable pub parse_packages : Stream → Option (Map ChecksumValue)
unfolding index_lines scans scan_lines kept_packages
parse_packages r =
    if scans r
    then some (
        kept_packages (
          index_lines (scan_lines r.content)
            (record { filename = []; hashes = no_hashes; packages = [] })))
    else none

-- The decompressors: what they read of a file, if they start at all.
pub record Decompressors : Type 0 where
  pub gunzip : Text → Option Stream
  pub bunzip2 : Text → Stream
  pub unxz : Text → Option Stream

-- The reader of parsePackagesFile.
unfoldable open_index : Decompressors → Text → Text → Option Stream
open_index d path content =
    if has_suffix (codes ".gz") path
    then d.gunzip content
    else if has_suffix (codes ".bz2") path
    then some (d.bunzip2 content)
    else if has_suffix (codes ".xz") path
    then d.unxz content
    else some (record { content = content; whole = true })

abbrev parse_stream : Option Stream → Option (Map ChecksumValue)
parse_stream none = none
parse_stream (some r) = parse_packages r

unfoldable parse_opened : Decompressors → Text → Option Text → Option (Map ChecksumValue)
unfolding parse_packages open_index
parse_opened d path none = none
parse_opened d path (some content) = parse_stream (open_index d path content)

-- parsePackagesFile, with the content of the file, if it can be read.
unfoldable pub parse_packages_file :
    Decompressors → (Text → Option Text) → Text → Option (Map ChecksumValue)
unfolding parse_opened
parse_packages_file d read_file path = parse_opened d path (read_file path)
