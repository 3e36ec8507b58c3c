-- ===== src/Sources/Parse.antt =====
-- The parsers of pkg/fscache/sourceverify.go: parseReleaseSHA256 and parsePackages.
use go_aptcacher.Base.{
  Bool, false, not, ◌&&◌, ◌||◌, List, [], ◌∷◌, ◌++◌, Option, none, some, if◌then◌else◌,
}
use go_aptcacher.Base.Text.{Text, codes, is_empty, has_prefix, cut_prefix, trim_space}
use go_aptcacher.Base.Map.{Map, insert}
use go_aptcacher.Sources.Scan.{scan_lines, fields}

-- shaFile
pub record ShaFile : Type 0 where
  pub file : Text
  pub hash : Text

-- The fields of a line of checksums: the hash, the size, the file.
unfoldable pub sha_files_of : List Text → List ShaFile
sha_files_of [] = []
sha_files_of (h ∷ []) = []
sha_files_of (h ∷ n ∷ []) = []
sha_files_of (h ∷ n ∷ f ∷ fs) = record { file = f; hash = h } ∷ []

-- The loop of parseReleaseSHA256, with whether it is in the list of checksums.
unfoldable pub release_lines : Bool → List Text → List ShaFile
unfolding sha_files_of
release_lines inside [] = []
release_lines inside (line ∷ lines) =
    let starts = has_prefix (codes "SHA256:") line in
    let goes_on = inside && not (is_empty line) && has_prefix (codes " ") line in
    let rest = release_lines (starts || goes_on) lines in
    if starts
    then rest
    else if goes_on
    then sha_files_of (fields (trim_space line)) ++ rest
    else rest

-- parseReleaseSHA256
unfoldable pub parse_release_sha256 : Text → List ShaFile
unfolding release_lines
parse_release_sha256 s = release_lines false (scan_lines s)

-- The variables of parsePackages.
pub record PackagesState : Type 0 where
  pub filename : Text
  pub sha : Text
  pub sums : Map Text

-- The end of a paragraph.
unfoldable pub keep_package : PackagesState → Map Text
keep_package t =
    if not (is_empty t.filename) && not (is_empty t.sha)
    then insert t.filename t.sha t.sums
    else t.sums

unfoldable pub sha_line : Option Text → Text → PackagesState → PackagesState
unfolding keep_package
sha_line (some after) line t = record t { sha = trim_space after }
sha_line none line t =
    if is_empty line then record { filename = []; sha = []; sums = keep_package t } else t

unfoldable pub filename_line : Option Text → Text → PackagesState → PackagesState
unfolding sha_line
filename_line (some after) line t = record t { filename = trim_space after }
filename_line none line t = sha_line (cut_prefix (codes "SHA256:") line) line t

-- The loop of parsePackages.
unfoldable pub packages_lines : List Text → PackagesState → PackagesState
unfolding filename_line
packages_lines [] t = t
packages_lines (line ∷ lines) t =
    packages_lines lines (filename_line (cut_prefix (codes "Filename:") line) line t)

-- parsePackages
unfoldable pub parse_packages : Text → Map Text
unfolding packages_lines keep_package
parse_packages s =
    keep_package (packages_lines (scan_lines s) (record { filename = []; sha = []; sums = [] }))
