-- ===== src/Refresh.antt =====
-- When a cached file is looked up at its origin again: isRepositoryMetadataPath and evaluateRefresh of
-- pkg/fscache/evaluate.go; and what is done with the answer: refreshFile and the functions it calls.
pub mod Download
pub mod Answer
pub mod Outcome
pub mod Recorded
pub mod Settles
pub mod Agreement
pub mod Due
mod Tests
use go_aptcacher.Base.{
  ℕ, ◌-◌, ◌*◌, Bool, true, false, List, [], ◌∷◌, if◌then◌else◌, ltb, ◌||◌, ◌&&◌,
}
use go_aptcacher.Base.Text.{Text, codes, text_eq, contains}
use go_aptcacher.FilePath.{base}
use go_aptcacher.LocalPath.{Url, Layout, build_local_path}
use go_aptcacher.Locks.{Time}

-- RefreshFiles
abbrev pub refresh_files : List Text
refresh_files =
    codes "InRelease"
    ∷ codes "Release"
    ∷ codes "Release.gpg"
    ∷ codes "Packages"
    ∷ codes "Packages.gz"
    ∷ codes "Packages.bz2"
    ∷ codes "Packages.xz"
    ∷ codes "Sources"
    ∷ codes "Sources.gz"
    ∷ codes "Index"
    ∷ []

-- slices.Contains
unfoldable pub contains_text : List Text → Text → Bool
contains_text [] s = false
contains_text (t ∷ ts) s = text_eq t s || contains_text ts s

-- isRepositoryMetadataPath
unfoldable pub is_repository_metadata_path : Text → Bool
unfolding contains_text
is_repository_metadata_path path =
    if contains (codes "/dists/") path then contains_text refresh_files (base path) else false

-- Times are in nanoseconds.
abbrev pub minute : Time
minute = 60 * 1000000000

abbrev pub hour : Time
hour = 60 * minute

-- The timeout of evaluateRefresh, of the path of the URL and the name of the local file.
unfoldable pub recheck_timeout : Text → Text → Time
unfolding contains_text
recheck_timeout path filename =
    if contains_text refresh_files filename
    then 5 * minute
    else if contains (codes "/by-hash/") path
    then 168 * hour
    else if contains (codes "/pool/") path
    then 168 * hour
    else 24 * hour

-- evaluateRefresh, at a time `now`; time.Since is negative, and the file not checked, if the last check
-- is after it.
unfoldable pub evaluate_refresh : Layout → Time → Url → Time → Bool
unfolding recheck_timeout
evaluate_refresh layout now local_file last_checked =
    ltb (recheck_timeout local_file.path (base (build_local_path layout local_file)))
      (now - last_checked)
