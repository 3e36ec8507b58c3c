-- ===== src/Cleaner/Repositories.antt =====
-- The repositories under the cache directory: cmd/goaptcacher/repoverify.go.
use go_aptcacher.Base.{
  ℕ, suc, ◌+◌, Bool, not, ◌||◌, List, [], ◌∷◌, ◌++◌, Option, none, some, if◌then◌else◌, length,
  ◌==◌,
}
use go_aptcacher.Base.Text.{Text, codes, is_empty, text_eq}
use go_aptcacher.Base.Map.{Map, insert}
use go_aptcacher.FilePath.{dot, dir, base}
use go_aptcacher.Stats.Day.{text_le}
use go_aptcacher.Locks.{Time}
use go_aptcacher.Cleaner.Checksum.{ChecksumAlgorithm}
use go_aptcacher.Cleaner.Release.{RepositoryCleanup, Outcome, returned, failed, panicked, new}
use go_aptcacher.Cleaner.Packages.{Decompressors}
use go_aptcacher.Cleaner.Verify.{Disk, verify_checksums}

-- cachedRepository
pub record CachedRepository : Type 0 where
  pub root_path : Text
  pub distrib : Text

-- cachedRepositoryFromInReleasePath
unfoldable pub cached_repository_from_in_release_path : Text → Option CachedRepository
unfolding dir base
cached_repository_from_in_release_path path =
    let distrib_path = dir path in
    let dists_path = dir distrib_path in
    let root_path = dir dists_path in
    let distrib = base distrib_path in
    if not (text_eq (base dists_path) (codes "dists"))
    then none
    else if text_eq root_path dot || is_empty root_path || text_eq distrib dot || is_empty distrib
    then none
    else some (record { root_path = root_path; distrib = distrib })

-- A file or directory that filepath.WalkDir meets: its path, its name, whether it is a directory.
pub record Entry : Type 0 where
  pub path : Text
  pub name : Text
  pub is_dir : Bool

abbrev pub add_repository : Option CachedRepository → Map CachedRepository → Map CachedRepository
add_repository none seen = seen
add_repository (some r) seen = insert (r.root_path ++ 0 ∷ r.distrib) r seen

-- The walk, where no entry has an error.
unfoldable pub walk : List Entry → Map CachedRepository → Map CachedRepository
unfolding cached_repository_from_in_release_path
walk [] seen = seen
walk (e ∷ es) seen = walk es (
    if e.is_dir || not (text_eq e.name (codes "InRelease"))
    then seen
    else add_repository (cached_repository_from_in_release_path e.path) seen)

-- `a <= b` by the root path, then by the distribution.
unfoldable pub repository_le : CachedRepository → CachedRepository → Bool
unfolding text_le
repository_le a b =
    if text_eq a.root_path b.root_path
    then text_le a.distrib b.distrib
    else text_le a.root_path b.root_path

unfoldable pub insert_repository : CachedRepository → List CachedRepository → List CachedRepository
unfolding repository_le
insert_repository r [] = r ∷ []
insert_repository r (q ∷ qs) =
    let rest = insert_repository r qs in if repository_le r q then r ∷ q ∷ qs else q ∷ rest

-- The values of the map, sorted by slices.SortFunc: they are distinct.
unfoldable pub sorted_repositories : Map CachedRepository → List CachedRepository
unfolding insert_repository
sorted_repositories [] = []
sorted_repositories ((k, r) ∷ seen) = insert_repository r (sorted_repositories seen)

-- discoverCachedRepositories, on what the walk meets, or its error.
unfoldable pub discover_cached_repositories : Option (List Entry) → Option (List CachedRepository)
unfolding sorted_repositories walk
discover_cached_repositories none = none
discover_cached_repositories (some es) = some (sorted_repositories (walk es []))

-- The counts of runVerifyRepositories.
pub record VerifyCounts : Type 0 where
  pub failed_repositories : ℕ
  pub mismatching_files : ℕ

module _ (disk : Disk) (d : Decompressors) (sum_hash : ChecksumAlgorithm → Text → Text)
    (parse_date : Text → Option Time) where
  unfoldable pub count_mismatches : Option (List Text) → VerifyCounts → VerifyCounts
  count_mismatches none t = record t { failed_repositories = suc t.failed_repositories }
  count_mismatches (some ms) t = record t { mismatching_files = t.mismatching_files + length ms }

  unfoldable pub verify_cleanup : Outcome RepositoryCleanup → VerifyCounts → Outcome VerifyCounts
  unfolding count_mismatches verify_checksums
  verify_cleanup panicked t = panicked
  verify_cleanup failed t = returned (record t { failed_repositories = suc t.failed_repositories })
  verify_cleanup (returned cl) t =
      returned (count_mismatches (verify_checksums disk d sum_hash cl) t)

  -- The loop over the repositories; a panic ends the program.
  unfoldable pub verify_repositories :
      List CachedRepository → Outcome VerifyCounts → Outcome VerifyCounts
  unfolding verify_cleanup new
  verify_repositories rs failed = failed
  verify_repositories rs panicked = panicked
  verify_repositories [] (returned t) = returned t
  verify_repositories (r ∷ rs) (returned t) =
      verify_repositories rs
        (verify_cleanup (new parse_date disk.read_file r.root_path r.distrib) t)

  -- An error, if a repository could not be verified.
  abbrev pub run_result : Outcome VerifyCounts → Outcome VerifyCounts
  run_result (returned t) = if t.failed_repositories == 0 then returned t else failed
  run_result failed = failed
  run_result panicked = panicked

  -- runVerifyRepositories; where it returns no error, the result is what it logs.
  unfoldable pub run_verify_repositories : Option (List Entry) → Outcome VerifyCounts
  unfolding verify_repositories discover_cached_repositories
  run_verify_repositories entries = elim (discover_cached_repositories entries) [
    | none ↦ failed
    | some rs ↦ run_result (
        verify_repositories rs
          (returned (record { failed_repositories = 0; mismatching_files = 0 })))
  ]
