-- ===== src/Cleaner/Verify.antt =====
-- VerifyChecksums of pkg/debrepocleaner/debrepocleaner.go.
use go_aptcacher.Base.{
  Bool, true, false, not, ◌&&◌, ◌||◌, List, [], ◌∷◌, Option, none, some, if◌then◌else◌, leb, ◌==◌,
}
use go_aptcacher.Base.Text.{Text, codes, text_eq, has_suffix}
use go_aptcacher.Base.Map.{Map, lookup, insert}
use go_aptcacher.FilePath.{join_paths}
use go_aptcacher.Stats.Day.{sort}
use go_aptcacher.Cleaner.Checksum.{
  ChecksumAlgorithm, ChecksumSum, ChecksumValue, checksum_algorithm_priority,
  select_preferred_repository_checksums,
}
use go_aptcacher.Cleaner.Release.{RepositoryCleanup}
use go_aptcacher.Cleaner.Packages.{Decompressors, parse_packages_file}

-- The files on the disk, which do not change while they are verified: whether one is there, if os.Stat
-- can tell, and its content, if it can be read.
pub record Disk : Type 0 where
  pub stat : Text → Option Bool
  pub read_file : Text → Option Text

-- isPackagesIndexFile
unfoldable pub is_packages_index_file : Text → Bool
is_packages_index_file path =
    has_suffix (codes "Packages") path
    || has_suffix (codes "Packages.gz") path
    || has_suffix (codes "Packages.xz") path
    || has_suffix (codes "Packages.bz2") path

-- mismatches[path] = struct{}{}, on the paths that are there.
unfoldable pub add_path : Text → List Text → List Text
add_path path [] = path ∷ []
add_path path (q ∷ qs) = let rest = add_path path qs in if text_eq q path then q ∷ qs else q ∷ rest

-- The set of mismatches and the checksums of packages, the variables of VerifyChecksums.
pub record VerifyState : Type 0 where
  pub mismatches : List Text
  pub packages : Map ChecksumValue

unfoldable pub mismatch : Text → VerifyState → VerifyState
unfolding add_path
mismatch path s = record s { mismatches = add_path path s.mismatches }

module _ (cl : RepositoryCleanup) where
  abbrev pub package_path : Text → Text
  package_path file = join_paths (cl.path ∷ file ∷ [])

  abbrev pub index_path : Text → Text
  index_path file = join_paths (cl.path ∷ codes "dists" ∷ cl.distrib ∷ file ∷ [])

  -- A package for which there may be a checksum from an earlier index.
  unfoldable pub add_known : Text → ChecksumValue → Option ChecksumValue → VerifyState → VerifyState
  unfolding join_paths mismatch
  add_known file v none s = record s { packages = insert file v s.packages }
  add_known file v (some current) s =
      if (checksum_algorithm_priority current.algorithm == checksum_algorithm_priority v.algorithm)
        && not (text_eq current.hash v.hash)
      then mismatch (package_path file) s
      else if leb (checksum_algorithm_priority current.algorithm)
          (checksum_algorithm_priority v.algorithm)
      then s
      else record s { packages = insert file v s.packages }

  -- The body of the loop over the packages of an index.
  unfoldable pub add_package : Text → ChecksumValue → VerifyState → VerifyState
  unfolding add_known
  add_package file v s =
      if has_suffix (codes ".deb") file then add_known file v (lookup file s.packages) s else s

  unfoldable pub add_packages : Map ChecksumValue → VerifyState → VerifyState
  unfolding add_package
  add_packages [] s = s
  add_packages ((file, v) ∷ ps) s = add_packages ps (add_package file v s)

  abbrev pub add_parsed : Option (Map ChecksumValue) → VerifyState → Option VerifyState
  add_parsed none s = none
  add_parsed (some ps) s = some (add_packages ps s)

-- Hashes are hexadecimal digits; the hash functions are crypto/sha256 and crypto/sha512.
module _ (disk : Disk) (d : Decompressors) (sum_hash : ChecksumAlgorithm → Text → Text) where
  -- generateChecksumHash
  unfoldable pub generate_checksum_hash : Text → ChecksumAlgorithm → Option Text
  generate_checksum_hash path a = elim (disk.read_file path) [
    | none ↦ none
    | some content ↦ some (sum_hash a content)
  ]

  -- fileExists
  abbrev pub file_exists : Text → Option Bool
  file_exists path = disk.stat path

  module _ (cl : RepositoryCleanup) where
    unfoldable pub compare_index : ChecksumSum → Option Text → VerifyState → Option VerifyState
    unfolding add_packages mismatch is_packages_index_file parse_packages_file join_paths
    compare_index sum none s = none
    compare_index sum (some hash) s =
        if not (text_eq hash sum.hash)
        then some (mismatch (index_path cl sum.file) s)
        else if not (is_packages_index_file sum.file)
        then some s
        else add_parsed cl (parse_packages_file d disk.read_file (index_path cl sum.file)) s

    unfoldable pub check_found_index : ChecksumSum → Option Bool → VerifyState → Option VerifyState
    unfolding compare_index generate_checksum_hash join_paths
    check_found_index sum none s = none
    check_found_index sum (some false) s = some s
    check_found_index sum (some true) s =
        compare_index sum (generate_checksum_hash (index_path cl sum.file) sum.algorithm) s

    -- The body of the loop over the selected checksums.
    unfoldable pub check_index : ChecksumSum → VerifyState → Option VerifyState
    unfolding check_found_index join_paths
    check_index sum s = check_found_index sum (file_exists (index_path cl sum.file)) s

    unfoldable pub check_indexes : List ChecksumSum → Option VerifyState → Option VerifyState
    unfolding check_index
    check_indexes sums none = none
    check_indexes [] (some s) = some s
    check_indexes (sum ∷ sums) (some s) = check_indexes sums (check_index sum s)

    unfoldable pub compare_package :
        Text → ChecksumValue → Option Text → List Text → Option (List Text)
    unfolding add_path
    compare_package path v none m = none
    compare_package path v (some hash) m = some (if text_eq hash v.hash then m else add_path path m)

    unfoldable pub check_found_package :
        Text → ChecksumValue → Option Bool → List Text → Option (List Text)
    unfolding compare_package generate_checksum_hash
    check_found_package path v none m = none
    check_found_package path v (some false) m = some m
    check_found_package path v (some true) m =
        compare_package path v (generate_checksum_hash path v.algorithm) m

    -- The loop over the checksums of the packages.
    unfoldable pub check_packages : Map ChecksumValue → Option (List Text) → Option (List Text)
    unfolding check_found_package join_paths
    check_packages ps none = none
    check_packages [] (some m) = some m
    check_packages ((file, v) ∷ ps) (some m) =
        check_packages ps
          (check_found_package (package_path cl file) v (file_exists (package_path cl file)) m)

    abbrev pub sorted_keys : Option (List Text) → Option (List Text)
    sorted_keys none = none
    sorted_keys (some m) = some (sort m)

    abbrev pub check_known : Option VerifyState → Option (List Text)
    check_known none = none
    check_known (some s) = check_packages s.packages (some s.mismatches)

    -- VerifyChecksums
    unfoldable pub verify_checksums : Option (List Text)
    unfolding check_indexes check_packages select_preferred_repository_checksums sort
    verify_checksums = sorted_keys (
        check_known (
          check_indexes (select_preferred_repository_checksums cl.checksums)
            (some (record { mismatches = []; packages = [] }))))
