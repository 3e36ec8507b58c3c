-- ===== src/Cleaner/Checksum.antt =====
-- The checksums of pkg/debrepocleaner/debrepocleaner.go, and the choice between those of one file.
use go_aptcacher.Base.{ℕ, Bool, true, List, [], ◌∷◌, Option, none, some, if◌then◌else◌, ltb}
use go_aptcacher.Base.Int.{ℤ}
use go_aptcacher.Base.Text.{Text, codes, is_empty, text_eq, cut_prefix, trim_space}
use go_aptcacher.Base.Map.{Map, lookup, insert}
use go_aptcacher.Sources.{trim_suffix}
use go_aptcacher.Stats.Day.{text_le}

-- The values of ChecksumAlgorithm other than "", which stands for no algorithm.
pub data ChecksumAlgorithm : Type 0 where
  checksum_algorithm_sha512 checksum_algorithm_sha256 : ChecksumAlgorithm

-- ChecksumSum
pub record ChecksumSum : Type 0 where
  pub algorithm : ChecksumAlgorithm
  pub hash : Text
  pub file : Text
  pub size : ℤ

-- ChecksumValue
pub record ChecksumValue : Type 0 where
  pub algorithm : ChecksumAlgorithm
  pub hash : Text

-- checksumAlgorithmPriority: the place in preferredChecksumAlgorithms.
abbrev pub checksum_algorithm_priority : ChecksumAlgorithm → ℕ
checksum_algorithm_priority checksum_algorithm_sha512 = 0
checksum_algorithm_priority checksum_algorithm_sha256 = 1

-- checksumAlgorithmFromBlockHeader
unfoldable pub checksum_algorithm_from_block_header : Text → Option ChecksumAlgorithm
unfolding trim_suffix
checksum_algorithm_from_block_header line =
    let key = trim_suffix (codes ":") (trim_space line) in
    if text_eq key (codes "SHA512")
    then some checksum_algorithm_sha512
    else if text_eq key (codes "SHA256")
    then some checksum_algorithm_sha256
    else none

unfoldable pub is_better : ChecksumSum → Option ChecksumSum → Bool
is_better sum none = true
is_better sum (some current) =
    ltb (checksum_algorithm_priority sum.algorithm) (checksum_algorithm_priority current.algorithm)

-- The first loop of selectPreferredRepositoryChecksums.
unfoldable pub select_by_file : List ChecksumSum → Map ChecksumSum → Map ChecksumSum
unfolding is_better
select_by_file [] m = m
select_by_file (sum ∷ sums) m =
    select_by_file sums (if is_better sum (lookup sum.file m) then insert sum.file sum m else m)

unfoldable pub values : Map ChecksumSum → List ChecksumSum
values [] = []
values ((k, v) ∷ m) = v ∷ values m

unfoldable pub insert_by_file : ChecksumSum → List ChecksumSum → List ChecksumSum
insert_by_file s [] = s ∷ []
insert_by_file s (t ∷ ts) =
    let rest = insert_by_file s ts in if text_le s.file t.file then s ∷ t ∷ ts else t ∷ rest

-- slices.SortFunc by the names: they are distinct, so every sorting method gives this list.
unfoldable pub sort_by_file : List ChecksumSum → List ChecksumSum
unfolding insert_by_file
sort_by_file [] = []
sort_by_file (s ∷ ss) = insert_by_file s (sort_by_file ss)

-- selectPreferredRepositoryChecksums
unfoldable pub select_preferred_repository_checksums : List ChecksumSum → List ChecksumSum
unfolding select_by_file sort_by_file values
select_preferred_repository_checksums sums = sort_by_file (values (select_by_file sums []))

-- The map from algorithms to the hashes of one paragraph.
pub record Hashes : Type 0 where
  pub sha512 : Option Text
  pub sha256 : Option Text

abbrev pub no_hashes : Hashes
no_hashes = record { sha512 = none; sha256 = none }

abbrev pub set_hash : ChecksumAlgorithm → Text → Hashes → Hashes
set_hash checksum_algorithm_sha512 h hs = record hs { sha512 = some h }
set_hash checksum_algorithm_sha256 h hs = record hs { sha256 = some h }

-- One step of the loop of selectPreferredChecksumValue.
abbrev value_or : ChecksumAlgorithm → Option Text → Option ChecksumValue → Option ChecksumValue
value_or a none rest = rest
value_or a (some h) rest = if is_empty h then rest else some (record { algorithm = a; hash = h })

-- selectPreferredChecksumValue
unfoldable pub select_preferred_checksum_value : Hashes → Option ChecksumValue
select_preferred_checksum_value hs =
    value_or checksum_algorithm_sha512 hs.sha512 (value_or checksum_algorithm_sha256 hs.sha256 none)

abbrev field_or :
    ChecksumAlgorithm
    → Option Text
    → Option (ChecksumAlgorithm × Text)
    → Option (ChecksumAlgorithm × Text)
field_or a none rest = rest
field_or a (some after) rest = some (a, trim_space after)

-- checksumAlgorithmFromPackageField
unfoldable pub checksum_algorithm_from_package_field : Text → Option (ChecksumAlgorithm × Text)
unfolding cut_prefix
checksum_algorithm_from_package_field line =
    field_or checksum_algorithm_sha512 (cut_prefix (codes "SHA512:") line)
      (field_or checksum_algorithm_sha256 (cut_prefix (codes "SHA256:") line) none)
