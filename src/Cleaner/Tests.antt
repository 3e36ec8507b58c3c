-- ===== src/Cleaner/Tests.antt =====
-- Runs of the verification of repositories (pkg/debrepocleaner/debrepocleaner.go).
use mathlib.Core.List.{Memᴰ}
use go_aptcacher.Base.{◌≡◌, refl, ◌↔◌, true, Option, [], ◌∷◌, ◌++◌, none, some, if◌then◌else◌}
use go_aptcacher.Base.Int.{pos}
use go_aptcacher.Base.Text.{
  Text, codes, text_eq, cut_prefix, has_prefix, has_suffix, trim_left, trim_right,
}
use go_aptcacher.Base.Map.{lookup, insert}
use go_aptcacher.Cleaner.Checksum.{
  checksum_algorithm_sha512, checksum_algorithm_sha256, ChecksumSum,
  select_preferred_repository_checksums,
}
use go_aptcacher.Cleaner.Release.{RepositoryCleanup, panicked, new}
use go_aptcacher.Cleaner.Packages.{Decompressors}
use go_aptcacher.Cleaner.Verify.{Disk, verify_checksums}
use go_aptcacher.Cleaner.Strongest.{strongest}
use go_aptcacher.Cleaner.Preferred.{Mem-select_preferred}
use go_aptcacher.FilePath.{render}
use go_aptcacher.FilePath.Normal.{IsElement}
use go_aptcacher.Locks.{Time}
use go_aptcacher.Cleaner.Release.{read_contents, fresh_cleanup}
use go_aptcacher.Cleaner.Repositories.{cached_repository_from_in_release_path}
use go_aptcacher.Cleaner.Found.{new-cached_repository}
use go_aptcacher.Cleaner.Reasons.{Reported}
use go_aptcacher.Cleaner.Reported.{verify_checksums-Reported}
use mathlib.Core.List.Memᴰ.{head}
use go_aptcacher.Cleaner.Verified.{IndexVerified, verify_checksums_clean}

abbrev line : Text → Text
line s = s ++ 10 ∷ []

abbrev index : Text
index = line (codes "Filename: pool/a.deb") ++ line (codes "SHA256: 00ff") ++ line []

-- The hash of a text is the text.
abbrev decompressors : Decompressors
decompressors = record {
  gunzip = λ s. none;
  bunzip2 = λ s. record { content = s; whole = true };
  unxz = λ s. none;
}

abbrev disk : Disk
disk = record {
  stat = λ p. some true;
  read_file = λ p. some (if has_suffix (codes "Packages") p then index else codes "00ff");
}

abbrev index_sum : ChecksumSum
index_sum = record {
  algorithm = checksum_algorithm_sha512;
  hash = index;
  file = codes "main/Packages";
  size = pos 7;
}

abbrev weaker_sum : ChecksumSum
weaker_sum = record index_sum { algorithm = checksum_algorithm_sha256; hash = codes "11" }

abbrev cleanup : RepositoryCleanup
cleanup = record {
  path = codes "/c/deb";
  distrib = codes "sid";
  components = [];
  architectures = [];
  date = none;
  valid_until = none;
  checksums = weaker_sum ∷ index_sum ∷ [];
}

verify_checksums_clean_example : IndexVerified disk decompressors (λ a s. s) cleanup index_sum
unfolding verify_checksums strongest has_suffix trim_left trim_right lookup insert text_eq
verify_checksums_clean_example =
    verify_checksums_clean disk decompressors (λ a s. s) cleanup index_sum refl refl

Mem-select_preferred_example :
    Memᴰ index_sum (select_preferred_repository_checksums (weaker_sum ∷ index_sum ∷ []))
    ↔ (strongest index_sum.file (weaker_sum ∷ index_sum ∷ []) ≡ some index_sum)
Mem-select_preferred_example = Mem-select_preferred (weaker_sum ∷ index_sum ∷ []) index_sum

-- A line of checksums that ends behind its size.
abbrev short_release : Text
short_release = line (codes "SHA256:") ++ line (codes " 00ff 7")

new_panics : new (λ s. none) (λ p. some short_release) (codes "/c") (codes "sid") ≡ panicked
unfolding new trim_left trim_right text_eq cut_prefix has_prefix
new_panics = refl

-- Each file reads "00ff", the index too.
abbrev damaged : Disk
damaged = record { stat = λ p. some true; read_file = λ p. some (codes "00ff") }

abbrev index_file : Text
index_file = codes "/c/deb/dists/sid/main/Packages"

verify_checksums-Reported_example : Reported damaged decompressors (λ a s. s) cleanup index_file
unfolding verify_checksums has_suffix lookup insert text_eq
verify_checksums-Reported_example =
    verify_checksums-Reported damaged decompressors (λ a s. s) cleanup (index_file ∷ []) index_file
      refl (head refl)

c-IsElement : IsElement (codes "c")
unfolding text_eq
c-IsElement = record { no_slash = (refl, tt); not_empty = refl; not_dot = refl; not_dot_dot = refl }

abbrev found_path : Text
found_path = codes "/c/dists/c/InRelease"

new-cached_repository_example :
    (cached_repository_from_in_release_path found_path
      ≡ some (record { root_path = codes "/c"; distrib = codes "c" }))
    × ((read_file : Text → Option Text) (parse_date : Text → Option Time)
        → new parse_date read_file (codes "/c") (codes "c")
          ≡ read_contents parse_date
              (read_file found_path)
              (fresh_cleanup (codes "/c") (codes "c")))
unfolding render
new-cached_repository_example =
    new-cached_repository (codes "c" ∷ []) (codes "c") (c-IsElement, tt) c-IsElement
