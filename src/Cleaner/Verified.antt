-- ===== src/Cleaner/Verified.antt =====
-- What it means that VerifyChecksums (pkg/debrepocleaner/debrepocleaner.go) reports no file.
use mathlib.Core.Option.{some-injective}
use mathlib.Core.List.{Memᴰ}
use mathlib.Core.List.Memᴰ.{head, tail}
use go_aptcacher.Base.{
  ◌≡◌, ◌≢◌, refl, ◌⊎◌, inl, inr, true, false, List, [], ◌∷◌, some, arith, Option-cases, All,
}
use go_aptcacher.Base.Text.{Text, codes, has_suffix}
use go_aptcacher.Base.Map.{Map, lookup}
use go_aptcacher.Stats.Day.{insert_sorted, sort}
use go_aptcacher.Cleaner.Checksum.{
  ChecksumAlgorithm, ChecksumSum, ChecksumValue, select_preferred_repository_checksums,
}
use go_aptcacher.Cleaner.Release.{RepositoryCleanup}
use go_aptcacher.Cleaner.Packages.{Decompressors, parse_packages_file}
use go_aptcacher.Cleaner.Verify.{
  Disk, is_packages_index_file, VerifyState, generate_checksum_hash, package_path, index_path,
  check_indexes, check_packages, verify_checksums,
}
use go_aptcacher.Cleaner.Covered.{Covers, AllCovered}
use go_aptcacher.Cleaner.Reasons.{Listed}
use go_aptcacher.Cleaner.Justified.{All-lookup, check_indexes-Justified}
use go_aptcacher.Cleaner.Strongest.{strongest}
use go_aptcacher.Cleaner.Preferred.{Mem-select_preferred}
use go_aptcacher.Cleaner.Indexes.{IndexOk, check_indexes-Checked}
use go_aptcacher.Cleaner.Matches.{Matches, check_packages-Matches}

module _ (disk : Disk) (d : Decompressors) (sum_hash : ChecksumAlgorithm → Text → Text)
    (cl : RepositoryCleanup) where
  insert_sorted_not_empty : (x : Text) (xs : List Text) → insert_sorted x xs ≢ []
  unfolding insert_sorted
  insert_sorted_not_empty x [] h = ground arith
  insert_sorted_not_empty x (y ∷ ys) h = ground arith

  sort_empty : (xs : List Text) → sort xs ≡ [] → xs ≡ []
  unfolding sort
  sort_empty [] h = refl
  sort_empty (x ∷ xs) h = absurd (insert_sorted_not_empty x (sort xs) h)

  -- A package of an index: the file is missing, or has a hash that an index of the list gives for it,
  -- this one or one of a stronger algorithm.
  pub record PackageVerified (file : Text) (v : ChecksumValue) : Type 0 where
    pub expected : ChecksumValue
    pub listed : Listed disk d sum_hash cl file expected
    pub covers : Covers expected v
    pub matches : Matches disk d sum_hash cl (package_path cl file) expected.algorithm expected.hash

  -- An index that is there has its hash, and is one of packages only with packages that are verified.
  abbrev pub IndexVerified : ChecksumSum → Type 0
  IndexVerified sum =
      (disk.stat (index_path cl sum.file) ≡ some false)
      ⊎ ((generate_checksum_hash disk d sum_hash (index_path cl sum.file) sum.algorithm
            ≡ some sum.hash)
          × (is_packages_index_file sum.file ≡ true
              → (ps : Map ChecksumValue) × (parse_packages_file d disk.read_file
                    (index_path cl sum.file)
                  ≡ some ps)
                × All (λ p. has_suffix (codes ".deb") p.0 ≡ true → PackageVerified p.0 p.1) ps))

  module _ (m : Map ChecksumValue) (known : All (λ p. Listed disk d sum_hash cl p.0 p.1) m)
      (matches : (file : Text) (u : ChecksumValue)
        → lookup file m ≡ some u
        → Matches disk d sum_hash cl (package_path cl file) u.algorithm u.hash) where
    AllCovered-PackageVerified :
        (ps : Map ChecksumValue)
        → AllCovered cl ps m
        → All (λ p. has_suffix (codes ".deb") p.0 ≡ true → PackageVerified p.0 p.1) ps
    AllCovered-PackageVerified [] a = tt
    AllCovered-PackageVerified ((f, v) ∷ ps) a = (
      λ e.
          let c = a.0 e in
          record {
            expected = c.kept;
            listed = All-lookup (λ p. Listed disk d sum_hash cl p.0 p.1) f c.kept m known c.at;
            covers = c.covers;
            matches = matches f c.kept c.at;
          },
      AllCovered-PackageVerified ps a.1,
    )

    IndexOk-IndexVerified :
        (sum : ChecksumSum) → IndexOk disk d sum_hash cl sum m → IndexVerified sum
    IndexOk-IndexVerified sum (inl h) = inl h
    IndexOk-IndexVerified sum (inr h) = inr (
      h.0,
      λ i. let found = h.1 i in (found.0, found.1, AllCovered-PackageVerified found.0 found.2),
    )

    All-IndexVerified :
        (sums : List ChecksumSum)
        → All (λ sum. IndexOk disk d sum_hash cl sum m) sums
        → All IndexVerified sums
    All-IndexVerified [] a = tt
    All-IndexVerified (sum ∷ sums) a = (IndexOk-IndexVerified sum a.0, All-IndexVerified sums a.1)

  IndexVerified-Mem :
      (sum : ChecksumSum) (sums : List ChecksumSum)
      → All IndexVerified sums
      → Memᴰ sum sums
      → IndexVerified sum
  IndexVerified-Mem sum [] a h = elim h [ ]
  IndexVerified-Mem sum (s ∷ ss) a (head e) = rw e a.0
  IndexVerified-Mem sum (s ∷ ss) a (tail h) = IndexVerified-Mem sum ss a.1 h

  -- Where VerifyChecksums returns, without an error, that no file differs, the repository is as its
  -- checksums say: for each file of the list, with its first SHA512 checksum or else its first SHA256
  -- checksum, the file is missing or has that hash; and if it is there and is an index of packages, it
  -- can be parsed, and each of its .deb files is missing, or has the hash that the index gives, or the
  -- SHA512 hash that an index of the list gives for it where this one gives SHA256. The files do not
  -- change during the verification.
  pub verify_checksums_clean :
      (sum : ChecksumSum)
      → verify_checksums disk d sum_hash cl ≡ some []
      → strongest sum.file cl.checksums ≡ some sum
      → IndexVerified sum
  unfolding verify_checksums
  verify_checksums_clean sum h k =
      let sums = select_preferred_repository_checksums cl.checksums in
      let start : VerifyState = record { mismatches = []; packages = [] } in
      elim (Option-cases (check_indexes disk d sum_hash cl sums (some start))) [
        | inl e ↦ absurd (cc (rw e at h))
        | inr f ↦
            elim (Option-cases
              (check_packages disk d sum_hash cl f.0.packages (some f.0.mismatches))) [
                | inl e ↦ absurd (cc (rw (f.1, e) at h))
                | inr g ↦
                    let r =
                      check_packages-Matches disk d sum_hash cl f.0.packages f.0.mismatches g.0 g.1
                        (sort_empty g.0 (some-injective (sort g.0) [] (rw (f.1, g.1) at h))) in
                    let j =
                      check_indexes-Justified disk d sum_hash cl sums start f.0 (λ s m. m) f.1
                        (record { reported = λ p m. elim m [ ]; listed = tt }) in
                    IndexVerified-Mem sum sums
                      (All-IndexVerified f.0.packages j.listed r.1 sums
                        ((check_indexes-Checked disk d sum_hash cl sums start f.0 f.1).1 r.0))
                      ((Mem-select_preferred cl.checksums sum).1 k)
              ]
      ]
