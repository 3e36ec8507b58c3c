-- ===== src/Cleaner/Reported.antt =====
-- The files that VerifyChecksums (pkg/debrepocleaner/debrepocleaner.go) reports.
use mathlib.Core.Option.{some-injective}
use mathlib.Core.List.{Memᴰ}
use mathlib.Core.List.Memᴰ.{head, tail}
use go_aptcacher.Base.{
  ◌≡◌, refl, sym, ◌∙◌, inl, inr, Bool, true, false, List, [], ◌∷◌, Option, none, some, Bool-cases,
  Option-cases, All,
}
use go_aptcacher.Base.Text.{Text, text_eq}
use go_aptcacher.Base.Map.{Map}
use go_aptcacher.Stats.Day.{insert_sorted, sort, text_le}
use go_aptcacher.Cleaner.Checksum.{ChecksumAlgorithm, ChecksumValue}
use go_aptcacher.Cleaner.Release.{RepositoryCleanup}
use go_aptcacher.Cleaner.Packages.{Decompressors}
use go_aptcacher.Cleaner.Verify.{
  Disk, VerifyState, generate_checksum_hash, package_path, check_indexes, compare_package,
  check_found_package, check_packages, add_path, verify_checksums,
}
use go_aptcacher.Cleaner.Preferred.{Mem-swapped}
use go_aptcacher.Cleaner.Matches.{check_packages-cons, check_packages_failed}
use go_aptcacher.Cleaner.Reasons.{
  Listed, Reported, wrong_package, AllReported, selected, add_path-AllReported,
}
use go_aptcacher.Cleaner.Justified.{Justified, check_indexes-Justified}

Mem-insert_sorted : (p q : Text) (ps : List Text) → Memᴰ p (insert_sorted q ps) → Memᴰ p (q ∷ ps)
unfolding insert_sorted
Mem-insert_sorted p q [] h = h
Mem-insert_sorted p q (r ∷ ps) h = elim (Bool-cases (text_le q r)) [
  | inl e ↦ rw e at h
  | inr e ↦ Mem-swapped p q r ps (insert_sorted q ps) (Mem-insert_sorted p q ps) (rw e at h)
]

Mem-sort : (p : Text) (ps : List Text) → Memᴰ p (sort ps) → Memᴰ p ps
unfolding sort
Mem-sort p [] h = h
Mem-sort p (q ∷ ps) h = elim (Mem-insert_sorted p q (sort ps) h) [
  | head e ↦ head e
  | tail k ↦ tail (Mem-sort p ps k)
]

module _ (disk : Disk) (d : Decompressors) (sum_hash : ChecksumAlgorithm → Text → Text)
    (cl : RepositoryCleanup) where
  compare_package-AllReported :
      (file : Text) (v : ChecksumValue) (o : Option Text) (m n : List Text)
      → Listed disk d sum_hash cl file v
      → disk.stat (package_path cl file) ≡ some true
      → generate_checksum_hash disk d sum_hash (package_path cl file) v.algorithm ≡ o
      → compare_package disk d sum_hash cl (package_path cl file) v o m ≡ some n
      → AllReported disk d sum_hash cl m
      → AllReported disk d sum_hash cl n
  unfolding compare_package
  compare_package-AllReported file v none m n l h p e a = absurd (cc e)
  compare_package-AllReported file v (some actual) m n l h p e a =
      let path = package_path cl file in
      elim (Bool-cases (text_eq actual v.hash)) [
        | inl k ↦ rw (some-injective m n (rw k at e)) at a
        | inr k ↦ rw (some-injective (add_path path m) n (rw k at e)) at (
            add_path-AllReported disk d sum_hash cl path m
              (wrong_package file v l refl
                (record { present = h; actual = actual; hashed = p; differs = k }))
              a)
      ]

  check_found_package-AllReported :
      (file : Text) (v : ChecksumValue) (o : Option Bool) (m n : List Text)
      → Listed disk d sum_hash cl file v
      → disk.stat (package_path cl file) ≡ o
      → check_found_package disk d sum_hash cl (package_path cl file) v o m ≡ some n
      → AllReported disk d sum_hash cl m
      → AllReported disk d sum_hash cl n
  unfolding check_found_package
  check_found_package-AllReported file v none m n l h e a = absurd (cc e)
  check_found_package-AllReported file v (some false) m n l h e a = rw (some-injective m n e) at a
  check_found_package-AllReported file v (some true) m n l h e a =
      compare_package-AllReported file v
        (generate_checksum_hash disk d sum_hash (package_path cl file) v.algorithm) m n l h refl e a

  check_packages-AllReported :
      (ps : Map ChecksumValue) (m n : List Text)
      → All (λ p. Listed disk d sum_hash cl p.0 p.1) ps
      → check_packages disk d sum_hash cl ps (some m) ≡ some n
      → AllReported disk d sum_hash cl m
      → AllReported disk d sum_hash cl n
  check_packages-AllReported [] m n l h a =
      rw (some-injective m n (unfold check_packages in h)) at a
  check_packages-AllReported ((f, v) ∷ ps) m n l h a =
      let path = package_path cl f in
      let h' = sym (check_packages-cons disk d sum_hash cl f v ps m) ∙ h in
      elim (Option-cases (check_found_package disk d sum_hash cl path v (disk.stat path) m)) [
        | inl e ↦ absurd (cc (check_packages_failed disk d sum_hash cl ps, rw e at h'))
        | inr g ↦
            check_packages-AllReported ps g.0 n l.1 (rw g.1 at h')
              (check_found_package-AllReported f v (disk.stat path) m g.0 l.0 refl g.1 a)
      ]

  -- Each path that VerifyChecksums reports has a reason: it is a file of the list that is there and has
  -- another hash than its selected checksum, or a .deb file that an index of the list gives a checksum
  -- for, and that is there with another hash, or a .deb file with two hashes of one algorithm in the
  -- indexes. The files do not change during the verification.
  pub verify_checksums-Reported :
      (paths : List Text) (path : Text)
      → verify_checksums disk d sum_hash cl ≡ some paths
      → Memᴰ path paths
      → Reported disk d sum_hash cl path
  unfolding verify_checksums
  verify_checksums-Reported paths path h mem =
      let start : VerifyState = record { mismatches = []; packages = [] } in
      let begin : Justified disk d sum_hash cl start = record {
        reported = λ p m. elim m [ ];
        listed = tt;
      } in
      elim (Option-cases
        (check_indexes disk d sum_hash cl (selected disk d sum_hash cl) (some start))) [
          | inl e ↦ absurd (cc (rw e at h))
          | inr f ↦
              let j =
                check_indexes-Justified disk d sum_hash cl (selected disk d sum_hash cl) start f.0
                  (λ r m. m) f.1 begin in
              elim (Option-cases
                (check_packages disk d sum_hash cl f.0.packages (some f.0.mismatches))) [
                  | inl e ↦ absurd (cc (rw (f.1, e) at h))
                  | inr g ↦
                      check_packages-AllReported f.0.packages f.0.mismatches g.0 j.listed g.1
                        j.reported path
                        (Mem-sort path g.0
                          (rw (sym (some-injective (sort g.0) paths (rw (f.1, g.1) at h))) at mem))
                ]
        ]
