-- ===== src/Cleaner/Matches.antt =====
-- The loop over the packages in VerifyChecksums (pkg/debrepocleaner/debrepocleaner.go), where it finds
-- no mismatch.
use mathlib.Core.Option.{some-injective}
use go_aptcacher.Base.{
  ◌≡◌, refl, sym, ap, ◌∙◌, ◌⊎◌, inl, inr, Bool, true, false, List, [], ◌∷◌, Option, none, some,
  Bool-cases, Option-cases,
}
use go_aptcacher.Base.Text.{Text, text_eq, text_eq_iff}
use go_aptcacher.Base.Map.{Map, lookup, lookup-cons}
use go_aptcacher.Cleaner.Checksum.{ChecksumAlgorithm, ChecksumValue}
use go_aptcacher.Cleaner.Release.{RepositoryCleanup}
use go_aptcacher.Cleaner.Packages.{Decompressors}
use go_aptcacher.Cleaner.Verify.{
  Disk, generate_checksum_hash, package_path, compare_package, check_found_package, check_packages,
  add_path,
}
use go_aptcacher.Cleaner.Covered.{add_path_not_empty}

module _ (disk : Disk) (d : Decompressors) (sum_hash : ChecksumAlgorithm → Text → Text)
    (cl : RepositoryCleanup) where
  -- The file is not there, or it can be read and has the hash.
  abbrev pub Matches : Text → ChecksumAlgorithm → Text → Type 0
  Matches path a hash =
      (disk.stat path ≡ some false) ⊎ (generate_checksum_hash disk d sum_hash path a ≡ some hash)

  -- A step of the loop over the packages.
  record Compared (path : Text) (v : ChecksumValue) (m n : List Text) : Type 0 where
    clean : n ≡ [] → m ≡ []
    ok : n ≡ [] → Matches path v.algorithm v.hash

  compare_package-Compared :
      (path : Text) (v : ChecksumValue) (o : Option Text) (m n : List Text)
      → generate_checksum_hash disk d sum_hash path v.algorithm ≡ o
      → compare_package disk d sum_hash cl path v o m ≡ some n
      → Compared path v m n
  unfolding compare_package
  compare_package-Compared path v none m n h e = absurd (cc (e))
  compare_package-Compared path v (some hash) m n h e = elim (Bool-cases (text_eq hash v.hash)) [
    | inl k ↦
        rw (sym (some-injective m n (rw k at e)))
          (record { clean = λ z. z; ok = λ z. inr (h ∙ ap some ((text_eq_iff hash v.hash).0 k)) })
    | inr k ↦ rw (sym (some-injective (add_path path m) n (rw k at e))) (record {
      clean = λ z. absurd (add_path_not_empty path m z);
      ok = λ z. absurd (add_path_not_empty path m z);
    })
  ]

  check_found_package-Compared :
      (path : Text) (v : ChecksumValue) (o : Option Bool) (m n : List Text)
      → disk.stat path ≡ o
      → check_found_package disk d sum_hash cl path v o m ≡ some n
      → Compared path v m n
  unfolding check_found_package
  check_found_package-Compared path v none m n h e = absurd (cc (e))
  check_found_package-Compared path v (some false) m n h e =
      rw (sym (some-injective m n e)) (record { clean = λ z. z; ok = λ z. inl h })
  check_found_package-Compared path v (some true) m n h e =
      compare_package-Compared path v (generate_checksum_hash disk d sum_hash path v.algorithm) m n
        refl e

  abbrev nothing : Map ChecksumValue
  nothing = []

  lookup-nothing : (file : Text) → lookup file nothing ≡ none
  unfolding lookup
  lookup-nothing file = refl

  pub check_packages_failed :
      (ps : Map ChecksumValue) → check_packages disk d sum_hash cl ps none ≡ none
  unfolding check_packages
  check_packages_failed [] = refl
  check_packages_failed (p ∷ ps) = refl

  pub check_packages-cons :
      (file : Text) (v : ChecksumValue) (ps : Map ChecksumValue) (m : List Text)
      → check_packages disk d sum_hash cl ((file, v) ∷ ps) (some m)
        ≡ check_packages disk d sum_hash cl ps (
            check_found_package disk d sum_hash cl
              (package_path cl file)
              v
              (disk.stat (package_path cl file))
              m)
  unfolding check_packages
  check_packages-cons file v ps m = refl

  pub check_packages-Matches :
      (ps : Map ChecksumValue) (m n : List Text)
      → check_packages disk d sum_hash cl ps (some m) ≡ some n
      → n ≡ []
      → (m ≡ [])
        × ((file : Text) (u : ChecksumValue)
            → lookup file ps ≡ some u
            → Matches (package_path cl file) u.algorithm u.hash)
  check_packages-Matches [] m n h z = (
    some-injective m n (unfold check_packages in h) ∙ z,
    λ file u k. absurd (cc (lookup-nothing file, k)),
  )
  check_packages-Matches ((f, v) ∷ ps) m n h z =
      let path = package_path cl f in
      let h' = sym (check_packages-cons f v ps m) ∙ h in
      elim (Option-cases (check_found_package disk d sum_hash cl path v (disk.stat path) m)) [
        | inl e ↦ absurd (cc (check_packages_failed ps, rw e at h'))
        | inr g ↦
            let c : Compared path v m g.0 =
              check_found_package-Compared path v (disk.stat path) m g.0 refl g.1 in
            let r = check_packages-Matches ps g.0 n (rw g.1 at h') z in
            (
              c.clean r.0,
              λ file u k. elim (Bool-cases (text_eq f file)) [
                | inl e ↦ rw (sym ((text_eq_iff f file).0 e)) (
                    rw (sym (some-injective v u (rw e at (sym (lookup-cons file f v ps) ∙ k))))
                      (c.ok r.0))
                | inr e ↦ r.1 file u (rw e at (sym (lookup-cons file f v ps) ∙ k))
              ],
            )
      ]
