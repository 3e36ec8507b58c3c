-- ===== src/Cleaner/Justified.antt =====
-- What the loop over the indexes in VerifyChecksums (pkg/debrepocleaner/debrepocleaner.go) collects has
-- a reason.
use mathlib.Core.Option.{some-injective}
use mathlib.Core.List.{Memᴰ}
use mathlib.Core.List.Memᴰ.{head, tail}
use go_aptcacher.Base.{
  ◌≡◌, refl, sym, ◌∙◌, inl, inr, Bool, true, false, List, [], ◌∷◌, Option, none, some, arith,
  if◌then◌else◌, Bool-cases, Option-cases, All, ◌==◌, leb,
}
use go_aptcacher.Base.Text.{Text, codes, text_eq, text_eq_iff, has_suffix}
use go_aptcacher.Base.Map.{Map, lookup, insert}
use go_aptcacher.Cleaner.Checksum.{
  ChecksumAlgorithm, ChecksumSum, ChecksumValue, checksum_algorithm_priority,
}
use go_aptcacher.Cleaner.Release.{RepositoryCleanup}
use go_aptcacher.Cleaner.Packages.{Decompressors, parse_packages_file}
use go_aptcacher.Cleaner.Verify.{
  Disk, is_packages_index_file, VerifyState, mismatch, generate_checksum_hash, package_path,
  index_path, add_known, add_package, add_packages, add_parsed, compare_index, check_found_index,
  check_index, check_indexes,
}
use go_aptcacher.Cleaner.Covered.{priority_inj}
use go_aptcacher.Cleaner.Indexes.{check_indexes-cons, check_indexes_failed}
use go_aptcacher.Cleaner.Reasons.{
  Listed, Reported, wrong_index, two_hashes, AllReported, selected, add_path-AllReported,
}

module _ (P : Text × ChecksumValue → Type 0) where
  All-insert :
      (file : Text) (v : ChecksumValue) (m : Map ChecksumValue)
      → P (file, v)
      → All P m
      → All P (insert file v m)
  unfolding insert
  All-insert file v [] p a = (p, tt)
  All-insert file v ((k, w) ∷ m) p a = elim (Bool-cases (text_eq k file)) [
    | inl e ↦ rw e (p, a.1)
    | inr e ↦ rw e (a.0, All-insert file v m p a.1)
  ]

  pub All-lookup :
      (file : Text) (v : ChecksumValue) (m : Map ChecksumValue)
      → All P m
      → lookup file m ≡ some v
      → P (file, v)
  unfolding lookup
  All-lookup file v [] a h = absurd (cc h)
  All-lookup file v ((k, w) ∷ m) a h = elim (Bool-cases (text_eq k file)) [
    | inl e ↦ rw (sym ((text_eq_iff k file).0 e), sym (some-injective w v (rw e at h))) (a.0)
    | inr e ↦ All-lookup file v m a.1 (rw e at h)
  ]

module _ (disk : Disk) (d : Decompressors) (sum_hash : ChecksumAlgorithm → Text → Text)
    (cl : RepositoryCleanup) where
  pub record Justified (s : VerifyState) : Type 0 where
    pub reported : AllReported disk d sum_hash cl s.mismatches
    pub listed : All (λ p. Listed disk d sum_hash cl p.0 p.1) s.packages

  mismatch-Justified :
      (q : Text) (s : VerifyState)
      → Reported disk d sum_hash cl q
      → Justified s
      → Justified (mismatch q s)
  unfolding mismatch
  mismatch-Justified q s r j = record {
    reported = add_path-AllReported disk d sum_hash cl q s.mismatches r j.reported;
    listed = j.listed;
  }

  put-Justified :
      (file : Text) (v : ChecksumValue) (s : VerifyState)
      → Listed disk d sum_hash cl file v
      → Justified s
      → Justified (record s { packages = insert file v s.packages })
  put-Justified file v s l j = record {
    reported = j.reported;
    listed = All-insert (λ p. Listed disk d sum_hash cl p.0 p.1) file v s.packages l j.listed;
  }

  add_known-Justified :
      (file : Text) (v : ChecksumValue) (o : Option ChecksumValue) (s : VerifyState)
      → lookup file s.packages ≡ o
      → Listed disk d sum_hash cl file v
      → Justified s
      → Justified (add_known cl file v o s)
  unfolding add_known
  add_known-Justified file v none s h l j = put-Justified file v s l j
  add_known-Justified file v (some u) s h l j =
      let same =
        checksum_algorithm_priority u.algorithm == checksum_algorithm_priority v.algorithm in
      let le =
        leb (checksum_algorithm_priority u.algorithm) (checksum_algorithm_priority v.algorithm) in
      let rest : Justified (if le then s else record s { packages = insert file v s.packages }) =
        elim (Bool-cases le) [ inl e ↦ rw e j | inr e ↦ rw e (put-Justified file v s l j) ] in
      elim (Bool-cases same) [
        | inr e ↦ rw e rest
        | inl e ↦ elim (Bool-cases (text_eq u.hash v.hash)) [
          | inl k ↦ rw (e, k) rest
          | inr k ↦
              rw (e, k)
                (mismatch-Justified (package_path cl file) s
                  (two_hashes file u v
                    (All-lookup (λ p. Listed disk d sum_hash cl p.0 p.1) file u s.packages j.listed
                      h)
                    l (priority_inj u.algorithm v.algorithm (ground (arith, e))) k refl)
                  j)
        ]
      ]

  add_package-Justified :
      (file : Text) (v : ChecksumValue) (s : VerifyState)
      → (has_suffix (codes ".deb") file ≡ true → Listed disk d sum_hash cl file v)
      → Justified s
      → Justified (add_package cl file v s)
  unfolding add_package
  add_package-Justified file v s l j = elim (Bool-cases (has_suffix (codes ".deb") file)) [
    | inl e ↦ rw e (add_known-Justified file v (lookup file s.packages) s refl (l e) j)
    | inr e ↦ rw e j
  ]

  add_packages-Justified :
      (ps : Map ChecksumValue) (s : VerifyState)
      → ((file : Text) (v : ChecksumValue)
          → Memᴰ (file, v) ps
          → has_suffix (codes ".deb") file ≡ true
          → Listed disk d sum_hash cl file v)
      → Justified s
      → Justified (add_packages cl ps s)
  unfolding add_packages
  add_packages-Justified [] s l j = j
  add_packages-Justified ((f, v) ∷ ps) s l j =
      add_packages-Justified ps (add_package cl f v s) (λ g w m. l g w (tail m))
        (add_package-Justified f v s (l f v (head refl)) j)

  module _ (sum : ChecksumSum) (mem : Memᴰ sum (selected disk d sum_hash cl)) where
    add_parsed-Justified :
        (o : Option (Map ChecksumValue)) (s t : VerifyState)
        → is_packages_index_file sum.file ≡ true
        → parse_packages_file d disk.read_file (index_path cl sum.file) ≡ o
        → add_parsed cl o s ≡ some t
        → Justified s
        → Justified t
    add_parsed-Justified none s t i p e j = absurd (cc e)
    add_parsed-Justified (some ps) s t i p e j =
        rw (sym (some-injective (add_packages cl ps s) t e)) (
          add_packages-Justified ps s
            (λ file v m b. record {
              sum = sum;
              mem = mem;
              is_index = i;
              packages = ps;
              parsed = p;
              listed = m;
              deb = b;
            })
            j)

    compare_index-Justified :
        (o : Option Text) (s t : VerifyState)
        → disk.stat (index_path cl sum.file) ≡ some true
        → generate_checksum_hash disk d sum_hash (index_path cl sum.file) sum.algorithm ≡ o
        → compare_index disk d sum_hash cl sum o s ≡ some t
        → Justified s
        → Justified t
    unfolding compare_index
    compare_index-Justified none s t h p e j = absurd (cc e)
    compare_index-Justified (some actual) s t h p e j =
        elim (Bool-cases (text_eq actual sum.hash)) [
          | inr k ↦ rw (sym (some-injective (mismatch (index_path cl sum.file) s) t (rw k at e))) (
              mismatch-Justified (index_path cl sum.file) s
                (wrong_index sum mem refl
                  (record { present = h; actual = actual; hashed = p; differs = k }))
                j)
          | inl k ↦ elim (Bool-cases (is_packages_index_file sum.file)) [
            | inl i ↦
                add_parsed-Justified (parse_packages_file d disk.read_file (index_path cl sum.file))
                  s t i refl (rw (k, i) at e) j
            | inr i ↦ rw (some-injective s t (rw (k, i) at e)) at j
          ]
        ]

    check_found_index-Justified :
        (o : Option Bool) (s t : VerifyState)
        → disk.stat (index_path cl sum.file) ≡ o
        → check_found_index disk d sum_hash cl sum o s ≡ some t
        → Justified s
        → Justified t
    unfolding check_found_index
    check_found_index-Justified none s t h e j = absurd (cc e)
    check_found_index-Justified (some false) s t h e j = rw (some-injective s t e) at j
    check_found_index-Justified (some true) s t h e j =
        compare_index-Justified
          (generate_checksum_hash disk d sum_hash (index_path cl sum.file) sum.algorithm) s t h refl
          e j

  pub check_indexes-Justified :
      (sums : List ChecksumSum) (s t : VerifyState)
      → ((sum : ChecksumSum) → Memᴰ sum sums → Memᴰ sum (selected disk d sum_hash cl))
      → check_indexes disk d sum_hash cl sums (some s) ≡ some t
      → Justified s
      → Justified t
  check_indexes-Justified [] s t i h j = rw (some-injective s t (unfold check_indexes in h)) at j
  check_indexes-Justified (sum ∷ sums) s t i h j =
      let h' = sym (check_indexes-cons disk d sum_hash cl sum sums s) ∙ h in
      elim (Option-cases (check_index disk d sum_hash cl sum s)) [
        | inl e ↦ absurd (cc (check_indexes_failed disk d sum_hash cl sums, rw e at h'))
        | inr f ↦
            check_indexes-Justified sums f.0 t (λ r m. i r (tail m)) (rw f.1 at h')
              (check_found_index-Justified sum (i sum (head refl))
                (disk.stat (index_path cl sum.file)) s f.0 refl (unfold check_index in f.1) j)
      ]
