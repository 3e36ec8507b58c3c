-- ===== src/Cleaner/Indexes.antt =====
-- The loop over the indexes in VerifyChecksums (pkg/debrepocleaner/debrepocleaner.go), where it finds
-- no mismatch.
use mathlib.Core.Option.{some-injective}
use go_aptcacher.Base.{
  ◌≡◌, refl, sym, ap, ◌∙◌, ◌⊎◌, inl, inr, Bool, true, false, List, [], ◌∷◌, Option, none, some,
  Bool-cases, Option-cases, All,
}
use go_aptcacher.Base.Text.{Text, text_eq, text_eq_iff}
use go_aptcacher.Base.Map.{Map}
use go_aptcacher.Cleaner.Checksum.{ChecksumAlgorithm, ChecksumSum, ChecksumValue}
use go_aptcacher.Cleaner.Release.{RepositoryCleanup}
use go_aptcacher.Cleaner.Packages.{Decompressors, parse_packages_file}
use go_aptcacher.Cleaner.Verify.{
  Disk, is_packages_index_file, VerifyState, mismatch, generate_checksum_hash, index_path,
  add_packages, add_parsed, compare_index, check_found_index, check_index, check_indexes,
}
use go_aptcacher.Cleaner.Covered.{
  Grows, Grows-refl, Grows-trans, Grows-mismatch, mismatch_not_clean, AllCovered, AllCovered-Grows,
  add_packages-Grows, add_packages-AllCovered,
}

module _ (disk : Disk) (d : Decompressors) (sum_hash : ChecksumAlgorithm → Text → Text)
    (cl : RepositoryCleanup) where
  -- An index that is there has its hash, and its packages are among the checksums that are kept.
  abbrev pub IndexOk : ChecksumSum → Map ChecksumValue → Type 0
  IndexOk sum m =
      (disk.stat (index_path cl sum.file) ≡ some false)
      ⊎ ((generate_checksum_hash disk d sum_hash (index_path cl sum.file) sum.algorithm
            ≡ some sum.hash)
          × (is_packages_index_file sum.file ≡ true
              → (ps : Map ChecksumValue) × (parse_packages_file d disk.read_file
                    (index_path cl sum.file)
                  ≡ some ps)
                × AllCovered cl ps m))

  -- A step of the loop over the indexes.
  record Checked (sum : ChecksumSum) (s t : VerifyState) : Type 0 where
    grows : Grows s t
    ok : t.mismatches ≡ [] → IndexOk sum t.packages

  add_parsed-Checked :
      (sum : ChecksumSum) (o : Option (Map ChecksumValue)) (s t : VerifyState)
      → generate_checksum_hash disk d sum_hash (index_path cl sum.file) sum.algorithm
        ≡ some sum.hash
      → parse_packages_file d disk.read_file (index_path cl sum.file) ≡ o
      → add_parsed cl o s ≡ some t
      → Checked sum s t
  add_parsed-Checked sum none s t h p e = absurd (cc (e))
  add_parsed-Checked sum (some ps) s t h p e =
      rw (sym (some-injective (add_packages cl ps s) t e)) (record {
        grows = add_packages-Grows cl ps s;
        ok = λ k. inr (h, λ i. (ps, p, add_packages-AllCovered cl ps s k));
      })

  compare_index-Checked :
      (sum : ChecksumSum) (o : Option Text) (s t : VerifyState)
      → generate_checksum_hash disk d sum_hash (index_path cl sum.file) sum.algorithm ≡ o
      → compare_index disk d sum_hash cl sum o s ≡ some t
      → Checked sum s t
  unfolding compare_index
  compare_index-Checked sum none s t h e = absurd (cc (e))
  compare_index-Checked sum (some hash) s t h e = elim (Bool-cases (text_eq hash sum.hash)) [
    | inr k ↦
        rw (sym (some-injective (mismatch (index_path cl sum.file) s) t (rw k at e))) (record {
          grows = Grows-mismatch (index_path cl sum.file) s;
          ok = λ z. absurd (mismatch_not_clean (index_path cl sum.file) s z);
        })
    | inl k ↦
        let same = h ∙ ap some ((text_eq_iff hash sum.hash).0 k) in
        elim (Bool-cases (is_packages_index_file sum.file)) [
          | inl i ↦
              add_parsed-Checked sum (parse_packages_file d disk.read_file (index_path cl sum.file))
                s t same refl (rw (k, i) at e)
          | inr i ↦
              rw (sym (some-injective s t (rw (k, i) at e)))
                (record { grows = Grows-refl s; ok = λ z. inr (same, λ j. absurd (cc (i, j))) })
        ]
  ]

  check_found_index-Checked :
      (sum : ChecksumSum) (o : Option Bool) (s t : VerifyState)
      → disk.stat (index_path cl sum.file) ≡ o
      → check_found_index disk d sum_hash cl sum o s ≡ some t
      → Checked sum s t
  unfolding check_found_index
  check_found_index-Checked sum none s t h e = absurd (cc (e))
  check_found_index-Checked sum (some false) s t h e =
      rw (sym (some-injective s t e)) (record { grows = Grows-refl s; ok = λ z. inl h })
  check_found_index-Checked sum (some true) s t h e =
      compare_index-Checked sum
        (generate_checksum_hash disk d sum_hash (index_path cl sum.file) sum.algorithm) s t refl e

  IndexOk-Grows :
      (sum : ChecksumSum) (s t : VerifyState)
      → Grows s t
      → IndexOk sum s.packages
      → IndexOk sum t.packages
  IndexOk-Grows sum s t g (inl h) = inl h
  IndexOk-Grows sum s t g (inr h) =
      inr (
        h.0,
        λ i. let found = h.1 i in (found.0, found.1, AllCovered-Grows cl found.0 s t g found.2),
      )

  pub check_indexes-cons :
      (sum : ChecksumSum) (sums : List ChecksumSum) (s : VerifyState)
      → check_indexes disk d sum_hash cl (sum ∷ sums) (some s)
        ≡ check_indexes disk d sum_hash cl sums (check_index disk d sum_hash cl sum s)
  unfolding check_indexes
  check_indexes-cons sum sums s = refl

  pub check_indexes_failed :
      (sums : List ChecksumSum) → check_indexes disk d sum_hash cl sums none ≡ none
  unfolding check_indexes
  check_indexes_failed [] = refl
  check_indexes_failed (sum ∷ sums) = refl

  pub check_indexes-Checked :
      (sums : List ChecksumSum) (s t : VerifyState)
      → check_indexes disk d sum_hash cl sums (some s) ≡ some t
      → Grows s t × (t.mismatches ≡ [] → All (λ sum. IndexOk sum t.packages) sums)
  check_indexes-Checked [] s t h =
      rw (sym (some-injective s t (unfold check_indexes in h))) (Grows-refl s, λ z. tt)
  check_indexes-Checked (sum ∷ sums) s t h =
      let h' = sym (check_indexes-cons sum sums s) ∙ h in
      elim (Option-cases (check_index disk d sum_hash cl sum s)) [
        | inl e ↦ absurd (cc (check_indexes_failed sums, rw e at h'))
        | inr f ↦
            let u = f.0 in
            let c : Checked sum s u =
              check_found_index-Checked sum (disk.stat (index_path cl sum.file)) s u refl
                (unfold check_index in f.1) in
            let r = check_indexes-Checked sums u t (rw f.1 at h') in
            (
              Grows-trans s u t c.grows r.0,
              λ z. (IndexOk-Grows sum u t r.0 (c.ok (r.0.clean z)), r.1 z),
            )
      ]
