-- ===== src/Cleaner/Strongest.antt =====
-- The checksum of each file that selectPreferredRepositoryChecksums
-- (pkg/debrepocleaner/debrepocleaner.go) keeps.
use go_aptcacher.Base.{
  ◌≡◌, refl, sym, ap, ◌∙◌, ◌⊎◌, inl, inr, Bool, true, false, ◌&&◌, List, [], ◌∷◌, Option, none,
  some, arith, if◌then◌else◌, Bool-cases,
}
use go_aptcacher.Base.Text.{Text, text_eq, text_eq_iff}
use go_aptcacher.Base.Map.{Map, lookup, insert, lookup-insert}
use go_aptcacher.Cleaner.Checksum.{
  ChecksumAlgorithm, checksum_algorithm_sha512, checksum_algorithm_sha256, ChecksumSum, is_better,
  select_by_file,
}

abbrev is_algorithm : ChecksumAlgorithm → ChecksumAlgorithm → Bool
is_algorithm checksum_algorithm_sha512 checksum_algorithm_sha512 = true
is_algorithm checksum_algorithm_sha256 checksum_algorithm_sha256 = true
is_algorithm a b = false

-- The first checksum of a file with an algorithm.
unfoldable pub first_with : ChecksumAlgorithm → Text → List ChecksumSum → Option ChecksumSum
first_with a file [] = none
first_with a file (s ∷ ss) =
    let rest = first_with a file ss in
    if text_eq s.file file && is_algorithm a s.algorithm then some s else rest

abbrev pub or_else : Option ChecksumSum → Option ChecksumSum → Option ChecksumSum
or_else (some s) o = some s
or_else none o = o

-- The first SHA512 checksum of a file, or else its first SHA256 checksum.
unfoldable pub strongest : Text → List ChecksumSum → Option ChecksumSum
unfolding first_with
strongest file sums =
    or_else (first_with checksum_algorithm_sha512 file sums)
      (first_with checksum_algorithm_sha256 file sums)

-- What becomes of the checksum that is selected so far.
unfoldable chosen : Text → List ChecksumSum → Option ChecksumSum → Option ChecksumSum
chosen file [] o = o
chosen file (s ∷ ss) o = chosen file ss (if text_eq s.file file && is_better s o then some s else o)

lookup-select_step :
    (file : Text) (s : ChecksumSum) (m : Map ChecksumSum)
    → lookup file (if is_better s (lookup s.file m) then insert s.file s m else m)
      ≡ (if text_eq s.file file && is_better s (lookup file m) then some s else lookup file m)
lookup-select_step file s m = elim (Bool-cases (text_eq s.file file)) [
  | inl e ↦
      let same = ap (λ f. is_better s (lookup f m)) ((text_eq_iff s.file file).0 e) in
      elim (Bool-cases (is_better s (lookup s.file m))) [
        | inl k ↦ rw (k, e, sym same ∙ k) (rw (lookup-insert s.file file s m) (rw e refl))
        | inr k ↦ rw (k, e, sym same ∙ k) refl
      ]
  | inr e ↦ elim (Bool-cases (is_better s (lookup s.file m))) [
    | inl k ↦ rw (k, e) (rw (lookup-insert s.file file s m) (rw e refl))
    | inr k ↦ rw (k, e) refl
  ]
]

lookup-select_by_file :
    (file : Text) (sums : List ChecksumSum) (m : Map ChecksumSum)
    → lookup file (select_by_file sums m) ≡ chosen file sums (lookup file m)
unfolding select_by_file chosen
lookup-select_by_file file [] m = refl
lookup-select_by_file file (s ∷ ss) m =
    lookup-select_by_file file ss (if is_better s (lookup s.file m) then insert s.file s m else m)
    ∙ ap (chosen file ss) (lookup-select_step file s m)

algorithm-cases :
    (a : ChecksumAlgorithm) → (a ≡ checksum_algorithm_sha512) ⊎ (a ≡ checksum_algorithm_sha256)
algorithm-cases checksum_algorithm_sha512 = inl refl
algorithm-cases checksum_algorithm_sha256 = inr refl

better_than_sha512 :
    (t s : ChecksumSum) → s.algorithm ≡ checksum_algorithm_sha512 → is_better t (some s) ≡ false
unfolding is_better
better_than_sha512 t s h = rw h (ground arith)

sha256_is_better :
    (t s : ChecksumSum) → t.algorithm ≡ checksum_algorithm_sha256 → is_better t (some s) ≡ false
unfolding is_better
sha256_is_better t s h =
    rw h (elim (algorithm-cases s.algorithm) [ inl k ↦ rw k refl | inr k ↦ rw k refl ])

sha512_is_better :
    (t s : ChecksumSum)
    → t.algorithm ≡ checksum_algorithm_sha512
    → s.algorithm ≡ checksum_algorithm_sha256
    → is_better t (some s) ≡ true
unfolding is_better
sha512_is_better t s h k = rw (h, k) refl

nothing_is_better : (t : ChecksumSum) → is_better t none ≡ true
unfolding is_better
nothing_is_better t = refl

abbrev is_sha512 : ChecksumAlgorithm → Bool
is_sha512 = is_algorithm checksum_algorithm_sha512

abbrev is_sha256 : ChecksumAlgorithm → Bool
is_sha256 = is_algorithm checksum_algorithm_sha256

chosen_sha512 :
    (file : Text) (sums : List ChecksumSum) (s : ChecksumSum)
    → s.algorithm ≡ checksum_algorithm_sha512
    → chosen file sums (some s) ≡ some s
unfolding chosen
chosen_sha512 file [] s h = refl
chosen_sha512 file (t ∷ ts) s h =
    rw (better_than_sha512 t s h) (elim (Bool-cases (text_eq t.file file)) [
      | inl e ↦ rw e (chosen_sha512 file ts s h)
      | inr e ↦ rw e (chosen_sha512 file ts s h)
    ])

chosen_sha256 :
    (file : Text) (sums : List ChecksumSum) (s : ChecksumSum)
    → s.algorithm ≡ checksum_algorithm_sha256
    → chosen file sums (some s) ≡ or_else (first_with checksum_algorithm_sha512 file sums) (some s)
unfolding chosen first_with
chosen_sha256 file [] s h = refl
chosen_sha256 file (t ∷ ts) s h = elim (Bool-cases (text_eq t.file file)) [
  | inl e ↦ elim (algorithm-cases t.algorithm) [
    | inl k ↦ rw (e, sha512_is_better t s k h, ap is_sha512 k) (chosen_sha512 file ts t k)
    | inr k ↦ rw (e, sha256_is_better t s k, ap is_sha512 k) (chosen_sha256 file ts s h)
  ]
  | inr e ↦ rw e (chosen_sha256 file ts s h)
]

chosen-strongest :
    (file : Text) (sums : List ChecksumSum) → chosen file sums none ≡ strongest file sums
unfolding chosen first_with strongest
chosen-strongest file [] = refl
chosen-strongest file (t ∷ ts) = rw (nothing_is_better t) (elim (Bool-cases (text_eq t.file file)) [
  | inl e ↦ elim (algorithm-cases t.algorithm) [
    | inl k ↦ rw (e, ap is_sha512 k) (chosen_sha512 file ts t k)
    | inr k ↦ rw (e, ap is_sha512 k, ap is_sha256 k) (chosen_sha256 file ts t k)
  ]
  | inr e ↦ rw e (chosen-strongest file ts)
])

pub lookup-select_strongest :
    (file : Text) (sums : List ChecksumSum)
    → lookup file (select_by_file sums []) ≡ strongest file sums
lookup-select_strongest file sums =
    lookup-select_by_file file sums [] ∙ (unfold lookup in chosen-strongest file sums)
