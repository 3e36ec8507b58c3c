-- ===== src/Cleaner/Covered.antt =====
-- What the loops over the indexes in VerifyChecksums (pkg/debrepocleaner/debrepocleaner.go) collect.
use mathlib.Core.Option.{some-injective}
use go_aptcacher.Base.{
  ◌<◌, ◌≡◌, ◌≢◌, refl, sym, ap, ◌∙◌, ◌⊎◌, inl, inr, true, false, not, ◌&&◌, List, [], ◌∷◌, Option,
  none, some, arith, leb, ◌==◌, Bool-cases, All,
}
use go_aptcacher.Base.Text.{Text, codes, text_eq, text_eq_iff, has_suffix}
use go_aptcacher.Base.Map.{Map, lookup, insert, lookup-insert, lookup-insert_self}
use go_aptcacher.Cleaner.Checksum.{
  ChecksumAlgorithm, checksum_algorithm_sha512, checksum_algorithm_sha256, ChecksumValue,
  checksum_algorithm_priority,
}
use go_aptcacher.Cleaner.Release.{RepositoryCleanup}
use go_aptcacher.Cleaner.Verify.{
  add_path, VerifyState, mismatch, package_path, add_known, add_package, add_packages,
}

-- The same checksum, or one of a stronger algorithm.
abbrev pub Covers : ChecksumValue → ChecksumValue → Type 0
Covers u v =
    (u ≡ v) ⊎ (checksum_algorithm_priority u.algorithm < checksum_algorithm_priority v.algorithm)

-- The map has a checksum for the file that covers one.
pub record Covered (file : Text) (v : ChecksumValue) (m : Map ChecksumValue) : Type 0 where
  pub kept : ChecksumValue
  pub at : lookup file m ≡ some kept
  pub covers : Covers kept v

Covers-trans : (u v w : ChecksumValue) → Covers u v → Covers v w → Covers u w
Covers-trans u v w (inl e) k = rw e k
Covers-trans u v w (inr h) (inl e) = inr (rw e at h)
Covers-trans u v w (inr h) (inr k) = inr (omega (arith, h, k))

-- What a step does to the state: a mismatch stays, and so does what is covered.
pub record Grows (s t : VerifyState) : Type 0 where
  pub clean : t.mismatches ≡ [] → s.mismatches ≡ []
  pub keeps : (g : Text) (w : ChecksumValue) → Covered g w s.packages → Covered g w t.packages

pub Grows-refl : (s : VerifyState) → Grows s s
Grows-refl s = record { clean = λ h. h; keeps = λ g w c. c }

pub Grows-trans : (s t u : VerifyState) → Grows s t → Grows t u → Grows s u
Grows-trans s t u g h = record {
  clean = λ e. g.clean (h.clean e);
  keeps = λ f w c. h.keeps f w (g.keeps f w c);
}

pub add_path_not_empty : (p : Text) (ps : List Text) → add_path p ps ≢ []
unfolding add_path
add_path_not_empty p [] h = ground arith
add_path_not_empty p (q ∷ qs) h = ground arith

pub Grows-mismatch : (p : Text) (s : VerifyState) → Grows s (mismatch p s)
unfolding mismatch
Grows-mismatch p s = record {
  clean = λ h. absurd (add_path_not_empty p s.mismatches h);
  keeps = λ g w c. c;
}

pub mismatch_not_clean : (p : Text) (s : VerifyState) → (mismatch p s).mismatches ≢ []
unfolding mismatch
mismatch_not_clean p s h = add_path_not_empty p s.mismatches h

Covered-insert :
    (file : Text) (v : ChecksumValue) (m : Map ChecksumValue)
    → ((u : ChecksumValue) → lookup file m ≡ some u → Covers v u)
    → (g : Text) (w : ChecksumValue) → Covered g w m
    → Covered g w (insert file v m)
Covered-insert file v m h g w c = elim (Bool-cases (text_eq file g)) [
  | inl e ↦ record {
    kept = v;
    at = rw (lookup-insert file g v m) (rw e refl);
    covers = Covers-trans v c.kept w (h c.kept (rw ((text_eq_iff file g).0 e) (c.at))) c.covers;
  }
  | inr e ↦ record {
    kept = c.kept;
    at = rw (lookup-insert file g v m) (rw e (c.at));
    covers = c.covers;
  }
]

-- What a checksum of an index becomes.
record Added (file : Text) (v : ChecksumValue) (s t : VerifyState) : Type 0 where
  grows : Grows s t
  covered : t.mismatches ≡ [] → Covered file v t.packages

put-Added :
    (file : Text) (v : ChecksumValue) (s : VerifyState)
    → ((u : ChecksumValue) → lookup file s.packages ≡ some u → Covers v u)
    → Added file v s (record s { packages = insert file v s.packages })
put-Added file v s h = record {
  grows = record { clean = λ e. e; keeps = Covered-insert file v s.packages h };
  covered = λ e. record { kept = v; at = lookup-insert_self file v s.packages; covers = inl refl };
}

pub priority_inj :
    (a b : ChecksumAlgorithm)
    → checksum_algorithm_priority a ≡ checksum_algorithm_priority b
    → a ≡ b
priority_inj checksum_algorithm_sha512 checksum_algorithm_sha512 h = refl
priority_inj checksum_algorithm_sha512 checksum_algorithm_sha256 h = absurd (omega (arith, h))
priority_inj checksum_algorithm_sha256 checksum_algorithm_sha512 h = absurd (omega (arith, h))
priority_inj checksum_algorithm_sha256 checksum_algorithm_sha256 h = refl

value_eq : (u v : ChecksumValue) → u.algorithm ≡ v.algorithm → u.hash ≡ v.hash → u ≡ v
value_eq u v h k =
    ap (λ a. record { algorithm = a; hash = u.hash }) h
    ∙ ap (λ x. record { algorithm = v.algorithm; hash = x }) k

-- The tests of add_known, on a checksum that is not in conflict.
Covers-known :
    (u v : ChecksumValue)
    → (checksum_algorithm_priority u.algorithm == checksum_algorithm_priority v.algorithm)
        && not (text_eq u.hash v.hash)
      ≡ false
    → leb (checksum_algorithm_priority u.algorithm) (checksum_algorithm_priority v.algorithm) ≡ true
    → Covers u v
Covers-known u v h k =
    let same = checksum_algorithm_priority u.algorithm == checksum_algorithm_priority v.algorithm in
    elim (Bool-cases same) [
      | inl e ↦ elim (Bool-cases (text_eq u.hash v.hash)) [
        | inl f ↦ inl (
            value_eq u v (priority_inj u.algorithm v.algorithm (ground (arith, e)))
              ((text_eq_iff u.hash v.hash).0 f))
        | inr f ↦ absurd (cc (rw (e, f) at h))
      ]
      | inr e ↦ inr (ground (arith, e, k))
    ]

module _ (cl : RepositoryCleanup) where
  add_known-Added :
      (file : Text) (v : ChecksumValue) (o : Option ChecksumValue) (s : VerifyState)
      → lookup file s.packages ≡ o
      → Added file v s (add_known cl file v o s)
  unfolding add_known
  add_known-Added file v none s h = put-Added file v s (λ u k. absurd (cc (h, k)))
  add_known-Added file v (some u) s h =
      let same =
        (checksum_algorithm_priority u.algorithm == checksum_algorithm_priority v.algorithm)
        && not (text_eq u.hash v.hash) in
      let le =
        leb (checksum_algorithm_priority u.algorithm) (checksum_algorithm_priority v.algorithm) in
      elim (Bool-cases same) [
        | inl e ↦ rw e (record {
          grows = Grows-mismatch (package_path cl file) s;
          covered = λ k. absurd (mismatch_not_clean (package_path cl file) s k);
        })
        | inr e ↦ rw e (elim (Bool-cases le) [
          | inl k ↦ rw k (record {
            grows = Grows-refl s;
            covered = λ z. record { kept = u; at = h; covers = Covers-known u v e k };
          })
          | inr k ↦ rw k (
              put-Added file v s
                (λ w z. rw (sym (some-injective u w (sym h ∙ z))) (inr (ground (arith, k)))))
        ])
      ]

  add_package-Added :
      (file : Text) (v : ChecksumValue) (s : VerifyState)
      → has_suffix (codes ".deb") file ≡ true
      → Added file v s (add_package cl file v s)
  unfolding add_package
  add_package-Added file v s h = rw h (add_known-Added file v (lookup file s.packages) s refl)

  add_package-Grows :
      (file : Text) (v : ChecksumValue) (s : VerifyState) → Grows s (add_package cl file v s)
  add_package-Grows file v s = elim (Bool-cases (has_suffix (codes ".deb") file)) [
    | inl e ↦ (add_package-Added file v s e).grows
    | inr e ↦ unfold add_package in rw e (Grows-refl s)
  ]

  -- Each package of an index.
  abbrev pub AllCovered : Map ChecksumValue → Map ChecksumValue → Type 0
  AllCovered ps m = All (λ p. has_suffix (codes ".deb") p.0 ≡ true → Covered p.0 p.1 m) ps

  pub add_packages-Grows :
      (ps : Map ChecksumValue) (s : VerifyState) → Grows s (add_packages cl ps s)
  unfolding add_packages
  add_packages-Grows [] s = Grows-refl s
  add_packages-Grows ((f, v) ∷ ps) s =
      let t = add_package cl f v s in
      Grows-trans s t (add_packages cl ps t) (add_package-Grows f v s) (add_packages-Grows ps t)

  pub add_packages-AllCovered :
      (ps : Map ChecksumValue) (s : VerifyState)
      → (add_packages cl ps s).mismatches ≡ []
      → AllCovered ps (add_packages cl ps s).packages
  unfolding add_packages
  add_packages-AllCovered [] s h = tt
  add_packages-AllCovered ((f, v) ∷ ps) s h =
      let t = add_package cl f v s in
      let g = add_packages-Grows ps t in
      (
        λ e. g.keeps f v ((add_package-Added f v s e).covered (g.clean h)),
        add_packages-AllCovered ps t h,
      )

  pub AllCovered-Grows :
      (ps : Map ChecksumValue) (s t : VerifyState)
      → Grows s t
      → AllCovered ps s.packages
      → AllCovered ps t.packages
  AllCovered-Grows [] s t g a = tt
  AllCovered-Grows ((f, v) ∷ ps) s t g a = (λ e. g.keeps f v (a.0 e), AllCovered-Grows ps s t g a.1)
