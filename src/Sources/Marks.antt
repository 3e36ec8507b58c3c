-- ===== src/Sources/Marks.antt =====
-- What a verification (pkg/fscache/sourceverify.go) does to the records.
use go_aptcacher.Base.{
  ℕ, ◌≡◌, ◌≢◌, refl, ap, ◌∙◌, Bool, true, false, ◌&&◌, ◌||◌, List, [], ◌∷◌, ◌++◌, Option, none,
  some, ◌⊎◌, arith, if◌then◌else◌, ◌==◌, ==_iff, Bool-cases, inl, inr, All,
}
use mathlib.Core.List.{Memᴰ}
use mathlib.Core.List.Memᴰ.{head, tail}
use go_aptcacher.Base.Text.{Text, codes, text_eq, text_eq_iff, text_eq_refl, has_suffix}
use go_aptcacher.Base.Map.{Map, lookup}
use go_aptcacher.Keys.{access_cache_key, access_cache_key_injective, Without, bar}
use go_aptcacher.Locks.{Time}
use go_aptcacher.Access.{Record, Env, AccessCache}
use go_aptcacher.Access.Methods.{mark_fields, mark_for_deletion}
use go_aptcacher.Sources.{
  VerificationRecord, url_path, differs, fails_checksum, fails_verification, verify_deb_entry,
  verify_deb_entries,
}
use go_aptcacher.Sources.Mark.{found, map_record, found-mark_same, found-mark_other}

-- The verification tests the file of a record, and marks it if it fails.
module _ (e : Env) (sha256 : Text → Text) (now : Time) (files : Map Text)
    (checksums : Map Text) where
  -- A package of the place fails the verification.
  unfoldable pub condemned : ℕ → Text → Text → List VerificationRecord → Bool
  condemned p d q [] = false
  condemned p d q (v ∷ vs) =
      ((v.protocol == p) && (text_eq v.domain d && text_eq v.path q))
        && (has_suffix (codes ".deb") v.path && fails_verification e sha256 now files checksums v)
      || condemned p d q vs

  abbrev pub marked_if : Bool → Option Record → Option Record
  marked_if true o = map_record (mark_fields now) o
  marked_if false o = o

  mark_twice :
      (o : Option Record)
      → map_record (mark_fields now) (map_record (mark_fields now) o)
        ≡ map_record (mark_fields now) o
  unfolding mark_fields
  mark_twice none = refl
  mark_twice (some r) = refl

  marked_if-or :
      (a b : Bool) (o : Option Record) → marked_if b (marked_if a o) ≡ marked_if (a || b) o
  marked_if-or true true o = mark_twice o
  marked_if-or true false o = refl
  marked_if-or false b o = refl

  same_place_lem :
      (v : VerificationRecord) (p : ℕ) (d q : Text)
      → Without bar v.domain
      → Without bar d
      → (v.protocol == p) && (text_eq v.domain d && text_eq v.path q)
        ≡ text_eq (access_cache_key v.protocol v.domain v.path) (access_cache_key p d q)
  same_place_lem v p d q hv hd =
      let same = λ (t : access_cache_key v.protocol v.domain v.path ≡ access_cache_key p d q).
        access_cache_key_injective v.protocol p v.domain d v.path q hv hd t in
      elim (Bool-cases
        (text_eq (access_cache_key v.protocol v.domain v.path) (access_cache_key p d q))) [
          | inl t ↦
              let (protocols, domains, paths) = same ((text_eq_iff _ _).0 t) in
              rw t (
                rw ((==_iff v.protocol p).1 protocols)
                  (rw ((text_eq_iff v.domain d).1 domains) ((text_eq_iff v.path q).1 paths)))
          | inr t ↦ rw t (
              ground (
                arith,
                ==_iff v.protocol p,
                text_eq_iff v.domain d,
                text_eq_iff v.path q,
                text_eq_iff (access_cache_key v.protocol v.domain v.path) (access_cache_key p d q),
              ))
        ]

  marked_if-none : (b : Bool) (o : Option Record) → o ≡ marked_if (b && false) o
  marked_if-none true o = refl
  marked_if-none false o = refl

  marking_step :
      (v : VerificationRecord) (p : ℕ) (d q : Text) (c : AccessCache)
      → Without bar v.domain
      → Without bar d
      → found e p d q (mark_for_deletion e now v.protocol v.domain v.path c)
        ≡ marked_if
            (text_eq (access_cache_key v.protocol v.domain v.path) (access_cache_key p d q) && true)
            (found e p d q c)
  marking_step v p d q c hv hd =
      elim (Bool-cases
        (text_eq (access_cache_key v.protocol v.domain v.path) (access_cache_key p d q))) [
          | inl t ↦
              let (protocols, domains, paths) =
                access_cache_key_injective v.protocol p v.domain d v.path q hv hd
                  ((text_eq_iff _ _).0 t) in
              rw t (
                rw (← protocols) (
                  rw (← domains)
                    (rw (← paths) (found-mark_same e now v.protocol v.domain v.path c))))
          | inr t ↦ rw t (found-mark_other e now v.protocol v.domain v.path p d q c t)
        ]

  entry_step :
      (v : VerificationRecord) (p : ℕ) (d q : Text) (c : AccessCache)
      → Without bar v.domain
      → Without bar d
      → found e p d q (
          if has_suffix (codes ".deb") v.path
          then verify_deb_entry e sha256 now files checksums v c
          else c)
        ≡ marked_if
            (((v.protocol == p) && (text_eq v.domain d && text_eq v.path q))
              && (has_suffix (codes ".deb") v.path
                  && fails_verification e sha256 now files checksums v))
            (found e p d q c)
  unfolding verify_deb_entry
  entry_step v p d q c hv hd =
      rw (same_place_lem v p d q hv hd) (elim (Bool-cases (has_suffix (codes ".deb") v.path)) [
        | inr t ↦ rw t (
            marked_if-none
              (text_eq (access_cache_key v.protocol v.domain v.path) (access_cache_key p d q)) _)
        | inl t ↦ rw t (elim (Bool-cases (fails_verification e sha256 now files checksums v)) [
          | inr f ↦ rw f (
              marked_if-none
                (text_eq (access_cache_key v.protocol v.domain v.path) (access_cache_key p d q)) _)
          | inl f ↦ rw f (marking_step v p d q c hv hd)
        ])
      ])

  found-verify_deb_entries :
      (vs : List VerificationRecord) (p : ℕ) (d q : Text) (c : AccessCache)
      → All (λ v. Without bar v.domain) vs
      → Without bar d
      → found e p d q (verify_deb_entries e sha256 now files checksums vs c)
        ≡ marked_if (condemned p d q vs) (found e p d q c)
  unfolding verify_deb_entries condemned
  found-verify_deb_entries [] p d q c hs hd = refl
  found-verify_deb_entries (v ∷ vs) p d q c hs hd =
      found-verify_deb_entries vs p d q _ hs.1 hd
      ∙ (ap (marked_if (condemned p d q vs)) (entry_step v p d q c hs.0 hd)
          ∙ marked_if-or _ (condemned p d q vs) (found e p d q c))

  -- What a package is marked for: no index lists it, or the file is there with another checksum.
  abbrev pub Broken : VerificationRecord → Type 0
  Broken v =
      (lookup (v.domain ++ v.path) checksums ≡ none)
      ⊎ ((expected content : Text) × (lookup (v.domain ++ v.path) checksums ≡ some expected)
          × (lookup (url_path e sha256 now files v.entry.url) files ≡ some content)
          × (sha256 content ≢ expected))

  fails-Broken :
      (v : VerificationRecord) → Broken v → fails_verification e sha256 now files checksums v ≡ true
  unfolding fails_verification fails_checksum differs
  fails-Broken v (inl h) = rw h refl
  fails-Broken v (inr (expected, content, h, k, ne)) =
      rw h (rw k (ground (arith, text_eq_iff (sha256 content) expected)))

  Broken-of_differs :
      (v : VerificationRecord) (expected : Text) (o : Option Text)
      → lookup (v.domain ++ v.path) checksums ≡ some expected
      → lookup (url_path e sha256 now files v.entry.url) files ≡ o
      → differs e sha256 now files expected o ≡ true
      → Broken v
  unfolding differs
  Broken-of_differs v expected none h k f = absurd (cc (f))
  Broken-of_differs v expected (some content) h k f =
      inr (
        expected,
        content,
        h,
        k,
        λ t. absurd (ground (arith, text_eq_iff (sha256 content) expected)),
      )

  Broken-of_fails :
      (v : VerificationRecord) (o : Option Text)
      → lookup (v.domain ++ v.path) checksums ≡ o
      → fails_checksum e sha256 now files o v ≡ true
      → Broken v
  unfolding fails_checksum
  Broken-of_fails v none h f = inl h
  Broken-of_fails v (some expected) h f = Broken-of_differs v expected _ h refl f

  condemned-of_Mem :
      (v : VerificationRecord) (vs : List VerificationRecord)
      → Memᴰ v vs
      → has_suffix (codes ".deb") v.path ≡ true
      → Broken v
      → condemned v.protocol v.domain v.path vs ≡ true
  unfolding condemned
  condemned-of_Mem v [] m deb b = elim m [ ]
  condemned-of_Mem v (x ∷ vs) (head same) deb b = rw (← same) (
      rw
        (
          (==_iff v.protocol v.protocol).1 refl,
          text_eq_refl v.domain,
          text_eq_refl v.path,
          deb,
          fails-Broken v b,
        )
        refl)
  condemned-of_Mem v (x ∷ vs) (tail m) deb b = ground (arith, condemned-of_Mem v vs m deb b)

  condemned-of_none :
      (p : ℕ) (d q : Text) (vs : List VerificationRecord)
      → ((v : VerificationRecord)
          → Memᴰ v vs
          → (v.protocol ≡ p) × (v.domain ≡ d) × (v.path ≡ q)
          → has_suffix (codes ".deb") v.path ≡ true
          → Broken v
          → ⊥)
      → condemned p d q vs ≡ false
  unfolding condemned
  condemned-of_none p d q [] h = refl
  condemned-of_none p d q (v ∷ vs) h =
      let place = (v.protocol == p) && (text_eq v.domain d && text_eq v.path q) in
      let broken =
        has_suffix (codes ".deb") v.path && fails_verification e sha256 now files checksums v in
      let rest = condemned-of_none p d q vs (λ v' m. h v' (tail m)) in
      elim (Bool-cases (place && broken)) [
        | inr f ↦ rw f rest
        | inl t ↦ absurd (
            h v (head refl)
              (
                ground (arith, ==_iff v.protocol p),
                ground (arith, text_eq_iff v.domain d),
                ground (arith, text_eq_iff v.path q),
              )
              (ground arith)
              (Broken-of_fails v _ refl (unfold fails_verification in (ground arith))))
      ]

  -- A verification marks every package that no index lists, and every one whose file is there with
  -- another checksum than an index says: Get and the other methods find the record that they found
  -- before, in memory or on the disk, with the mark and the time of the verification. No domain holds
  -- a vertical bar.
  pub verify_deb_entries_marks :
      (vs : List VerificationRecord) (v : VerificationRecord) (c : AccessCache)
      → All (λ x. Without bar x.domain) vs
      → Without bar v.domain
      → Memᴰ v vs
      → has_suffix (codes ".deb") v.path ≡ true
      → Broken v
      → found e v.protocol v.domain v.path (verify_deb_entries e sha256 now files checksums vs c)
        ≡ map_record (mark_fields now) (found e v.protocol v.domain v.path c)
  verify_deb_entries_marks vs v c hs hd m deb b =
      found-verify_deb_entries vs v.protocol v.domain v.path c hs hd
      ∙ rw (condemned-of_Mem v vs m deb b) refl

  -- A verification leaves every other record as it was, in memory or on the disk: one that is not of a
  -- package, whose file is not there, or whose file has the checksum of the index. No domain holds a
  -- vertical bar.
  pub verify_deb_entries_spares :
      (vs : List VerificationRecord) (p : ℕ) (d q : Text) (c : AccessCache)
      → All (λ x. Without bar x.domain) vs
      → Without bar d
      → ((v : VerificationRecord)
          → Memᴰ v vs
          → (v.protocol ≡ p) × (v.domain ≡ d) × (v.path ≡ q)
          → has_suffix (codes ".deb") v.path ≡ true
          → Broken v
          → ⊥)
      → found e p d q (verify_deb_entries e sha256 now files checksums vs c) ≡ found e p d q c
  verify_deb_entries_spares vs p d q c hs hd h =
      found-verify_deb_entries vs p d q c hs hd ∙ rw (condemned-of_none p d q vs h) refl
