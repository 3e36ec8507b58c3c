-- ===== src/Cleaner/Release.antt =====
-- The reader of InRelease files of pkg/debrepocleaner/debrepocleaner.go: readInRelease and New.
use go_aptcacher.Base.{
  ℕ, ◌+◌, ◌-◌, ◌*◌, ◌^◌, Bool, not, ◌&&◌, ◌||◌, List, [], ◌∷◌, ◌++◌, Option, none, some, ltb, leb,
  ◌==◌, if◌then◌else◌,
}
use go_aptcacher.Base.Int.{ℤ, pos, sub_ℕ}
use go_aptcacher.Base.Text.{Text, codes, is_empty, text_eq, has_prefix, trim_space}
use go_aptcacher.FilePath.{join_paths}
use go_aptcacher.Sources.Scan.{split_by, is_newline, fields}
use go_aptcacher.Locks.{Time}
use go_aptcacher.Cleaner.Checksum.{
  ChecksumAlgorithm, ChecksumSum, checksum_algorithm_from_block_header,
}

-- RepositoryCleanup
pub record RepositoryCleanup : Type 0 where
  pub path : Text
  pub distrib : Text
  pub components : List Text
  pub architectures : List Text
  pub date : Option Time
  pub valid_until : Option Time
  pub checksums : List ChecksumSum

-- What becomes of a call: its result, an error, or a panic.
pub data Outcome (A : Type 0) : Type 0 where
  returned : A → Outcome A
  failed panicked : Outcome A

-- The digits of a number, behind those that are read.
unfoldable parse_digits : ℕ → Text → Option ℕ
parse_digits n [] = some n
parse_digits n (c ∷ cs) =
    let rest = parse_digits (n * 10 + (c - b'0')) cs in
    if leb b'0' c && leb c b'9' then rest else none

-- strconv.ParseUint(s, 10, 64), before its test of the range.
unfoldable parse_uint : Text → Option ℕ
unfolding parse_digits
parse_uint [] = none
parse_uint (c ∷ cs) = parse_digits 0 (c ∷ cs)

abbrev positive : Option ℕ → Option ℤ
positive none = none
positive (some n) = if ltb n (2 ^ 63) then some (pos n) else none

abbrev negative : Option ℕ → Option ℤ
negative none = none
negative (some n) = if leb n (2 ^ 63) then some (sub_ℕ 0 n) else none

-- strconv.ParseInt(s, 10, 64)
unfoldable parse_int : Text → Option ℤ
unfolding parse_uint
parse_int [] = none
parse_int (c ∷ cs) =
    if c == b'-'
    then negative (parse_uint cs)
    else if c == b'+'
    then positive (parse_uint cs)
    else positive (parse_uint (c ∷ cs))

-- strings.Join(parts, " ")
unfoldable join_words : List Text → Text
join_words [] = []
join_words (p ∷ []) = p
join_words (p ∷ q ∷ ps) = p ++ b' ' ∷ join_words (q ∷ ps)

abbrev is_blank : ℕ → Bool
is_blank c = c == b' '

-- The variables of the loop.
pub record ReleaseState : Type 0 where
  pub algorithm : Option ChecksumAlgorithm
  pub cleanup : RepositoryCleanup
  pub checksums : List ChecksumSum

-- A line of a block: parts[2] is read after the size.
unfoldable sum_of : ChecksumAlgorithm → Text → Option ℤ → List Text → Outcome ChecksumSum
sum_of a h none rest = failed
sum_of a h (some n) [] = panicked
sum_of a h (some n) (f ∷ fs) = returned (record { algorithm = a; hash = h; file = f; size = n })

unfoldable sum_of_parts : ChecksumAlgorithm → List Text → Outcome ChecksumSum
unfolding sum_of parse_int
sum_of_parts a [] = panicked
sum_of_parts a (h ∷ []) = panicked
sum_of_parts a (h ∷ n ∷ rest) = sum_of a h (parse_int n) rest

abbrev add_sum : Outcome ChecksumSum → ReleaseState → Outcome ReleaseState
add_sum (returned sum) t = returned (record t { checksums = t.checksums ++ sum ∷ [] })
add_sum failed t = failed
add_sum panicked t = panicked

unfoldable checksum_line : ChecksumAlgorithm → Text → ReleaseState → Outcome ReleaseState
unfolding sum_of_parts fields join_words split_by
checksum_line a line t =
    add_sum (sum_of_parts a (split_by is_blank (trim_space (join_words (fields line))))) t

-- strings.Cut(s, ":")
unfoldable cut_colon : Text → Option (Text × Text)
cut_colon [] = none
cut_colon (c ∷ cs) =
    let rest = cut_colon cs in
    if c == b':' then some ([], cs) else (elim rest [ none ↦ none | some p ↦ some (c ∷ p.0, p.1) ])

abbrev pub fresh_cleanup : Text → Text → RepositoryCleanup
fresh_cleanup path distrib = record {
  path = path;
  distrib = distrib;
  components = [];
  architectures = [];
  date = none;
  valid_until = none;
  checksums = [];
}

-- time.Parse with the layout of the dates, "Mon, 2 Jan 2006 15:04:05 UTC".
module _ (parse_date : Text → Option Time) where
  abbrev set_date : Option Time → ReleaseState → Outcome ReleaseState
  set_date none t = failed
  set_date (some d) t = returned (record t { cleanup = record (t.cleanup) { date = some d } })

  abbrev set_valid_until : Option Time → ReleaseState → Outcome ReleaseState
  set_valid_until none t = failed
  set_valid_until (some d) t =
      returned (record t { cleanup = record (t.cleanup) { valid_until = some d } })

  unfoldable field_line : Option (Text × Text) → ReleaseState → Outcome ReleaseState
  unfolding split_by
  field_line none t = returned t
  field_line (some (k, v)) t =
      let key = trim_space k in
      let value = trim_space v in
      let words = split_by is_blank value in
      if text_eq key (codes "Components")
      then returned (record t { cleanup = record (t.cleanup) { components = words } })
      else if text_eq key (codes "Architectures")
      then returned (record t { cleanup = record (t.cleanup) { architectures = words } })
      else if text_eq key (codes "Date")
      then set_date (parse_date value) t
      else if text_eq key (codes "Valid-Until")
      then set_valid_until (parse_date value) t
      else returned t

  unfoldable other_line : Option ChecksumAlgorithm → Text → ReleaseState → Outcome ReleaseState
  unfolding field_line cut_colon checksum_line
  other_line none line t = field_line (cut_colon line) t
  other_line (some a) line t =
      if is_empty line || not (has_prefix (codes " ") line)
      then field_line (cut_colon line) (record t { algorithm = none })
      else checksum_line a line t

  abbrev header_or : Option ChecksumAlgorithm → Text → ReleaseState → Outcome ReleaseState
  header_or (some a) line t = returned (record t { algorithm = some a })
  header_or none line t = other_line t.algorithm line t

  -- The body of the loop.
  unfoldable in_release_line : Text → ReleaseState → Outcome ReleaseState
  unfolding other_line checksum_algorithm_from_block_header
  in_release_line line t = header_or (checksum_algorithm_from_block_header line) line t

  -- The loop of readInRelease.
  unfoldable in_release_lines : List Text → Outcome ReleaseState → Outcome ReleaseState
  unfolding in_release_line
  in_release_lines [] t = t
  in_release_lines (l ∷ ls) failed = failed
  in_release_lines (l ∷ ls) panicked = panicked
  in_release_lines (l ∷ ls) (returned t) = in_release_lines ls (in_release_line l t)

  abbrev kept_checksums : Outcome ReleaseState → Outcome RepositoryCleanup
  kept_checksums (returned t) = returned (record (t.cleanup) { checksums = t.checksums })
  kept_checksums failed = failed
  kept_checksums panicked = panicked

  unfoldable pub read_contents : Option Text → RepositoryCleanup → Outcome RepositoryCleanup
  unfolding in_release_lines split_by
  read_contents none cl = failed
  read_contents (some contents) cl = kept_checksums (
      in_release_lines (split_by is_newline contents)
        (returned (record { algorithm = none; cleanup = cl; checksums = [] })))

  -- readInRelease, with the reader of whole files.
  unfoldable pub read_in_release :
      (Text → Option Text) → RepositoryCleanup → Outcome RepositoryCleanup
  unfolding read_contents join_paths
  read_in_release read_file cl =
      read_contents
        (read_file (join_paths (cl.path ∷ codes "dists" ∷ cl.distrib ∷ codes "InRelease" ∷ []))) cl

  -- New
  unfoldable pub new : (Text → Option Text) → Text → Text → Outcome RepositoryCleanup
  unfolding read_in_release
  new read_file path distrib = read_in_release read_file (fresh_cleanup path distrib)
