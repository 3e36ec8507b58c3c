-- ===== src/Sources/RoundTrip.antt =====
-- What parsePackages (pkg/fscache/sourceverify.go) reads of an index.
use go_aptcacher.Base.{
  ◌<◌, ◌≡◌, refl, ap, ◌∙◌, false, List, [], ◌∷◌, ◌++◌, none, lt→ltb, length, All,
}
use mathlib.Core.List.{append_assoc}
use go_aptcacher.Base.Text.{Text, codes, is_empty, cut_prefix, trim_space}
use go_aptcacher.Base.Map.{Map, insert}
use go_aptcacher.Sources.Scan.{
  add_front, split_by, is_newline, drop_last_empty, drop_cr, max_scan_token_size, scanned,
  scan_lines,
}
use go_aptcacher.Sources.Parse.{
  PackagesState, keep_package, sha_line, filename_line, packages_lines, parse_packages,
}

-- The lines of a file, each with its newline.
unfoldable pub unlines : List Text → Text
unlines [] = []
unlines (l ∷ ls) = l ++ 10 ∷ unlines ls

-- A line that a scanner gives as it is: it has no newline, does not end with a carriage return, and
-- fits the buffer.
pub record IsLine (l : Text) : Type 0 where
  pub one : All (λ c. is_newline c ≡ false) l
  pub no_cr : drop_cr l ≡ l
  pub short : length l < max_scan_token_size

split_by-line :
    (l s : Text)
    → All (λ c. is_newline c ≡ false) l
    → split_by is_newline (l ++ 10 ∷ s) ≡ l ∷ split_by is_newline s
unfolding split_by
split_by-line [] s h = refl
split_by-line (c ∷ l) s h = rw h.0 (rw (split_by-line l s h.1) (unfold add_front in refl))

split_by-unlines :
    (ls : List Text) → All IsLine ls → split_by is_newline (unlines ls) ≡ ls ++ [] ∷ []
unfolding unlines
split_by-unlines [] h = unfold split_by in refl
split_by-unlines (l ∷ ls) h =
    split_by-line l (unlines ls) h.0.one ∙ ap (λ (x : List Text). l ∷ x) (split_by-unlines ls h.1)

drop_last_empty-snoc : (ls : List Text) → drop_last_empty (ls ++ [] ∷ []) ≡ ls
unfolding drop_last_empty
drop_last_empty-snoc [] = refl
drop_last_empty-snoc (l ∷ []) = refl
drop_last_empty-snoc (l ∷ m ∷ ls) = ap (λ (x : List Text). l ∷ x) (drop_last_empty-snoc (m ∷ ls))

scanned-lines : (ls : List Text) → All IsLine ls → scanned ls ≡ ls
unfolding scanned
scanned-lines [] h = refl
scanned-lines (l ∷ ls) h =
    rw (lt→ltb (length l) max_scan_token_size h.0.short)
      (rw (h.0.no_cr) (ap (λ (x : List Text). l ∷ x) (scanned-lines ls h.1)))

pub scan_lines-unlines : (ls : List Text) → All IsLine ls → scan_lines (unlines ls) ≡ ls
unfolding scan_lines
scan_lines-unlines ls h =
    rw (split_by-unlines ls h) (rw (drop_last_empty-snoc ls) (scanned-lines ls h))

-- A paragraph of an index: the two fields that are read, among other ones.
pub record Paragraph : Type 0 where
  pub before : List Text
  pub filename : Text
  pub between : List Text
  pub sha : Text
  pub after : List Text

-- The lines of a paragraph, and the empty one behind it.
unfoldable pub paragraph_lines : Paragraph → List Text
paragraph_lines p =
    p.before
    ++ ((codes "Filename: " ++ p.filename)
        ∷ (p.between ++ ((codes "SHA256: " ++ p.sha) ∷ (p.after ++ [] ∷ []))))

unfoldable pub index_lines : List Paragraph → List Text
unfolding paragraph_lines
index_lines [] = []
index_lines (p ∷ ps) = paragraph_lines p ++ index_lines ps

-- The checksums of the paragraphs; a file that is named twice has the last one.
unfoldable pub checksums_from : Map Text → List Paragraph → Map Text
checksums_from m [] = m
checksums_from m (p ∷ ps) = checksums_from (insert p.filename p.sha m) ps

-- A line of another field.
pub record IsOther (l : Text) : Type 0 where
  pub not_filename : cut_prefix (codes "Filename:") l ≡ none
  pub not_sha : cut_prefix (codes "SHA256:") l ≡ none
  pub not_empty : is_empty l ≡ false

pub record IsParagraph (p : Paragraph) : Type 0 where
  pub before : All IsOther p.before
  pub between : All IsOther p.between
  pub after : All IsOther p.after
  pub filename : is_empty p.filename ≡ false
  pub trimmed : trim_space (32 ∷ p.filename) ≡ p.filename
  pub sha : is_empty p.sha ≡ false
  pub sha_trimmed : trim_space (32 ∷ p.sha) ≡ p.sha

packages_lines-cons :
    (l : Text) (ls : List Text) (t : PackagesState)
    → packages_lines (l ∷ ls) t
      ≡ packages_lines ls (filename_line (cut_prefix (codes "Filename:") l) l t)
unfolding packages_lines
packages_lines-cons l ls t = refl

other_line :
    (l : Text) (t : PackagesState)
    → IsOther l
    → filename_line (cut_prefix (codes "Filename:") l) l t ≡ t
unfolding filename_line
other_line l t h = rw (h.not_filename) (rw (h.not_sha) (unfold sha_line in rw (h.not_empty) refl))

packages_lines-others :
    (ls rest : List Text) (t : PackagesState)
    → All IsOther ls
    → packages_lines (ls ++ rest) t ≡ packages_lines rest t
packages_lines-others [] rest t h = refl
packages_lines-others (l ∷ ls) rest t h =
    packages_lines-cons l (ls ++ rest) t
    ∙ (ap (packages_lines (ls ++ rest)) (other_line l t h.0) ∙ packages_lines-others ls rest t h.1)

abbrev fresh : Map Text → PackagesState
fresh m = record { filename = []; sha = []; sums = m }

packages_lines-filename :
    (name : Text) (rest : List Text) (t : PackagesState)
    → packages_lines ((codes "Filename: " ++ name) ∷ rest) t
      ≡ packages_lines rest (record t { filename = trim_space (32 ∷ name) })
packages_lines-filename name rest t =
    packages_lines-cons (codes "Filename: " ++ name) rest t
    ∙ (unfold filename_line cut_prefix in refl)

packages_lines-sha :
    (sha : Text) (rest : List Text) (t : PackagesState)
    → packages_lines ((codes "SHA256: " ++ sha) ∷ rest) t
      ≡ packages_lines rest (record t { sha = trim_space (32 ∷ sha) })
packages_lines-sha sha rest t =
    packages_lines-cons (codes "SHA256: " ++ sha) rest t
    ∙ (unfold filename_line cut_prefix sha_line in refl)

packages_lines-end :
    (rest : List Text) (t : PackagesState)
    → is_empty t.filename ≡ false
    → is_empty t.sha ≡ false
    → packages_lines ([] ∷ rest) t ≡ packages_lines rest (fresh (insert t.filename t.sha t.sums))
packages_lines-end rest t h k =
    packages_lines-cons [] rest t
    ∙ (unfold filename_line cut_prefix sha_line keep_package in rw (h, k) refl)

-- The fields of a paragraph, one after the other.
packages_lines-paragraph :
    (p : Paragraph) (rest : List Text) (m : Map Text)
    → IsParagraph p
    → packages_lines (paragraph_lines p ++ rest) (fresh m)
      ≡ packages_lines rest (fresh (insert p.filename p.sha m))
unfolding paragraph_lines
packages_lines-paragraph p rest m h =
    let named : PackagesState = record { filename = p.filename; sha = []; sums = m } in
    let hashed : PackagesState = record { filename = p.filename; sha = p.sha; sums = m } in
    let tail3 = p.after ++ [] ∷ rest in
    let tail2 = p.between ++ ((codes "SHA256: " ++ p.sha) ∷ tail3) in
    ap (λ (x : List Text). packages_lines x (fresh m)) (simp append_assoc)
    ∙ (packages_lines-others p.before ((codes "Filename: " ++ p.filename) ∷ tail2) (fresh m)
          h.before
        ∙ (packages_lines-filename p.filename tail2 (fresh m)
            ∙ (ap (λ (x : Text). packages_lines tail2 (record { filename = x; sha = []; sums = m }))
                  h.trimmed
                ∙ (packages_lines-others p.between ((codes "SHA256: " ++ p.sha) ∷ tail3) named
                      h.between
                    ∙ (packages_lines-sha p.sha tail3 named
                        ∙ (ap
                              (λ (x : Text).
                                packages_lines tail3
                                  (record { filename = p.filename; sha = x; sums = m }))
                              h.sha_trimmed
                            ∙ (packages_lines-others p.after ([] ∷ rest) hashed h.after
                                ∙ packages_lines-end rest hashed h.filename h.sha)))))))

packages_lines-index :
    (ps : List Paragraph) (m : Map Text)
    → All IsParagraph ps
    → packages_lines (index_lines ps) (fresh m) ≡ fresh (checksums_from m ps)
unfolding index_lines checksums_from
packages_lines-index [] m h = unfold packages_lines in refl
packages_lines-index (p ∷ ps) m h =
    packages_lines-paragraph p (index_lines ps) m h.0
    ∙ packages_lines-index ps (insert p.filename p.sha m) h.1

-- The parser reads back an index of any paragraphs, each with a name and a checksum that have no spaces
-- around them, among lines of other fields: it gives the checksum of each file, and the last one where
-- a file is named twice. The lines have no newline, do not end with a carriage return, and are shorter
-- than the 65536 bytes of the scanner's buffer.
pub parse_packages-unlines :
    (ps : List Paragraph)
    → All IsParagraph ps
    → All IsLine (index_lines ps)
    → parse_packages (unlines (index_lines ps)) ≡ checksums_from [] ps
unfolding parse_packages
parse_packages-unlines ps h k =
    rw (scan_lines-unlines (index_lines ps) k)
      (rw (packages_lines-index ps [] h) (unfold keep_package in refl))
