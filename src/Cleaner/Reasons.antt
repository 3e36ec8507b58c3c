-- ===== src/Cleaner/Reasons.antt =====
-- Why VerifyChecksums (pkg/debrepocleaner/debrepocleaner.go) may report a file.
use mathlib.Core.List.{Memᴰ}
use mathlib.Core.List.Memᴰ.{head, tail}
use go_aptcacher.Base.{◌≡◌, sym, inl, inr, true, false, List, [], ◌∷◌, some, Bool-cases}
use go_aptcacher.Base.Text.{Text, codes, text_eq, has_suffix}
use go_aptcacher.Base.Map.{Map}
use go_aptcacher.Cleaner.Checksum.{
  ChecksumAlgorithm, ChecksumSum, ChecksumValue, select_preferred_repository_checksums,
}
use go_aptcacher.Cleaner.Release.{RepositoryCleanup}
use go_aptcacher.Cleaner.Packages.{Decompressors, parse_packages_file}
use go_aptcacher.Cleaner.Verify.{
  is_packages_index_file, Disk, generate_checksum_hash, package_path, index_path, add_path,
}
use go_aptcacher.Cleaner.Preferred.{Mem-swapped}

Mem-add_path : (p q : Text) (ps : List Text) → Memᴰ p (add_path q ps) → Memᴰ p (q ∷ ps)
unfolding add_path
Mem-add_path p q [] h = h
Mem-add_path p q (r ∷ ps) h = elim (Bool-cases (text_eq r q)) [
  | inl e ↦ tail (rw e at h)
  | inr e ↦ Mem-swapped p q r ps (add_path q ps) (Mem-add_path p q ps) (rw e at h)
]

module _ (disk : Disk) (d : Decompressors) (sum_hash : ChecksumAlgorithm → Text → Text)
    (cl : RepositoryCleanup) where
  abbrev pub selected : List ChecksumSum
  selected = select_preferred_repository_checksums cl.checksums

  -- The file is there and has another hash.
  pub record Differs (path : Text) (a : ChecksumAlgorithm) (hash : Text) : Type 0 where
    pub present : disk.stat path ≡ some true
    pub actual : Text
    pub hashed : generate_checksum_hash disk d sum_hash path a ≡ some actual
    pub differs : text_eq actual hash ≡ false

  -- A package that a selected index of packages lists with a checksum.
  pub record Listed (file : Text) (v : ChecksumValue) : Type 0 where
    pub sum : ChecksumSum
    pub mem : Memᴰ sum selected
    pub is_index : is_packages_index_file sum.file ≡ true
    pub packages : Map ChecksumValue
    pub parsed : parse_packages_file d disk.read_file (index_path cl sum.file) ≡ some packages
    pub listed : Memᴰ (file, v) packages
    pub deb : has_suffix (codes ".deb") file ≡ true

  -- Why a path may be reported: an index or a package with another hash, or two hashes for a package.
  pub data Reported (path : Text) : Type 0 where
    wrong_index :
        (sum : ChecksumSum)
        → Memᴰ sum selected
        → path ≡ index_path cl sum.file
        → Differs path sum.algorithm sum.hash
        → Reported path
    wrong_package :
        (file : Text) (v : ChecksumValue)
        → Listed file v
        → path ≡ package_path cl file
        → Differs path v.algorithm v.hash
        → Reported path
    two_hashes :
        (file : Text) (u v : ChecksumValue)
        → Listed file u
        → Listed file v
        → u.algorithm ≡ v.algorithm
        → text_eq u.hash v.hash ≡ false
        → path ≡ package_path cl file
        → Reported path

  abbrev pub AllReported : List Text → Type 0
  AllReported ps = (p : Text) → Memᴰ p ps → Reported p

  pub add_path-AllReported :
      (q : Text) (ps : List Text) → Reported q → AllReported ps → AllReported (add_path q ps)
  add_path-AllReported q ps r a p m = elim (Mem-add_path p q ps m) [
    | head e ↦ rw (sym e) at r
    | tail k ↦ a p k
  ]
