-- ===== src/Sources.antt =====
-- The verification of cached packages against the indexes of their repositories:
-- pkg/fscache/sourceverify.go.
pub mod Scan
pub mod Parse
pub mod Mark
pub mod Marks
pub mod Offline
pub mod RoundTrip
mod Tests
use go_aptcacher.Base.{
  ℕ, Bool, true, false, not, ◌&&◌, ◌||◌, List, [], ◌∷◌, ◌++◌, Option, none, some, if◌then◌else◌,
  ◌==◌, reverse,
}
use go_aptcacher.Base.Text.{Text, codes, is_empty, text_eq, has_suffix}
use go_aptcacher.Base.Map.{Map, lookup, insert}
use go_aptcacher.FilePath.Resolve.{resolve_path}
use go_aptcacher.LocalPath.{Url, build_local_path}
use go_aptcacher.Locks.{Time}
use go_aptcacher.Access.{AccessEntry, Record, Env, AccessCache, normalize_access_entry}
use go_aptcacher.Access.Methods.{mark_for_deletion}
use go_aptcacher.Expire.{cut_suffix, collect_access_cache_records}
use go_aptcacher.Sources.Parse.{ShaFile, parse_release_sha256, parse_packages}

-- verificationRecord
pub record VerificationRecord : Type 0 where
  pub protocol : ℕ
  pub domain : Text
  pub path : Text
  pub entry : AccessEntry

-- releaseReference
pub record ReleaseReference : Type 0 where
  pub domain : Text
  pub url : Text

-- An answer to a GET: what can be read of its body, and whether that is all of it.
pub record Reply : Type 0 where
  pub status : ℕ
  pub body : Text
  pub complete : Bool

-- The other servers, and the decompressors: what can be read of a stream, if its reader starts at all.
pub record Web : Type 0 where
  pub get : Text → Option Reply
  pub gunzip : Text → Option Text
  pub bunzip2 : Text → Text
  pub unxz : Text → Option Text

-- The record and its URL.
unfoldable pub verification_record :
    Record → Text → AccessEntry → Option Url → Option VerificationRecord
verification_record r path entry none = none
verification_record r path entry (some u) = some (record {
  protocol = r.protocol;
  domain = if is_empty r.domain then u.host else r.domain;
  path = path;
  entry = entry;
})

unfoldable pub path_or : Text → Option Url → Text
path_or path none = path
path_or path (some u) = if is_empty path then u.path else path

-- normalizeVerificationRecord
unfoldable pub normalize_verification_record : Record → Option VerificationRecord
unfolding verification_record path_or
normalize_verification_record r =
    let entry = normalize_access_entry r.protocol r.domain r.path r.entry in
    verification_record r (path_or r.path r.entry.url) entry entry.url

abbrev pub keep_some : Option VerificationRecord → List VerificationRecord → List VerificationRecord
keep_some none vs = vs
keep_some (some v) vs = v ∷ vs

-- normalizeVerificationRecords
unfoldable pub normalize_verification_records : Map Record → List VerificationRecord
unfolding normalize_verification_record
normalize_verification_records [] = []
normalize_verification_records ((k, r) ∷ m) =
    keep_some (normalize_verification_record r) (normalize_verification_records m)

unfoldable pub trim_suffix : Text → Text → Text
unfolding cut_suffix
trim_suffix suffix s = elim (cut_suffix suffix s) [ none ↦ s | some t ↦ t ]

-- isPackagesIndexFile
unfoldable pub is_packages_index_file : Text → Bool
is_packages_index_file file =
    has_suffix (codes "Packages") file
    || has_suffix (codes "Packages.gz") file
    || has_suffix (codes "Packages.xz") file
    || has_suffix (codes "Packages.bz2") file

module _ (web : Web) where
  unfoldable pub release_of : Option Reply → Option (List ShaFile)
  release_of none = none
  release_of (some reply) =
      if (reply.status == 200) && reply.complete
      then some (parse_release_sha256 reply.body)
      else none

  -- fetchReleaseSHA256
  unfoldable pub fetch_release_sha256 : Text → Option (List ShaFile)
  unfolding release_of
  fetch_release_sha256 url = release_of (web.get url)

  -- The reader of fetchPackagesIndex.
  unfoldable pub unpack : Text → Text → Option Text
  unpack url body =
      if has_suffix (codes ".gz") url
      then web.gunzip body
      else if has_suffix (codes ".bz2") url
      then some (web.bunzip2 body)
      else if has_suffix (codes ".xz") url
      then web.unxz body
      else some body

  abbrev pub parsed : Option Text → Option (Map Text)
  parsed none = none
  parsed (some body) = some (parse_packages body)

  unfoldable pub packages_of : Text → Option Reply → Option (Map Text)
  unfolding unpack
  packages_of url none = none
  packages_of url (some reply) =
      if reply.status == 200 then parsed (unpack url reply.body) else none

  -- fetchPackagesIndex
  unfoldable pub fetch_packages_index : Text → Option (Map Text)
  unfolding packages_of
  fetch_packages_index url = packages_of url (web.get url)

  -- The innermost loop of collectReleasePackageChecksums.
  unfoldable pub add_packages : Text → Map Text → Map Text → Map Text
  add_packages prefix [] checksums = checksums
  add_packages prefix ((path, hash) ∷ packages) checksums =
      add_packages prefix packages (insert (prefix ++ path) hash checksums)

  abbrev pub add_index : Text → Option (Map Text) → Map Text → Map Text
  add_index prefix none checksums = checksums
  add_index prefix (some packages) checksums = add_packages prefix packages checksums

  -- The loop over the files of a release.
  unfoldable pub add_indexes : Text → Text → List ShaFile → Map Text → Map Text
  unfolding add_packages fetch_packages_index is_packages_index_file
  add_indexes release_base prefix [] checksums = checksums
  add_indexes release_base prefix (sum ∷ sums) checksums = add_indexes release_base prefix sums (
      if is_packages_index_file sum.file
      then add_index prefix (fetch_packages_index (release_base ++ sum.file)) checksums
      else checksums)

module _ (e : Env) (web : Web) where
  -- resolvePackagesRootPath
  unfoldable pub resolve_packages_root_path : Text → Option Text
  unfolding resolve_path
  resolve_packages_root_path release_base = elim (e.urls.parse (release_base ++ codes "../../")) [
    | none ↦ none
    | some u ↦ some (resolve_path u.path)
  ]

  unfoldable pub add_release :
      Text → Text → Option Text → Option (List ShaFile) → Map Text → Map Text
  unfolding add_indexes
  add_release domain release_base root none checksums = checksums
  add_release domain release_base none (some sums) checksums = checksums
  add_release domain release_base (some root) (some sums) checksums =
      add_indexes web release_base (domain ++ root) sums checksums

  -- collectReleasePackageChecksums
  unfoldable pub collect_release_package_checksums : ReleaseReference → Map Text → Map Text
  unfolding add_release resolve_packages_root_path fetch_release_sha256 trim_suffix
  collect_release_package_checksums release checksums =
      let release_base = trim_suffix (codes "InRelease") release.url in
      add_release release.domain release_base (resolve_packages_root_path release_base)
        (fetch_release_sha256 web release.url) checksums

  unfoldable pub add_releases : List ReleaseReference → Map Text → Map Text
  unfolding collect_release_package_checksums
  add_releases [] checksums = checksums
  add_releases (r ∷ rs) checksums = add_releases rs (collect_release_package_checksums r checksums)

  -- collectPackageChecksums
  unfoldable pub collect_package_checksums : List ReleaseReference → Map Text
  unfolding add_releases
  collect_package_checksums releases = add_releases releases []

  abbrev pub url_text : Option Url → Text
  url_text none = []
  url_text (some u) = e.urls.string u

  -- collectReleaseReferences
  unfoldable pub collect_release_references : List VerificationRecord → List ReleaseReference
  collect_release_references [] = []
  collect_release_references (v ∷ vs) =
      let rest = collect_release_references vs in
      if has_suffix (codes "/InRelease") v.path
      then record { domain = v.domain; url = url_text v.entry.url } ∷ rest
      else rest

-- GenerateSHA256Hash and sha256File read a file into its hash.
module _ (e : Env) (sha256 : Text → Text) (now : Time) (files : Map Text) where
  abbrev pub url_path : Option Url → Text
  url_path none = []
  url_path (some u) = build_local_path e.layout u

  -- The file is there, and has another checksum.
  unfoldable pub differs : Text → Option Text → Bool
  differs expected none = false
  differs expected (some content) = not (text_eq (sha256 content) expected)

  unfoldable pub fails_checksum : Option Text → VerificationRecord → Bool
  unfolding differs
  fails_checksum none v = true
  fails_checksum (some expected) v = differs expected (lookup (url_path v.entry.url) files)

  -- The tests of verifyDebEntry before MarkForDeletion.
  unfoldable pub fails_verification : Map Text → VerificationRecord → Bool
  unfolding fails_checksum
  fails_verification checksums v = fails_checksum (lookup (v.domain ++ v.path) checksums) v

  -- verifyDebEntry
  unfoldable pub verify_deb_entry : Map Text → VerificationRecord → AccessCache → AccessCache
  unfolding fails_verification
  verify_deb_entry checksums v c =
      if fails_verification checksums v
      then mark_for_deletion e now v.protocol v.domain v.path c
      else c

  -- verifyDebEntries
  unfoldable pub verify_deb_entries : Map Text → List VerificationRecord → AccessCache → AccessCache
  unfolding verify_deb_entry
  verify_deb_entries checksums [] c = c
  verify_deb_entries checksums (v ∷ vs) c =
      verify_deb_entries checksums vs
        (if has_suffix (codes ".deb") v.path then verify_deb_entry checksums v c else c)

  -- verifySources, where the directory of the cache can be read.
  unfoldable pub verify_sources : Web → AccessCache → AccessCache
  unfolding verify_deb_entries normalize_verification_records collect_release_references
      collect_package_checksums
  verify_sources web c =
      let records = normalize_verification_records (collect_access_cache_records e c) in
      verify_deb_entries
        (collect_package_checksums e web (collect_release_references e web records)) records c
