-- ===== src/Sources/Offline.antt =====
-- A verification (pkg/fscache/sourceverify.go) that reaches no server.
use go_aptcacher.Base.{◌≡◌, refl, true, List, [], ◌∷◌, none, inl, All}
use mathlib.Core.List.{Memᴰ}
use go_aptcacher.Base.Text.{Text, codes, has_suffix}
use go_aptcacher.Base.Map.{Map, lookup}
use go_aptcacher.Keys.{Without, bar}
use go_aptcacher.Locks.{Time}
use go_aptcacher.Access.{Env, AccessCache}
use go_aptcacher.Access.Methods.{mark_fields}
use go_aptcacher.Expire.{collect_access_cache_records}
use go_aptcacher.Sources.{
  VerificationRecord, ReleaseReference, Web, release_of, fetch_release_sha256, add_release,
  collect_release_package_checksums, add_releases, collect_package_checksums,
  collect_release_references, normalize_verification_records, verify_sources,
}
use go_aptcacher.Sources.Mark.{found, map_record}
use go_aptcacher.Sources.Marks.{verify_deb_entries_marks}

module _ (e : Env) (web : Web) (offline : (url : Text) → web.get url ≡ none) where
  release_offline :
      (r : ReleaseReference) (checksums : Map Text)
      → collect_release_package_checksums e web r checksums ≡ checksums
  unfolding collect_release_package_checksums fetch_release_sha256
  release_offline r checksums = rw (offline r.url) (unfold release_of add_release in refl)

  releases_offline :
      (rs : List ReleaseReference) (checksums : Map Text)
      → add_releases e web rs checksums ≡ checksums
  unfolding add_releases
  releases_offline [] checksums = refl
  releases_offline (r ∷ rs) checksums =
      rw (release_offline r checksums) (releases_offline rs checksums)

  -- Where no server answers, a verification marks every cached package for deletion, whether or not its
  -- file is what the repository has: its record is found, in memory or on the disk, with the mark and
  -- the time of the verification. No domain holds a vertical bar.
  pub verify_sources_offline :
      (sha256 : Text → Text) (now : Time) (files : Map Text) (c : AccessCache)
      (v : VerificationRecord)
      → All
          (λ x. Without bar x.domain)
          (normalize_verification_records (collect_access_cache_records e c))
      → Without bar v.domain
      → Memᴰ v (normalize_verification_records (collect_access_cache_records e c))
      → has_suffix (codes ".deb") v.path ≡ true
      → found e v.protocol v.domain v.path (verify_sources e sha256 now files web c)
        ≡ map_record (mark_fields now) (found e v.protocol v.domain v.path c)
  unfolding verify_sources collect_package_checksums
  verify_sources_offline sha256 now files c v hs hd m deb =
      let records = normalize_verification_records (collect_access_cache_records e c) in
      rw (releases_offline (collect_release_references e web records) []) (
        verify_deb_entries_marks e sha256 now files [] records v c hs hd m deb
          (inl (unfold lookup in refl)))
