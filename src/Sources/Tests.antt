-- ===== src/Sources/Tests.antt =====
-- Runs of the verification of sources (pkg/fscache/sourceverify.go).
use go_aptcacher.Base.{◌≡◌, refl, true, false, [], ◌∷◌, ◌++◌, none, some, inl, inr, arith}
use mathlib.Core.Path.{subst}
use mathlib.Core.List.{Memᴰ}
use mathlib.Core.List.Memᴰ.{head, tail}
use go_aptcacher.Base.Text.{Text, codes, text_eq, has_suffix, cut_prefix, trim_left, trim_right}
use go_aptcacher.Base.Map.{Map, lookup, insert}
use go_aptcacher.Keys.{access_cache_key}
use go_aptcacher.Access.{
  AccessEntry, no_entry, Env, AccessCache, build_access_url, normalize_access_entry,
}
use go_aptcacher.Access.Methods.{mark_fields}
use go_aptcacher.Expire.{collect_access_cache_records}
use go_aptcacher.Sources.{
  VerificationRecord, Web, normalize_verification_records, verify_deb_entries, verify_sources,
}
use go_aptcacher.Sources.Mark.{found, map_record}
use go_aptcacher.Sources.Marks.{Broken, verify_deb_entries_marks, verify_deb_entries_spares}
use go_aptcacher.Sources.Offline.{verify_sources_offline}
use go_aptcacher.Sources.Parse.{parse_packages}
use go_aptcacher.Sources.Scan.{drop_cr}
use go_aptcacher.Sources.RoundTrip.{
  Paragraph, index_lines, unlines, checksums_from, parse_packages-unlines,
}

abbrev env : Env
env = record {
  layout = record { cache_path = codes "/c"; custom_cache_path = none };
  urls = record { string = λ u. u.scheme ++ codes "://" ++ u.host ++ u.path; parse = λ t. none };
}

abbrev host : Text
host = codes "deb.debian.org"

abbrev path : Text
path = codes "/pool/a.deb"

abbrev entry : AccessEntry
entry = record no_entry { url = some (build_access_url 0 host path) }

abbrev package_record : VerificationRecord
package_record = record { protocol = 0; domain = host; path = path; entry = entry }

abbrev cache : AccessCache
cache = record {
  access_cache =
      (
        access_cache_key 0 host path,
        record {
          entry = entry;
          protocol = 0;
          domain = host;
          path = path;
          marked_for_deletion = false;
          marked_at = 0;
          dirty = false;
        },
      )
      ∷ [];
  files = [];
}

abbrev offline : Web
offline = record { get = λ u. none; gunzip = λ t. none; bunzip2 = λ t. t; unxz = λ t. none }

verify_deb_entries_marks_example :
    found env 0 host path (verify_deb_entries env (λ t. t) 7 [] [] (package_record ∷ []) cache)
    ≡ map_record (mark_fields 7) (found env 0 host path cache)
unfolding has_suffix lookup
verify_deb_entries_marks_example =
    verify_deb_entries_marks env (λ t. t) 7 [] [] (package_record ∷ []) package_record cache
      (omega arith, tt) (omega arith) (head refl) refl (inl refl)

-- An index that lists the package; its file is not there.
abbrev index : Map Text
index = (host ++ path, codes "00ff") ∷ []

package_record-fine : Broken env (λ t. t) 7 [] index package_record → ⊥
unfolding lookup text_eq
package_record-fine (inl h) = cc (h)
package_record-fine (inr (expected, content, h, k, ne)) = cc (k)

only_fine :
    (v : VerificationRecord)
    → Memᴰ v (package_record ∷ [])
    → (v.protocol ≡ 0) × (v.domain ≡ host) × (v.path ≡ path)
    → has_suffix (codes ".deb") v.path ≡ true
    → Broken env (λ t. t) 7 [] index v
    → ⊥
only_fine v (head same) place deb broken =
    package_record-fine (subst (λ x. Broken env (λ t. t) 7 [] index x) same broken)
only_fine v (tail m) place deb broken = elim m [ ]

verify_deb_entries_spares_example :
    found env 0 host path (verify_deb_entries env (λ t. t) 7 [] index (package_record ∷ []) cache)
    ≡ found env 0 host path cache
verify_deb_entries_spares_example =
    verify_deb_entries_spares env (λ t. t) 7 [] index (package_record ∷ []) 0 host path cache
      (omega arith, tt) (omega arith) only_fine

verify_sources_offline_example :
    found env 0 host path (verify_sources env (λ t. t) 7 [] offline cache)
    ≡ map_record (mark_fields 7) (found env 0 host path cache)
unfolding has_suffix collect_access_cache_records normalize_verification_records insert
    normalize_access_entry
verify_sources_offline_example =
    verify_sources_offline env offline (λ u. refl) (λ t. t) 7 [] cache package_record
      (omega arith, tt) (omega arith) (head refl) refl

abbrev paragraph : Paragraph
paragraph = record {
  before = codes "Package: a" ∷ [];
  filename = codes "pool/a.deb";
  between = [];
  sha = codes "00ff";
  after = [];
}

parse_packages-unlines_example :
    parse_packages (unlines (index_lines (paragraph ∷ []))) ≡ checksums_from [] (paragraph ∷ [])
unfolding index_lines cut_prefix trim_left trim_right drop_cr
parse_packages-unlines_example =
    parse_packages-unlines (paragraph ∷ [])
      (
        record {
          before = (record { not_filename = refl; not_sha = refl; not_empty = refl }, tt);
          between = tt;
          after = tt;
          filename = refl;
          trimmed = refl;
          sha = refl;
          sha_trimmed = refl;
        },
        tt,
      )
      (
        record { one = ground arith; no_cr = refl; short = omega arith },
        (
          record { one = ground arith; no_cr = refl; short = omega arith },
          (
            record { one = ground arith; no_cr = refl; short = omega arith },
            (record { one = tt; no_cr = refl; short = omega arith }, tt),
          ),
        ),
      )
