-- ===== src/Access/Tests.antt =====
-- Runs of the access cache (pkg/fscache/access_cache.go).
use go_aptcacher.Base.{
  ◌≡◌, ◌≢◌, refl, sym, ap, ◌∙◌, true, false, ◌&&◌, [], ◌∷◌, ◌++◌, none, some, if◌then◌else◌,
  Bool-cases, inl, inr,
}
use mathlib.Core.Path.{subst}
use go_aptcacher.Base.Int.{ℤ}
use go_aptcacher.Base.Text.{Text, codes, text_eq, text_eq_iff, trim_right, trim_left, to_lower}
use go_aptcacher.Base.Map.{lookup, lookup-cons}
use go_aptcacher.FilePath.{join_paths}
use go_aptcacher.Keys.{access_cache_key}
use go_aptcacher.LocalPath.{Url, build_local_path}
use go_aptcacher.Access.{
  AccessEntry, no_entry, Record, Env, AccessCache, access_cache_meta_path, build_access_url,
}
use go_aptcacher.Access.Disk.{
  Fault, no_fault, write_fault, load_access_cache_record, write_access_cache_record,
}
use go_aptcacher.Access.Disk.Json.{is_utf8, json_text}
use go_aptcacher.Access.Disk.RoundTrip.{ReadsBack, load-write_access_cache_record}
use go_aptcacher.Access.Methods.{get, hit, update_last_checked, mark_for_deletion}
use go_aptcacher.Access.Methods.Lookups.{get-hit_check_mark, touched}
use go_aptcacher.Access.Methods.Calls.{call_hit, call_delete, run_call, IsKeyed}
use go_aptcacher.Access.Methods.Keyed.{IsKeyed-run_call}
use go_aptcacher.Access.Methods.Others.{get-run_call_other}
use go_aptcacher.Access.Flush.{flush_access_cache}
use go_aptcacher.Access.Flush.Saves.{Sound, Saved}
use go_aptcacher.Access.Flush.Settled.{fails}
use go_aptcacher.Access.Flush.Outcome.{lookup-flush_access_cache, load-flush_access_cache}

abbrev host : Text
host = codes "deb.debian.org"

abbrev file : Text
file = codes "/a.deb"

abbrev url : Url
url = record { scheme = codes "http"; host = host; path = file; raw_query = [] }

abbrev url_text : Text
url_text = codes "http://deb.debian.org/a.deb"

abbrev env : Env
env = record {
  layout = record { cache_path = codes "/c"; custom_cache_path = none };
  urls = record {
    string = λ u. u.scheme ++ codes "://" ++ u.host ++ u.path;
    parse = λ t. if text_eq t url_text then some url else none;
  };
}

abbrev entry : AccessEntry
entry = record no_entry { etag = codes "x"; url = some url; size = ℤ.pos 3 }

abbrev stored : Record
stored = record {
  entry = entry;
  protocol = 0;
  domain = host;
  path = file;
  marked_for_deletion = false;
  marked_at = 0;
  dirty = true;
}

abbrev key : Text
key = access_cache_key 0 host file

abbrev empty : AccessCache
empty = record { access_cache = []; files = [] }

abbrev cache : AccessCache
cache = record { access_cache = (key, stored) ∷ []; files = [] }

meta_path_is : access_cache_meta_path env 0 host file ≡ codes "/c/deb.debian.org/a.deb.access.json"
unfolding access_cache_meta_path build_local_path join_paths text_eq trim_right trim_left to_lower
    build_access_url
meta_path_is = refl

stored-ReadsBack : ReadsBack env stored
stored-ReadsBack = record {
  not_empty = λ u h. subst (λ (v : Url). env.urls.string v ≢ []) (of_some h) (λ e. cc (e));
  reads_back =
      λ u h. subst (λ (v : Url). env.urls.parse (env.urls.string v) ≡ some v) (of_some h) parses;
  url_utf8 = λ u h.
      subst (λ (v : Url). is_utf8 (env.urls.string v) ≡ true) (of_some h) (unfold is_utf8 in refl);
  etag_utf8 = unfold is_utf8 in refl;
  sha256_utf8 = unfold is_utf8 in refl;
}
  where
    of_some : {u v : Url} → some u ≡ some v → u ≡ v
    of_some h = cc (h)

    parses : env.urls.parse (env.urls.string url) ≡ some url
    parses = unfold text_eq in refl

load-write_access_cache_record_example :
    load_access_cache_record env 0 host file (write_access_cache_record env no_fault stored []).1
    ≡ some (record stored { dirty = false })
load-write_access_cache_record_example =
    load-write_access_cache_record env stored url [] refl stored-ReadsBack

get-hit_check_mark_example :
    ((get env 0 host file (hit env 9 0 host file cache)).0
      ≡ touched env 0 host file (λ x. record x { last_accessed = 9 }) (get env 0 host file cache).0)
    × ((get env 0 host file (update_last_checked env 9 0 host file cache)).0
        ≡ touched env 0 host file
            (λ x. record x { last_checked = 9 })
            (get env 0 host file cache).0)
    × ((get env 0 host file (mark_for_deletion env 9 0 host file cache)).0
        ≡ (get env 0 host file cache).0)
get-hit_check_mark_example = get-hit_check_mark env 0 host file 9 cache

no_record : (k : Text) → lookup {V = Record} k [] ≡ none
unfolding lookup
no_record k = refl

-- The map `cache` has one record.
one_record :
    (k : Text) (r : Record) → lookup k cache.access_cache ≡ some r → (key ≡ k) × (stored ≡ r)
one_record k r h = elim (Bool-cases (text_eq key k)) [
  | inl same ↦ ((text_eq_iff key k).0 same, cc (lookup-cons k key stored [], same, h))
  | inr other ↦ absurd (cc (lookup-cons k key stored [], other, h, no_record k))
]

cache-IsKeyed : IsKeyed cache
cache-IsKeyed k r h =
    let (same, of_r) = one_record k r h in
    subst (λ (x : Record). access_cache_key x.protocol x.domain x.path ≡ k) of_r same

IsKeyed-run_call_example : IsKeyed (run_call env 0 host file (call_hit 9) cache)
IsKeyed-run_call_example = IsKeyed-run_call env 0 host file (call_hit 9) cache cache-IsKeyed

abbrev other_file : Text
other_file = codes "/b.deb"

other_text : (s t : Text) → text_eq s t ≡ false → s ≢ t
other_text s t h same = cc ((text_eq_iff s t).1 same, h)

get-run_call_other_example :
    (get env 0 host other_file (run_call env 0 host file (call_delete true) cache)).0
    ≡ (get env 0 host other_file cache).0
get-run_call_other_example =
    get-run_call_other env 0 host file 0 host other_file
      (other_text key (access_cache_key 0 host other_file)
        (unfold text_eq access_cache_key in refl))
      (other_text (access_cache_meta_path env 0 host file)
        (access_cache_meta_path env 0 host other_file)
        (unfold text_eq access_cache_meta_path build_local_path join_paths trim_right trim_left
            to_lower build_access_url in
          refl))
      (call_delete true) cache cache-IsKeyed

abbrev full_disk : Text → Fault
full_disk k = write_fault

lookup-flush_access_cache_example :
    lookup key (flush_access_cache env full_disk cache).access_cache
    ≡ some (record stored { dirty = stored.dirty && fails (full_disk key) })
lookup-flush_access_cache_example =
    lookup-flush_access_cache env full_disk key stored cache
      (unfold lookup text_eq access_cache_key in refl)

cache-Sound : Sound env cache.access_cache
cache-Sound = record {
  has_url = λ k r h.
      let (same, of_r) = one_record k r h in
      subst (λ (x : Record). (u : Url) × (x.entry.url ≡ some u)) of_r (url, refl);
  reads_back = λ k r h.
      let (same, of_r) = one_record k r h in
      subst (λ (x : Record). ReadsBack env x) of_r stored-ReadsBack;
  apart = λ k j r q h h' ne. absurd (ne (sym (one_record k r h).0 ∙ (one_record j q h').0));
}

cache-Saved : Saved env cache
cache-Saved k r h clean =
    let (same, of_r) = one_record k r h in
    let dirty : true ≡ r.dirty = ap (λ (x : Record). x.dirty) of_r in absurd (cc (dirty, clean))

abbrev quiet : Text → Fault
quiet k = no_fault

load-flush_access_cache_example :
    load_access_cache_record env 0 host file (flush_access_cache env quiet cache).files
    ≡ some (record stored { dirty = false })
load-flush_access_cache_example =
    load-flush_access_cache env quiet key (record stored { dirty = false }) cache cache-Sound
      cache-Saved
      (lookup-flush_access_cache env quiet key stored cache
        (unfold lookup text_eq access_cache_key in refl))
      refl

-- An "é" in Latin-1 is no UTF-8, and comes back as U+FFFD; in UTF-8 it comes back as it was.
latin1 : json_text (99 ∷ 233 ∷ 97 ∷ []) ≡ 99 ∷ 239 ∷ 191 ∷ 189 ∷ 97 ∷ []
unfolding json_text
latin1 = refl

utf8 : json_text (99 ∷ 195 ∷ 169 ∷ 97 ∷ []) ≡ 99 ∷ 195 ∷ 169 ∷ 97 ∷ []
unfolding json_text
utf8 = refl
