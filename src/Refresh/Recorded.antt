-- ===== src/Refresh/Recorded.antt =====
-- What the access cache holds after UpdateFile and SetSHA256, as refreshFile of
-- pkg/fscache/evaluate.go calls them.
use go_aptcacher.Base.{ℕ, ◌≡◌, refl, ap, ◌∙◌, Bool, true, false, Option, some}
use go_aptcacher.Base.Int.{ℤ}
use go_aptcacher.Base.Text.{Text}
use go_aptcacher.Base.Map.{lookup, lookup-insert_self}
use go_aptcacher.Keys.{access_cache_key}
use go_aptcacher.Locks.{Time}
use go_aptcacher.Access.{
  AccessEntry, Record, AccessCache, Env, build_access_url, normalize_access_entry,
}
use go_aptcacher.Access.Methods.{
  get, put, set_dirty, record_or, set_access_cache_record, set_sha256_field, update_file_fields,
  parsed_or, update_file, set_sha256,
}
use go_aptcacher.Access.Methods.Lookups.{get-of_lookup}

module _ (e : Env) (protocol : ℕ) (domain path : Text) where
  set_dirty-entry : (x : Bool × Record) → (set_dirty x).entry ≡ x.1.entry
  unfolding set_dirty
  set_dirty-entry (true, r) = refl
  set_dirty-entry (false, r) = refl

  lookup-set_access_cache_record :
      (f : Record → Bool × Record) (c : AccessCache)
      → lookup
          (access_cache_key protocol domain path)
          (set_access_cache_record protocol domain path f c).access_cache
        ≡ some (
            set_dirty (
              f (
                record_or protocol domain path
                  (lookup (access_cache_key protocol domain path) c.access_cache))))
  unfolding set_access_cache_record put
  lookup-set_access_cache_record f c = lookup-insert_self _ _ c.access_cache

  -- What Get finds after UpdateFile and SetSHA256.
  pub get-set_sha256-update_file :
      (now last_modified : Time) (url_text etag hash : Text) (size : ℤ) (c : AccessCache)
      → (r : Record) × ((get e protocol domain path (
            set_sha256 e protocol domain path hash
              (update_file e now protocol domain path url_text last_modified etag size c))).0
          ≡ (
            record r.entry {
              url =
                  some (parsed_or (e.urls.parse url_text) (build_access_url protocol domain path));
              remote_last_modified = last_modified;
              last_checked = now;
              etag = etag;
              size = size;
              sha256 = hash;
            },
            true,
          ))
  unfolding set_sha256 update_file record_or set_sha256_field update_file_fields
      normalize_access_entry set_dirty
  get-set_sha256-update_file now last_modified url_text etag hash size c =
      let key = access_cache_key protocol domain path in
      let url = parsed_or (e.urls.parse url_text) (build_access_url protocol domain path) in
      let before = record_or protocol domain path (lookup key c.access_cache) in
      let update = update_file_fields url last_modified etag size now in
      let hashed = set_sha256_field (build_access_url protocol domain path) hash in
      let updated = set_access_cache_record protocol domain path update c in
      let after = set_access_cache_record protocol domain path hashed updated in
      let found : lookup key after.access_cache
          ≡ some (set_dirty (hashed (set_dirty (update before)))) =
        lookup-set_access_cache_record hashed updated
        ∙ ap (λ (o : Option Record). some (set_dirty (hashed (record_or protocol domain path o))))
            (lookup-set_access_cache_record update c) in
      (
        before,
        ap (λ (x : (AccessEntry × Bool) × AccessCache). x.0)
              (get-of_lookup e protocol domain path (set_dirty (hashed (set_dirty (update before))))
                after found)
            ∙ ap (λ (x : AccessEntry). (normalize_access_entry protocol domain path x, true))
                (set_dirty-entry (hashed (set_dirty (update before)))),
      )
