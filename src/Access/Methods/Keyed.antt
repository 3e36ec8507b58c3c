-- ===== src/Access/Methods/Keyed.antt =====
-- What each method of pkg/fscache/access_cache.go does to the map of records.
use go_aptcacher.Base.{
  ℕ, ◌≡◌, refl, ◌∙◌, Bool, true, false, Option, none, some, arith, Bool-cases, inl, inr,
}
use go_aptcacher.Base.Text.{Text, text_eq, text_eq_iff}
use go_aptcacher.Base.Map.{lookup, lookup-insert, lookup-delete}
use go_aptcacher.Keys.{access_cache_key}
use go_aptcacher.LocalPath.{Url}
use go_aptcacher.Access.{
  AccessEntry, Record, Env, MetaFile, payload, garbage, AccessCache, access_cache_meta_path,
  normalize_access_entry, build_access_url,
}
use go_aptcacher.Access.Disk.{from_payload, decode, load_access_cache_record}
use go_aptcacher.Access.Methods.{
  put, keep_loaded, set_dirty, record_or, hit_field, last_checked_field, mark_fields, set_entry,
  update_file_fields, set_sha256_field, url_field, parsed_or, set_access_cache_record,
  get_access_cache_record, get, get_sha256, set_sha256, set, delete_entry, change, hit,
  update_last_checked, mark_for_deletion, update_file, add_url_if_not_exists, entry_of, sha256_of,
}
use go_aptcacher.Access.Methods.Calls.{
  Call, call_get, call_get_sha256, call_set, call_set_sha256, call_delete, call_hit,
  call_update_last_checked, call_mark_for_deletion, call_update_file, call_add_url_if_not_exists,
  run_call, record_key, IsKeyed,
}

module _ (e : Env) (protocol : ℕ) (domain path : Text) where
  abbrev pub key : Text
  key = access_cache_key protocol domain path

  -- What a call can do to the state: put records at the key, or delete the record there and perhaps
  -- its metadata file.
  pub data Step : AccessCache → AccessCache → Type 0 where
    no_step : {c : AccessCache} → Step c c
    put_step :
        {c c' : AccessCache} (r : Record) → record_key r ≡ key → Step c c' → Step c (put key r c')
    delete_step :
        {c : AccessCache} (removed : Bool) → Step c (delete_entry e removed protocol domain path c)

  abbrev Keyed : Option Record → Type 0
  Keyed o = (r : Record) → o ≡ some r → record_key r ≡ key

  Keyed-decode : (m : Option MetaFile) → Keyed (decode e protocol domain path m)
  unfolding decode from_payload
  Keyed-decode none r h = absurd (cc (h))
  Keyed-decode (some garbage) r h = absurd (cc (h))
  Keyed-decode (some (payload p)) r h = cc (h)

  Keyed-load : (c : AccessCache) → Keyed (load_access_cache_record e protocol domain path c.files)
  unfolding load_access_cache_record
  Keyed-load c = Keyed-decode (lookup (access_cache_meta_path e protocol domain path) c.files)

  Step-keep_loaded :
      (o l : Option Record) (c : AccessCache) → Keyed l → Step c (keep_loaded key o l c).1
  unfolding keep_loaded
  Step-keep_loaded (some r) l c k = no_step
  Step-keep_loaded none (some r) c k = put_step r (k r refl) no_step
  Step-keep_loaded none none c k = no_step

  module _ (f : Record → Record) (same : (r : Record) → record_key (f r) ≡ record_key r) where
    Step-change :
        (o l : Option Record) (c : AccessCache)
        → Keyed o
        → Keyed l
        → Step c (change key f (keep_loaded key o l c))
    unfolding keep_loaded change
    Step-change (some r) l c h k = put_step (f r) (same r ∙ h r refl) no_step
    Step-change none (some r) c h k =
        put_step (f r) (same r ∙ k r refl) (put_step r (k r refl) no_step)
    Step-change none none c h k = no_step

    Step-change_found :
        (c : AccessCache)
        → IsKeyed c
        → Step c (change key f (get_access_cache_record e protocol domain path c))
    unfolding get_access_cache_record
    Step-change_found c h =
        Step-change (lookup key c.access_cache)
          (load_access_cache_record e protocol domain path c.files) c (h key) (Keyed-load c)

  record_key-set_dirty : (x : Bool × Record) → record_key (set_dirty x) ≡ record_key x.1
  unfolding set_dirty
  record_key-set_dirty (true, r) = refl
  record_key-set_dirty (false, r) = refl

  record_key-record_or :
      (o : Option Record) → Keyed o → record_key (record_or protocol domain path o) ≡ key
  unfolding record_or
  record_key-record_or none h = refl
  record_key-record_or (some r) h = h r refl

  Step-set_access_cache_record :
      (f : Record → Bool × Record)
      → ((r : Record) → record_key (f r).1 ≡ record_key r)
      → (c : AccessCache) → IsKeyed c
      → Step c (set_access_cache_record protocol domain path f c)
  unfolding set_access_cache_record
  Step-set_access_cache_record f same c h =
      put_step _
        (record_key-set_dirty (f (record_or protocol domain path (lookup key c.access_cache)))
          ∙ (same (record_or protocol domain path (lookup key c.access_cache))
              ∙ record_key-record_or (lookup key c.access_cache) (h key)))
        no_step

  Step-found :
      (c : AccessCache) → IsKeyed c → Step c (get_access_cache_record e protocol domain path c).1
  unfolding get_access_cache_record
  Step-found c h =
      Step-keep_loaded (lookup key c.access_cache)
        (load_access_cache_record e protocol domain path c.files) c (Keyed-load c)

  entry_of-state :
      (f : Record → AccessEntry) (x : Option Record × AccessCache) → (entry_of f x).1 ≡ x.1
  unfolding entry_of
  entry_of-state f (none, c) = refl
  entry_of-state f (some r, c) = refl

  sha256_of-state : (x : Option Record × AccessCache) → (sha256_of x).1 ≡ x.1
  unfolding sha256_of
  sha256_of-state (none, c) = refl
  sha256_of-state (some r, c) = refl

  record_key-set_sha256_field :
      (url : Url) (sha256 : Text) (r : Record)
      → record_key (set_sha256_field url sha256 r).1 ≡ record_key r
  unfolding set_sha256_field
  record_key-set_sha256_field url sha256 r = ground arith

  record_key-url_field : (url : Url) (r : Record) → record_key (url_field e url r).1 ≡ record_key r
  unfolding url_field
  record_key-url_field url r = ground arith

  -- What each call does.
  pub Step-run_call :
      (call : Call) (c : AccessCache) → IsKeyed c → Step c (run_call e protocol domain path call c)
  unfolding run_call get get_sha256 hit update_last_checked mark_for_deletion hit_field
      last_checked_field mark_fields set set_sha256 update_file add_url_if_not_exists set_entry
      update_file_fields
  Step-run_call call_get c h =
      rw
        (entry_of-state (λ r. normalize_access_entry protocol domain path r.entry)
          (get_access_cache_record e protocol domain path c))
        (Step-found c h)
  Step-run_call call_get_sha256 c h =
      rw (sha256_of-state (get_access_cache_record e protocol domain path c)) (Step-found c h)
  Step-run_call (call_set entry) c h = Step-set_access_cache_record _ (λ r. refl) c h
  Step-run_call (call_set_sha256 sha256) c h =
      Step-set_access_cache_record _
        (record_key-set_sha256_field (build_access_url protocol domain path) sha256) c h
  Step-run_call (call_delete removed) c h = delete_step removed
  Step-run_call (call_hit now) c h = Step-change_found (hit_field now) (λ r. refl) c h
  Step-run_call (call_update_last_checked now) c h =
      Step-change_found (last_checked_field now) (λ r. refl) c h
  Step-run_call (call_mark_for_deletion now) c h =
      Step-change_found (mark_fields now) (λ r. refl) c h
  Step-run_call (call_update_file now url last_modified etag size) c h =
      Step-set_access_cache_record _ (λ r. refl) c h
  Step-run_call (call_add_url_if_not_exists url) c h =
      Step-set_access_cache_record _
        (record_key-url_field
          (parsed_or (e.urls.parse url) (build_access_url protocol domain path)))
        c h

  IsKeyed-put :
      (r : Record) (c : AccessCache) → record_key r ≡ key → IsKeyed c → IsKeyed (put key r c)
  unfolding put
  IsKeyed-put r c same h k r' l = elim (Bool-cases (text_eq key k)) [
    | inl q ↦ cc (lookup-insert key k r c.access_cache, q, l, same, (text_eq_iff key k).0 q)
    | inr q ↦ h k r' (cc (lookup-insert key k r c.access_cache, q, l))
  ]

  IsKeyed-delete_entry :
      (removed : Bool) (c : AccessCache)
      → IsKeyed c
      → IsKeyed (delete_entry e removed protocol domain path c)
  unfolding delete_entry
  IsKeyed-delete_entry removed c h k r' l = elim (Bool-cases (text_eq key k)) [
    | inl q ↦ absurd (cc (lookup-delete key k c.access_cache, q, l))
    | inr q ↦ h k r' (cc (lookup-delete key k c.access_cache, q, l))
  ]

  IsKeyed-Step : {c c' : AccessCache} → Step c c' → IsKeyed c → IsKeyed c'
  IsKeyed-Step no_step h = h
  IsKeyed-Step (put_step r same step) h = IsKeyed-put r _ same (IsKeyed-Step step h)
  IsKeyed-Step (delete_step removed) h = IsKeyed-delete_entry removed _ h

  -- Every method keeps each record at the key of its own protocol, domain and path.
  pub IsKeyed-run_call :
      (call : Call) (c : AccessCache) → IsKeyed c → IsKeyed (run_call e protocol domain path call c)
  IsKeyed-run_call call c h = IsKeyed-Step (Step-run_call call c h) h
