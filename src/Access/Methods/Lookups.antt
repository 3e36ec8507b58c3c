-- ===== src/Access/Methods/Lookups.antt =====
-- What Get finds after the other methods of pkg/fscache/access_cache.go.
use go_aptcacher.Base.{ℕ, ◌≡◌, refl, ap, ◌∙◌, Bool, true, false, Option, none, some, arith}
use go_aptcacher.Base.Text.{Text}
use go_aptcacher.Base.Map.{lookup, insert, lookup-insert_self, lookup-delete_self}
use go_aptcacher.Keys.{access_cache_key}
use go_aptcacher.Locks.{Time}
use go_aptcacher.Access.{
  AccessEntry, no_entry, Record, Env, AccessCache, normalize_access_entry, access_cache_meta_path,
}
use go_aptcacher.Access.Disk.{load_access_cache_record, decode}
use go_aptcacher.Access.Methods.{
  put, keep_loaded, record_or, set_dirty, set_access_cache_record, set_entry,
  get_access_cache_record, entry_of, get, set, delete_entry, change, hit_field, last_checked_field,
  mark_fields, hit, update_last_checked, mark_for_deletion,
}

normalize_access_entry-twice :
    (protocol : ℕ) (domain path : Text) (entry : AccessEntry)
    → normalize_access_entry protocol domain path
        (normalize_access_entry protocol domain path entry)
      ≡ normalize_access_entry protocol domain path entry
unfolding normalize_access_entry
normalize_access_entry-twice protocol domain path entry = ground (arith)

module _ (e : Env) (protocol : ℕ) (domain path : Text) where
  -- The key of the entry.
  abbrev pub key : Text
  key = access_cache_key protocol domain path

  -- A record in memory is what Get returns, and Get leaves the state alone.
  pub get-of_lookup :
      (r : Record) (c : AccessCache)
      → lookup key c.access_cache ≡ some r
      → get e protocol domain path c
        ≡ ((normalize_access_entry protocol domain path r.entry, true), c)
  unfolding get get_access_cache_record keep_loaded entry_of
  get-of_lookup r c h = rw h refl

  get-put :
      (r : Record) (c : AccessCache)
      → get e protocol domain path (put key r c)
        ≡ ((normalize_access_entry protocol domain path r.entry, true), put key r c)
  unfolding put
  get-put r c =
      get-of_lookup r (record c { access_cache = insert key r c.access_cache })
        (lookup-insert_self key r c.access_cache)

  -- Get returns an entry that was set, with the URL of its key if it has none, and changes nothing
  -- more.
  pub get-set :
      (entry : AccessEntry) (c : AccessCache)
      → get e protocol domain path (set e protocol domain path entry c) ≡ (
        (normalize_access_entry protocol domain path entry, true),
        set e protocol domain path entry c,
      )
  unfolding set set_access_cache_record set_dirty set_entry
  get-set entry c =
      rw
        (get-put
          (set_dirty (
            set_entry (normalize_access_entry protocol domain path entry)
              (record_or protocol domain path (lookup key c.access_cache))))
          c)
        (rw (normalize_access_entry-twice protocol domain path entry) refl)

  -- The entry that Get finds, with a change made to it if there is one.
  abbrev pub touched : (AccessEntry → AccessEntry) → AccessEntry × Bool → AccessEntry × Bool
  touched f (entry, true) = (f entry, true)
  touched f (entry, false) = (entry, false)

  touched-same : (x : AccessEntry × Bool) → touched (λ y. y) x ≡ x
  touched-same (entry, true) = refl
  touched-same (entry, false) = refl

  module _ (f : Record → Record) (g : AccessEntry → AccessEntry)
      (same : (r : Record)
        → normalize_access_entry protocol domain path (f r).entry
          ≡ g (normalize_access_entry protocol domain path r.entry)) where
    get-change_found :
        (found : Option Record × AccessCache)
        → (get e protocol domain path (change key f found)).0 ≡ (elim found.0 [
          | none ↦ (get e protocol domain path found.1).0
          | some r ↦ (g (normalize_access_entry protocol domain path r.entry), true)
        ])
    unfolding change
    get-change_found (none, c) = refl
    get-change_found (some r, c) = rw (get-put (f r) c) (ap (λ x. (x, true)) (same r))

    keep_loaded-change :
        (o l : Option Record) (c : AccessCache)
        → lookup key c.access_cache ≡ o
        → load_access_cache_record e protocol domain path c.files ≡ l
        → (get e protocol domain path (change key f (keep_loaded key o l c))).0
          ≡ touched g
              (entry_of
                (λ r. normalize_access_entry protocol domain path r.entry)
                (keep_loaded key o l c)).0
    keep_loaded-change (some r) l c h k =
        unfold entry_of keep_loaded in get-change_found (some r, c)
    keep_loaded-change none (some r) c h k =
        unfold entry_of keep_loaded in get-change_found (some r, put key r c)
    keep_loaded-change none none c h k =
        unfold entry_of keep_loaded in
        (get-change_found (none, c) ∙ (unfold get get_access_cache_record in rw h (rw k refl)))

    pub get-change :
        (c : AccessCache)
        → (get e protocol domain path
            (change key f (get_access_cache_record e protocol domain path c))).0
          ≡ touched g (get e protocol domain path c).0
    unfolding get get_access_cache_record
    get-change c =
        keep_loaded-change (lookup key c.access_cache)
          (load_access_cache_record e protocol domain path c.files) c refl refl

  -- Hit and UpdateLastChecked set their time in the entry that Get finds, and MarkForDeletion leaves
  -- it as it is. Where Get finds none, it finds none afterwards.
  pub get-hit_check_mark :
      (now : Time) (c : AccessCache)
      → ((get e protocol domain path (hit e now protocol domain path c)).0
          ≡ touched (λ x. record x { last_accessed = now }) (get e protocol domain path c).0)
        × ((get e protocol domain path (update_last_checked e now protocol domain path c)).0
            ≡ touched (λ x. record x { last_checked = now }) (get e protocol domain path c).0)
        × ((get e protocol domain path (mark_for_deletion e now protocol domain path c)).0
            ≡ (get e protocol domain path c).0)
  unfolding hit update_last_checked mark_for_deletion
  get-hit_check_mark now c = (
    get-change (hit_field now) (λ x. record x { last_accessed = now })
        (λ r. unfold normalize_access_entry hit_field in ground arith) c,
    get-change (last_checked_field now) (λ x. record x { last_checked = now })
        (λ r. unfold normalize_access_entry last_checked_field in ground arith) c,
    get-change (mark_fields now) (λ x. x) (λ r. unfold mark_fields in refl) c ∙ touched-same _,
  )

  -- An entry that was deleted is not found again, if its metadata file could be removed.
  pub get-delete_entry :
      (c : AccessCache)
      → get e protocol domain path (delete_entry e true protocol domain path c)
        ≡ ((no_entry, false), delete_entry e true protocol domain path c)
  unfolding get get_access_cache_record delete_entry load_access_cache_record
  get-delete_entry c = rw (lookup-delete_self key c.access_cache) (
      rw (lookup-delete_self (access_cache_meta_path e protocol domain path) c.files)
        (unfold keep_loaded entry_of decode in refl))

  abbrev seen : Option Record → Option Record → AccessEntry × Bool
  seen (some r) l = (normalize_access_entry protocol domain path r.entry, true)
  seen none (some r) = (normalize_access_entry protocol domain path r.entry, true)
  seen none none = (no_entry, false)

  keep_loaded-seen :
      (o l : Option Record) (c : AccessCache)
      → (entry_of
          (λ r. normalize_access_entry protocol domain path r.entry)
          (keep_loaded key o l c)).0
        ≡ seen o l
  unfolding keep_loaded entry_of
  keep_loaded-seen (some r) l c = refl
  keep_loaded-seen none (some r) c = refl
  keep_loaded-seen none none c = refl

  get-seen :
      (c : AccessCache)
      → (get e protocol domain path c).0
        ≡ seen (lookup key c.access_cache) (
            decode e protocol domain path
              (lookup (access_cache_meta_path e protocol domain path) c.files))
  unfolding get get_access_cache_record load_access_cache_record
  get-seen c = keep_loaded-seen _ _ c

  -- What Get finds depends on the record of its key and on the file of its key only.
  pub get-of_same :
      (c c' : AccessCache)
      → lookup key c.access_cache ≡ lookup key c'.access_cache
      → lookup (access_cache_meta_path e protocol domain path) c.files
        ≡ lookup (access_cache_meta_path e protocol domain path) c'.files
      → (get e protocol domain path c).0 ≡ (get e protocol domain path c').0
  get-of_same c c' h k = cc (get-seen c, get-seen c', h, k)
