-- ===== src/Access/Methods/Others.antt =====
-- The methods of pkg/fscache/access_cache.go for one entry, seen from another.
use go_aptcacher.Base.{ℕ, ◌≡◌, ◌≢◌, refl, ◌∙◌, Bool, true, false}
use go_aptcacher.Base.Text.{Text}
use go_aptcacher.Base.Map.{insert, lookup-insert_ne, lookup-delete_ne}
use go_aptcacher.Keys.{access_cache_key}
use go_aptcacher.Access.{Record, Env, AccessCache, access_cache_meta_path}
use go_aptcacher.Access.Methods.{put, get, delete_entry}
use go_aptcacher.Access.Methods.Lookups.{get-of_same}
use go_aptcacher.Access.Methods.Calls.{Call, run_call, IsKeyed}
use go_aptcacher.Access.Methods.Keyed.{Step, no_step, put_step, delete_step, key, Step-run_call}

module _ (e : Env) (protocol : ℕ) (domain path : Text) where
  module _ (protocol' : ℕ) (domain' path' : Text)
      (other_key : key e protocol domain path ≢ access_cache_key protocol' domain' path')
      (other_file : access_cache_meta_path e protocol domain path
        ≢ access_cache_meta_path e protocol' domain' path') where
    get-put_other :
        (r : Record) (c : AccessCache)
        → (get e protocol' domain' path' (put (key e protocol domain path) r c)).0
          ≡ (get e protocol' domain' path' c).0
    unfolding put
    get-put_other r c =
        get-of_same e protocol' domain' path'
          (record c { access_cache = insert (key e protocol domain path) r c.access_cache }) c
          (lookup-insert_ne (key e protocol domain path) _ r c.access_cache other_key) refl

    get-delete_entry_other :
        (removed : Bool) (c : AccessCache)
        → (get e protocol' domain' path' (delete_entry e removed protocol domain path c)).0
          ≡ (get e protocol' domain' path' c).0
    get-delete_entry_other true c =
        get-of_same e protocol' domain' path' (delete_entry e true protocol domain path c) c
          (unfold delete_entry in
            lookup-delete_ne (key e protocol domain path) _ c.access_cache other_key)
          (unfold delete_entry in lookup-delete_ne _ _ c.files other_file)
    get-delete_entry_other false c =
        get-of_same e protocol' domain' path' (delete_entry e false protocol domain path c) c
          (unfold delete_entry in
            lookup-delete_ne (key e protocol domain path) _ c.access_cache other_key)
          (unfold delete_entry in refl)

    get-Step_other :
        {c c' : AccessCache}
        → Step e protocol domain path c c'
        → (get e protocol' domain' path' c').0 ≡ (get e protocol' domain' path' c).0
    get-Step_other no_step = refl
    get-Step_other (put_step r same step) = get-put_other r _ ∙ get-Step_other step
    get-Step_other (delete_step removed) = get-delete_entry_other removed _

    -- A call for one entry leaves what Get finds at an entry with another key and another metadata
    -- file as it was, in a state where each record stands at the key of its fields.
    pub get-run_call_other :
        (call : Call) (c : AccessCache)
        → IsKeyed c
        → (get e protocol' domain' path' (run_call e protocol domain path call c)).0
          ≡ (get e protocol' domain' path' c).0
    get-run_call_other call c h = get-Step_other (Step-run_call e protocol domain path call c h)
