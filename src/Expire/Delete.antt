-- ===== src/Expire/Delete.antt =====
-- DeleteFile of pkg/fscache/localfile.go.
use go_aptcacher.Base.{◌≡◌, refl, ap, Bool, true, false, none}
use go_aptcacher.Base.Text.{Text}
use go_aptcacher.Base.Map.{Map, lookup, lookup-delete_self}
use go_aptcacher.LocalPath.{Url, build_local_path, determine_protocol_from_url}
use go_aptcacher.Access.{AccessEntry, no_entry, Env, AccessCache}
use go_aptcacher.Access.Methods.{get}
use go_aptcacher.Access.Methods.Lookups.{get-delete_entry}
use go_aptcacher.Expire.{removed, not_exist, remove_failed, delete_file}

-- DeleteFile leaves neither the file nor an entry that Get finds, if both can be removed. Where the
-- file is missing, the entry goes all the same; where it cannot be removed, the call fails and the
-- entry stays, so that no file is left without metadata.
delete_file_lem :
    (e : Env) (u : Url) (c : AccessCache) (files : Map Text)
    → (((delete_file e removed true u (c, files)).0 ≡ true)
        × (lookup (build_local_path e.layout u) (delete_file e removed true u (c, files)).1.1
            ≡ none)
        × ((get e
              (determine_protocol_from_url u)
              u.host
              u.path
              (delete_file e removed true u (c, files)).1.0).0
            ≡ (no_entry, false)))
      × (((get e
              (determine_protocol_from_url u)
              u.host
              u.path
              (delete_file e not_exist true u (c, files)).1.0).0
            ≡ (no_entry, false))
          × ((delete_file e remove_failed true u (c, files)) ≡ (false, (c, files))))
unfolding delete_file
delete_file_lem e u c files =
    let gone =
      ap (λ (x : (AccessEntry × Bool) × AccessCache). x.0)
        (get-delete_entry e (determine_protocol_from_url u) u.host u.path c) in
    ((refl, lookup-delete_self (build_local_path e.layout u) files, gone), (gone, refl))
