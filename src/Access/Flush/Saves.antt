-- ===== src/Access/Flush/Saves.antt =====
-- What a flush (flushAccessCache of pkg/fscache/access_cache.go) leaves on the disk.
use go_aptcacher.Base.{
  ◌≡◌, ◌≢◌, refl, sym, ap, ◌∙◌, Bool, true, false, ◌&&◌, ◌++◌, Option, none, some, Bool-cases,
  if_true, if_false, inl, inr,
}
use mathlib.Core.Path.{subst}
use go_aptcacher.Base.Text.{Text, text_eq, text_eq_iff}
use go_aptcacher.Base.Map.{Map, lookup, delete, lookup-insert_ne, lookup-delete_ne}
use go_aptcacher.LocalPath.{Url}
use go_aptcacher.Access.{Record, MetaFile, payload, garbage, Env, AccessCache}
use go_aptcacher.Access.Disk.{
  Fault, no_fault, mkdir_fault, marshal_fault, write_fault, rename_fault, WriteError, write_file,
  write_access_cache_record, load_access_cache_record, to_payload, tmp_suffix,
}
use go_aptcacher.Access.Disk.RoundTrip.{ReadsBack, load-write_access_cache_record}
use go_aptcacher.Access.Flush.{after_write, flush_found}
use go_aptcacher.Access.Flush.Settled.{fails, settled, meta_path, tmp_ne, lookup-flush_found}

and-true : {b c : Bool} → b ≡ true → (b && c) ≡ false → c ≡ false
and-true h k = cc (h, k)

module _ (e : Env) where
  -- What a restart loads for a record.
  abbrev pub OnDisk : Record → Map MetaFile → Type 0
  OnDisk r files =
      load_access_cache_record e r.protocol r.domain r.path files
      ≡ some (record r { dirty = false })

  -- Every record has a URL that can be read back, and texts in UTF-8, and no two share a metadata file.
  pub record Sound (m : Map Record) : Type 0 where
    pub has_url : (k : Text) (r : Record) → lookup k m ≡ some r → (u : Url) × (r.entry.url ≡ some u)
    pub reads_back : (k : Text) (r : Record) → lookup k m ≡ some r → ReadsBack e r
    pub apart :
        (k j : Text) (r q : Record)
        → lookup k m ≡ some r
        → lookup j m ≡ some q
        → k ≢ j
        → meta_path e r ≢ meta_path e q

  -- Every record that is not dirty is on the disk.
  abbrev pub Saved : AccessCache → Type 0
  Saved c =
      (k : Text) (r : Record)
      → lookup k c.access_cache ≡ some r
      → r.dirty ≡ false
      → OnDisk r c.files

  load-write_other :
      (fault : Fault) (r q : Record) (files : Map MetaFile)
      → meta_path e r ≢ meta_path e q
      → load_access_cache_record e q.protocol q.domain q.path
          (write_access_cache_record e fault r files).1
        ≡ load_access_cache_record e q.protocol q.domain q.path files
  unfolding load_access_cache_record write_access_cache_record write_file
  load-write_other no_fault r q files ne =
      rw
        (lookup-insert_ne (meta_path e r) (meta_path e q) (payload (to_payload e r))
          (delete (meta_path e r ++ tmp_suffix) files) ne)
        (rw (lookup-delete_ne (meta_path e r ++ tmp_suffix) (meta_path e q) files (tmp_ne e r q))
          refl)
  load-write_other mkdir_fault r q files ne = refl
  load-write_other marshal_fault r q files ne = refl
  load-write_other write_fault r q files ne =
      rw
        (lookup-insert_ne (meta_path e r ++ tmp_suffix) (meta_path e q) garbage files
          (tmp_ne e r q))
        refl
  load-write_other rename_fault r q files ne =
      rw
        (lookup-insert_ne (meta_path e r ++ tmp_suffix) (meta_path e q) (payload (to_payload e r))
          files (tmp_ne e r q))
        refl

  load-write_settled :
      (fault : Fault) (r : Record) (u : Url) (files : Map MetaFile)
      → fails fault ≡ false
      → r.entry.url ≡ some u
      → ReadsBack e r
      → OnDisk r (write_access_cache_record e fault r files).1
  load-write_settled no_fault r u files h k back = load-write_access_cache_record e r u files k back
  load-write_settled mkdir_fault r u files h k back = absurd (cc (h))
  load-write_settled marshal_fault r u files h k back = absurd (cc (h))
  load-write_settled write_fault r u files h k back = absurd (cc (h))
  load-write_settled rename_fault r u files h k back = absurd (cc (h))

  files-after_write :
      (k : Text) (m : Map Record) (x : Option WriteError × Map MetaFile)
      → (after_write k m x).files ≡ x.1
  unfolding after_write
  files-after_write k m (none, files) = refl
  files-after_write k m (some error, files) = refl

  files-flush_found :
      (fault : Fault) (k : Text) (r : Record) (c : AccessCache)
      → r.dirty ≡ true
      → (flush_found e fault k (some r) c).files ≡ (write_access_cache_record e fault r c.files).1
  unfolding flush_found
  files-flush_found fault k r c d =
      ap (λ (x : AccessCache). x.files) (if_true _ _ d)
      ∙ files-after_write k _ (write_access_cache_record e fault r c.files)

  written-OnDisk :
      (fault : Fault) (k : Text) (r q : Record) (c : AccessCache)
      → lookup k c.access_cache ≡ some r
      → r.dirty ≡ true
      → Sound c.access_cache
      → some (settled fault r) ≡ some q
      → q.dirty ≡ false
      → OnDisk q (write_access_cache_record e fault r c.files).1
  written-OnDisk fault k r q c h d sound same clean =
      let (u, has) = sound.has_url k r h in
      let same_record : settled fault r ≡ q = cc (same) in
      let written : (r.dirty && fails fault) ≡ false =
        ap (λ (x : Record). x.dirty) same_record ∙ clean in
      subst (λ x. OnDisk x (write_access_cache_record e fault r c.files).1) same_record
        (load-write_settled fault r u c.files (and-true d written) has (sound.reads_back k r h))

  Saved-write :
      (fault : Fault) (k : Text) (r : Record) (c : AccessCache)
      → lookup k c.access_cache ≡ some r
      → r.dirty ≡ true
      → Sound c.access_cache
      → Saved c
      → Saved (flush_found e fault k (some r) c)
  Saved-write fault k r c h d sound saved j q l clean =
      rw (files-flush_found fault k r c d) (elim (Bool-cases (text_eq k j)) [
        | inl same ↦
            written-OnDisk fault k r q c h d sound
              (cc (lookup-flush_found e fault k j (some r) c h, same, l)) clean
        | inr other ↦
            let before : lookup j c.access_cache ≡ some q =
              cc (lookup-flush_found e fault k j (some r) c h, other, l) in
            load-write_other fault r q c.files
              (sound.apart k j r q h before (λ same. cc (other, (text_eq_iff k j).1 same)))
            ∙ saved j q before clean
      ])

  pub Saved-flush_found :
      (fault : Fault) (k : Text) (o : Option Record) (c : AccessCache)
      → lookup k c.access_cache ≡ o
      → Sound c.access_cache
      → Saved c
      → Saved (flush_found e fault k o c)
  Saved-flush_found fault k none c h sound saved = unfold flush_found in saved
  Saved-flush_found fault k (some r) c h sound saved = elim (Bool-cases r.dirty) [
    | inl d ↦ Saved-write fault k r c h d sound saved
    | inr d ↦ unfold flush_found in subst Saved (sym (if_false _ _ d)) saved
  ]
