-- ===== src/Access/Flush/Settled.antt =====
-- What a flush (flushAccessCache of pkg/fscache/access_cache.go) leaves in memory.
use go_aptcacher.Base.{
  ℕ, ◌≡◌, ◌≢◌, refl, sym, ap, ◌∙◌, Bool, true, false, ◌&&◌, [], ◌∷◌, ◌++◌, Option, none, some,
  arith, if◌then◌else◌, Bool-cases, if_true, if_false, inl, inr,
}
use go_aptcacher.Base.Text.{Text, codes, text_eq, text_eq_iff}
use go_aptcacher.Base.Map.{Map, lookup, insert, lookup-insert, lookup-insert_self}
use go_aptcacher.Access.{Record, MetaFile, Env, AccessCache, access_cache_meta_path, meta_suffix}
use go_aptcacher.Access.Disk.{
  Fault, no_fault, mkdir_fault, marshal_fault, write_fault, rename_fault, write_file,
  write_access_cache_record, tmp_suffix,
}
use go_aptcacher.Access.Flush.{mark_again, after_write, flush_found}

last_byte : Text → ℕ
last_byte [] = 0
last_byte (c ∷ []) = c
last_byte (c ∷ (d ∷ s)) = last_byte (d ∷ s)

last_byte-append : (s : Text) (c : ℕ) (t : Text) → last_byte (s ++ c ∷ t) ≡ last_byte (c ∷ t)
unfolding last_byte
last_byte-append [] c t = refl
last_byte-append (d ∷ []) c t = refl
last_byte-append (d ∷ (d' ∷ s)) c t = last_byte-append (d' ∷ s) c t

abbrev pub fails : Fault → Bool
fails no_fault = false
fails mkdir_fault = true
fails marshal_fault = true
fails write_fault = true
fails rename_fault = true

-- The record after its write: dirty only if it was and the write failed.
abbrev pub settled : Fault → Record → Record
settled fault r = record r { dirty = r.dirty && fails fault }

abbrev pub settled_option : Fault → Option Record → Option Record
settled_option fault none = none
settled_option fault (some r) = some (settled fault r)

module _ (e : Env) where
  abbrev pub meta_path : Record → Text
  meta_path r = access_cache_meta_path e r.protocol r.domain r.path

  pub tmp_ne : (r q : Record) → meta_path r ++ tmp_suffix ≢ meta_path q
  unfolding access_cache_meta_path
  tmp_ne r q h =
      let same : last_byte tmp_suffix ≡ last_byte meta_suffix =
        (sym (last_byte-append (meta_path r) b'.' (codes "tmp"))
          ∙ (ap last_byte h ∙ last_byte-append _ b'.' (codes "access.json"))) in
      unfold last_byte in omega arith

  lookup-mark_again :
      (k j : Text) (r : Record) (m : Map Record)
      → r.dirty ≡ false
      → lookup j (mark_again k (lookup k (insert k r m)) (insert k r m))
        ≡ (if text_eq k j then some (record r { dirty = true }) else lookup j m)
  unfolding mark_again
  lookup-mark_again k j r m h = rw (lookup-insert_self k r m) (
      rw h (
        ground (
          arith,
          lookup-insert k j (record r { dirty = true }) (insert k r m),
          lookup-insert k j r m,
        )))

  lookup-after_write :
      (fault : Fault) (k j : Text) (r : Record) (m : Map Record) (files : Map MetaFile)
      → r.dirty ≡ true
      → lookup j
          (after_write k
            (insert k (record r { dirty = false }) m)
            (write_access_cache_record e fault r files)).access_cache
        ≡ (if text_eq k j then some (settled fault r) else lookup j m)
  unfolding after_write write_access_cache_record write_file
  lookup-after_write no_fault k j r m files h =
      rw h (lookup-insert k j (record r { dirty = false }) m)
  lookup-after_write mkdir_fault k j r m files h =
      rw h (lookup-mark_again k j (record r { dirty = false }) m refl)
  lookup-after_write marshal_fault k j r m files h =
      rw h (lookup-mark_again k j (record r { dirty = false }) m refl)
  lookup-after_write write_fault k j r m files h =
      rw h (lookup-mark_again k j (record r { dirty = false }) m refl)
  lookup-after_write rename_fault k j r m files h =
      rw h (lookup-mark_again k j (record r { dirty = false }) m refl)

  pub clean-settled : (fault : Fault) (r : Record) → r.dirty ≡ false → settled fault r ≡ r
  clean-settled fault r h = rw h refl

  pub lookup-flush_found :
      (fault : Fault) (k j : Text) (o : Option Record) (c : AccessCache)
      → lookup k c.access_cache ≡ o
      → lookup j (flush_found e fault k o c).access_cache
        ≡ (if text_eq k j then settled_option fault o else lookup j c.access_cache)
  unfolding flush_found
  lookup-flush_found fault k j none c h = ground (arith, text_eq_iff k j, h)
  lookup-flush_found fault k j (some r) c h = elim (Bool-cases r.dirty) [
    | inl d ↦
        ap (λ (x : AccessCache). lookup j x.access_cache) (if_true _ _ d)
        ∙ lookup-after_write fault k j r c.access_cache c.files d
    | inr d ↦
        ap (λ (x : AccessCache). lookup j x.access_cache) (if_false _ _ d)
        ∙ ground (arith, text_eq_iff k j, h, clean-settled fault r d)
  ]
