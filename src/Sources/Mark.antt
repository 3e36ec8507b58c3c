-- ===== src/Sources/Mark.antt =====
-- MarkForDeletion (pkg/fscache/access_cache.go), seen through the record that the methods find.
use go_aptcacher.Base.{
  ℕ, ◌≡◌, refl, sym, false, Option, none, some, if◌then◌else◌, Bool-cases, inl, inr,
}
use go_aptcacher.Base.Text.{Text, text_eq, text_eq_iff, text_eq_refl}
use go_aptcacher.Base.Map.{lookup, lookup-insert}
use go_aptcacher.Keys.{access_cache_key}
use go_aptcacher.Locks.{Time}
use go_aptcacher.Access.{Record, Env, AccessCache}
use go_aptcacher.Access.Disk.{load_access_cache_record}
use go_aptcacher.Access.Methods.{
  put, keep_loaded, change, mark_fields, get_access_cache_record, mark_for_deletion,
}

-- The record in memory, or else the one on the disk.
abbrev first_of : Option Record → Option Record → Option Record
first_of (some r) l = some r
first_of none l = l

abbrev pub map_record : (Record → Record) → Option Record → Option Record
map_record f none = none
map_record f (some r) = some (f r)

module _ (e : Env) where
  -- The record that the methods find for a place.
  abbrev pub found : ℕ → Text → Text → AccessCache → Option Record
  found protocol domain path c = (get_access_cache_record e protocol domain path c).0

  found-lem :
      (p : ℕ) (d q : Text) (c : AccessCache)
      → found p d q c
        ≡ first_of
            (lookup (access_cache_key p d q) c.access_cache)
            (load_access_cache_record e p d q c.files)
  unfolding get_access_cache_record
  found-lem p d q c = split _ _
    where
      split : (o l : Option Record) → (keep_loaded (access_cache_key p d q) o l c).0 ≡ first_of o l
      split (some r) l = unfold keep_loaded in refl
      split none (some r) = unfold keep_loaded in refl
      split none none = unfold keep_loaded in refl

  module _ (now : Time) (p : ℕ) (d q : Text) where
    marked_lookup :
        (k : Text) (o l : Option Record) (c : AccessCache)
        → lookup (access_cache_key p d q) c.access_cache ≡ o
        → lookup k
            (change
              (access_cache_key p d q)
              (mark_fields now)
              (keep_loaded (access_cache_key p d q) o l c)).access_cache
          ≡ (if text_eq (access_cache_key p d q) k
              then map_record (mark_fields now) (first_of o l)
              else lookup k c.access_cache)
    unfolding change keep_loaded put
    marked_lookup k (some r) l c h = lookup-insert (access_cache_key p d q) k _ c.access_cache
    marked_lookup k none (some r) c h = elim (Bool-cases (text_eq (access_cache_key p d q) k)) [
      | inl t ↦ rw (lookup-insert (access_cache_key p d q) k (mark_fields now r) _) (rw t refl)
      | inr t ↦
          rw (lookup-insert (access_cache_key p d q) k (mark_fields now r) _)
            (rw t (rw (lookup-insert (access_cache_key p d q) k r c.access_cache) (rw t refl)))
    ]
    marked_lookup k none none c h = elim (Bool-cases (text_eq (access_cache_key p d q) k)) [
      | inl t ↦ rw t (rw (← (text_eq_iff (access_cache_key p d q) k).0 t) h)
      | inr t ↦ rw t refl
    ]

    marked_files :
        (o l : Option Record) (c : AccessCache)
        → (change
            (access_cache_key p d q)
            (mark_fields now)
            (keep_loaded (access_cache_key p d q) o l c)).files
          ≡ c.files
    unfolding change keep_loaded put
    marked_files (some r) l c = refl
    marked_files none (some r) c = refl
    marked_files none none c = refl

    mark-lookup :
        (k : Text) (c : AccessCache)
        → lookup k (mark_for_deletion e now p d q c).access_cache ≡ (
            if text_eq (access_cache_key p d q) k
            then map_record (mark_fields now) (
                first_of
                  (lookup (access_cache_key p d q) c.access_cache)
                  (load_access_cache_record e p d q c.files))
            else lookup k c.access_cache)
    unfolding mark_for_deletion get_access_cache_record
    mark-lookup k c = marked_lookup k _ _ c refl

    mark-files : (c : AccessCache) → (mark_for_deletion e now p d q c).files ≡ c.files
    unfolding mark_for_deletion get_access_cache_record
    mark-files c = marked_files _ _ c

    first_of-map :
        (o l : Option Record)
        → first_of (map_record (mark_fields now) (first_of o l)) l
          ≡ map_record (mark_fields now) (first_of o l)
    first_of-map (some r) l = refl
    first_of-map none (some r) = refl
    first_of-map none none = refl

    -- MarkForDeletion at a place, seen from the same place and from another one.
    pub found-mark_same :
        (c : AccessCache)
        → found p d q (mark_for_deletion e now p d q c)
          ≡ map_record (mark_fields now) (found p d q c)
    found-mark_same c = rw (found-lem p d q (mark_for_deletion e now p d q c)) (
        rw
          (
            mark-lookup (access_cache_key p d q) c,
            mark-files c,
            text_eq_refl (access_cache_key p d q),
          )
          (rw (found-lem p d q c) (
            first_of-map (lookup (access_cache_key p d q) c.access_cache)
              (load_access_cache_record e p d q c.files))))

    pub found-mark_other :
        (p' : ℕ) (d' q' : Text) (c : AccessCache)
        → text_eq (access_cache_key p d q) (access_cache_key p' d' q') ≡ false
        → found p' d' q' (mark_for_deletion e now p d q c) ≡ found p' d' q' c
    found-mark_other p' d' q' c h = rw (found-lem p' d' q' (mark_for_deletion e now p d q c)) (
        rw (mark-lookup (access_cache_key p' d' q') c, mark-files c, h)
          (sym (found-lem p' d' q' c)))
