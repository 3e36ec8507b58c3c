-- ===== src/Expire/Stale.antt =====
-- The records behind the files that GetUnusedFiles of pkg/fscache/expire.go names.
use go_aptcacher.Base.{
  ℕ, ◌≡◌, ◌≢◌, ◌<◌, refl, sym, ap, ◌∙◌, inl, inr, not, ◌&&◌, List, [], ◌∷◌, Option, none, some,
  arith, ltb, if◌then◌else◌, Bool-cases, if_true, if_false, All, ◌==◌,
}
use mathlib.Core.Path.{subst}
use go_aptcacher.Base.Text.{Text, has_suffix, text_eq, text_eq_iff, text_eq_refl}
use go_aptcacher.Base.Map.{
  Map, lookup, keys, Absent, Distinct, Distinct-insert, lookup-insert, lookup-cons,
  lookup-of_Absent,
}
use go_aptcacher.LocalPath.{Url}
use go_aptcacher.Locks.{Time}
use go_aptcacher.Access.{Record, MetaFile, Env, AccessCache, meta_suffix}
use go_aptcacher.Access.Flush.{snapshot_access_cache}
use go_aptcacher.Expire.{
  load_access_cache_record_from_file, keep_record, load_access_cache_records_from_disk, overlay,
  collect_access_cache_records, entry_url, add_url, unused_records, get_unused_files,
}

abbrev pub or_else : Option Record → Option Record → Option Record
or_else none o = o
or_else (some r) o = some r

pub lookup-overlay :
    (e : Env) (k : Text) (memory disk : Map Record)
    → lookup k (overlay e memory disk) ≡ or_else (lookup k memory) (lookup k disk)
unfolding overlay
lookup-overlay e k [] disk = unfold lookup in refl
lookup-overlay e k ((j, r) ∷ memory) disk = elim (Bool-cases (text_eq j k)) [
  | inl h ↦
      lookup-insert j k r (overlay e memory disk)
      ∙ (if_true _ _ h
          ∙ sym (ap (λ o. or_else o (lookup k disk)) (lookup-cons k j r memory ∙ if_true _ _ h)))
  | inr h ↦
      lookup-insert j k r (overlay e memory disk)
      ∙ (if_false _ _ h
          ∙ (lookup-overlay e k memory disk
              ∙ sym (
                  ap (λ o. or_else o (lookup k disk)) (lookup-cons k j r memory ∙ if_false _ _ h))))
]

Distinct-overlay :
    (e : Env) (memory disk : Map Record)
    → Distinct (keys disk)
    → Distinct (keys (overlay e memory disk))
unfolding overlay
Distinct-overlay e [] disk d = d
Distinct-overlay e ((k, r) ∷ memory) disk d =
    Distinct-insert k r (overlay e memory disk) (Distinct-overlay e memory disk d)

Distinct-keep_record :
    (e : Env) (o : Option Record) (m : Map Record)
    → Distinct (keys m)
    → Distinct (keys (keep_record e o m))
unfolding keep_record
Distinct-keep_record e none m d = d
Distinct-keep_record e (some r) m d = Distinct-insert _ r m d

Distinct-load :
    (e : Env) (files : Map MetaFile) → Distinct (keys (load_access_cache_records_from_disk e files))
unfolding load_access_cache_records_from_disk keys
Distinct-load e [] = tt
Distinct-load e ((path, file) ∷ files) = elim (Bool-cases (has_suffix meta_suffix path)) [
  | inl h ↦ rw h (
      Distinct-keep_record e (load_access_cache_record_from_file e path file)
        (load_access_cache_records_from_disk e files) (Distinct-load e files))
  | inr h ↦ rw h (Distinct-load e files)
]

later :
    (k j : Text) (r q : Record) (m : Map Record)
    → Absent k (keys m)
    → lookup j m ≡ some q
    → (if text_eq k j then some r else lookup j m) ≡ some q
later k j r q m absent h = elim (Bool-cases (text_eq k j)) [
  | inl same ↦ absurd (cc (h, lookup-of_Absent k m absent, (text_eq_iff k j).0 same))
  | inr other ↦ if_false _ _ other ∙ h
]

-- Every member of a map without double keys is what is found at its key.
All-lookup :
    (find : Text → Option Record) (m : Map Record)
    → ((k : Text) (r : Record) → lookup k m ≡ some r → find k ≡ some r)
    → Distinct (keys m)
    → All (λ x. find x.0 ≡ some x.1) m
unfolding keys
All-lookup find [] sub d = tt
All-lookup find ((k, r) ∷ m) sub d = (
  sub k r (lookup-cons k k r m ∙ if_true _ _ (text_eq_refl k)),
  All-lookup find m (λ j q h. sub j q (lookup-cons j k r m ∙ later k j r q m d.0 h)) d.1,
)

module _ (e : Env) (cutoff : Time) (c : AccessCache) where
  -- The record of a key: the one in memory, else the one that is loaded from the disk.
  abbrev effective : Text → Option Record
  effective k =
      or_else (lookup k (snapshot_access_cache c.access_cache))
        (lookup k (load_access_cache_records_from_disk e c.files))

  -- The URL of an entry that was used, and for the last time before the cutoff.
  pub record Stale (u : Url) : Type 0 where
    pub key : Text
    pub stale : Record
    pub is_effective : effective key ≡ some stale
    pub used : stale.entry.last_accessed ≢ 0
    pub old : stale.entry.last_accessed < cutoff
    pub named : entry_url e stale ≡ some u

  add_url-Stale :
      (k : Text) (r : Record) (o : Option Url) (urls : List Url)
      → effective k ≡ some r
      → r.entry.last_accessed ≢ 0
      → r.entry.last_accessed < cutoff
      → entry_url e r ≡ o
      → All Stale urls
      → All Stale (add_url e o urls)
  add_url-Stale k r none urls found used old named a = a
  add_url-Stale k r (some u) urls found used old named a = (
    record { key = k; stale = r; is_effective = found; used = used; old = old; named = named },
    a,
  )

  unused_records-Stale :
      (m : Map Record)
      → All (λ x. effective x.0 ≡ some x.1) m
      → All Stale (unused_records e cutoff m)
  unfolding unused_records
  unused_records-Stale [] a = tt
  unused_records-Stale ((k, r) ∷ m) a =
      elim (Bool-cases (not (r.entry.last_accessed == 0) && ltb r.entry.last_accessed cutoff)) [
        | inl h ↦
            subst (λ (x : List Url). All Stale x) (sym (if_true _ _ h))
              (add_url-Stale k r (entry_url e r) (unused_records e cutoff m) a.0
                (λ z. ground (arith, h, z)) (ground (arith, h)) refl (unused_records-Stale m a.1))
        | inr h ↦
            subst (λ (x : List Url). All Stale x) (sym (if_false _ _ h))
              (unused_records-Stale m a.1)
      ]

  -- GetUnusedFiles names only files of entries that were used, and for the last time before the
  -- cutoff; a record in memory decides over one on the disk.
  pub get_unused_files-Stale : (days : ℕ) → All Stale (get_unused_files e days cutoff c)
  unfolding get_unused_files collect_access_cache_records
  get_unused_files-Stale days = elim (Bool-cases (days == 0)) [
    | inl h ↦ subst (λ (x : List Url). All Stale x) (sym (if_true _ _ h)) tt
    | inr h ↦
        subst (λ (x : List Url). All Stale x) (sym (if_false _ _ h))
          (unused_records-Stale whole (
            All-lookup effective whole (λ k r found. sym (lookup-overlay e k memory disk) ∙ found)
              distinct))
  ]
    where
      memory : Map Record
      memory = snapshot_access_cache c.access_cache

      disk : Map Record
      disk = load_access_cache_records_from_disk e c.files

      whole : Map Record
      whole = overlay e memory disk

      distinct : Distinct (keys whole)
      distinct = Distinct-overlay e memory disk (Distinct-load e c.files)
